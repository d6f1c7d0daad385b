-- ===== src/Shell/Kept.antt =====
-- The table of descriptors of the shell when spawnStage of ps5/shellp.c has closed the ends of a stage.
use cse.Base.{
  Bool, true, false, ◌||◌, if◌then◌else◌, ℕ, ◌<◌, ◌≡◌, ◌≢◌, inl, inr, Option, none, some, List, [],
  ◌∷◌, refl, sym, ap, ◌∙◌, subst, arith, All, ◌==◌, Bool-cases,
}
use cse.Shell.Command.{Stage}
use cse.Shell.Spawn.{Kernel, Open, ObeysPosix, shut, parent_table}
use cse.Shell.Handed.{Differ, Spares, Usable, Ready, low-Differ}

abbrev pub is_fd : Option ℕ → ℕ → Bool
is_fd none n = false
is_fd (some fd) n = fd == n

abbrev pub is_end_of : Stage → ℕ → Bool
is_end_of s n = is_fd s.fdin n || is_fd s.fdout n

-- One of the stages' descriptors.
abbrev pub is_end : List Stage → ℕ → Bool
is_end [] n = false
is_end (s ∷ stages) n = is_end_of s n || is_end stages n

pub either {ℓ} :
    {A : Type ℓ} (a b : Bool) (x : Option A)
    → (if a then none else if b then none else x) ≡ (if a || b then none else x)
either true b x = refl
either false b x = refl

module _ (K : Kernel) (law : ObeysPosix K) where
  pub shut-keeps :
      (o : Option ℕ) (t : K.Table) (n : ℕ) → Differ o (some n) → K.at (shut K o t) n ≡ K.at t n
  unfolding shut
  shut-keeps none t n d = refl
  shut-keeps (some fd) t n d = law.close_other t fd n (λ q. d (sym q))

  pub parent-keeps :
      (t : K.Table) (s : Stage) (n : ℕ)
      → Differ s.fdin (some n)
      → Differ s.fdout (some n)
      → K.at (parent_table K t s) n ≡ K.at t n
  unfolding parent_table
  parent-keeps t s n a b = shut-keeps s.fdin (shut K s.fdout t) n a ∙ shut-keeps s.fdout t n b

  pub parent-Open :
      (t : K.Table) (s : Stage) (n : ℕ)
      → n < 2
      → Usable K t s.fdin
      → Usable K t s.fdout
      → Open K t n
      → Open K (parent_table K t s) n
  parent-Open t s n h u v w = (
    w.0,
    parent-keeps t s n (low-Differ K law t s.fdin n h u) (low-Differ K law t s.fdout n h v) ∙ w.1,
  )

  parent-Usable :
      (t : K.Table) (s : Stage) (o : Option ℕ)
      → Usable K t o
      → Differ s.fdin o
      → Differ s.fdout o
      → Usable K (parent_table K t s) o
  parent-Usable t s none w a b = tt
  parent-Usable t s (some fd) w a b = (w.0, (w.1.0, parent-keeps t s fd a b ∙ w.1.1))

  -- What the loop needs of the stages that are left holds when the shell has closed one stage's ends.
  pub parent-Ready :
      (t : K.Table) (s : Stage) (stages : List Stage)
      → All (Spares s.fdin) stages
      → All (Spares s.fdout) stages
      → Ready K t stages
      → Ready K (parent_table K t s) stages
  parent-Ready t s [] a b r = tt
  parent-Ready t s (x ∷ stages) a b (u, v, d, p, q, r) = (
    parent-Usable t s x.fdin u a.0.0 b.0.0,
    parent-Usable t s x.fdout v a.0.1 b.0.1,
    d,
    p,
    q,
    parent-Ready t s stages a.1 b.1 r,
  )

  shut-at :
      (o : Option ℕ) (t : K.Table) (n : ℕ)
      → K.at (shut K o t) n ≡ (if is_fd o n then none else K.at t n)
  unfolding shut
  shut-at none t n = refl
  shut-at (some fd) t n = elim (Bool-cases (fd == n)) [
    | inl h ↦
        let same : fd ≡ n = ground arith in
        rw h (subst (λ m. K.at (K.close t fd) m ≡ none) same (law.close_same t fd))
    | inr h ↦ let other : n ≢ fd = ground arith in rw h (law.close_other t fd n other)
  ]

  pub parent-at :
      (t : K.Table) (s : Stage) (n : ℕ)
      → K.at (parent_table K t s) n ≡ (if is_end_of s n then none else K.at t n)
  unfolding parent_table
  parent-at t s n =
      shut-at s.fdin (shut K s.fdout t) n
      ∙ ap (λ r. if is_fd s.fdin n then none else r) (shut-at s.fdout t n)
      ∙ either (is_fd s.fdin n) (is_fd s.fdout n) (K.at t n)
