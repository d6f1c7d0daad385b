-- ===== src/Shell/Handed.antt =====
-- The table of descriptors of the child that spawnStage of ps5/shellp.c leaves: what it has under the
-- standard descriptors and under the others.
use cse.Base.{
  ℕ, zero, suc, ◌<◌, ◌≤◌, ◌≡◌, ◌≢◌, Option, none, some, List, [], ◌∷◌, refl, sym, ap, ◌∙◌, subst,
  arith, All,
}
use cse.Shell.Command.{Stage}
use cse.Shell.Pipeline.{input_of, output_of}
use cse.Shell.Spawn.{Kernel, Open, ObeysPosix, redirect, child_table}

abbrev pub Differ : Option ℕ → Option ℕ → Type 0
Differ none y = Unit
Differ (some a) none = Unit
Differ (some a) (some b) = a ≢ b

-- A stage's descriptors differ from a given one.
abbrev pub Spares : Option ℕ → Stage → Type 0
Spares o s = Differ o s.fdin × Differ o s.fdout

-- Open, and none of the three standard files' first two.
abbrev pub Usable : (K : Kernel) → K.Table → Option ℕ → Type 0
Usable K t none = Unit
Usable K t (some fd) = (1 < fd) × Open K t fd

-- The descriptors of the stages are open and pairwise different, as `pipe` and `open` return them.
abbrev pub Ready : (K : Kernel) → K.Table → List Stage → Type 0
Ready K t [] = Unit
Ready K t (s ∷ stages) =
    Usable K t s.fdin
    × Usable K t s.fdout
    × Differ s.fdin s.fdout
    × All (Spares s.fdin) stages
    × All (Spares s.fdout) stages
    × Ready K t stages

pub rest-input :
    (o : Option ℕ) (stages : List Stage) (i fd : ℕ)
    → All (Spares o) stages
    → input_of stages i ≡ some (some fd)
    → Differ o (some fd)
rest-input o [] i fd h e = cc
rest-input o (s ∷ stages) zero fd h e = subst (Differ o) (cc) h.0.0
rest-input o (s ∷ stages) (suc i) fd h e = rest-input o stages i fd h.1 e

pub rest-output :
    (o : Option ℕ) (stages : List Stage) (i fd : ℕ)
    → All (Spares o) stages
    → output_of stages i ≡ some (some fd)
    → Differ o (some fd)
rest-output o [] i fd h e = cc
rest-output o (s ∷ stages) zero fd h e = subst (Differ o) (cc) h.0.1
rest-output o (s ∷ stages) (suc i) fd h e = rest-output o stages i fd h.1 e

module _ (K : Kernel) (law : ObeysPosix K) where
  Below : K.Table → ℕ → Type 0
  Below t std = (m : ℕ) → m < std → Open K t m

  module _ (t : K.Table) (std fd : ℕ) (below : Below t std) (other : fd ≢ std) (f : K.File)
      (e : K.at t fd ≡ some f) where
    close-Below : Below (K.close t std) std
    unfolding Below
    close-Below m h =
        ((below m h).0, law.close_other t std m (λ q. omega (arith, q, h)) ∙ (below m h).1)

    redirect-std : K.at (redirect K std (some fd) t) std ≡ K.at t fd
    unfolding redirect Below
    redirect-std =
        law.close_other (K.dup (K.close t std) fd) fd std (λ q. other (sym q))
        ∙ law.dup_lowest (K.close t std) fd std f (law.close_other t std fd other ∙ e)
            (law.close_same t std) close-Below
        ∙ sym e

    redirect-keeps_some :
        (n : ℕ) → n ≢ std → fd ≢ n → K.at (redirect K std (some fd) t) n ≡ K.at t n
    unfolding redirect Below
    redirect-keeps_some n h g =
        law.close_other (K.dup (K.close t std) fd) fd n (λ q. g (sym q))
        ∙ law.dup_other (K.close t std) fd std n f (law.close_other t std fd other ∙ e)
            (law.close_same t std) close-Below h
        ∙ law.close_other t std n h

  -- Every descriptor but the standard one and the one that takes its place stays as it is.
  redirect-keeps :
      (t : K.Table) (std : ℕ) (o : Option ℕ) (n : ℕ)
      → std < 2
      → Below t std
      → Usable K t o
      → n ≢ std
      → Differ o (some n)
      → K.at (redirect K std o t) n ≡ K.at t n
  unfolding redirect
  redirect-keeps t std none n small below u h d = refl
  redirect-keeps t std (some fd) n small below u h d =
      redirect-keeps_some t std fd below (λ q. omega (arith, q, small, u.0)) u.1.0 u.1.1 n h d

  Below-zero : (t : K.Table) → Below t 0
  unfolding Below
  Below-zero t m h = elim h [ ]

  input-keeps :
      (t : K.Table) (i : Option ℕ) (n : ℕ)
      → Usable K t i
      → n ≢ 0
      → Differ i (some n)
      → K.at (redirect K 0 i t) n ≡ K.at t n
  input-keeps t i n u h d = redirect-keeps t 0 i n (omega arith) (Below-zero t) u h d

  input-Usable :
      (t : K.Table) (i o : Option ℕ)
      → Usable K t i
      → Usable K t o
      → Differ i o
      → Usable K (redirect K 0 i t) o
  input-Usable t i none u v d = tt
  input-Usable t i (some g) u v d =
      (v.0, (v.1.0, input-keeps t i g u (λ q. omega (arith, q, v.0)) d ∙ v.1.1))

  input-Open :
      (t : K.Table) (i : Option ℕ) → Usable K t i → Open K t 0 → Open K (redirect K 0 i t) 0
  unfolding redirect
  input-Open t none u h = h
  input-Open t (some fd) u h =
      (u.1.0, redirect-std t 0 fd (Below-zero t) (λ q. omega (arith, q, u.0)) u.1.0 u.1.1 ∙ u.1.1)

  input-Below :
      (t : K.Table) (i : Option ℕ) → Usable K t i → Open K t 0 → Below (redirect K 0 i t) 1
  unfolding Below
  input-Below t i u h zero l = input-Open t i u h
  input-Below t i u h (suc m) l = let bad : 1 ≤ 0 = omega (arith, l) in elim bad [ ]

  pub low-Differ : (t : K.Table) (o : Option ℕ) (n : ℕ) → n < 2 → Usable K t o → Differ o (some n)
  low-Differ t none n h u = tt
  low-Differ t (some fd) n h u = λ q. omega (arith, q, h, u.0)

  module _ (t : K.Table) (s : Stage) (std0 : Open K t 0) (u : Usable K t s.fdin)
      (v : Usable K t s.fdout) (d : Differ s.fdin s.fdout) where
    -- The child keeps every other descriptor.
    pub child-keeps :
        (n : ℕ)
        → 1 < n
        → Differ s.fdin (some n)
        → Differ s.fdout (some n)
        → K.at (child_table K t s) n ≡ K.at t n
    unfolding child_table
    child-keeps n h a b =
        redirect-keeps (redirect K 0 s.fdin t) 1 s.fdout n (omega arith)
          (input-Below t s.fdin u std0) (input-Usable t s.fdin s.fdout u v d)
          (λ q. omega (arith, q, h)) b
        ∙ input-keeps t s.fdin n u (λ q. omega (arith, q, h)) a

    pub child-output : (fd : ℕ) → s.fdout ≡ some fd → K.at (child_table K t s) 1 ≡ K.at t fd
    unfolding child_table
    child-output fd e =
        let w : Usable K t (some fd) = subst (Usable K t) e v in
        let x : Usable K (redirect K 0 s.fdin t) (some fd) =
          input-Usable t s.fdin (some fd) u w (subst (Differ s.fdin) e d) in
        ap (λ o. K.at (redirect K 1 o (redirect K 0 s.fdin t)) 1) e
        ∙ redirect-std (redirect K 0 s.fdin t) 1 fd (input-Below t s.fdin u std0)
            (λ q. omega (arith, q, w.0)) x.1.0 x.1.1
        ∙ input-keeps t s.fdin fd u (λ q. omega (arith, q, w.0)) (subst (Differ s.fdin) e d)

    pub child-input : (fd : ℕ) → s.fdin ≡ some fd → K.at (child_table K t s) 0 ≡ K.at t fd
    unfolding child_table
    child-input fd e =
        let w : Usable K t (some fd) = subst (Usable K t) e u in
        redirect-keeps (redirect K 0 s.fdin t) 1 s.fdout 0 (omega arith)
          (input-Below t s.fdin u std0) (input-Usable t s.fdin s.fdout u v d)
          (λ q. omega (arith, q)) (low-Differ t s.fdout 0 (omega arith) v)
        ∙ ap (λ i. K.at (redirect K 0 i t) 0) e
        ∙ redirect-std t 0 fd (Below-zero t) (λ q. omega (arith, q, w.0)) w.1.0 w.1.1
