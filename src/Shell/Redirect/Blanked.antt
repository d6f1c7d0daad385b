-- ===== src/Shell/Redirect/Blanked.antt =====
-- extractRedirect of ps5/shellp.c: what it leaves in the buffer and the names it finds.
use cse.Base.{
  ℕ, zero, suc, ◌+◌, ◌≤◌, ◌<◌, ◌≡◌, refl, ◌∙◌, subst, inl, inr, Bool, true, false, ◌||◌, List, [],
  ◌∷◌, ◌++◌, arith, ltb, ◌==◌, if◌then◌else◌, length, replicate, All, All-append, length-append,
  length-replicate, Bool-cases,
}
use cse.Shell.Chars.{is_space, blank, less, greater, is_redir}
use cse.Shell.Redirect.{
  max_rd, Redirects, no_redirects, spaces, after_spaces, name, after_name, Extracted, extracted,
  ambiguous, too_long, out_of_fuel, prepend, blanked, file_name, starts_greater, behind,
  extract_from, extract_redirect,
}

-- The name fits `char input[1024]`.
abbrev Fits : Redirects → Type 0
Fits r = (length r.input ≤ max_rd) × (length r.output ≤ max_rd)

-- A buffer of the given length without a redirection sign.
abbrev Plain : ℕ → List ℕ → Type 0
Plain n buf = (length buf ≡ n) × All (λ c. is_redir c ≡ false) buf

-- What the routine may return for a buffer of the given length.
abbrev pub Clean : ℕ → Extracted → Type 0
Clean n (extracted buf r) = Plain n buf × Fits r
Clean n ambiguous = Unit
Clean n too_long = Unit
Clean n out_of_fuel = ⊥

Clean-prepend :
    (n : ℕ) (s : List ℕ) (e : Extracted)
    → All (λ c. is_redir c ≡ false) s
    → Clean n e
    → Clean (length s + n) (prepend s e)
Clean-prepend n s (extracted buf r) plain ((size, rest), fits) = (
  (omega (arith, length-append s buf, size), All-append (λ c. is_redir c ≡ false) s buf plain rest),
  fits,
)
Clean-prepend n s ambiguous plain clean = clean
Clean-prepend n s too_long plain clean = clean
Clean-prepend n s out_of_fuel plain clean = clean

space_plain : (c : ℕ) → is_space c ≡ true → is_redir c ≡ false
space_plain c e = ground arith

-- A text of blanks only.
space_then_plain :
    (c : ℕ) (s : List ℕ)
    → All (λ d. is_redir d ≡ false) s
    → is_space c ≡ true
    → All (λ d. is_redir d ≡ false) (c ∷ s)
space_then_plain c s plain e = (space_plain c e, plain)

spaces-plain : (s : List ℕ) → All (λ c. is_redir c ≡ false) (spaces s)
unfolding spaces
spaces-plain [] = tt
spaces-plain (c ∷ s) = elim (Bool-cases (is_space c)) [
  | inl e ↦ rw e (space_plain c e, spaces-plain s)
  | inr e ↦ rw e tt
]

length-after_spaces : (s : List ℕ) → length (spaces s) + length (after_spaces s) ≡ length s
unfolding spaces after_spaces
length-after_spaces [] = refl
length-after_spaces (c ∷ s) = ground (arith, length-after_spaces s)

length-after_name : (s : List ℕ) → length (name s) + length (after_name s) ≡ length s
unfolding name after_name
length-after_name [] = refl
length-after_name (c ∷ s) = ground (arith, length-after_name s)

replicate-plain : (n : ℕ) → All (λ c. is_redir c ≡ false) (replicate n blank)
replicate-plain zero = tt
replicate-plain (suc n) = (refl, replicate-plain n)

-- A redirection leaves as many characters as it had, none of them a sign.
blanked-plain : (w : ℕ) (s : List ℕ) → All (λ c. is_redir c ≡ false) (blanked w s)
blanked-plain w s =
    All-append (λ c. is_redir c ≡ false) (replicate w blank)
      (spaces s ++ replicate (length (name (after_spaces s))) blank) (replicate-plain w)
      (All-append (λ c. is_redir c ≡ false) (spaces s)
        (replicate (length (name (after_spaces s))) blank) (spaces-plain s)
        (replicate-plain (length (name (after_spaces s)))))

length-blanked :
    (w : ℕ) (s : List ℕ)
    → length (blanked w s) + length (after_name (after_spaces s)) ≡ w + length s
length-blanked w s = omega (
  arith,
  length-append (replicate w blank) (spaces s ++ replicate (length (name (after_spaces s))) blank),
  length-append (spaces s) (replicate (length (name (after_spaces s))) blank),
  length-replicate w blank,
  length-replicate (length (name (after_spaces s))) blank,
  length-after_spaces s,
  length-after_name (after_spaces s),
)

Clean-file_name :
    (n w : ℕ) (s : List ℕ) (next : List ℕ → List ℕ → Extracted)
    → w + length s ≡ n
    → (length (name (after_spaces s)) ≤ max_rd
        → Clean
            (length (after_name (after_spaces s)))
            (next (name (after_spaces s)) (after_name (after_spaces s))))
    → Clean n (file_name w s next)
Clean-file_name n w s next size good =
    elim (Bool-cases (ltb max_rd (length (name (after_spaces s))))) [
      | inl e ↦ rw e tt
      | inr e ↦ rw e (
          subst
            (λ n.
              Clean n (
                prepend (blanked w s) (next (name (after_spaces s)) (after_name (after_spaces s)))))
            (length-blanked w s ∙ size)
            (Clean-prepend (length (after_name (after_spaces s))) (blanked w s)
              (next (name (after_spaces s)) (after_name (after_spaces s))) (blanked-plain w s)
              (good (ground arith))))
    ]

Clean-if :
    (n : ℕ) (b : Bool) (x y : Extracted)
    → (b ≡ true → Clean n x)
    → (b ≡ false → Clean n y)
    → Clean n (if b then x else y)
Clean-if n true x y hx hy = hx refl
Clean-if n false x y hx hy = hy refl

length-behind : (s : List ℕ) → starts_greater s ≡ true → 2 + length (behind s) ≡ suc (length s)
length-behind [] e = cc
length-behind (c ∷ s) e = omega arith

after-length : (s : List ℕ) → length (after_name (after_spaces s)) ≤ length s
after-length s = omega (arith, length-after_spaces s, length-after_name (after_spaces s))

extract_from-Clean :
    (fuel : ℕ) (buf : List ℕ) (r : Redirects)
    → length buf < fuel
    → Fits r
    → Clean (length buf) (extract_from fuel buf r)
unfolding extract_from
extract_from-Clean zero buf r enough fits = ground arith
extract_from-Clean (suc fuel) [] r enough fits = ((refl, tt), fits)
extract_from-Clean (suc fuel) (c ∷ s) r enough fits =
    let rest = (λ (t : List ℕ) (q : Redirects) (short : length t ≤ length s) (f : Fits q).
      extract_from-Clean fuel t q (omega arith) f) in
    let from =
      (λ (w : ℕ) (t : List ℕ) (q : List ℕ → Redirects) (size : w + length t ≡ suc (length s))
          (some_sign : 0 < w) (f : (n : List ℕ) → length n ≤ max_rd → Fits (q n)).
        Clean-file_name (suc (length s)) w t (λ n u. extract_from fuel u (q n)) size
          (λ short.
            rest (after_name (after_spaces t)) (q (name (after_spaces t)))
              (omega (arith, after-length t, size, some_sign))
              (f (name (after_spaces t)) short))) in
    Clean-if (suc (length s)) (c == less) _ _
      (λ e.
        Clean-if (suc (length s)) r.inp _ _ (λ d. tt)
          (λ d.
            from 1 s (λ n. record r { inp = true; input = n }) (omega arith) (omega arith)
              (λ n short. (short, fits.1))))
      (λ e.
        Clean-if (suc (length s)) (c == greater) _ _
          (λ g.
            Clean-if (suc (length s)) (r.appd || r.outp) _ _ (λ d. tt)
              (λ d.
                Clean-if (suc (length s)) (starts_greater s) _ _
                  (λ w.
                    from 2 (behind s) (λ n. record r { appd = true; output = n })
                      (length-behind s w) (omega arith) (λ n short. (fits.0, short)))
                  (λ w.
                    from 1 s (λ n. record r { outp = true; output = n }) (omega arith) (omega arith)
                      (λ n short. (fits.0, short)))))
          (λ g.
            subst (λ n. Clean n (prepend (c ∷ []) (extract_from fuel s r))) (one_more (length s))
              (Clean-prepend (length s) (c ∷ []) _ (neither e g, tt)
                (extract_from-Clean fuel s r (omega arith) fits))))
  where
    one_more : (n : ℕ) → 1 + n ≡ suc n
    one_more n = omega arith

    neither : c == less ≡ false → c == greater ≡ false → is_redir c ≡ false
    neither e g = rw (e, g) refl

-- `extract_redirect` ends on every buffer: either it refuses it, or it leaves a buffer of the same
-- length without '<' and '>', and two file names of at most 255 characters each.
pub extract_redirect-Clean : (buf : List ℕ) → Clean (length buf) (extract_redirect buf)
unfolding extract_redirect
extract_redirect-Clean buf =
    extract_from-Clean (length buf + 1) buf no_redirects (omega arith) (omega arith, omega arith)
