-- ===== src/Base/Ended.antt =====
-- The values of the threads that have ended, in the order of the threads: what one thread changes.
use mathlib.Core.List.{Perm}
use mathlib.Core.List.Perm
use Prim.Native.Nat.{ℕ, zero, suc}
use mathlib.Core.Path.{◌≡◌, refl, sym, ap, ◌∙◌}
use mathlib.Core.Bool.{Bool, true, false}
use mathlib.Core.Logic.{inl, inr}
use mathlib.Core.List.{List, [], ◌∷◌}
use mathlib.Core.Option.{some, some-injective}
use cse.Base.Tests.{if◌then◌else◌, Bool-cases}
use cse.Base.Options.{none_ne_some}
use cse.Base.Lists.{get_elem?, set}
use cse.Base.Int.{ℤ}

module _ {ℓ} {T : Type ℓ} (done : T → Bool) (val : T → ℤ) where
  unfoldable pub ended : List T → List ℤ
  ended [] = []
  ended (t ∷ ts) = if done t then val t ∷ ended ts else ended ts

  pub ended-set_same :
      (ts : List T) (i : ℕ) (t u : T)
      → get_elem? ts i ≡ some t
      → done u ≡ done t
      → val u ≡ val t
      → ended (set ts i u) ≡ ended ts
  unfolding ended
  ended-set_same [] i t u e f g = refl
  ended-set_same (x ∷ ts) zero t u e f g =
      let same = some-injective _ _ e in rw (f ∙ sym (ap done same), g ∙ sym (ap val same)) refl
  ended-set_same (x ∷ ts) (suc i) t u e f g =
      ap (λ vs. if done x then val x ∷ vs else vs) (ended-set_same ts i t u e f g)

  pub ended-set_new :
      (ts : List T) (i : ℕ) (t u : T)
      → get_elem? ts i ≡ some t
      → done t ≡ false
      → done u ≡ true
      → Perm (ended (set ts i u)) (val u ∷ ended ts)
  unfolding ended
  ended-set_new [] i t u e f g = none_ne_some e
  ended-set_new (x ∷ ts) zero t u e f g =
      rw (g, ap done (some-injective _ _ e) ∙ f) (Perm.refl (val u ∷ ended ts))
  ended-set_new (x ∷ ts) (suc i) t u e f g = elim (Bool-cases (done x)) [
    | inl r ↦ rw r (
        Perm.trans (Perm.cons (val x) (ended-set_new ts i t u e f g))
          (Perm.swap (val u) (val x) (ended ts)))
    | inr r ↦ rw r (ended-set_new ts i t u e f g)
  ]
