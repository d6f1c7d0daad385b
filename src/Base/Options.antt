-- ===== src/Base/Options.antt =====
-- Chains of steps that may fail; `none` is a fault of the C program, such as a read out of bounds.
use mathlib.Core.Path.{◌≡◌, refl}
use mathlib.Core.Bool.{Bool, true, false}
use mathlib.Core.Option.{Option, none, some}

infixl 5 ◌>>=◌ ◌>>◌
abbrev pub ◌>>=◌ {ℓ κ} : {A : Type ℓ} {B : Type κ} → Option A → (A → Option B) → Option B
none >>= f = none
some a >>= f = f a

abbrev pub ◌>>◌ {κ} : {B : Type κ} → Option (Unit {0}) → Option B → Option B
m >> k = m >>= λ _. k

-- `assert(b)` and bounds checks.
abbrev pub assert : Bool → Option (Unit {0})
assert true = some tt
assert false = none

none_is_not_some {κ} : {B : Type κ} {x : B} → none ≡ some x → ⊥
none_is_not_some e = cc

pub none_ne_some {ℓ κ} : {A : Type ℓ} {B : Type κ} {x : B} → none ≡ some x → A
none_ne_some e = absurd (none_is_not_some e)

-- Binds in a row, and a bind whose continuations agree.
pub later {ℓ κ μ} :
    {A : Type ℓ} {B : Type κ} {C : Type μ} (o : Option A) (f : A → Option B) (g : B → Option C)
    → (o >>= f >>= g) ≡ (o >>= λ a. f a >>= g)
later none f g = refl
later (some a) f g = refl

pub under {ℓ κ} :
    {A : Type ℓ} {B : Type κ} (o : Option A) (f g : A → Option B)
    → ((a : A) → f a ≡ g a)
    → (o >>= f) ≡ (o >>= g)
under none f g h = refl
under (some a) f g h = h a

-- The run ends in `some`, with a value that satisfies `P`.
pub data Gives {ℓ κ} {A : Type ℓ} (P : A → Type κ) : Option A → Type (ℓ ⊔ κ) where
  gives : {a : A} → P a → Gives P (some a)

module _ {ℓ κ} {A : Type ℓ} {P : A → Type κ} where
  pub Gives-bind {ℓ' κ'} :
      {B : Type ℓ'} {Q : B → Type κ'} {r : Option A} {f : A → Option B}
      → Gives P r
      → ((a : A) → P a → Gives Q (f a))
      → Gives Q (r >>= f)
  Gives-bind (gives p) k = k _ p

  pub Gives-mono {κ'} :
      {Q : A → Type κ'} {r : Option A} → Gives P r → ((a : A) → P a → Q a) → Gives Q r
  Gives-mono (gives p) k = gives (k _ p)

  pub Gives-value : {r : Option A} → Gives P r → (a : A) × (r ≡ some a) × P a
  Gives-value (gives p) = (_, refl, p)
