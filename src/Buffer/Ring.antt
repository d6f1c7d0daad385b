-- ===== src/Buffer/Ring.antt =====
-- The buffer of lab8/buffer.c is a queue of at most `cap` tasks.
use cse.Base.{
  ℕ, suc, ◌+◌, ◌*◌, ◌/◌, ◌%◌, ◌≤◌, ◌<◌, ◌≡◌, ◌≢◌, ◌⊎◌, inl, inr, refl, sym, ap, ◌∙◌, subst, some,
  List, [], ◌∷◌, ◌++◌, length, length-append, get_elem?, set, length-set, get_elem?-set_self,
  get_elem?-set_ne, lt→ltb, arith, Gives, gives,
}
use native.Mathlib.Nat.{mod-add-mod, div-add-mod, mod-lt, mul-le-mul_left}
use cse.Buffer.{Task, SBuffer, buffer_en_queue, buffer_de_queue}

-- The tasks `ts` stand in the cells of the positions from `k` on, round the buffer.
abbrev pub InCells : List Task → (cap k : ℕ) → List Task → Type 0
InCells cells cap k [] = Unit
InCells cells cap k (t ∷ ts) = (get_elem? cells (k % cap) ≡ some t) × InCells cells cap (suc k) ts

-- The buffer holds `ts`; `taken` tasks were taken out before.
pub record Holds (b : SBuffer) (ts : List Task) : Type 0 where
  pub taken : ℕ
  pub positive : 0 < b.cap
  pub block : length b.cells ≡ b.cap
  pub tail : b.tail ≡ taken % b.cap
  pub head : b.head ≡ (taken + length ts) % b.cap
  pub fits : length ts ≤ b.cap
  pub content : InCells b.cells b.cap taken ts

-- Positions less than `n` apart are different cells.
mod-ne : (k h n : ℕ) → k < h → h < k + n → k % n ≢ h % n
mod-ne k h n lt near e =
    apart (k / n) (h / n) (k % n) (h % n) k h n (div-add-mod k n) (div-add-mod h n) e lt near
  where
    apart : (q q' r r' k h n : ℕ) → n * q + r ≡ k → n * q' + r' ≡ h → r ≡ r' → k < h → h < k + n → ⊥
    apart q q' r r' k h n e e' f lt near = elim (order q q') [
      | inl le ↦ omega (arith, mul-le-mul_left n le)
      | inr le ↦ omega (arith, mul-le-mul_left n le, more n q)
    ]
      where
        order : (q q' : ℕ) → (q' ≤ q) ⊎ (suc q ≤ q')
        order q q' = omega arith

        more : (n q : ℕ) → n * suc q ≡ n * q + n
        more n q = grind arith

next_mod : (k n : ℕ) → (k % n + 1) % n ≡ (k + 1) % n
next_mod k n = mod-add-mod k n 1

InCells-set :
    (cells : List Task) (cap k h : ℕ) (t : Task) (ts : List Task)
    → k + length ts ≤ h
    → h < k + cap
    → InCells cells cap k ts
    → InCells (set cells (h % cap) t) cap k ts
InCells-set cells cap k h t [] before near s = tt
InCells-set cells cap k h t (x ∷ ts) before near s = (
  get_elem?-set_ne cells (h % cap) (k % cap) t (λ e. mod-ne k h cap (omega arith) near (sym e))
      ∙ s.0,
  InCells-set cells cap (suc k) h t ts (omega arith) (omega arith) s.1,
)

InCells-snoc :
    (cells : List Task) (cap k : ℕ) (ts : List Task) (t : Task)
    → InCells cells cap k ts
    → get_elem? cells ((k + length ts) % cap) ≡ some t
    → InCells cells cap k (ts ++ t ∷ [])
InCells-snoc cells cap k [] t s e =
    (ap (λ n. get_elem? cells (n % cap)) (sym (none_more k)) ∙ e, tt)
  where
    none_more : (k : ℕ) → k + 0 ≡ k
    none_more k = omega arith
InCells-snoc cells cap k (x ∷ ts) t s e = (
  s.0,
  InCells-snoc cells cap (suc k) ts t s.1
      (ap (λ n. get_elem? cells (n % cap)) (one_more k (length ts)) ∙ e),
)
  where
    one_more : (k n : ℕ) → suc k + n ≡ k + suc n
    one_more k n = omega arith

-- `bufferEnQueue` adds a task behind the others, when there is room.
pub buffer_en_queue-append :
    {b : SBuffer} {ts : List Task} (t : Task)
    → Holds b ts
    → length ts < b.cap
    → Gives (λ b'. Holds b' (ts ++ t ∷ []) × (b'.cap ≡ b.cap)) (buffer_en_queue b t)
unfolding buffer_en_queue
buffer_en_queue-append {b} {ts} t v room =
    let h = v.taken + length ts in
    let inside : h % b.cap < length b.cells = omega (arith, v.block, mod-lt h v.positive) in
    let written = set b.cells (h % b.cap) t in
    rw (v.head, lt→ltb (h % b.cap) (length b.cells) inside, lt→ltb 0 b.cap v.positive)
      (gives (
        record {
          taken = v.taken;
          positive = v.positive;
          block = length-set b.cells (h % b.cap) t ∙ v.block;
          tail = v.tail;
          head = next_mod h b.cap ∙ ap (λ n. n % b.cap) (behind v.taken ts t);
          fits = omega (arith, length-append ts (t ∷ []));
          content =
              InCells-snoc written b.cap v.taken ts t
                (InCells-set b.cells b.cap v.taken h t ts (omega arith) (omega arith) v.content)
                (get_elem?-set_self b.cells (h % b.cap) t inside);
        },
        refl,
      ))
  where
    behind : (k : ℕ) (ts : List Task) (t : Task) → k + length ts + 1 ≡ k + length (ts ++ t ∷ [])
    behind k ts t = omega (arith, length-append ts (t ∷ []))

-- `bufferDeQueue` takes the first task out.
pub buffer_de_queue-cons :
    {b : SBuffer} {t : Task} {ts : List Task}
    → Holds b (t ∷ ts)
    → Gives (λ (r, b'). (r ≡ t) × Holds b' ts × (b'.cap ≡ b.cap)) (buffer_de_queue b)
unfolding buffer_de_queue
buffer_de_queue-cons {b} {t} {ts} v =
    rw (v.tail, v.content.0, lt→ltb 0 b.cap v.positive)
      (gives (
        refl,
        record {
          taken = v.taken + 1;
          positive = v.positive;
          block = v.block;
          tail = next_mod v.taken b.cap;
          head = v.head ∙ ap (λ n. n % b.cap) (moved v.taken (length ts));
          fits = omega (arith, v.fits);
          content = subst (λ k. InCells b.cells b.cap k ts) (next v.taken) v.content.1;
        },
        refl,
      ))
  where
    moved : (k n : ℕ) → k + suc n ≡ k + 1 + n
    moved k n = omega arith

    next : (k : ℕ) → suc k ≡ k + 1
    next k = omega arith
