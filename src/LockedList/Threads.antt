-- ===== src/LockedList/Threads.antt =====
-- Insertions into the list of lab10/dllist.c at once: what a move of a thread comes to.
use cse.Base.{
  ℕ, ◌≡◌, ◌⊎◌, refl, sym, ap, ◌∙◌, subst, inl, inr, Bool, true, false, none, some, List, [], ◌∷◌,
  ◌++◌, length, All, arith, Bool-cases, ==_iff, Gives, gives, Gives-bind, ◌>>=◌,
}
use cse.Base.Int.{ℤ, ◌≤ℤ◌, leb_ℤ, int_laws}
use cse.Base.Sorted.{All-mono}
use mathlib.Core.List.{Memᴰ}
use mathlib.Core.List.Memᴰ
use cse.LockedList.{
  Ptr, DlNode, DlList, insert_before, Phase, entering, looking, returned, Inserter, same_ptr, holds,
  is_free, look, advance,
}
use cse.LockedList.Links.{Entry, Apart, Distinct, All-insert, Distinct-insert, fresh-Apart}
use cse.LockedList.Insert.{Frame, Seg-none, Seg-some, insert_before-Grown}
use cse.LockedList.Places.{Ascending, Linked, Placed, Between, Placed-Between}

abbrev pub is_returned : Phase → Bool
is_returned returned = true
is_returned phase = false

-- The new entry among the old ones, in order.
Ascending-insert :
    (xs ys : List Entry) (e : Entry)
    → Ascending (xs ++ ys)
    → All (λ x. x.1 ≤ℤ e.1) xs
    → All (λ y. e.1 ≤ℤ y.1) ys
    → Ascending (xs ++ e ∷ ys)
Ascending-insert [] ys e a h k = (k, a)
Ascending-insert (x ∷ xs) ys e a h k =
    (All-insert (λ y. x.1 ≤ℤ y.1) xs ys e h.0 a.0, Ascending-insert xs ys e a.1 h.1 k)

-- What a move comes to: the list stays, and the thread has no lock but one that it had or that was
-- free; or the thread ends, with its value in the list and its lock given back.
pub data Outcome (others : List Inserter) (l : DlList) (zs : List Entry) (v : ℤ) (phase : Phase)
    (r : Phase × DlList) : Type 0 where
  stays :
      r.1 ≡ l
      → Placed l zs v r.0
      → ((p : Ptr) → holds p r.0 ≡ true → (holds p phase ≡ true) ⊎ (is_free p others ≡ true))
      → is_returned r.0 ≡ is_returned phase
      → Outcome others l zs v phase r
  ends :
      (at cur : Ptr) (xs ys : List Entry) (k : ℕ)
      → phase ≡ looking at cur
      → r.0 ≡ returned
      → zs ≡ xs ++ ys
      → Linked r.1 (xs ++ (k, v) ∷ ys)
      → Frame l at r.1
      → Outcome others l zs v phase r

leb_ℤ-le : (a b : ℤ) → leb_ℤ a b ≡ true → a ≤ℤ b
leb_ℤ-le a b h = ground arith

leb_ℤ-ge : (a b : ℤ) → leb_ℤ a b ≡ false → b ≤ℤ a
leb_ℤ-ge a b h = ground arith

above-rest :
    (v : ℤ) (xs : List Entry) (e : Entry) (ys : List Entry)
    → Ascending (xs ++ e ∷ ys)
    → leb_ℤ e.1 v ≡ false
    → All (λ y. v ≤ℤ y.1) (e ∷ ys)
above-rest v [] e ys a h =
    (leb_ℤ-ge e.1 v h, All-mono _ _ ys (λ y k. omega (int_laws, leb_ℤ-ge e.1 v h)) a.0)
above-rest v (x ∷ xs) e ys a h = above-rest v xs e ys a.1 h

pub eq_of_same_ptr : (p q : Ptr) → same_ptr p q ≡ true → p ≡ q
eq_of_same_ptr none none h = refl
eq_of_same_ptr none (some j) h = cc
eq_of_same_ptr (some i) none h = cc
eq_of_same_ptr (some i) (some j) h = ap some ((==_iff i j).0 h)

module _ (others : List Inserter) (l : DlList) (zs : List Entry) (v : ℤ) (i : Linked l zs) where
  insert-Outcome :
      (at cur : Ptr) (b : Between l zs v at cur)
      → All (λ y. v ≤ℤ y.1) b.ys
      → Gives
          (Outcome others l zs v (looking at cur))
          (insert_before l cur v >>= λ l'. some (returned, l'))
  insert-Outcome at cur b above =
      let parts = subst Distinct b.parts i.distinct in
      Gives-bind (insert_before-Grown l b.xs b.ys at cur v b.before b.behind parts) (λ l' g. gives (
        ends at cur b.xs b.ys (length l.nodes) refl refl b.parts
          (record {
            seg = g.0;
            distinct =
                Distinct-insert b.xs b.ys (length l.nodes, v) parts
                  (subst (Apart (length l.nodes)) b.parts (fresh-Apart i.seg));
            ascending =
                Ascending-insert b.xs b.ys (length l.nodes, v) (subst Ascending b.parts i.ascending)
                  b.below above;
          })
          g.1))

  look-Outcome :
      (at cur : Ptr)
      → Placed l zs v (looking at cur)
      → Gives (Outcome others l zs v (looking at cur)) (look others l v at cur)
  unfolding look holds
  look-Outcome at none g =
      let b = Placed-Between l zs v at none i g in
      insert-Outcome at none b (subst (All (λ y. v ≤ℤ y.1)) (sym (Seg-none b.behind).0) tt)
  look-Outcome at (some c) g =
      let b = Placed-Between l zs v at (some c) i g in
      let (w, c', ys', e, here, rest) = Seg-some b.behind in
      let n : DlNode = record { value = w; prv = at; next = c' } in
      let parts = b.parts ∙ ap (λ ys. b.xs ++ ys) e in
      rw here (elim (Bool-cases (leb_ℤ w v)) [
        | inl le ↦ elim (Bool-cases (is_free (some c) others)) [
          | inl free ↦
              rw (le, free)
                (gives (
                  stays refl
                    (
                      w,
                      n,
                      subst (Memᴰ (c, w)) (sym parts) (Memᴰ.append_right b.xs (Memᴰ.head refl)),
                      leb_ℤ-le w v le,
                      here,
                      refl,
                    )
                    (λ p h. inr (ap (λ p. is_free p others) (eq_of_same_ptr p (some c) h) ∙ free))
                    refl))
          | inr busy ↦ rw (le, busy) (gives (stays refl g (λ p h. inl h) refl))
        ]
        | inr gt ↦ rw gt (
            insert-Outcome at (some c) b (
              subst (All (λ y. v ≤ℤ y.1)) (sym e)
                (above-rest v b.xs (c, w) ys' (subst Ascending parts i.ascending) gt)))
      ])

  pub advance-Outcome :
      (phase : Phase)
      → Placed l zs v phase
      → Gives (Outcome others l zs v phase) (advance others l v phase)
  unfolding advance holds
  advance-Outcome entering g = elim (Bool-cases (is_free none others)) [
    | inl free ↦ rw free (
        gives (
          stays refl refl (λ p h. inr (ap (λ p. is_free p others) (eq_of_same_ptr p none h) ∙ free))
            refl))
    | inr busy ↦ rw busy (gives (stays refl tt (λ p h. inl h) refl))
  ]
  advance-Outcome (looking at cur) g = look-Outcome at cur g
  advance-Outcome returned g = gives (stays refl tt (λ p h. inl h) refl)
