-- ===== src/LockedList/Together.antt =====
-- Any number of insertions into the list of lab10/dllist.c at once, in any order of their moves.
use cse.Base.{
  ℕ, zero, suc, ◌≡◌, ◌≢◌, ◌⊎◌, refl, sym, ap, ◌∙◌, subst, inl, inr, Bool, true, false, not, ◌&&◌,
  none, some, List, [], ◌∷◌, ◌++◌, get_elem?, set, arith, All, none_ne_some, set-cases, ==_self,
}
use cse.Base.Ended.{ended, ended-set_same, ended-set_new}
use cse.Base.Int.{ℤ, ◌≤ℤ◌}
use cse.Base.Sorted.{Sorted}
use mathlib.Core.Option.{some-injective}
use mathlib.Core.List.{Perm, Memᴰ}
use mathlib.Core.List.Perm
use cse.LockedList.{
  Ptr, DlList, Phase, entering, looking, returned, Inserter, holds, is_free, same_ptr, System,
}
use cse.LockedList.Links.{Entry}
use cse.LockedList.Insert.{Frame}
use cse.LockedList.Places.{Ascending, Linked, Placed, Memᴰ-insert}
use cse.LockedList.Threads.{is_returned, Outcome, stays, ends}

unfoldable pub values : List Entry → List ℤ
values [] = []
values (e ∷ zs) = e.1 ∷ values zs

-- The values of the threads that are behind `insertSortedList`.
abbrev pub returned_vals : List Inserter → List ℤ
returned_vals = ended (λ t. is_returned t.phase) (λ t. t.val)

pub record Inv (s : System) : Type 0 where
  pub zs : List Entry
  pub linked : Linked s.list zs
  pub matches : Perm (values zs) (returned_vals s.threads)
  pub placed :
      (i : ℕ) (t : Inserter) → get_elem? s.threads i ≡ some t → Placed s.list zs t.val t.phase
  pub exclusive :
      (i j : ℕ) (a b : Inserter) (p : Ptr)
      → i ≢ j
      → get_elem? s.threads i ≡ some a
      → get_elem? s.threads j ≡ some b
      → holds p a.phase ≡ true
      → holds p b.phase ≡ true
      → ⊥

pub true_ne_false : {b : Bool} → b ≡ true → b ≡ false → ⊥
true_ne_false h k = cc

pub free-holds :
    (p : Ptr) (ts : List Inserter) (k : ℕ) (b : Inserter)
    → is_free p ts ≡ true
    → get_elem? ts k ≡ some b
    → holds p b.phase ≡ true
    → ⊥
unfolding is_free
free-holds p [] k b f e h = none_ne_some e
free-holds p (t ∷ ts) zero b f e h =
    let taken : holds p t.phase ≡ true = ap (λ t. holds p t.phase) (some-injective _ _ e) ∙ h in
    true_ne_false f (rw taken refl)
free-holds p (t ∷ ts) (suc k) b f e h =
    free-holds p ts k b (both (not (holds p t.phase)) (is_free p ts) f) e h
  where
    both : (x y : Bool) → (x && y) ≡ true → y ≡ true
    both x y e = ground arith

values-insert :
    (xs ys : List Entry) (e : Entry) → Perm (values (xs ++ e ∷ ys)) (e.1 ∷ values (xs ++ ys))
unfolding values
values-insert [] ys e = Perm.refl _
values-insert (x ∷ xs) ys e =
    Perm.trans (Perm.cons x.1 (values-insert xs ys e)) (Perm.swap e.1 x.1 (values (xs ++ ys)))

pub values-Sorted : (zs : List Entry) → Ascending zs → Sorted (values zs)
unfolding values
values-Sorted [] a = tt
values-Sorted (z ∷ zs) a = (above z.1 zs a.0, values-Sorted zs a.1)
  where
    above : (x : ℤ) (zs : List Entry) → All (λ y. x ≤ℤ y.1) zs → All (λ y. x ≤ℤ y) (values zs)
    above x [] h = tt
    above x (z ∷ zs) h = (h.0, above x zs h.1)

pub same_ptr_self : (p : Ptr) → same_ptr p p ≡ true
same_ptr_self none = refl
same_ptr_self (some i) = ==_self i

module _ (s : System) (v : Inv s) (i : ℕ) (t : Inserter) (at_i : get_elem? s.threads i ≡ some t)
    (phase : Phase) (list : DlList) where
  abbrev after : System
  after = record { list = list; threads = set s.threads i (record t { phase = phase }) }

  exclusive-after :
      ((p : Ptr) → holds p phase ≡ true → (holds p t.phase ≡ true) ⊎ (is_free p s.threads ≡ true))
      → (j k : ℕ) (a b : Inserter) (p : Ptr) → j ≢ k
      → get_elem? after.threads j ≡ some a
      → get_elem? after.threads k ≡ some b
      → holds p a.phase ≡ true
      → holds p b.phase ≡ true
      → ⊥
  exclusive-after locks j k a b p ne at_j at_k h g =
      elim (set-cases s.threads i j (record t { phase = phase }) a at_j) [
        | inl (ji, new) ↦ elim (set-cases s.threads i k (record t { phase = phase }) b at_k) [
          | inl (ki, again) ↦ ne (ji ∙ sym ki)
          | inr (k_i, old) ↦ mine k b p k_i old (ap (λ c. holds p c.phase) (sym new) ∙ h) g
        ]
        | inr (j_i, old) ↦ elim (set-cases s.threads i k (record t { phase = phase }) b at_k) [
          | inl (ki, new) ↦ mine j a p j_i old (ap (λ c. holds p c.phase) (sym new) ∙ g) h
          | inr (k_i, other) ↦ v.exclusive j k a b p ne old other h g
        ]
      ]
    where
      mine :
          (l : ℕ) (c : Inserter) (p : Ptr)
          → l ≢ i
          → get_elem? s.threads l ≡ some c
          → holds p phase ≡ true
          → holds p c.phase ≡ true
          → ⊥
      mine l c p ne at_l here there = elim (locks p here) [
        | inl before ↦ v.exclusive l i c t p ne at_l at_i there before
        | inr free ↦ free-holds p s.threads l c free at_l there
      ]

  -- Another thread finds its place as before, unless it has the lock at the place of the insertion.
  keep-Placed :
      (at : Ptr) (xs ys : List Entry) (new : Entry) (w : ℤ) (other : Phase)
      → v.zs ≡ xs ++ ys
      → Frame s.list at list
      → ¬ (holds at other ≡ true)
      → Placed s.list v.zs w other
      → Placed list (xs ++ new ∷ ys) w other
  unfolding holds
  keep-Placed at xs ys new w entering parts f apart g = tt
  keep-Placed at xs ys new w (looking none cur) parts f apart g =
      f.same_head (λ e. apart (ap (λ p. same_ptr p none) e)) ∙ g
  keep-Placed at xs ys new w (looking (some p) cur) parts f apart (u, n, m, le, here, next) =
      let (n', here', same) =
        f.same_next p n here (λ e. apart (ap (λ q. same_ptr q (some p)) (sym e) ∙ ==_self p)) in
      (u, n', Memᴰ-insert xs ys new (subst (Memᴰ (p, u)) parts m), le, here', same ∙ next)
  keep-Placed at xs ys new w returned parts f apart g = tt

  pub after-Inv : Outcome s.threads s.list v.zs t.val t.phase (phase, list) → Inv after
  unfolding holds
  after-Inv (stays same placed locks ret) = record {
    zs = v.zs;
    linked = subst (λ l. Linked l v.zs) (sym same) v.linked;
    matches =
        subst (Perm (values v.zs)) (sym (ended-set_same _ _ s.threads i t _ at_i ret refl))
          v.matches;
    placed = λ j b at_j.
        subst (λ l. Placed l v.zs b.val b.phase) (sym same)
          (elim (set-cases s.threads i j (record t { phase = phase }) b at_j) [
            | inl (ji, new) ↦ subst (λ c. Placed s.list v.zs c.val c.phase) (sym new) placed
            | inr (j_i, old) ↦ v.placed j b old
          ]);
    exclusive = exclusive-after locks;
  }
  after-Inv (ends at cur xs ys k was now parts linked frame) =
      let free_now : (p : Ptr) → holds p phase ≡ true → ⊥ =
        λ p h. true_ne_false h (ap (holds p) now) in
      let had : holds at t.phase ≡ true = ap (holds at) was ∙ same_ptr_self at in
      record {
        zs = xs ++ (k, t.val) ∷ ys;
        linked = linked;
        matches =
            subst
              (λ f.
                Perm (values (xs ++ (k, t.val) ∷ ys))
                  (returned_vals (set s.threads i (record t { phase = f }))))
              (sym now)
              (Perm.trans (values-insert xs ys (k, t.val)) (
                Perm.trans
                  (Perm.cons t.val
                    (subst (λ zs. Perm (values zs) (returned_vals s.threads)) parts v.matches))
                  (Perm.symm (ended-set_new _ _ s.threads i t _ at_i (ap is_returned was) refl))));
        placed = λ j b at_j. elim (set-cases s.threads i j (record t { phase = phase }) b at_j) [
          | inl (ji, new) ↦
              subst (λ c. Placed list (xs ++ (k, t.val) ∷ ys) c.val c.phase) (sym new)
                (subst (Placed list (xs ++ (k, t.val) ∷ ys) t.val) (sym now) tt)
          | inr (j_i, old) ↦
              keep-Placed at xs ys (k, t.val) b.val b.phase parts frame
                (λ h. v.exclusive j i b t at j_i old at_i h had) (v.placed j b old)
        ];
        exclusive = exclusive-after (λ p h. absurd (free_now p h));
      }
