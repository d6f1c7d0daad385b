-- ===== src/TreeMt/Linear.antt =====
-- Insertions into the tree of ps8/treeMT.c at once are insertions one after the other.
use cse.Base.{
  ℕ, zero, suc, ◌≡◌, ◌≢◌, ◌⊎◌, refl, sym, ap, ◌∙◌, subst, inl, inr, Bool, true, false, not, ◌&&◌,
  Option, none, some, List, [], ◌∷◌, ◌++◌, map, get_elem?, set, none_ne_some, set-cases, Gives,
  gives, Gives-bind, Gives-mono, arith,
}
use cse.Base.Ended.{ended, ended-set_same, ended-set_new}
use cse.Base.Int.{ℤ}
use mathlib.Core.Option.{some-injective}
use mathlib.Core.List.{Perm, perm_append_singleton}
use mathlib.Core.List.Perm
use cse.TreeMt.{TNode, insert_below}
use cse.TreeMt.Threads.{
  go_left, go_right, Way, Phase, entering, Inserter, guard, held, same_path, is_lock, is_free,
  Threads, move, run, start,
}
use cse.TreeMt.Moves.{Placed, is_returned, Effect, stays, ends, Moved, advance-Moved}
use cse.TreeMt.Growth.{insert_list, insert_list-snoc, after-Placed}

-- The values of the threads that are behind `insertIntoTree`.
abbrev pub returned_vals : List Inserter → List ℤ
returned_vals = ended (λ t. is_returned t.phase) (λ t. t.val)

pub record Inv (t₀ : TNode) (s : Threads) : Type 0 where
  pub log : List ℤ
  pub linear : s.root ≡ insert_list t₀ log
  pub matches : Perm log (returned_vals s.threads)
  pub placed : (i : ℕ) (t : Inserter) → get_elem? s.threads i ≡ some t → Placed s.root t.val t.phase
  pub exclusive :
      (i j : ℕ) (a b : Inserter) (p : Way)
      → i ≢ j
      → get_elem? s.threads i ≡ some a
      → get_elem? s.threads j ≡ some b
      → held a.phase ≡ some p
      → held b.phase ≡ some p
      → ⊥

same_path_self : (p : Way) → same_path p p ≡ true
unfolding same_path
same_path_self [] = refl
same_path_self (go_left ∷ p) = same_path_self p
same_path_self (go_right ∷ p) = same_path_self p

free-none :
    (p : Way) (ts : List Inserter) (k : ℕ) (b : Inserter)
    → is_free p ts ≡ true
    → get_elem? ts k ≡ some b
    → held b.phase ≡ some p
    → ⊥
unfolding is_free
free-none p [] k b f e h = none_ne_some e
free-none p (t ∷ ts) zero b f e h = taken (is_free p ts) (
    sym (
      rw (ap (λ t. held t.phase) (some-injective _ _ e) ∙ h)
        (ap (λ x. not x && is_free p ts) (same_path_self p)))
    ∙ f)
  where
    taken : (x : Bool) → false ≡ true → ⊥
    taken x e = cc
free-none p (t ∷ ts) (suc k) b f e h =
    free-none p ts k b (both (not (is_lock p (held t.phase))) (is_free p ts) f) e h
  where
    both : (x y : Bool) → (x && y) ≡ true → y ≡ true
    both x y e = ground arith

module _ (t₀ : TNode) (s : Threads) (v : Inv t₀ s) (i : ℕ) (t : Inserter)
    (at : get_elem? s.threads i ≡ some t) (root : TNode) (phase : Phase)
    (m : Moved s.threads s.root t.val t.phase root phase) where
  after : Threads
  after = record { root = root; threads = set s.threads i (record t { phase = phase }) }

  exclusive-after :
      (j k : ℕ) (a b : Inserter) (p : Way)
      → j ≢ k
      → get_elem? after.threads j ≡ some a
      → get_elem? after.threads k ≡ some b
      → held a.phase ≡ some p
      → held b.phase ≡ some p
      → ⊥
  unfolding after
  exclusive-after j k a b p ne at_j at_k h g =
      by_turns (set-cases s.threads i j (record t { phase = phase }) a at_j)
        (set-cases s.threads i k (record t { phase = phase }) b at_k)
    where
      mine :
          (l : ℕ) (c : Inserter)
          → l ≢ i
          → get_elem? s.threads l ≡ some c
          → held phase ≡ some p
          → held c.phase ≡ some p
          → ⊥
      mine l c away at_l own other = elim (m.locks p own) [
        | inl before ↦ v.exclusive i l t c p (λ z. away (sym z)) at at_l before other
        | inr free ↦ free-none p s.threads l c free at_l other
      ]

      by_turns :
          ((j ≡ i) × (a ≡ record t { phase = phase }))
            ⊎ ((j ≢ i) × (get_elem? s.threads j ≡ some a))
          → ((k ≡ i) × (b ≡ record t { phase = phase }))
            ⊎ ((k ≢ i) × (get_elem? s.threads k ≡ some b))
          → ⊥
      by_turns (inl (e, x)) (inl (f, y)) = ne (e ∙ sym f)
      by_turns (inl (e, x)) (inr (f, y)) = mine k b f y (sym (ap (λ c. held c.phase) x) ∙ h) g
      by_turns (inr (e, x)) (inl (f, y)) = mine j a e x (sym (ap (λ c. held c.phase) y) ∙ g) h
      by_turns (inr (e, x)) (inr (f, y)) = v.exclusive j k a b p ne x y h g

  all-Placed :
      ((j : ℕ) (b : Inserter) → j ≢ i → get_elem? s.threads j ≡ some b → Placed root b.val b.phase)
      → (j : ℕ) (b : Inserter) → get_elem? after.threads j ≡ some b
      → Placed root b.val b.phase
  unfolding after
  all-Placed others j b at_j = elim (set-cases s.threads i j (record t { phase = phase }) b at_j) [
    | inl (e, x) ↦ subst (λ c. Placed root c.val c.phase) (sym x) m.placed
    | inr (e, x) ↦ others j b e x
  ]

  after-Inv : Effect s.root t.val t.phase root phase → Inv t₀ after
  unfolding after
  after-Inv (stays same kept) = record {
    log = v.log;
    linear = same ∙ v.linear;
    matches = subst (Perm v.log) (sym (ended-set_same _ _ s.threads i t _ at kept refl)) v.matches;
    placed =
        all-Placed
          (λ j b ne at_j. subst (λ u. Placed u b.val b.phase) (sym same) (v.placed j b at_j));
    exclusive = exclusive-after;
  }
  after-Inv (ends inserted before behind keep) = record {
    log = v.log ++ t.val ∷ [];
    linear =
        inserted ∙ ap (λ u. insert_below u t.val) v.linear ∙ sym (insert_list-snoc t₀ v.log t.val);
    matches = Perm.trans (perm_append_singleton t.val v.log) (
        Perm.trans (Perm.cons t.val v.matches)
          (Perm.symm (ended-set_new _ _ s.threads i t _ at before behind)));
    placed = all-Placed (λ j b ne at_j.
        after-Placed s.root root t.val b.val b.phase inserted (v.placed j b at_j) (λ q h w e.
          keep b.val q w e (λ own. v.exclusive i j t b (guard q) (λ z. ne (sym z)) at at_j own h)));
    exclusive = exclusive-after;
  }

move-Inv :
    (t₀ : TNode) (s : Threads) (i : ℕ) (o : Option Inserter)
    → get_elem? s.threads i ≡ o
    → Inv t₀ s
    → Gives (Inv t₀) (move i s o)
unfolding move after
move-Inv t₀ s i none at v = gives v
move-Inv t₀ s i (some t) at v =
    Gives-bind (advance-Moved s.threads s.root t.val t.phase (v.placed i t at))
      (λ (phase, root) m. gives (after-Inv t₀ s v i t at root phase m m.effect))

run-Inv_from : (t₀ : TNode) (is : List ℕ) (s : Threads) → Inv t₀ s → Gives (Inv t₀) (run s is)
unfolding run
run-Inv_from t₀ [] s v = gives v
run-Inv_from t₀ (i ∷ is) s v =
    Gives-bind (move-Inv t₀ s i (get_elem? s.threads i) refl v) (λ s' v'. run-Inv_from t₀ is s' v')

entering-at :
    (vals : List ℤ) (i : ℕ) (t : Inserter)
    → get_elem? (map (λ v. record { val = v; phase = entering }) vals) i ≡ some t
    → entering ≡ t.phase
entering-at [] i t e = none_ne_some e
entering-at (v ∷ vals) zero t e = ap (λ u. u.phase) (some-injective _ _ e)
entering-at (v ∷ vals) (suc i) t e = entering-at vals i t e

start-Inv : (root : TNode) (vals : List ℤ) → Inv root (start root vals)
unfolding insert_list held ended
start-Inv root vals = record {
  log = [];
  linear = refl;
  matches = subst (Perm []) (sym (nobody vals)) (Perm.refl []);
  placed = λ i t at. subst (Placed root t.val) (entering-at vals i t at) tt;
  exclusive = λ i j a b p ne at_i at_j h g. none_ne_some (ap held (entering-at vals i a at_i) ∙ h);
}
  where
    nobody :
        (vals : List ℤ) → returned_vals (map (λ v. record { val = v; phase = entering }) vals) ≡ []
    nobody [] = refl
    nobody (v ∷ vals) = nobody vals

-- However threads that insert `vals` take turns, one lock or one write at a time, none dereferences
-- NULL, and at each point the tree is what the insertions of the threads that have returned make of it
-- one after the other, in some order: no insertion is lost and none is done in part.
pub run-insert_list :
    (root : TNode) (vals : List ℤ) (is : List ℕ)
    → Gives
        (λ s. (log : List ℤ) × (s.root ≡ insert_list root log) × Perm log (returned_vals s.threads))
        (run (start root vals) is)
run-insert_list root vals is =
    Gives-mono (run-Inv_from root is (start root vals) (start-Inv root vals))
      (λ s v. (v.log, v.linear, v.matches))
