-- ===== src/LockedList/Runs.antt =====
-- Runs of several insertions into the list of lab10/dllist.c, from the empty list.
use cse.Base.{
  ℕ, zero, suc, ◌≡◌, refl, sym, ap, subst, Option, none, some, List, [], ◌∷◌, get_elem?, length,
  none_ne_some, Gives, gives, Gives-bind, Gives-mono,
}
use cse.Base.Ended.{ended}
use cse.Base.Int.{ℤ}
use cse.Base.Sorted.{Sorted}
use mathlib.Core.Option.{some-injective}
use mathlib.Core.List.{Perm}
use mathlib.Core.List.Perm
use cse.LockedList.{
  Ptr, DlList, init_list, entering, Inserter, print_from, print_list_forward, holds, System, move,
  run, start,
}
use cse.LockedList.Links.{Entry, Seg, end, link, Distinct}
use cse.LockedList.Places.{Placed}
use cse.LockedList.Threads.{advance-Outcome}
use cse.LockedList.Together.{values, returned_vals, Inv, true_ne_false, values-Sorted, after-Inv}

move-Inv :
    (s : System) (v : Inv s) (i : ℕ) (o : Option Inserter)
    → get_elem? s.threads i ≡ o
    → Gives Inv (move i s o)
unfolding move
move-Inv s v i none at_i = gives v
move-Inv s v i (some t) at_i =
    Gives-bind (advance-Outcome s.threads s.list v.zs t.val v.linked t.phase (v.placed i t at_i))
      (λ r out. gives (after-Inv s v i t at_i r.0 r.1 out))

pub run-Inv : (is : List ℕ) (s : System) → Inv s → Gives Inv (run s is)
unfolding run
run-Inv [] s v = gives v
run-Inv (i ∷ is) s v = Gives-bind (move-Inv s v i _ refl) (λ s' v'. run-Inv is s' v')

start_entering :
    (vals : List ℤ) (i : ℕ) (t : Inserter)
    → get_elem? (start vals).threads i ≡ some t
    → t.phase ≡ entering
start_entering [] i t e = none_ne_some e
start_entering (v ∷ vals) zero t e = ap (λ t. t.phase) (sym (some-injective _ _ e))
start_entering (v ∷ vals) (suc i) t e = start_entering vals i t e

start_returned : (vals : List ℤ) → returned_vals (start vals).threads ≡ []
unfolding ended
start_returned [] = refl
start_returned (v ∷ vals) = start_returned vals

pub start-Inv : (vals : List ℤ) → Inv (start vals)
unfolding holds values
start-Inv vals = record {
  zs = [];
  linked = record { seg = end; distinct = tt; ascending = tt };
  matches = subst (Perm []) (sym (start_returned vals)) (Perm.refl []);
  placed = λ i t at. subst (Placed init_list [] t.val) (sym (start_entering vals i t at)) tt;
  exclusive =
      λ i j a b p ne at_i at_j h g. true_ne_false h (ap (holds p) (start_entering vals i a at_i));
}

print_from-values :
    (l : DlList) {p q : Ptr} (cur : Ptr) (zs : List Entry)
    → Seg l.nodes p cur zs q none
    → print_from (suc (length zs)) l cur ≡ some (values zs)
unfolding print_from values
print_from-values l none [] g = refl
print_from-values l none (z ∷ zs) g = elim g [ ]
print_from-values l (some c) [] g = elim g [ ]
print_from-values l (some c) (z ∷ zs) (link {c' = c'} e g) =
    rw (e, print_from-values l c' zs g) refl

-- What a list in the memory is: its nodes from the head to the tail, linked in both directions, no
-- node twice, with values in ascending order that are those of the threads that have returned.
pub record IsSorted (s : System) : Type 0 where
  pub zs : List Entry
  pub linked : Seg s.list.nodes none s.list.head zs s.list.tail none
  pub distinct : Distinct zs
  pub ascending : Sorted (values zs)
  pub complete : Perm (values zs) (returned_vals s.threads)
  pub printed : print_list_forward (suc (length zs)) s.list ≡ some (values zs)

-- Threads that insert any values into the empty list, in any order of their moves: no move is a
-- fault, and at each time the list is linked in both directions from head to tail, no node occurs
-- twice, its values are ascending and are those of the threads that have returned, and
-- printListForward prints them in this order.
pub run-IsSorted : (vals : List ℤ) (is : List ℕ) → Gives IsSorted (run (start vals) is)
run-IsSorted vals is = Gives-mono (run-Inv is (start vals) (start-Inv vals)) (λ s v. record {
  zs = v.zs;
  linked = v.linked.seg;
  distinct = v.linked.distinct;
  ascending = values-Sorted v.zs v.linked.ascending;
  complete = v.matches;
  printed = print_from-values s.list s.list.head v.zs v.linked.seg;
})
