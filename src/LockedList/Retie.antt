-- ===== src/LockedList/Retie.antt =====
-- `prev->next = nn` of lab10/dllist.c: what the write leaves of the list.
use cse.Base.{
  ℕ, ◌≡◌, ◌≢◌, refl, sym, ap, ◌∙◌, subst, none, some, List, [], ◌∷◌, ◌++◌, get_elem?, set,
  get_elem?-set_ne, get_elem?-set_self, none_ne_some, Gives, gives,
}
use mathlib.Core.Option.{some-injective}
use cse.LockedList.{Ptr, DlNode, DlList, set_next}
use cse.LockedList.Links.{
  Entry, Seg, end, link, Distinct, empty, snoc, Seg-append, Seg-keep, Seg-Last, Distinct-middle,
  set-Apart, get_elem?-lt,
}

-- What `set_next` does: the next of the node at `at` is `nn`, or the head where there is none.
pub record Retied (l : DlList) (at nn : Ptr) (l' : DlList) : Type 0 where
  pub others : (j : ℕ) → some j ≢ at → get_elem? l'.nodes j ≡ get_elem? l.nodes j
  pub same_tail : l'.tail ≡ l.tail
  pub same_head : at ≢ none → l'.head ≡ l.head
  pub tied :
      (j : ℕ) (n : DlNode)
      → at ≡ some j
      → get_elem? l.nodes j ≡ some n
      → get_elem? l'.nodes j ≡ some (record n { next = nn })

pub set_next-Seg :
    (l : DlList) (xs : List Entry) (at c nn : Ptr)
    → Seg l.nodes none l.head xs at c
    → Distinct xs
    → Gives (λ l'. Retied l at nn l' × Seg l'.nodes none l'.head xs at nn) (set_next l at nn)
unfolding set_next
set_next-Seg l xs none c nn s d = elim (Seg-Last s) [
  | empty nothing at next ↦ gives (
    record {
      others = λ j ne. refl;
      same_tail = refl;
      same_head = λ ne. absurd (ne refl);
      tied = λ j n e. none_ne_some e;
    },
    subst (λ ys. Seg l.nodes none nn ys none nn) (sym nothing) end,
  )
  | snoc last at before here ↦ none_ne_some at
]
set_next-Seg l xs (some k) c nn s d = elim (Seg-Last s) [
  | empty nothing at next ↦ none_ne_some at
  | snoc {xs' = xs'} {i} {u} {p} last at before here ↦
      let ik = some-injective _ _ at in
      let n : DlNode = record { value = u; prv = p; next = c } in
      let tied_n : DlNode → DlNode = λ m. record m { next = nn } in
      let here_k : get_elem? l.nodes k ≡ some n = ap (get_elem? l.nodes) ik ∙ here in
      let last_k : xs ≡ xs' ++ (k, u) ∷ [] = last ∙ ap (λ j. xs' ++ (j, u) ∷ []) (sym ik) in
      let apart = (Distinct-middle xs' [] (k, u) (subst Distinct last_k d)).0 in
      let written = get_elem?-set_self l.nodes k (tied_n n) (get_elem?-lt l.nodes k here_k) in
      let before_k = subst (λ j. Seg l.nodes none l.head xs' p (some j)) (sym ik) before in
      rw here_k (
        gives (
          record {
            others = λ j ne. get_elem?-set_ne l.nodes k j _ (λ e. ne (ap some (sym e)));
            same_tail = refl;
            same_head = λ ne. refl;
            tied = λ j m e f.
                let kj = some-injective _ _ e in
                ap (get_elem? (set l.nodes k (tied_n n))) (sym kj)
                ∙ written
                ∙ ap (λ o. some (tied_n o))
                    (some-injective _ _ (sym here_k ∙ ap (get_elem? l.nodes) kj ∙ f));
          },
          subst (λ ys. Seg (set l.nodes k (tied_n n)) none l.head ys (some k) nn) (sym last_k)
              (Seg-append (Seg-keep before_k (set-Apart l.nodes k (tied_n n) xs' apart))
                (link written end)),
        ))
]
