-- ===== src/LinkedList/Free.antt =====
-- freeList of ps3/list.c.
use cse.Base.{
  ℕ, zero, suc, ◌+◌, ◌<◌, ◌≡◌, refl, ◌∙◌, none, [], ◌∷◌, ◌⊎◌, inl, inr, length, All, arith, Gives,
  gives, Gives-bind, Gives-mono,
}
use cse.Base.Int.{ℤ}
use cse.LinkedList.{Ptr, Heap, IntList, load, free_loop, free_list, push_back_list}
use cse.LinkedList.Chain.{
  Cells, start, last_of, Seg, Distinct, Allocated, IsList, Frame, update, load-ne_zero,
  load-update_self, Seg-agree, free-some,
}
use cse.LinkedList.Frames.{Frame-update, Frame-self, update-agree, test_false, last_of-ne_zero}

Freed : Heap → Cells → Heap → Type 0
Freed h cs h' = All (λ c. load h' c.0 ≡ none) cs × Frame h h' cs

free_loop-Freed :
    (h : Heap) (fuel : ℕ) (cs : Cells)
    → Seg h cs 0
    → Distinct cs
    → Allocated h cs
    → length cs < fuel
    → Gives (Freed h cs) (free_loop h fuel (start cs 0))
unfolding free_loop Freed
free_loop-Freed h zero cs s d below enough = elim enough [ ]
free_loop-Freed h (suc fuel) [] s d below enough = gives (tt, Frame-self h [])
free_loop-Freed h (suc fuel) ((zero, x) ∷ cs) s d below enough =
    absurd (load-ne_zero h 0 _ s.0 refl)
free_loop-Freed h (suc fuel) ((suc a, x) ∷ cs) s d below enough =
    let h1 = update h (suc a) none in
    let s1 = Seg-agree h h1 cs 0 (update-agree h (suc a) none cs d.0) s.1 in
    rw (s.0, free-some h (suc a) _ s.0)
      (Gives-mono (free_loop-Freed h1 fuel cs s1 d.1 below.1 (omega arith)) (λ h' (gone, frame). (
        (frame.same (suc a) below.0 d.0 ∙ load-update_self h (suc a) none (λ e. omega arith), gone),
        record {
          grows = frame.grows;
          same = λ q le out.
              frame.same q le out.1
              ∙ (Frame-update (suc a) none (Frame-self h ((suc a, x) ∷ cs)) (λ q out. out.0)).same q
                  le out;
        },
      )))

All-last : (P : Ptr → Type 0) (cs : Cells) (a : Ptr) → P a → All (λ c. P c.0) cs → P (last_of cs a)
All-last P [] a p h = p
All-last P (c ∷ cs) a p h = All-last P cs c.0 h.0 h.1

-- With the last node freed, `pushBackList` uses a freed node.
push-freed :
    (h h' : Heap) (list : IntList) (cs : Cells) (num : ℤ)
    → Seg h cs 0
    → list.tail ≡ last_of cs 0
    → All (λ d. load h' d.0 ≡ none) cs
    → (cs ≡ []) ⊎ (push_back_list h' list num ≡ none)
unfolding push_back_list
push-freed h h' list [] num seg tail gone = inl refl
push-freed h h' list (c ∷ cs) num seg tail gone = inr (
    rw
      (
        tail,
        test_false (last_of cs c.0) 0 (last_of-ne_zero h cs c 0 seg),
        All-last (λ p. load h' p ≡ none) cs c.0 gone.0 gone.1,
      )
      refl)

-- `freeList` frees the nodes of the list, each once, and no others; the list has then no head and the
-- length 0, but its `tail` is what it was. When the list was not empty, the next `pushBackList` uses a
-- freed node.
pub free_list-frees :
    {h : Heap} {list : IntList} (cs : Cells) (num : ℤ)
    → IsList h list cs
    → Gives
        (λ (h', list').
          (list'.head ≡ 0)
          × (list'.len ≡ 0)
          × (list'.tail ≡ list.tail)
          × All (λ d. load h' d.0 ≡ none) cs
          × Frame h h' cs
          × ((cs ≡ []) ⊎ (push_back_list h' list' num ≡ none)))
        (free_list h list)
unfolding free_list Freed
free_list-frees {h} {list} cs num v = rw (v.head) (
    Gives-bind
      (free_loop-Freed h (list.len + 1) cs v.seg v.distinct v.allocated (omega (arith, v.len)))
      (λ h' (gone, frame). gives (
        refl,
        refl,
        refl,
        gone,
        frame,
        push-freed h h' (record list { head = 0; len = 0 }) cs num v.seg v.tail gone,
      )))
