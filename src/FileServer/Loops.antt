-- ===== src/FileServer/Loops.antt =====
-- What the loops of ps6 put on the wire and take from it, for the answers the kernel gives.
use cse.Base.{
  ℕ, zero, suc, ◌+◌, ◌-◌, ◌^◌, ◌<◌, ◌≡◌, refl, sym, ap, ap₂, ◌∙◌, subst, List, [], ◌∷◌, ◌++◌, true,
  false, arith, leb, ◌==◌, length, take, drop, take-length, length-append, length-take, append-nil,
  append_assoc, take-append_length, drop-append_length, length-drop, take-append-drop,
}
use cse.FileServer.{
  Bytes, ok, Answer, failed, moved, glorp, slurp, send_rounds, recv_rounds, send_list, overlay,
  unsigned_left,
}

drop-length : (xs : Bytes) → drop (length xs) xs ≡ []
drop-length [] = refl
drop-length (x ∷ xs) = drop-length xs

pub overlay_all : (got buf : Bytes) → length got ≡ length buf → overlay got buf ≡ got
unfolding overlay
overlay_all got buf h =
    ap (λ n. got ++ drop n buf) h ∙ ap (λ r. got ++ r) (drop-length buf) ∙ append-nil got

unsigned_left_self : (n : ℕ) → n < 2 ^ 32 → (unsigned_left n (0 + n) == 0) ≡ true
unfolding unsigned_left
unsigned_left_self n h = ground arith

-- Where the first call moves everything, the loops send and receive the bytes.
pub glorp_whole :
    (answers : List Answer) (src wire : Bytes)
    → length src < 2 ^ 32
    → glorp (moved (length src) ∷ answers) src 0 wire ≡ ok (wire ++ src)
unfolding glorp
glorp_whole answers src wire h = rw (unsigned_left_self (length src) h, take-length) refl

pub slurp_whole :
    (answers : List Answer) (dst src wire : Bytes)
    → length src ≡ length dst
    → length src < 2 ^ 32
    → slurp (moved (length src) ∷ answers) dst 0 (src ++ wire) ≡ ok (src, wire)
unfolding slurp
slurp_whole answers dst src wire e h =
    rw
      (
        take-append_length,
        drop-append_length,
        overlay_all src dst e,
        ← e,
        unsigned_left_self (length src) h,
      )
      refl

pub send_rounds_whole :
    (answers : List Answer) (buf wire : Bytes)
    → send_rounds (moved (length buf) ∷ answers) buf 0 wire ≡ ok (wire ++ buf)
unfolding send_rounds
send_rounds_whole answers buf wire =
    let enough : leb (length buf) (0 + length buf) ≡ true = ground arith in
    rw (enough, take-length) refl

pub recv_rounds_whole :
    (answers : List Answer) (buf src wire : Bytes)
    → length src ≡ length buf
    → recv_rounds (moved (length src) ∷ answers) buf (length src) 0 (src ++ wire) ≡ ok (src, wire)
unfolding recv_rounds
recv_rounds_whole answers buf src wire e =
    let enough : leb (length src) (0 + length src) ≡ true = ground arith in
    rw (enough, take-append_length, drop-append_length, overlay_all src buf e) refl

-- Answers that move all of `n` bytes in pieces of one byte and more, none of them an error.
pub data Transfers : List Answer → ℕ → Type 0 where
  done : {answers : List Answer} → Transfers answers 0
  part :
      {answers : List Answer} (k : ℕ) {n : ℕ}
      → Transfers answers n
      → Transfers (moved (suc k) ∷ answers) (suc k + n)

send_list_none :
    (answers : List Answer) (msg : Bytes) (sent : ℕ) (wire : Bytes)
    → send_list answers msg 0 sent wire ≡ ok wire
unfolding send_list
send_list_none [] msg sent wire = refl
send_list_none (failed ∷ answers) msg sent wire = refl
send_list_none (moved k ∷ answers) msg sent wire = refl

send_list_moved :
    (answers : List Answer) (k n : ℕ) (pre post wire : Bytes)
    → send_list (moved (suc k) ∷ answers) (pre ++ post) (suc k + n) (length pre) wire
      ≡ send_list answers (pre ++ post) n (length pre + suc k) (wire ++ take (suc k) post)
unfolding send_list
send_list_moved answers k n pre post wire =
    let some_left : ((suc k + n) == 0) ≡ false = ground arith in
    let left : suc k + n - suc k ≡ n = omega arith in rw (some_left, left, drop-append_length) refl

-- The rounds that are left of the loop for the list of files send what is left of the text.
send_list_rest :
    {answers : List Answer} {n : ℕ} (pre post wire : Bytes)
    → Transfers answers n
    → n ≡ length post
    → send_list answers (pre ++ post) n (length pre) wire ≡ ok (wire ++ post)
send_list_rest {answers} pre [] wire done e =
    send_list_none answers (pre ++ []) (length pre) wire ∙ ap ok (sym (append-nil wire))
send_list_rest pre (x ∷ post) wire done e = cc
send_list_rest pre post wire (part {answers} k {n} t) e =
    let a = take (suc k) post in
    let b = drop (suc k) post in
    let whole : a ++ b ≡ post = take-append-drop (suc k) post in
    let text : pre ++ post ≡ (pre ++ a) ++ b =
      ap (λ r. pre ++ r) (sym whole) ∙ sym (append_assoc pre a b) in
    let offset : length pre + suc k ≡ length (pre ++ a) =
      omega (arith, length-append pre a, length-take (suc k) post, e) in
    let left : n ≡ length b = omega (arith, length-drop (suc k) post, e) in
    send_list_moved answers k n pre post wire
    ∙ ap₂ (λ m s. send_list answers m n s (wire ++ a)) text offset
    ∙ send_list_rest (pre ++ a) b (wire ++ a) t left
    ∙ ap ok (append_assoc wire a b ∙ ap (λ r. wire ++ r) whole)

-- The server's loop for the list of files sends the whole text, in whatever pieces the kernel takes
-- it, as long as no call fails.
pub send_list-sends :
    {answers : List Answer} (msg wire : Bytes)
    → Transfers answers (length msg)
    → send_list answers msg (length msg) 0 wire ≡ ok (wire ++ msg)
send_list-sends msg wire t = send_list_rest [] msg wire t refl

all_at_once : (n : ℕ) → Transfers (moved n ∷ []) n
all_at_once zero = done
all_at_once (suc k) = subst (λ m. Transfers (moved (suc k) ∷ []) m) (omega arith) (part k done)

pub send_list_whole :
    (msg wire : Bytes) (n : ℕ)
    → length msg ≡ n
    → send_list (moved n ∷ []) msg n 0 wire ≡ ok (wire ++ msg)
send_list_whole msg wire n e =
    subst (λ m. send_list (moved m ∷ []) msg m 0 wire ≡ ok (wire ++ msg)) e
      (send_list-sends msg wire (all_at_once (length msg)))
