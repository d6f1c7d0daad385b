-- ===== src/FileServer/Partial.antt =====
-- The loops of ps6 when a call moves a part of the bytes: every round starts again at the first byte.
use cse.Base.{
  [], ap, ◌∙◌, ◌≢◌, drop, lt→ltb, length-replicate, ℕ, zero, suc, ◌+◌, ◌*◌, ◌^◌, ◌<◌, ◌≡◌, refl,
  List, ◌∷◌, ◌++◌, true, false, arith, leb, ◌==◌, length, replicate, take-append_length,
  drop-append_length,
}
use cse.FileServer.{
  Bytes, ok, stop, waiting, Answer, moved, glorp, recv_rounds, overlay, unsigned_left,
}
use cse.FileServer.Files.{FileSystem, file_name, receive_file_over_socket}

-- The buffer behind two pieces, the second not empty, has the second piece over the start of the first.
recv_rounds-pieces :
    (answers : List Answer) (xs ys buf wire : Bytes)
    → 0 < length ys
    → length buf ≡ length xs + length ys
    → recv_rounds
        (moved (length xs) ∷ moved (length ys) ∷ answers)
        buf
        (length xs + length ys)
        0
        (xs ++ (ys ++ wire))
      ≡ ok (overlay ys (overlay xs buf), wire)
unfolding recv_rounds
recv_rounds-pieces answers xs ys buf wire h e =
    let early : leb (length xs + length ys) (0 + length xs) ≡ false = ground arith in
    let late : leb (length xs + length ys) (0 + length xs + length ys) ≡ true = ground arith in
    rw (early, late, take-append_length, drop-append_length, take-append_length, drop-append_length)
      refl

drop-replicate :
    (xs : Bytes) (n : ℕ) → drop {A = ℕ} (length xs) (replicate (length xs + n) 0) ≡ replicate n 0
drop-replicate [] n = ap (λ k. replicate {A = ℕ} k 0) {x = 0 + n} (omega arith)
drop-replicate (x ∷ xs) n =
    let more : length (x ∷ xs) + n ≡ suc (length xs + n) = omega arith in
    ap (λ k. drop {A = ℕ} (suc (length xs)) (replicate k 0)) more ∙ drop-replicate xs n

-- What the two pieces `xs` and `ys` of a file leave in a buffer of zeros.
abbrev pub mixed : (xs ys : Bytes) → Bytes
mixed xs ys = ys ++ drop (length ys) (xs ++ replicate (length ys) 0)

-- When a file of less than 2 ^ 31 bytes, whose name fits, comes in two pieces that are not empty and
-- begin with different bytes, receiveFileOverSocket saves the second piece over the start of the first,
-- with zeros at the end, and that is not the file that was sent.
pub receive_file-pieces :
    (F : FileSystem) (rounds : ℕ → List Answer) (s : F.State) (fname ext fn wire : Bytes)
    (answers : List Answer) (x y : ℕ) (xs ys : Bytes)
    → x ≢ y
    → length (x ∷ xs) + length (y ∷ ys) < 2 ^ 31
    → file_name fname ext ≡ ok fn
    → rounds (length (x ∷ xs) + length (y ∷ ys))
      ≡ moved (length (x ∷ xs)) ∷ moved (length (y ∷ ys)) ∷ answers
    → (receive_file_over_socket F rounds s fname ext
          (length (x ∷ xs) + length (y ∷ ys))
          ((x ∷ xs) ++ ((y ∷ ys) ++ wire))
        ≡ ok (F.write s fn (mixed (x ∷ xs) (y ∷ ys)), wire))
      × (mixed (x ∷ xs) (y ∷ ys) ≢ (x ∷ xs) ++ (y ∷ ys))
unfolding receive_file_over_socket overlay
receive_file-pieces F rounds s fname ext fn wire answers x y xs ys differ small named pieces = (
  rw (lt→ltb (length (x ∷ xs) + length (y ∷ ys)) (2 ^ 31) small, pieces, received, named) refl,
  λ e. differ (head_same e),
)
  where
    buf : Bytes
    buf = replicate (length (x ∷ xs) + length (y ∷ ys)) 0

    received :
        recv_rounds
          (moved (length (x ∷ xs)) ∷ moved (length (y ∷ ys)) ∷ answers)
          (replicate (length (x ∷ xs) + length (y ∷ ys)) 0)
          (length (x ∷ xs) + length (y ∷ ys))
          0
          ((x ∷ xs) ++ ((y ∷ ys) ++ wire))
        ≡ ok (mixed (x ∷ xs) (y ∷ ys), wire)
    received =
        recv_rounds-pieces answers (x ∷ xs) (y ∷ ys) buf wire (omega arith) (length-replicate _ 0)
        ∙ ap (λ r. ok ((y ∷ ys) ++ drop (length (y ∷ ys)) ((x ∷ xs) ++ r), wire))
            (drop-replicate (x ∷ xs) (length (y ∷ ys)))

    head_same : {t u : Bytes} → y ∷ t ≡ x ∷ u → x ≡ y
    head_same e = cc

not_done : (size nb : ℕ) → size < nb → nb < 2 ^ 64 → (unsigned_left size nb == 0) ≡ false
unfolding unsigned_left
not_done size nb h k = ground arith

-- Behind a call that moves too much the loop goes on.
glorp_late :
    (src wire : Bytes) (rounds nb : ℕ)
    → length src < nb
    → nb + rounds * length src < 2 ^ 64
    → glorp (replicate rounds (moved (length src))) src nb wire ≡ stop waiting
unfolding glorp
glorp_late src wire zero nb h k = refl
glorp_late src wire (suc rounds) nb h k =
    let more : nb + length src + rounds * length src < 2 ^ 64 = grind arith in
    let small : nb + length src < 2 ^ 64 = omega (arith, more) in
    rw (not_done (length src) (nb + length src) (omega arith) small)
      (glorp_late src _ rounds (nb + length src) (omega arith) more)

not_done_yet :
    (size nb : ℕ) → nb < size → size < 2 ^ 32 → (unsigned_left size (0 + nb) == 0) ≡ false
unfolding unsigned_left
not_done_yet size nb h k = ground arith

-- When the first call of GLORP sends a part and every call behind it sends all that it is given, the
-- loop does not end (in as many rounds as the counter can count): the number of bytes sent has
-- passed the size, and the difference, which is unsigned, is not 0.
pub glorp-stuck :
    (src wire : Bytes) (k rounds : ℕ)
    → 0 < k
    → k < length src
    → length src < 2 ^ 32
    → k + suc rounds * length src < 2 ^ 64
    → glorp (moved k ∷ replicate (suc rounds) (moved (length src))) src 0 wire ≡ stop waiting
unfolding glorp
glorp-stuck src wire k rounds pos part small h =
    let more : 0 + k + length src + rounds * length src < 2 ^ 64 = grind arith in
    let bound : 0 + k + length src < 2 ^ 64 = omega (arith, more) in
    rw
      (
        not_done_yet (length src) k part small,
        not_done (length src) (0 + k + length src) (omega arith) bound,
      )
      (glorp_late src _ rounds (0 + k + length src) (omega arith) more)
