-- ===== src/Pipes/Relay.antt =====
-- The round trip of a message in lab6/pipes.c.
use cse.Base.{
  ℕ, suc, ◌+◌, ◌-◌, ◌*◌, ◌%◌, ◌^◌, ◌≤◌, ◌<◌, ◌≡◌, ◌≢◌, refl, true, false, ◌||◌, some, List, [], ◌∷◌,
  ◌++◌, map, arith, ltb, ◌==◌, if◌then◌else◌, All,
}
use cse.Pipes.{newline, buffer_size, write_message, read_from, cs_encrypt, cs_decrypt, relay}

-- The bytes of a line: neither a NUL nor a newline.
abbrev pub Visible : ℕ → Type 0
Visible c = (0 < c) × (c ≢ newline)

-- The bytes of a line whose successors are bytes of a line too: not 9 and not 255.
abbrev pub Safe : ℕ → Type 0
Safe c = (0 < c) × (c < 255) × (c ≢ newline) × (c ≢ 9)

abbrev pub line : List ℕ → List ℕ
line text = text ++ (newline ∷ [])

abbrev pub shift : List ℕ → List ℕ
shift text = map (λ c. c + 1) text

write_message-line : (text : List ℕ) → All Visible text → write_message (line text) ≡ line text
unfolding write_message
write_message-line [] h = refl
write_message-line (c ∷ text) h = rw (not_nul c h.0.0, write_message-line text h.1) refl
  where
    not_nul : (c : ℕ) → 0 < c → (c == 0) ≡ false
    not_nul c h = ground arith

room_left : (i bcap : ℕ) → i + 2 ≤ bcap → suc i + 2 ≤ (if i == bcap - 2 then bcap * 2 else bcap)
room_left i bcap room = ground arith

ltb-room : (i bcap : ℕ) → i + 2 ≤ bcap → ltb i bcap ≡ true
ltb-room i bcap room = ground arith

not_newline : (c : ℕ) → c ≢ newline → (c == newline) ≡ false
not_newline c h = ground arith

read_from-line :
    (i bcap : ℕ) (text : List ℕ)
    → i + 2 ≤ bcap
    → All Visible text
    → read_from i bcap (line text) ≡ some (line text, [])
unfolding read_from
read_from-line i bcap [] room h =
    rw (ltb-room i bcap room, ltb-room (suc i) _ (room_left i bcap room)) refl
read_from-line i bcap (c ∷ text) room h =
    rw
      (
        ltb-room i bcap room,
        not_newline c h.0.1,
        read_from-line (suc i) _ text (room_left i bcap room) h.1,
      )
      refl

cs_encrypt-line : (text : List ℕ) → All Safe text → cs_encrypt (line text) ≡ line (shift text)
unfolding cs_encrypt
cs_encrypt-line [] h = refl
cs_encrypt-line (c ∷ text) h =
    rw (guard c h.0, next c h.0, positive c, cs_encrypt-line text h.1) refl
  where
    guard : (c : ℕ) → Safe c → (c == 0 || c == newline) ≡ false
    guard c safe = ground (arith, safe)

    next : (c : ℕ) → Safe c → (c + 1) % 2 ^ 8 ≡ c + 1
    next c safe = omega (arith, safe)

    positive : (c : ℕ) → (c + 1 == 0) ≡ false
    positive c = ground arith

cs_decrypt-line : (text : List ℕ) → All Safe text → cs_decrypt (line (shift text)) ≡ line text
unfolding cs_decrypt
cs_decrypt-line [] h = refl
cs_decrypt-line (c ∷ text) h =
    rw (guard c h.0, next c h.0, positive c h.0.0, cs_decrypt-line text h.1) refl
  where
    guard : (c : ℕ) → Safe c → (c + 1 == 0 || c + 1 == newline) ≡ false
    guard c safe = ground (arith, safe)

    next : (c : ℕ) → Safe c → (c + 1 + 255) % 2 ^ 8 ≡ c
    next c safe = omega (arith, safe)

    positive : (c : ℕ) → 0 < c → (c == 0) ≡ false
    positive c h = ground arith

Visible-of_Safe : (text : List ℕ) → All Safe text → All Visible text
Visible-of_Safe [] h = tt
Visible-of_Safe (c ∷ text) h = ((h.0.0, h.0.2), Visible-of_Safe text h.1)

Visible-shift : (text : List ℕ) → All Safe text → All Visible (shift text)
Visible-shift [] h = tt
Visible-shift (c ∷ text) h = ((omega arith, λ e. h.0.3 (omega arith)), Visible-shift text h.1)

-- A line of any length without the bytes 0, 9, 10 and 255 goes through both children: no access leaves
-- the growing buffers, child 2 prints the line with every byte one higher, and the parent prints the
-- line it sent.
pub relay-line :
    (text : List ℕ) → All Safe text → relay (line text) ≡ some (line (shift text), line text)
unfolding relay
relay-line text h =
    rw
      (
        write_message-line text (Visible-of_Safe text h),
        read_from-line 0 buffer_size text (omega arith) (Visible-of_Safe text h),
        cs_encrypt-line text h,
        write_message-line (shift text) (Visible-shift text h),
        read_from-line 0 buffer_size (shift text) (omega arith) (Visible-shift text h),
        write_message-line (shift text) (Visible-shift text h),
        read_from-line 0 buffer_size (shift text) (omega arith) (Visible-shift text h),
        cs_decrypt-line text h,
      )
      refl
