-- ===== src/Tokenizer/Words.antt =====
-- countTokens and tokenize against the words of a string.
use cse.Base.{
  ℕ, zero, suc, ◌+◌, ◌-◌, ◌≤◌, ◌≡◌, refl, ap, sym, ◌∙◌, inl, inr, Bool, true, false, ◌||◌, ◌&&◌,
  not, List, [], ◌∷◌, arith, ◌==◌, if◌then◌else◌, length, take, take-length, Bool-cases,
}
use cse.Tokenizer.{
  dup_string, count_loop, count_tokens, skip_delim, token_end, tokenize_loop, tokenize,
}

-- Puts a character in front of the first word of a list.
abbrev onto_first : ℕ → List (List ℕ) → List (List ℕ)
onto_first c [] = (c ∷ []) ∷ []
onto_first c (w ∷ ws) = (c ∷ w) ∷ ws

abbrev starts_word : List ℕ → ℕ → Bool
starts_word [] delim = false
starts_word (c ∷ s) delim = not (c == delim)

-- The words of a string: its longest runs without a delimiter, in order.
unfoldable pub words : List ℕ → ℕ → List (List ℕ)
words [] delim = []
words (c ∷ s) delim =
    let ws = words s delim in
    if c == delim then ws else (if starts_word s delim then onto_first c ws else (c ∷ []) ∷ ws)

-- The last character is a word by itself, behind a delimiter.
unfoldable pub lone_end : List ℕ → ℕ → Bool
lone_end [] delim = false
lone_end (c ∷ []) delim = false
lone_end (b ∷ c ∷ []) delim = (b == delim) && not (c == delim)
lone_end (b ∷ c ∷ d ∷ s) delim = lone_end (c ∷ d ∷ s) delim

abbrev pub bit : Bool → ℕ
bit true = 1
bit false = 0

length-onto_first : (c : ℕ) (ws : List (List ℕ)) → length (onto_first c ws) ≡ (length ws - 1) + 1
length-onto_first c [] = refl
length-onto_first c (w ∷ ws) = omega arith

starts_word-words :
    (s : List ℕ) (delim : ℕ) → starts_word s delim ≡ true → 1 ≤ length (words s delim)
unfolding words
starts_word-words [] delim h = cc
starts_word-words (c ∷ s) delim h = ground (arith, length-onto_first c (words s delim))

length-words :
    (b : ℕ) (s : List ℕ) (delim : ℕ)
    → length (words (b ∷ s) delim)
      ≡ bit (not (b == delim) && not (starts_word s delim)) + length (words s delim)
unfolding words
length-words b [] delim = ground arith
length-words b (c ∷ s) delim =
    ground (arith, length-onto_first b (words (c ∷ s) delim), starts_word-words (c ∷ s) delim)

count_loop-step :
    (c d : ℕ) (s : List ℕ) (delim i cnt : ℕ)
    → count_loop (c ∷ d ∷ s) delim i cnt
      ≡ count_loop (d ∷ s) delim (if c == delim then 0 else 1) (cnt + (if c == delim then i else 0))
unfolding count_loop
count_loop-step c d s delim i cnt =
    ap (count_loop (d ∷ s) delim (if c == delim then 0 else 1)) added
  where
    added : (if (c == delim) || false then cnt + i else cnt) ≡ cnt + (if c == delim then i else 0)
    added = ground arith

lone_end-step :
    (b c d : ℕ) (s : List ℕ) (delim : ℕ)
    → lone_end (b ∷ c ∷ d ∷ s) delim ≡ lone_end (c ∷ d ∷ s) delim
unfolding lone_end
lone_end-step b c d s delim = refl

count_loop-one :
    (b c delim cnt : ℕ)
    → count_loop (c ∷ []) delim (if b == delim then 0 else 1) cnt
        + bit (lone_end (b ∷ c ∷ []) delim)
      ≡ cnt + length (words (b ∷ c ∷ []) delim)
unfolding count_loop words lone_end
count_loop-one b c delim cnt = ground arith

-- The loop behind a character `b` adds the words of the rest with `b` in front, but a last word of
-- one character.
count_loop-words :
    (s : List ℕ) (b c delim cnt : ℕ)
    → count_loop (c ∷ s) delim (if b == delim then 0 else 1) cnt + bit (lone_end (b ∷ c ∷ s) delim)
      ≡ cnt + length (words (b ∷ c ∷ s) delim)
count_loop-words [] b c delim cnt = count_loop-one b c delim cnt
count_loop-words (d ∷ s) b c delim cnt = ground (
  arith,
  count_loop-step c d s delim (if b == delim then 0 else 1) cnt,
  lone_end-step b c d s delim,
  length-words b (c ∷ d ∷ s) delim,
  count_loop-words s c d delim (cnt + (if c == delim then (if b == delim then 0 else 1) else 0)),
)

count_tokens-cons :
    (c d : ℕ) (s : List ℕ) (delim : ℕ)
    → count_tokens (c ∷ d ∷ s) delim ≡ count_loop (d ∷ s) delim (if c == delim then 0 else 1) 0
unfolding count_tokens
count_tokens-cons c d s delim =
    ground (arith, count_loop-step c d s delim (if c == delim then 0 else 1) 0)

count_tokens-short :
    (c delim : ℕ)
    → (count_tokens [] delim ≡ 0) × (count_tokens (c ∷ []) delim ≡ length (words (c ∷ []) delim))
unfolding count_tokens count_loop words
count_tokens-short c delim = (refl, ground arith)

-- countTokens is the number of words, but one less if the last word is a single character behind a
-- delimiter.
pub count_tokens-words :
    (s : List ℕ) (delim : ℕ)
    → count_tokens s delim + bit (lone_end s delim) ≡ length (words s delim)
unfolding lone_end words
count_tokens-words [] delim = rw ((count_tokens-short 0 delim).0, words)
count_tokens-words (c ∷ []) delim = omega (arith, (count_tokens-short c delim).1)
count_tokens-words (c ∷ d ∷ s) delim =
    omega (arith, count_tokens-cons c d s delim, count_loop-words s c d delim 0)

words-skip_delim : (s : List ℕ) (delim : ℕ) → words (skip_delim s delim) delim ≡ words s delim
unfolding words skip_delim
words-skip_delim [] delim = refl
words-skip_delim (c ∷ s) delim = elim (Bool-cases (c == delim)) [
  | inl e ↦ rw e (words-skip_delim s delim)
  | inr e ↦ rw (e, e)
]

length-token_end : (s : List ℕ) (delim : ℕ) → length (token_end s delim) ≤ length s
unfolding token_end
length-token_end [] delim = omega arith
length-token_end (c ∷ s) delim = ground (arith, length-token_end s delim)

token_end-stops : (s : List ℕ) (delim : ℕ) → starts_word s delim ≡ false → token_end s delim ≡ s
unfolding token_end
token_end-stops [] delim h = refl
token_end-stops (c ∷ s) delim h = ground arith

token_end-inside :
    (c : ℕ) (s : List ℕ) (delim : ℕ)
    → (c == delim) ≡ false
    → token_end (c ∷ s) delim ≡ token_end s delim
unfolding token_end
token_end-inside c s delim h = rw h

words-inside :
    (c : ℕ) (s : List ℕ) (delim : ℕ)
    → (c == delim) ≡ false
    → words (c ∷ s) delim
      ≡ (if starts_word s delim then onto_first c (words s delim) else (c ∷ []) ∷ words s delim)
unfolding words
words-inside c s delim h = rw h

-- The part before `tokenEnd` is the first word, if the string begins with one.
words-token_end :
    (s : List ℕ) (delim : ℕ)
    → starts_word s delim ≡ true
    → words s delim
      ≡ take (length s - length (token_end s delim)) s ∷ words (token_end s delim) delim
words-token_end [] delim h = cc
words-token_end (c ∷ s) delim h = elim (Bool-cases (starts_word s delim)) [
  | inl e ↦ rw (
    words-inside c s delim inside,
    token_end-inside c s delim inside,
    e,
    words-token_end s delim e,
    longer,
  )
  | inr e ↦ rw (
    words-inside c s delim inside,
    token_end-inside c s delim inside,
    e,
    token_end-stops s delim e,
    alone,
  )
]
  where
    inside : (c == delim) ≡ false
    inside = ground arith

    longer :
        suc (length s) - length (token_end s delim) ≡ suc (length s - length (token_end s delim))
    longer = omega (arith, length-token_end s delim)

    alone : suc (length s) - length s ≡ 1
    alone = omega arith

skip_delim-starts :
    (s : List ℕ) (delim : ℕ)
    → 1 ≤ length (words s delim)
    → starts_word (skip_delim s delim) delim ≡ true
unfolding words skip_delim
skip_delim-starts [] delim h = elim h [ ]
skip_delim-starts (c ∷ s) delim h = elim (Bool-cases (c == delim)) [
  | inl e ↦ rw e (skip_delim-starts s delim (rw e at h))
  | inr e ↦ rw e (rw e)
]

tokenize_loop-take :
    (n : ℕ) (s : List ℕ) (delim : ℕ)
    → n ≤ length (words s delim)
    → tokenize_loop n (skip_delim s delim) delim ≡ take n (words s delim)
unfolding tokenize_loop dup_string
tokenize_loop-take zero s delim h = refl
tokenize_loop-take (suc n) s delim h =
    rw (split, tokenize_loop-take n (token_end t delim) delim (omega (arith, ap length split)))
  where
    t : List ℕ
    t = skip_delim s delim

    split :
        words s delim
        ≡ take (length t - length (token_end t delim)) t ∷ words (token_end t delim) delim
    split =
        sym (words-skip_delim s delim)
        ∙ words-token_end t delim (skip_delim-starts s delim (omega arith))

-- `tokenize` returns the first words of the string, as many as countTokens says, in order.
pub tokenize-take :
    (s : List ℕ) (delim : ℕ) → tokenize s delim ≡ take (count_tokens s delim) (words s delim)
unfolding tokenize
tokenize-take s delim =
    tokenize_loop-take (count_tokens s delim) s delim (omega (arith, count_tokens-words s delim))

-- Unless the last word is a single character behind a delimiter, `tokenize` returns all words.
pub tokenize-words :
    (s : List ℕ) (delim : ℕ) → lone_end s delim ≡ false → tokenize s delim ≡ words s delim
tokenize-words s delim h = rw (tokenize-take s delim, all) (take-length (words s delim))
  where
    all : count_tokens s delim ≡ length (words s delim)
    all = ground (arith, count_tokens-words s delim)
