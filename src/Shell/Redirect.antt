-- ===== src/Shell/Redirect.antt =====
-- extractRedirect of ps5/shellp.c: the redirections of a line are taken out and blanked.
pub mod Blanked
use cse.Base.{
  ℕ, zero, suc, ◌+◌, ◌-◌, ◌≤◌, ◌<◌, ◌≡◌, refl, ap, ◌∙◌, ◌≢◌, inl, inr, Bool, true, false, ◌||◌,
  List, [], ◌∷◌, ◌++◌, arith, ltb, ◌==◌, if◌then◌else◌, length, replicate, All, All-append,
  length-append, length-replicate, Bool-cases,
}
use cse.Shell.Chars.{is_space, is_name, blank, less, greater, is_redir}

abbrev pub max_rd : ℕ
max_rd = 255

-- The bits R_INP, R_OUTP and R_APPD of the mode, and the two file names.
pub record Redirects : Type 0 where
  pub inp : Bool
  pub outp : Bool
  pub appd : Bool
  pub input : List ℕ
  pub output : List ℕ

abbrev pub no_redirects : Redirects
no_redirects = record { inp = false; outp = false; appd = false; input = []; output = [] }

-- The blanks at the front of a text, and what follows them.
unfoldable pub spaces : List ℕ → List ℕ
spaces [] = []
spaces (c ∷ s) = if is_space c then c ∷ spaces s else []

unfoldable pub after_spaces : List ℕ → List ℕ
after_spaces [] = []
after_spaces (c ∷ s) = if is_space c then after_spaces s else c ∷ s

-- The name at the front of a text, and what follows it.
unfoldable pub name : List ℕ → List ℕ
name [] = []
name (c ∷ s) = if is_name c then c ∷ name s else []

unfoldable pub after_name : List ℕ → List ℕ
after_name [] = []
after_name (c ∷ s) = if is_name c then after_name s else c ∷ s

-- Return 1 with the new buffer and redirections, or 0 with a message.
pub data Extracted : Type 0 where
  extracted : List ℕ → Redirects → Extracted
  ambiguous : Extracted
  too_long : Extracted
  out_of_fuel : Extracted

abbrev pub prepend : List ℕ → Extracted → Extracted
prepend s (extracted buf r) = extracted (s ++ buf) r
prepend s ambiguous = ambiguous
prepend s too_long = too_long
prepend s out_of_fuel = out_of_fuel

-- What is left in the buffer of a redirection whose sign has the given width.
abbrev pub blanked : ℕ → List ℕ → List ℕ
blanked width s =
    replicate width blank ++ (spaces s ++ replicate (length (name (after_spaces s))) blank)

-- The rest of a redirection behind its sign: blanks, a name of at most `max_rd` characters, and
-- whatever `next` makes of what follows.
abbrev pub file_name : ℕ → List ℕ → (List ℕ → List ℕ → Extracted) → Extracted
file_name width s next =
    let found = name (after_spaces s) in
    let rest = next found (after_name (after_spaces s)) in
    if ltb max_rd (length found) then too_long else prepend (blanked width s) rest

-- Whether `ptr[1]` is '>', and the text behind it.
abbrev pub starts_greater : List ℕ → Bool
starts_greater [] = false
starts_greater (c ∷ s) = c == greater

abbrev pub behind : List ℕ → List ℕ
behind [] = []
behind (c ∷ s) = s

unfoldable pub extract_from : ℕ → List ℕ → Redirects → Extracted
unfolding spaces after_spaces name after_name
extract_from zero buf r = out_of_fuel
extract_from (suc fuel) [] r = extracted [] r
extract_from (suc fuel) (c ∷ s) r =
    let plain = prepend (c ∷ []) (extract_from fuel s r) in
    let from_file =
      file_name 1 s (λ n t. extract_from fuel t (record r { inp = true; input = n })) in
    let append_file =
      file_name 2 (behind s) (λ n t. extract_from fuel t (record r { appd = true; output = n })) in
    let to_file =
      file_name 1 s (λ n t. extract_from fuel t (record r { outp = true; output = n })) in
    if c == less
    then (if r.inp then ambiguous else from_file)
    else (if c == greater
        then (if r.appd || r.outp
            then ambiguous
            else (if starts_greater s then append_file else to_file))
        else plain)

unfoldable pub extract_redirect : List ℕ → Extracted
unfolding extract_from
extract_redirect buf = extract_from (length buf + 1) buf no_redirects
