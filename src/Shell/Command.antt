-- ===== src/Shell/Command.antt =====
-- The Command and Stage objects of ps5/shellp.h and shellp.c, and the parse of a line in makeCommand.
use cse.Base.{
  ℕ, zero, suc, ◌+◌, ◌≡◌, refl, Bool, true, false, ◌&&◌, ◌||◌, Option, none, some, List, [], ◌∷◌,
  ◌++◌, map, ltb, ◌==◌, if◌then◌else◌, length, get_elem?, set, ◌>>=◌, ◌>>◌, assert,
}
use cse.Shell.Chars.{bar}
use cse.Shell.Line.{Line, trim_string}
use cse.Shell.Redirect.{
  Redirects, no_redirects, Extracted, extracted, ambiguous, too_long, out_of_fuel, extract_redirect,
}
use cse.Shell.Words.{Buffer, skip_spaces, find_end, skip_ws, cut_word, string_at}

pub data Kind : Type 0 where
  no_cmd : Kind
  exit_cmd : Kind
  cd_cmd : Kind
  pwd_cmd : Kind
  link_cmd : Kind
  rm_cmd : Kind
  basic_cmd : Kind
  pipeline_cmd : Kind

-- A file descriptor of -1 is `none`, and so is a NULL argument.
pub record Stage : Type 0 where
  pub args : List (Option (List ℕ))
  pub fdin : Option ℕ
  pub fdout : Option ℕ

pub record Command : Type 0 where
  pub kind : Kind
  pub com_text : List ℕ
  pub mode : Redirects
  pub args : List (Option (List ℕ))
  pub stages : List Stage

-- `allocCommand`, with the redirections that makeCommand then sets.
abbrev pub alloc_command : Redirects → Command
alloc_command r = record { kind = no_cmd; com_text = []; mode = r; args = []; stages = [] }

abbrev pub set_command : Command → Kind → List ℕ → Command
set_command c k text = record c { kind = k; com_text = text }

-- The arguments and the NULL behind them: `_nba` is one more than `nb`.
abbrev pub set_command_args : Command → List (List ℕ) → Command
set_command_args c args = record c { args = map some args ++ (none ∷ []) }

abbrev pub alloc_stage : List (List ℕ) → Stage
alloc_stage args = record { args = map some args ++ (none ∷ []); fdin = none; fdout = none }

abbrev pub add_command_stage : Command → Stage → Command
add_command_stage c s = record c { stages = c.stages ++ (s ∷ []) }

-- The strings that an array of pointers into the buffer stands for.
abbrev pub strings : Buffer → List ℕ → List (List ℕ)
strings buf args = map (string_at buf) args

-- The loop over the words of a basic command; `args` is `args[0 .. nba - 1]`.
unfoldable pub basic_args : ℕ → Buffer → ℕ → List ℕ → Option (Buffer × List ℕ)
basic_args zero buf arg args = none
basic_args (suc fuel) buf arg args = do
  c ← get_elem? buf arg
  let more = (do
    r ← cut_word buf arg
    next ← skip_ws r.0 r.1
    assert (ltb (length args + 1) 1024)
    basic_args fuel r.0 next (args ++ (arg ∷ [])))
  if c == 0 then some (buf, args) else more

-- The loop over the words of a pipeline and the stage added behind it. `args` has 512 elements.
unfoldable pub pipeline_stages : ℕ → Buffer → ℕ → List ℕ → Command → Option Command
pipeline_stages zero buf arg args cmd = none
pipeline_stages (suc fuel) buf arg args cmd = do
  c ← get_elem? buf arg
  let ended = set buf arg 0
  let stage = add_command_stage cmd (alloc_stage (strings ended args))
  let next_stage = (do
    a ← skip_ws ended (suc arg)
    r ← cut_word ended a
    pipeline_stages fuel r.0 r.1 (a ∷ []) stage)
  let next_arg = (do
    assert (ltb (length args) 512)
    r ← cut_word buf arg
    a ← skip_ws r.0 r.1
    pipeline_stages fuel r.0 a (args ++ (arg ∷ [])) cmd)
  if c == 0
      then some (add_command_stage cmd (alloc_stage (strings buf args)))
      else (if c == bar then next_stage else next_arg)

-- `strcmp(a, b) == 0`
abbrev pub eq_text : List ℕ → List ℕ → Bool
eq_text [] [] = true
eq_text (a ∷ s) (b ∷ t) = a == b && eq_text s t
eq_text s t = false

abbrev pub contains : ℕ → List ℕ → Bool
contains d [] = false
contains d (c ∷ s) = c == d || contains d s

abbrev pub cd_word : List ℕ
cd_word = b'c' ∷ b'd' ∷ []

abbrev pub pwd_word : List ℕ
pwd_word = b'p' ∷ b'w' ∷ b'd' ∷ []

abbrev pub ln_word : List ℕ
ln_word = b'l' ∷ b'n' ∷ []

abbrev pub rm_word : List ℕ
rm_word = b'r' ∷ b'm' ∷ []

abbrev pub exit_word : List ℕ
exit_word = b'e' ∷ b'x' ∷ b'i' ∷ b't' ∷ []

-- A command of one file name: cd, rm.
abbrev pub one_arg : Command → Buffer → ℕ → Option Command
one_arg c buf ec = do
  a0 ← skip_ws buf ec
  r ← cut_word buf a0
  some (set_command_args c (string_at r.0 a0 ∷ []))

-- A command of two file names: ln.
abbrev pub two_args : Command → Buffer → ℕ → Option Command
two_args c buf ec = do
  a0 ← skip_ws buf ec
  r ← cut_word buf a0
  a1 ← skip_ws r.0 r.1
  q ← cut_word r.0 a1
  some (set_command_args c (string_at q.0 a0 ∷ string_at q.0 a1 ∷ []))

abbrev pub basic : Command → Buffer → ℕ → ℕ → Option Command
basic c buf sc ec = do
  r ← basic_args (length buf) buf ec (sc ∷ [])
  some (set_command_args (set_command c basic_cmd (string_at r.0 sc)) (strings r.0 r.1))

abbrev pub pipeline : Command → Buffer → ℕ → ℕ → Option Command
pipeline c buf sc ec = do
  arg ← skip_ws buf ec
  pipeline_stages (length buf) buf arg (sc ∷ []) (set_command c pipeline_cmd [])

-- The words of a buffer that ends in a NUL: `sc` is the first one, `ec` is behind it.
unfoldable pub parse : Command → Buffer → Option Command
parse c line = do
  sc ← skip_ws line 0
  r ← cut_word line sc
  let buf = r.0
  let ec = r.1
  let word = string_at buf sc
  if eq_text word cd_word
      then one_arg (set_command c cd_cmd word) buf ec
      else (if eq_text word pwd_word
          then some (set_command c pwd_cmd word)
          else (if eq_text word ln_word
              then two_args (set_command c link_cmd word) buf ec
              else (if eq_text word rm_word
                  then one_arg (set_command c rm_cmd word) buf ec
                  else (if eq_text word exit_word
                      then some (set_command c exit_cmd word)
                      else (if eq_text word []
                          then some c
                          else (if contains bar (string_at buf ec)
                              then pipeline c buf sc ec
                              else basic c buf sc ec))))))

-- What makeCommand does with the outcome of extractRedirect; the redirections found before an error
-- are not kept.
abbrev pub with_redirects : Extracted → Option Command
with_redirects (extracted buf r) = parse (alloc_command r) (trim_string buf ++ (0 ∷ []))
with_redirects ambiguous = some (alloc_command no_redirects)
with_redirects too_long = some (alloc_command no_redirects)
with_redirects out_of_fuel = none

-- makeCommand on a line that was read.
unfoldable pub make_command : Line → Option Command
make_command l =
    if l.at_eof
    then some (set_command (alloc_command no_redirects) exit_cmd exit_word)
    else with_redirects (extract_redirect (trim_string l.text))

-- When nothing is left of the line but blanks and redirections, `make_command` reads the character in
-- front of the buffer, which is a fault.
pub make_command-empty :
    (l : Line) (buf : List ℕ) (r : Redirects)
    → l.at_eof ≡ false
    → extract_redirect (trim_string l.text) ≡ extracted buf r
    → trim_string buf ≡ []
    → make_command l ≡ none
unfolding make_command parse skip_ws cut_word skip_spaces find_end
make_command-empty l buf r more e blank = rw (more, e, blank) refl
