-- ===== src/Shell/Examples.antt =====
-- Runs of the shell of ps5/shellp.c.
use cse.Base.{ℕ, zero, suc, ◌≡◌, refl, ◌+◌, ◌*◌, true, false, none, some, List, [], ◌∷◌, replicate}
use cse.Shell.Chars.{blank}
use cse.Shell.Line.{Line, NoNewline, trim_string}
use cse.Shell.Redirect.{
  no_redirects, extracted, extract_redirect, extract_from, spaces, after_spaces, name, after_name,
}
use cse.Shell.Redirect.Blanked.{Clean, extract_redirect-Clean}
use cse.Shell.Command.{Command, basic_cmd}
use cse.Shell.Pipeline.{Pipes}
use cse.Shell.Execute.{
  Os, executed, basic_execute, execute_kind, execute_command, is_zero, execute_command-stops,
}
use cse.Base.Int.{pos, negsuc}

-- "ls >f"
abbrev typed : List ℕ
typed = b'l' ∷ b's' ∷ blank ∷ b'>' ∷ b'f' ∷ []

typed-NoNewline : NoNewline typed
typed-NoNewline = (refl, (refl, (refl, (refl, (refl, tt)))))

replicate-NoNewline : (n : ℕ) → NoNewline (replicate n b'x')
replicate-NoNewline zero = tt
replicate-NoNewline (suc n) = (refl, replicate-NoNewline n)

extract_redirect-Clean_example : Clean 5 (extract_redirect typed)
extract_redirect-Clean_example = extract_redirect-Clean typed

-- "<f", which leaves two blanks
abbrev only_input : Line
only_input = record { text = b'<' ∷ b'f' ∷ []; rest = []; at_eof = false }

only_input-extracted :
    extract_redirect (trim_string only_input.text)
    ≡ extracted (blank ∷ blank ∷ []) (record no_redirects { inp = true; input = b'f' ∷ [] })
unfolding trim_string extract_redirect extract_from spaces after_spaces name after_name
only_input-extracted = refl

two_blanks : trim_string (blank ∷ blank ∷ []) ≡ []
unfolding trim_string
two_blanks = refl

-- Descriptors 3 and 4, then 5 and 6.
abbrev pipes : Pipes
pipes k = (2 * k + 3, 2 * k + 4)

-- "nope", whose program cannot be run, in the child
abbrev nope : Command
nope = record {
  kind = basic_cmd;
  com_text = b'n' ∷ b'o' ∷ [];
  mode = no_redirects;
  args = some (b'n' ∷ b'o' ∷ []) ∷ none ∷ [];
  stages = [];
}

abbrev in_child : Os
in_child = record {
  fork = pos 0;
  open_input = λ f. pos 9;
  open_output = λ a f. pos 9;
  dup2 = λ a b. pos b;
  execvp = λ f a. negsuc 0;
  waitpid = λ child. pos 42;
  pipes = pipes;
  input_fd = 9;
  output_fd = 9;
}

nope-runs : execute_command in_child nope ≡ some (executed [] (negsuc 0))
unfolding execute_command execute_kind basic_execute
nope-runs = refl

execute_command-stops_example : is_zero (negsuc 0) ≡ false
execute_command-stops_example =
    execute_command-stops in_child (λ file args. refl) (λ child. refl) nope nope-runs
