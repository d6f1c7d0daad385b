-- ===== src/Shell/Execute.antt =====
-- executeCommand and basicExecute of ps5/shellp.c. What the operating system answers is a parameter.
use cse.Base.{
  ℕ, ◌≡◌, refl, sym, ap, inl, inr, Bool, true, false, ◌||◌, Option, none, some, List, [], ◌∷◌,
  if◌then◌else◌, ◌>>=◌, ◌>>◌, assert, zero, suc, ◌==◌, get_elem?, Bool-cases,
}
use mathlib.Core.Option.{some-injective}
use cse.Base.Int.{ℤ, pos, negsuc}
use cse.Shell.Command.{
  Kind, no_cmd, exit_cmd, cd_cmd, pwd_cmd, link_cmd, rm_cmd, basic_cmd, pipeline_cmd, Stage,
  Command,
}
use cse.Shell.Pipeline.{Pipes, setup_command_pipeline}

-- The answers of fork, open, dup2, execvp (when it returns at all), waitpid and pipe.
pub record Os : Type 0 where
  pub fork : ℤ
  pub open_input : List ℕ → ℤ
  pub open_output : (append : Bool) → List ℕ → ℤ
  pub dup2 : ℤ → ℕ → ℤ
  pub execvp : List ℕ → List (Option (List ℕ)) → ℤ
  pub waitpid : ℤ → ℤ
  pub pipes : Pipes
  pub input_fd : ℕ
  pub output_fd : ℕ

-- The other calls that a command makes of the system.
pub data Call : Type 0 where
  chdir : Option (Option (List ℕ)) → Call
  getcwd : Call
  link : Option (Option (List ℕ)) → Option (Option (List ℕ)) → Call
  unlink : Option (Option (List ℕ)) → Call
  spawn_all : List Stage → Call

abbrev pub is_zero : ℤ → Bool
is_zero (pos zero) = true
is_zero (pos (suc n)) = false
is_zero (negsuc n) = false

abbrev pub is_fd : ℤ → ℕ → Bool
is_fd (pos n) m = n == m
is_fd (negsuc n) m = false

-- In the child `execvp` returns only when it fails, and basicExecute with it; `none` is a failed
-- `assert`.
unfoldable pub basic_execute : Os → Command → Option ℤ
basic_execute os c =
    let fed =
      if c.mode.inp then assert (is_fd (os.dup2 (os.open_input c.mode.input) 0) 0) else some tt in
    let ofd = os.open_output c.mode.appd c.mode.output in
    let drained =
      if c.mode.outp || c.mode.appd then assert (is_fd (os.dup2 ofd 1) 1) else some tt in
    if is_zero os.fork
    then fed >> (drained >> some (os.execvp c.com_text c.args))
    else some (os.waitpid os.fork)

abbrev pub arg : Command → ℕ → Option (Option (List ℕ))
arg c i = get_elem? c.args i

-- The calls made, and the value that decides whether the loop of main goes on.
pub data Executed : Type 0 where
  executed : List Call → ℤ → Executed

abbrev pub result : Executed → ℤ
result (executed calls rv) = rv

unfoldable pub execute_kind : Os → Command → Kind → Option Executed
execute_kind os c cd_cmd = some (executed (chdir (arg c 0) ∷ []) (pos 1))
execute_kind os c pwd_cmd = some (executed (getcwd ∷ []) (pos 1))
execute_kind os c exit_cmd = some (executed [] (pos 0))
execute_kind os c link_cmd = some (executed (link (arg c 0) (arg c 1) ∷ []) (pos 1))
execute_kind os c rm_cmd = some (executed (unlink (arg c 0) ∷ []) (pos 1))
execute_kind os c basic_cmd = basic_execute os c >>= λ rv. some (executed [] rv)
execute_kind os c pipeline_cmd =
    some (
      executed (spawn_all (setup_command_pipeline os.pipes os.input_fd os.output_fd c) ∷ [])
        (pos 1))
execute_kind os c no_cmd = some (executed [] (pos 1))

unfoldable pub execute_command : Os → Command → Option Executed
unfolding execute_kind basic_execute
execute_command os c = execute_kind os c c.kind

abbrev pub is_exit : Kind → Bool
is_exit exit_cmd = true
is_exit no_cmd = false
is_exit cd_cmd = false
is_exit pwd_cmd = false
is_exit link_cmd = false
is_exit rm_cmd = false
is_exit basic_cmd = false
is_exit pipeline_cmd = false

after_checks : (a b : Option (Unit {0})) (x y : ℤ) → (a >> (b >> some x)) ≡ some y → x ≡ y
after_checks none b x y e = cc
after_checks (some u) none x y e = cc
after_checks (some u) (some v) x y e = some-injective _ _ e

same_result : {d r : Executed} → some d ≡ some r → is_zero (result r) ≡ is_zero (result d)
same_result e = ap (λ r. is_zero (result r)) (sym (some-injective _ _ e))

basic_result :
    (o : Option ℤ) (r : Executed)
    → (o >>= λ rv. some (executed [] rv)) ≡ some r
    → o ≡ some (result r)
basic_result none r e = cc
basic_result (some rv) r e = ap some (ap result (some-injective _ _ e))

module _ (os : Os)
    (execvp_fails : (file : List ℕ) (args : List (Option (List ℕ)))
      → os.execvp file args ≡ negsuc 0)
    (waitpid_returns : (child : ℤ) → is_zero (os.waitpid child) ≡ false) where
  basic_execute-goes_on : (c : Command) (rv : ℤ) → basic_execute os c ≡ some rv → is_zero rv ≡ false
  unfolding basic_execute
  basic_execute-goes_on c rv e = elim (Bool-cases (is_zero os.fork)) [
    | inl child ↦
        rw (sym (after_checks _ _ _ _ (rw child at e)), execvp_fails c.com_text c.args) refl
    | inr parent ↦ rw (sym (some-injective _ _ (rw parent at e))) (waitpid_returns os.fork)
  ]

  execute_kind-stops :
      (c : Command) (k : Kind) (r : Executed)
      → execute_kind os c k ≡ some r
      → is_zero (result r) ≡ is_exit k
  unfolding execute_kind
  execute_kind-stops c basic_cmd r e =
      basic_execute-goes_on c (result r) (basic_result (basic_execute os c) r e)
  execute_kind-stops c cd_cmd r e = same_result e
  execute_kind-stops c pwd_cmd r e = same_result e
  execute_kind-stops c exit_cmd r e = same_result e
  execute_kind-stops c link_cmd r e = same_result e
  execute_kind-stops c rm_cmd r e = same_result e
  execute_kind-stops c pipeline_cmd r e = same_result e
  execute_kind-stops c no_cmd r e = same_result e

  -- When `execvp` returns -1 if it returns, and `waitpid` never returns 0, the loop of main ends
  -- behind the exit command and behind no other, unless an `assert` fails: also a child whose
  -- program cannot be run goes on to read commands.
  pub execute_command-stops :
      (c : Command) {r : Executed}
      → execute_command os c ≡ some r
      → is_zero (result r) ≡ is_exit c.kind
  unfolding execute_command
  execute_command-stops c {r} e = execute_kind-stops c c.kind r e
