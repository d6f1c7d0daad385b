-- ===== src/Shell/Pipeline.antt =====
-- setupCommandPipeline of ps5/shellp.c: the descriptors that the stages of a pipeline are given before
-- they are spawned. `pipe` and `open` are the system's: the descriptors they return are parameters.
use cse.Base.{
  ℕ, zero, suc, ◌+◌, ◌≡◌, refl, ap, ◌∙◌, Bool, true, false, ◌||◌, Option, none, some, List, [], ◌∷◌,
  arith, if◌then◌else◌, length, ◌<◌,
}
use cse.Shell.Command.{Stage, Command}

abbrev pub set_stage_input : Stage → ℕ → Stage
set_stage_input s fd = record s { fdin = some fd }

abbrev pub set_stage_output : Stage → ℕ → Stage
set_stage_output s fd = record s { fdout = some fd }

-- The two ends of the `k`-th pipe: the end to read from and the end to write to.
abbrev pub Pipes : Type 0
Pipes = ℕ → ℕ × ℕ

-- `for (int stg = 0; stg < (c->_nbs - 1); stg++)`, from the pipe of number `k` on
unfoldable pub wire : Pipes → ℕ → List Stage → List Stage
wire pp k [] = []
wire pp k (s ∷ []) = s ∷ []
wire pp k (s ∷ t ∷ stages) =
    set_stage_output s (pp k).1 ∷ wire pp (suc k) (set_stage_input t (pp k).0 ∷ stages)

abbrev pub on_first : (Stage → Stage) → List Stage → List Stage
on_first f [] = []
on_first f (s ∷ stages) = f s ∷ stages

abbrev pub on_last : (Stage → Stage) → List Stage → List Stage
on_last f [] = []
on_last f (s ∷ []) = f s ∷ []
on_last f (s ∷ t ∷ stages) = s ∷ on_last f (t ∷ stages)

-- `infd` and `outfd` are what `open` returns for the input and the output file.
unfoldable pub setup_command_pipeline : Pipes → (infd outfd : ℕ) → Command → List Stage
setup_command_pipeline pp infd outfd c =
    let wired = wire pp 0 c.stages in
    let fed = if c.mode.inp then on_first (λ s. set_stage_input s infd) wired else wired in
    if c.mode.outp || c.mode.appd then on_last (λ s. set_stage_output s outfd) fed else fed

-- The descriptors of the stage at a place of a pipeline.
abbrev pub input_of : List Stage → ℕ → Option (Option ℕ)
input_of [] i = none
input_of (s ∷ stages) zero = some s.fdin
input_of (s ∷ stages) (suc i) = input_of stages i

abbrev pub output_of : List Stage → ℕ → Option (Option ℕ)
output_of [] i = none
output_of (s ∷ stages) zero = some s.fdout
output_of (s ∷ stages) (suc i) = output_of stages i

wire-first :
    (pp : Pipes) (k : ℕ) (s : Stage) (stages : List Stage)
    → input_of (wire pp k (s ∷ stages)) 0 ≡ some s.fdin
unfolding wire
wire-first pp k s [] = refl
wire-first pp k s (t ∷ stages) = refl

wire-output :
    (pp : Pipes) (k : ℕ) (stages : List Stage) (i : ℕ)
    → suc i < length stages
    → output_of (wire pp k stages) i ≡ some (some (pp (k + i)).1)
unfolding wire
wire-output pp k [] i h = ground arith
wire-output pp k (s ∷ []) i h = ground arith
wire-output pp k (s ∷ t ∷ stages) zero h = ap (λ n. some (some (pp n).1)) (omega arith)
wire-output pp k (s ∷ t ∷ stages) (suc i) h =
    wire-output pp (suc k) (set_stage_input t (pp k).0 ∷ stages) i (omega arith)
    ∙ ap (λ n. some (some (pp n).1)) (omega arith)

wire-input :
    (pp : Pipes) (k : ℕ) (stages : List Stage) (i : ℕ)
    → suc i < length stages
    → input_of (wire pp k stages) (suc i) ≡ some (some (pp (k + i)).0)
unfolding wire
wire-input pp k [] i h = ground arith
wire-input pp k (s ∷ []) i h = ground arith
wire-input pp k (s ∷ t ∷ stages) zero h =
    wire-first pp (suc k) (set_stage_input t (pp k).0) stages
    ∙ ap (λ n. some (some (pp n).0)) (omega arith)
wire-input pp k (s ∷ t ∷ stages) (suc i) h =
    wire-input pp (suc k) (set_stage_input t (pp k).0 ∷ stages) i (omega arith)
    ∙ ap (λ n. some (some (pp n).0)) (omega arith)

length-wire : (pp : Pipes) (k : ℕ) (stages : List Stage) → length (wire pp k stages) ≡ length stages
unfolding wire
length-wire pp k [] = refl
length-wire pp k (s ∷ []) = refl
length-wire pp k (s ∷ t ∷ stages) =
    ap suc (length-wire pp (suc k) (set_stage_input t (pp k).0 ∷ stages))

-- Redirecting the first stage's input or the last stage's output leaves every other end.
on_first-output :
    (fd : ℕ) (stages : List Stage) (i : ℕ)
    → output_of (on_first (λ s. set_stage_input s fd) stages) i ≡ output_of stages i
on_first-output fd [] i = refl
on_first-output fd (s ∷ stages) zero = refl
on_first-output fd (s ∷ stages) (suc i) = refl

on_first-input :
    (fd : ℕ) (stages : List Stage) (i : ℕ)
    → input_of (on_first (λ s. set_stage_input s fd) stages) (suc i) ≡ input_of stages (suc i)
on_first-input fd [] i = refl
on_first-input fd (s ∷ stages) i = refl

length-on_first :
    (f : Stage → Stage) (stages : List Stage) → length (on_first f stages) ≡ length stages
length-on_first f [] = refl
length-on_first f (s ∷ stages) = refl

on_last-input :
    (fd : ℕ) (stages : List Stage) (i : ℕ)
    → input_of (on_last (λ s. set_stage_output s fd) stages) i ≡ input_of stages i
on_last-input fd [] i = refl
on_last-input fd (s ∷ []) zero = refl
on_last-input fd (s ∷ []) (suc i) = refl
on_last-input fd (s ∷ t ∷ stages) zero = refl
on_last-input fd (s ∷ t ∷ stages) (suc i) = on_last-input fd (t ∷ stages) i

on_last-output :
    (fd : ℕ) (stages : List Stage) (i : ℕ)
    → suc i < length stages
    → output_of (on_last (λ s. set_stage_output s fd) stages) i ≡ output_of stages i
on_last-output fd [] i h = refl
on_last-output fd (s ∷ []) i h = ground arith
on_last-output fd (s ∷ t ∷ stages) zero h = refl
on_last-output fd (s ∷ t ∷ stages) (suc i) h = on_last-output fd (t ∷ stages) i (omega arith)

feed : Bool → ℕ → List Stage → List Stage
feed b fd w = if b then on_first (λ s. set_stage_input s fd) w else w

drain : Bool → ℕ → List Stage → List Stage
drain b fd w = if b then on_last (λ s. set_stage_output s fd) w else w

module _ (fd i : ℕ) (w : List Stage) where
  feed-output : (b : Bool) → output_of (feed b fd w) i ≡ output_of w i
  unfolding feed
  feed-output true = on_first-output fd w i
  feed-output false = refl

  feed-input : (b : Bool) → input_of (feed b fd w) (suc i) ≡ input_of w (suc i)
  unfolding feed
  feed-input true = on_first-input fd w i
  feed-input false = refl

  length-feed : (b : Bool) → length (feed b fd w) ≡ length w
  unfolding feed
  length-feed true = length-on_first (λ s. set_stage_input s fd) w
  length-feed false = refl

  drain-output : (b : Bool) → suc i < length w → output_of (drain b fd w) i ≡ output_of w i
  unfolding drain
  drain-output true h = on_last-output fd w i h
  drain-output false h = refl

  drain-input : (b : Bool) → input_of (drain b fd w) i ≡ input_of w i
  unfolding drain
  drain-input true = on_last-input fd w i
  drain-input false = refl

setup-unfold :
    (pp : Pipes) (infd outfd : ℕ) (c : Command)
    → setup_command_pipeline pp infd outfd c
      ≡ drain (c.mode.outp || c.mode.appd) outfd (feed c.mode.inp infd (wire pp 0 c.stages))
unfolding setup_command_pipeline feed drain
setup-unfold pp infd outfd c = refl

-- What is wired stays wired under the redirections.
setup-output :
    (pp : Pipes) (infd outfd : ℕ) (c : Command) (i : ℕ)
    → suc i < length c.stages
    → output_of (setup_command_pipeline pp infd outfd c) i ≡ output_of (wire pp 0 c.stages) i
setup-output pp infd outfd c i h =
    let w = wire pp 0 c.stages in
    ap (λ l. output_of l i) (setup-unfold pp infd outfd c)
    ∙ drain-output outfd i (feed c.mode.inp infd w) (c.mode.outp || c.mode.appd)
        (omega (arith, length-feed infd i w c.mode.inp, length-wire pp 0 c.stages))
    ∙ feed-output infd i w c.mode.inp

setup-input :
    (pp : Pipes) (infd outfd : ℕ) (c : Command) (i : ℕ)
    → input_of (setup_command_pipeline pp infd outfd c) (suc i)
      ≡ input_of (wire pp 0 c.stages) (suc i)
setup-input pp infd outfd c i =
    let w = wire pp 0 c.stages in
    ap (λ l. input_of l (suc i)) (setup-unfold pp infd outfd c)
    ∙ drain-input outfd (suc i) (feed c.mode.inp infd w) (c.mode.outp || c.mode.appd)
    ∙ feed-input infd i w c.mode.inp

-- `setup_command_pipeline` connects every two neighbours, whatever the redirections are: the stage of
-- number `i` writes to the pipe of number `i`, and the stage behind it reads from that pipe.
pub setup_command_pipeline-connects :
    (pp : Pipes) (infd outfd : ℕ) (c : Command) (i : ℕ)
    → suc i < length c.stages
    → (output_of (setup_command_pipeline pp infd outfd c) i ≡ some (some (pp i).1))
      × (input_of (setup_command_pipeline pp infd outfd c) (suc i) ≡ some (some (pp i).0))
setup_command_pipeline-connects pp infd outfd c i h = (
  setup-output pp infd outfd c i h
      ∙ wire-output pp 0 c.stages i h
      ∙ ap (λ n. some (some (pp n).1)) (omega arith),
  setup-input pp infd outfd c i
      ∙ wire-input pp 0 c.stages i h
      ∙ ap (λ n. some (some (pp n).0)) (omega arith),
)
