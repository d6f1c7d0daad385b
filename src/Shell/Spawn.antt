-- ===== src/Shell/Spawn.antt =====
-- spawnStage of ps5/shellp.c and the loop of setupCommandPipeline that calls it: one process for each
-- stage, the descriptors it starts its program with, and those the shell keeps. The table of a
-- process's descriptors is the system's, with `close` and `dup` as its documentation has them; `fork`
-- gives the child a copy of the table.
use cse.Base.{
  ℕ, zero, suc, ◌+◌, ◌*◌, ◌^◌, ◌<◌, ◌≡◌, ◌≢◌, Option, none, some, List, [], ◌∷◌, ◌++◌, refl, ap,
  ◌∙◌, length, arith, length-append,
}
use native.Mathlib.Nat.{pow-suc}
use cse.Shell.Command.{Stage, Command}
use cse.Shell.Pipeline.{Pipes, setup_command_pipeline}

-- An open file stands in the table under the number of its descriptor.
pub record Kernel : Type 1 where
  pub File : Type 0
  pub Table : Type 0
  pub at : Table → ℕ → Option File
  pub close : Table → ℕ → Table
  pub dup : Table → ℕ → Table

abbrev pub Open : (K : Kernel) → K.Table → ℕ → Type 0
Open K t fd = (f : K.File) × (K.at t fd ≡ some f)

-- `close` frees the descriptor; `dup` opens the file once more under the lowest free number.
pub record ObeysPosix (K : Kernel) : Type 0 where
  pub close_same : (t : K.Table) (fd : ℕ) → K.at (K.close t fd) fd ≡ none
  pub close_other : (t : K.Table) (fd n : ℕ) → n ≢ fd → K.at (K.close t fd) n ≡ K.at t n
  pub dup_lowest :
      (t : K.Table) (fd n : ℕ) (f : K.File)
      → K.at t fd ≡ some f
      → K.at t n ≡ none
      → ((m : ℕ) → m < n → Open K t m)
      → K.at (K.dup t fd) n ≡ some f
  pub dup_other :
      (t : K.Table) (fd n m : ℕ) (f : K.File)
      → K.at t fd ≡ some f
      → K.at t n ≡ none
      → ((l : ℕ) → l < n → Open K t l)
      → m ≢ n
      → K.at (K.dup t fd) m ≡ K.at t m

-- What becomes of a stage: its program runs, `execvp` finds none, or `fork` fails.
pub data Fate : Type 0 where
  runs : Fate
  no_program : Fate
  no_process : Fate

module _ (K : Kernel) where
  -- A process that a stage's program runs in, or one in which the shell's own code goes on.
  pub data Process : Type 0 where
    program : Stage → K.Table → Process
    shell : K.Table → Process

  -- `close(std); dup(fd); close(fd);`
  unfoldable pub redirect : (std : ℕ) → Option ℕ → K.Table → K.Table
  redirect std none t = t
  redirect std (some fd) t = K.close (K.dup (K.close t std) fd) fd

  unfoldable pub child_table : K.Table → Stage → K.Table
  child_table t s = redirect 1 s.fdout (redirect 0 s.fdin t)

  unfoldable pub shut : Option ℕ → K.Table → K.Table
  shut none t = t
  shut (some fd) t = K.close t fd

  unfoldable pub parent_table : K.Table → Stage → K.Table
  parent_table t s = shut s.fdin (shut s.fdout t)

  -- `later_child`, `later_parent` and `later_same` are what the loop goes on to do in the child, in the
  -- parent, and where there is no child. A child whose `execvp` fails leaves the `switch` and goes on.
  unfoldable pub spawn_stage :
      Fate → Stage → K.Table → (later_child later_parent later_same : List Process) → List Process
  spawn_stage runs s t later_child later_parent later_same =
      program s (child_table t s) ∷ later_parent
  spawn_stage no_program s t later_child later_parent later_same = later_child ++ later_parent
  spawn_stage no_process s t later_child later_parent later_same = later_same

  -- `for (int i = 0; i < c->_nbs; i++)`, from the stage of number `k` on
  unfoldable pub spawn_stages : (ℕ → Fate) → ℕ → K.Table → List Stage → List Process
  spawn_stages fate k t [] = shell t ∷ []
  spawn_stages fate k t (s ∷ stages) =
      spawn_stage (fate k) s t (spawn_stages fate (suc k) (child_table t s) stages)
        (spawn_stages fate (suc k) (parent_table t s) stages) (spawn_stages fate (suc k) t stages)

  -- setupCommandPipeline as a whole: the descriptors are set, then the stages are spawned.
  unfoldable pub spawn_pipeline :
      (ℕ → Fate) → Pipes → (infd outfd : ℕ) → Command → K.Table → List Process
  spawn_pipeline fate pp infd outfd c t =
      spawn_stages fate 0 t (setup_command_pipeline pp infd outfd c)

  -- The tables of the processes in which the shell reads on.
  abbrev pub shells : List Process → List K.Table
  shells [] = []
  shells (program s t ∷ ps) = shells ps
  shells (shell t ∷ ps) = t ∷ shells ps

  -- The file that the process at a place has under a descriptor.
  abbrev pub file_of : (fd : ℕ) → List Process → ℕ → Option (Option K.File)
  file_of fd [] i = none
  file_of fd (program s t ∷ ps) zero = some (K.at t fd)
  file_of fd (shell t ∷ ps) zero = some (K.at t fd)
  file_of fd (program s t ∷ ps) (suc i) = file_of fd ps i
  file_of fd (shell t ∷ ps) (suc i) = file_of fd ps i

abbrev pub missing : Fate → ℕ
missing runs = 0
missing no_program = 1
missing no_process = 0

-- How many of the stages from number `k` on have no program.
abbrev pub all_missing : (ℕ → Fate) → ℕ → List Stage → ℕ
all_missing fate k [] = 0
all_missing fate k (s ∷ stages) = missing (fate k) + all_missing fate (suc k) stages

module _ (K : Kernel) where
  shells-append : (ps qs : List (Process K)) → shells K (ps ++ qs) ≡ shells K ps ++ shells K qs
  shells-append [] qs = refl
  shells-append (program s t ∷ ps) qs = shells-append ps qs
  shells-append (shell t ∷ ps) qs = ap (λ l. t ∷ l) (shells-append ps qs)

  length-shells_append :
      (ps qs : List (Process K))
      → length (shells K (ps ++ qs)) ≡ length (shells K ps) + length (shells K qs)
  length-shells_append ps qs = rw (shells-append ps qs) (length-append (shells K ps) (shells K qs))

  spawn_stage-shells :
      (f : Fate) (s : Stage) (t : K.Table) (c p n : List (Process K)) (e : ℕ)
      → length (shells K c) ≡ 2 ^ e
      → length (shells K p) ≡ 2 ^ e
      → length (shells K n) ≡ 2 ^ e
      → length (shells K (spawn_stage K f s t c p n)) ≡ 2 ^ (missing f + e)
  unfolding spawn_stage
  spawn_stage-shells runs s t c p n e hc hp hn = hp ∙ ap (λ m. 2 ^ m) (omega arith)
  spawn_stage-shells no_program s t c p n e hc hp hn =
      let twice : 2 ^ (1 + e) ≡ 2 ^ e * 2 = ap (λ m. 2 ^ m) (omega arith) ∙ pow-suc 2 e in
      omega (arith, twice, hc, hp, length-shells_append c p)
  spawn_stage-shells no_process s t c p n e hc hp hn = hn ∙ ap (λ m. 2 ^ m) (omega arith)

  spawn_stages-shells :
      (fate : ℕ → Fate) (k : ℕ) (t : K.Table) (stages : List Stage)
      → length (shells K (spawn_stages K fate k t stages)) ≡ 2 ^ all_missing fate k stages
  unfolding spawn_stages
  spawn_stages-shells fate k t [] = refl
  spawn_stages-shells fate k t (s ∷ stages) =
      spawn_stage-shells (fate k) s t (spawn_stages K fate (suc k) (child_table K t s) stages)
        (spawn_stages K fate (suc k) (parent_table K t s) stages)
        (spawn_stages K fate (suc k) t stages) (all_missing fate (suc k) stages)
        (spawn_stages-shells fate (suc k) (child_table K t s) stages)
        (spawn_stages-shells fate (suc k) (parent_table K t s) stages)
        (spawn_stages-shells fate (suc k) t stages)

  -- Whatever `fork` and `execvp` do for each stage, the same in every process that spawns it, the shell
  -- goes on after a pipeline in as many processes as two to the number of stages that are forked and
  -- whose program is missing.
  pub spawn_pipeline-shells :
      (fate : ℕ → Fate) (pp : Pipes) (infd outfd : ℕ) (c : Command) (t : K.Table)
      → length (shells K (spawn_pipeline K fate pp infd outfd c t))
        ≡ 2 ^ all_missing fate 0 (setup_command_pipeline pp infd outfd c)
  unfolding spawn_pipeline
  spawn_pipeline-shells fate pp infd outfd c t =
      spawn_stages-shells fate 0 t (setup_command_pipeline pp infd outfd c)
