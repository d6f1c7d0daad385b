-- ===== src/Shell/Piped.antt =====
-- The processes that ps5/shellp.c spawns for a pipeline, where each of them is made and finds its
-- program: the files they get under their descriptors, and what the shell keeps.
use cse.Base.{
  subst, if◌then◌else◌, Bool, true, false, ◌||◌, ℕ, zero, suc, ◌<◌, ◌≡◌, none, some, List, [], ◌∷◌,
  length, refl, ap, ◌∙◌, arith,
}
use cse.Shell.Command.{Stage, Command}
use cse.Shell.Pipeline.{
  Pipes, input_of, output_of, setup_command_pipeline, setup_command_pipeline-connects,
}
use cse.Shell.Spawn.{
  Kernel, Open, ObeysPosix, Fate, runs, Process, program, child_table, parent_table, spawn_stage,
  spawn_stages, spawn_pipeline, shells, file_of,
}
use cse.Shell.Handed.{
  Ready, Usable, rest-input, rest-output, child-keeps, child-output, child-input,
}
use cse.Shell.Kept.{parent-Open, parent-Ready, parent-keeps, is_end_of, is_end, either, parent-at}

||-comm : (a b : Bool) → (a || b) ≡ (b || a)
||-comm true true = refl
||-comm true false = refl
||-comm false true = refl
||-comm false false = refl

input-above :
    (K : Kernel) (t : K.Table) (stages : List Stage) (i fd : ℕ)
    → Ready K t stages
    → input_of stages i ≡ some (some fd)
    → 1 < fd
input-above K t [] i fd r e = cc
input-above K t (s ∷ stages) zero fd r e =
    let same : s.fdin ≡ some fd = cc in
    let u : Usable K t (some fd) = subst (Usable K t) same r.0 in u.0
input-above K t (s ∷ stages) (suc i) fd (u, v, d, p, q, r) e = input-above K t stages i fd r e

module _ (K : Kernel) (law : ObeysPosix K) where
  module _ (fate : ℕ → Fate) (all_run : (k : ℕ) → fate k ≡ runs) where
    spawn-stage :
        (k : ℕ) (t : K.Table) (s : Stage) (stages : List Stage)
        → spawn_stages K fate k t (s ∷ stages)
          ≡ program s (child_table K t s) ∷ spawn_stages K fate (suc k) (parent_table K t s) stages
    unfolding spawn_stages spawn_stage
    spawn-stage k t s stages = rw (all_run k) refl

    -- Each stage's program writes to the file that the stage's output end is.
    spawn-output :
        (k : ℕ) (t : K.Table) (stages : List Stage) (i fd : ℕ)
        → Open K t 0
        → Open K t 1
        → Ready K t stages
        → output_of stages i ≡ some (some fd)
        → file_of K 1 (spawn_stages K fate k t stages) i ≡ some (K.at t fd)
    spawn-output k t [] i fd std0 std1 r e = cc
    spawn-output k t (s ∷ stages) zero fd std0 std1 (u, v, d, p, q, r) e =
        rw (spawn-stage k t s stages) (ap some (child-output K law t s std0 u v d fd (cc)))
    spawn-output k t (s ∷ stages) (suc i) fd std0 std1 (u, v, d, p, q, r) e =
        rw (spawn-stage k t s stages) (
          spawn-output (suc k) (parent_table K t s) stages i fd
            (parent-Open K law t s 0 (omega arith) u v std0)
            (parent-Open K law t s 1 (omega arith) u v std1) (parent-Ready K law t s stages p q r) e
          ∙ ap some (
              parent-keeps K law t s fd (rest-output s.fdin stages i fd p e)
                (rest-output s.fdout stages i fd q e)))

    spawn-input :
        (k : ℕ) (t : K.Table) (stages : List Stage) (i fd : ℕ)
        → Open K t 0
        → Open K t 1
        → Ready K t stages
        → input_of stages i ≡ some (some fd)
        → file_of K 0 (spawn_stages K fate k t stages) i ≡ some (K.at t fd)
    spawn-input k t [] i fd std0 std1 r e = cc
    spawn-input k t (s ∷ stages) zero fd std0 std1 (u, v, d, p, q, r) e =
        rw (spawn-stage k t s stages) (ap some (child-input K law t s std0 u v d fd (cc)))
    spawn-input k t (s ∷ stages) (suc i) fd std0 std1 (u, v, d, p, q, r) e =
        rw (spawn-stage k t s stages) (
          spawn-input (suc k) (parent_table K t s) stages i fd
            (parent-Open K law t s 0 (omega arith) u v std0)
            (parent-Open K law t s 1 (omega arith) u v std1) (parent-Ready K law t s stages p q r) e
          ∙ ap some (
              parent-keeps K law t s fd (rest-input s.fdin stages i fd p e)
                (rest-input s.fdout stages i fd q e)))

    -- A stage's program is left with the descriptors that the stages behind it are to read from.
    spawn-leaks :
        (k : ℕ) (t : K.Table) (stages : List Stage) (i fd : ℕ)
        → Open K t 0
        → Open K t 1
        → Ready K t stages
        → 1 < fd
        → input_of stages (suc i) ≡ some (some fd)
        → file_of K fd (spawn_stages K fate k t stages) i ≡ some (K.at t fd)
    spawn-leaks k t [] i fd std0 std1 r h e = cc
    spawn-leaks k t (s ∷ stages) zero fd std0 std1 (u, v, d, p, q, r) h e =
        rw (spawn-stage k t s stages) (
          ap some (
            child-keeps K law t s std0 u v d fd h (rest-input s.fdin stages 0 fd p e)
              (rest-input s.fdout stages 0 fd q e)))
    spawn-leaks k t (s ∷ stages) (suc i) fd std0 std1 (u, v, d, p, q, r) h e =
        rw (spawn-stage k t s stages) (
          spawn-leaks (suc k) (parent_table K t s) stages i fd
            (parent-Open K law t s 0 (omega arith) u v std0)
            (parent-Open K law t s 1 (omega arith) u v std1) (parent-Ready K law t s stages p q r) h
            e
          ∙ ap some (
              parent-keeps K law t s fd (rest-input s.fdin stages (suc i) fd p e)
                (rest-input s.fdout stages (suc i) fd q e)))

    -- The stage's table of the shell after the loop.
    parents : K.Table → List Stage → K.Table
    parents t [] = t
    parents t (s ∷ stages) = parents (parent_table K t s) stages

    spawn-shells :
        (k : ℕ) (t : K.Table) (stages : List Stage)
        → shells K (spawn_stages K fate k t stages) ≡ parents t stages ∷ []
    unfolding spawn_stages parents
    spawn-shells k t [] = refl
    spawn-shells k t (s ∷ stages) =
        rw (spawn-stage k t s stages) (spawn-shells (suc k) (parent_table K t s) stages)

    parents-at :
        (t : K.Table) (stages : List Stage) (n : ℕ)
        → K.at (parents t stages) n ≡ (if is_end stages n then none else K.at t n)
    unfolding parents
    parents-at t [] n = refl
    parents-at t (s ∷ stages) n =
        parents-at (parent_table K t s) stages n
        ∙ ap (λ r. if is_end stages n then none else r) (parent-at K law t s n)
        ∙ either (is_end stages n) (is_end_of s n) (K.at t n)
        ∙ ap (λ b. if b then none else K.at t n) (||-comm (is_end stages n) (is_end_of s n))

    -- Where every stage is forked and finds its program, one shell is left after the loop, in whose table
    -- every descriptor of a stage is closed and every other one is as it was before.
    pub spawn_pipeline-closes :
        (pp : Pipes) (infd outfd : ℕ) (c : Command) (t : K.Table)
        → (after : K.Table) × (shells K (spawn_pipeline K fate pp infd outfd c t) ≡ after ∷ [])
          × ((n : ℕ)
              → K.at after n
                ≡ (if is_end (setup_command_pipeline pp infd outfd c) n then none else K.at t n))
    unfolding spawn_pipeline
    spawn_pipeline-closes pp infd outfd c t =
        let stages = setup_command_pipeline pp infd outfd c in
        (parents t stages, spawn-shells 0 t stages, parents-at t stages)

    module _ (pp : Pipes) (infd outfd : ℕ) (c : Command) (t : K.Table) (std0 : Open K t 0)
        (std1 : Open K t 1) (ready : Ready K t (setup_command_pipeline pp infd outfd c)) where
      abbrev pub processes : List (Process K)
      processes = spawn_pipeline K fate pp infd outfd c t

      -- Two neighbours of a pipeline are connected: where every stage is forked and finds its program, the
      -- shell's descriptors 0 and 1 are open, and the stages' descriptors are open, above 1 and pairwise
      -- different, the program of stage `i` starts with the file at the writing end of the pipe of number
      -- `i` as its standard output, the program of the next stage with the file at the reading end of that
      -- pipe as its standard input, and the program of stage `i` has that reading end open too.
      pub spawn_pipeline-connects :
          (i : ℕ)
          → suc i < length c.stages
          → (file_of K 1 processes i ≡ some (K.at t (pp i).1))
            × (file_of K 0 processes (suc i) ≡ some (K.at t (pp i).0))
            × (file_of K (pp i).0 processes i ≡ some (K.at t (pp i).0))
      unfolding spawn_pipeline
      spawn_pipeline-connects i h =
          let stages = setup_command_pipeline pp infd outfd c in
          let (writes, reads) = setup_command_pipeline-connects pp infd outfd c i h in
          (
            spawn-output 0 t stages i (pp i).1 std0 std1 ready writes,
            spawn-input 0 t stages (suc i) (pp i).0 std0 std1 ready reads,
            spawn-leaks 0 t stages i (pp i).0 std0 std1 ready
                (input-above K t stages (suc i) (pp i).0 ready reads) reads,
          )
