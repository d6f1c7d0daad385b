-- ===== src/Buffer/Examples.antt =====
-- A run of the programs of lab8, with two requests, one answer slot and one worker.
use cse.Base.{
  ltb, if◌then◌else◌, ℕ, ◌≡◌, refl, true, Option, none, some, List, [], ◌∷◌, ◌++◌, arith, Gives,
}
use cse.Base.Int.{ℤ, pos}
use cse.Buffer.{Task, SBuffer, Zone}
use cse.Buffer.Ring.{Holds}
use cse.Buffer.System.{
  Worker, idle, finished, System, init, boot, Choice, main_runs, worker_runs, run,
}
use cse.Buffer.Invariant.{sum_below, sent, Inv}
use cse.Buffer.Runs.{places, run-Inv, run-check}

abbrev zero_task : Task
zero_task = record { worker = 0; query = 0; answer = pos 0 }

abbrev for_two : Zone
for_two = record { opened = true; sized = true; mapped = true; cells = zero_task ∷ zero_task ∷ [] }

abbrev for_one : Zone
for_one = record { opened = true; sized = true; mapped = true; cells = zero_task ∷ [] }

abbrev booted : System
booted =
    init (record { cap = 2; head = 0; tail = 0; mapsz = 80; cells = zero_task ∷ zero_task ∷ [] })
      (record { cap = 1; head = 0; tail = 0; mapsz = 56; cells = zero_task ∷ [] }) (idle ∷ [])

booted-boot : boot for_two for_one 2 1 1 ≡ some booted
unfolding boot cse.Buffer.setup_buffer
booted-boot = refl

abbrev one_answer : List Choice
one_answer =
    worker_runs 0 7
    ∷ worker_runs 0 7
    ∷ worker_runs 0 7
    ∷ worker_runs 0 7
    ∷ worker_runs 0 7
    ∷ main_runs
    ∷ main_runs
    ∷ main_runs
    ∷ []

abbrev choices : List Choice
choices =
    main_runs ∷ main_runs ∷ main_runs ∷ main_runs ∷ main_runs ∷ one_answer
    ++ one_answer
    ++ main_runs ∷ []

abbrev done : System
done = record {
  requests = record {
    cap = 2;
    head = 0;
    tail = 0;
    mapsz = 80;
    cells =
        record { worker = 0; query = 0; answer = cse.Base.Int.negsuc 0 }
        ∷ record { worker = 0; query = 1; answer = cse.Base.Int.negsuc 0 }
        ∷ [];
  };
  answers = record {
    cap = 1;
    head = 0;
    tail = 0;
    mapsz = 56;
    cells = record { worker = 7; query = 1; answer = pos 1 } ∷ [];
  };
  tasks = 0;
  slots = 1;
  asw = 0;
  main = finished;
  check = pos 1;
  workers = idle ∷ [];
}

choices-done : run booted choices ≡ some done
unfolding run cse.Buffer.System.step cse.Buffer.System.worker_at cse.Buffer.System.main_step
    cse.Buffer.System.worker_step cse.Buffer.System.solve cse.Buffer.System.solve_loop
    cse.Buffer.buffer_en_queue cse.Buffer.buffer_de_queue cse.Base.Int.◌+ℤ◌
choices-done = refl

run-Inv_example :
    Gives
      (λ s'.
        (v : Inv 2 1 s') × ((q : ℕ)
          → places 2 1 q s' v ≡ (if ltb q (sent 2 s'.main) then 1 else 0)))
      (run booted choices)
run-Inv_example =
    run-Inv for_two for_one 2 1 1 booted choices (omega arith) (omega arith) refl refl booted-boot

run-check_example :
    (done.check ≡ pos (sum_below 2)) × Holds done.requests [] × Holds done.answers []
run-check_example =
    run-check for_two for_one 2 1 1 booted done choices (omega arith) (omega arith) refl refl
      booted-boot choices-done refl
