-- ===== src/Buffer/System.antt =====
-- The main program of lab8, prog1.c, and the workers, prog2.c, with the semaphores between them. What
-- stands between `sem_wait` and `sem_post` of a lock is one step, since the lock starts at 1.
use cse.Base.{
  ℕ, zero, suc, ◌+◌, ◌-◌, Option, none, some, List, [], ◌∷◌, ltb, if◌then◌else◌, get_elem?, set,
  replicate, ◌>>=◌,
}
use cse.Base.Int.{ℤ, pos, negsuc, ◌+ℤ◌}
use cse.Buffer.{Task, SBuffer, Zone, setup_buffer, buffer_en_queue, buffer_de_queue}

-- `ttl += i`
unfoldable pub solve_loop : (rounds i ttl : ℕ) → ℕ
solve_loop zero i ttl = ttl
solve_loop (suc n) i ttl = solve_loop n (i + 1) (ttl + i)

unfoldable pub solve : (pid : ℕ) → Task → Task
solve pid t = record t { answer = pos (solve_loop (t.query + 1) 0 0); worker = pid }

-- Where a worker is in its loop: before `sem_wait(tasks)`, before `bufferDeQueue`, before
-- `sem_wait(slots)`, before `bufferEnQueue`, before `sem_post(asw)`.
pub data Worker : Type 0 where
  idle : Worker
  claimed : Worker
  working : Task → Worker
  reserved : Task → Worker
  filed : Worker

-- The same for `main`: before `bufferEnQueue`, before `sem_post(tasks)`, before `sem_wait(asw)`, before
-- `bufferDeQueue`, before `sem_post(slots)`, behind the loops.
pub data Main : Type 0 where
  filling : (i : ℕ) → Main
  filled : (i : ℕ) → Main
  collecting : (i : ℕ) → Main
  promised : (i : ℕ) → Main
  collected : (i : ℕ) → Task → Main
  finished : Main

pub record System : Type 0 where
  pub requests : SBuffer
  pub answers : SBuffer
  pub tasks : ℕ
  pub slots : ℕ
  pub asw : ℕ
  pub main : Main
  pub check : ℤ
  pub workers : List Worker

abbrev pub init : (requests answers : SBuffer) → List Worker → System
init requests answers workers = record {
  requests = requests;
  answers = answers;
  tasks = 0;
  slots = answers.cap;
  asw = 0;
  main = filling 0;
  check = pos 0;
  workers = workers;
}

-- `setupBuffer` and `sem_open` of `main`, for `n` requests and `m` answers, with `k` workers.
unfoldable pub boot : (requests answers : Zone) → (n m k : ℕ) → Option System
boot requests answers n m k = do
  r ← setup_buffer requests n
  a ← setup_buffer answers m
  some (init r a (replicate k idle))

-- A process that waits at a semaphore of 0 stays where it is.
unfoldable pub main_step : System → Main → Option System
main_step s (filling i) =
    let round = (do
      requests ← buffer_en_queue s.requests (record { worker = 0; query = i; answer = negsuc 0 })
      some (record s { requests = requests; main = filled i })) in
    if ltb i s.requests.cap then round else some (record s { main = collecting 0 })
main_step s (filled i) = some (record s { tasks = s.tasks + 1; main = filling (i + 1) })
main_step s (collecting i) =
    let wait = if ltb 0 s.asw then record s { asw = s.asw - 1; main = promised i } else s in
    if ltb i s.requests.cap then some wait else some (record s { main = finished })
main_step s (promised i) = do
  (t, answers) ← buffer_de_queue s.answers
  some (record s { answers = answers; main = collected i t })
main_step s (collected i t) =
    some (record s { slots = s.slots + 1; check = s.check +ℤ t.answer; main = collecting (i + 1) })
main_step s finished = some s

-- The worker of the process `pid`: where it is next, and what it leaves of the rest.
unfoldable pub worker_step : (pid : ℕ) → System → Worker → Option (Worker × System)
worker_step pid s idle =
    some (if ltb 0 s.tasks then (claimed, record s { tasks = s.tasks - 1 }) else (idle, s))
worker_step pid s claimed = do
  (t, requests) ← buffer_de_queue s.requests
  some (working (solve pid t), record s { requests = requests })
worker_step pid s (working t) =
    some (if ltb 0 s.slots then (reserved t, record s { slots = s.slots - 1 }) else (working t, s))
worker_step pid s (reserved t) = do
  answers ← buffer_en_queue s.answers t
  some (filed, record s { answers = answers })
worker_step pid s filed = some (idle, record s { asw = s.asw + 1 })

-- Who runs next: `main`, or one of the workers.
pub data Choice : Type 0 where
  main_runs : Choice
  worker_runs : (i pid : ℕ) → Choice

unfoldable pub worker_at : (i pid : ℕ) → System → Option Worker → Option System
worker_at i pid s none = some s
worker_at i pid s (some w) = do
  (w', s') ← worker_step pid s w
  some (record s' { workers = set s'.workers i w' })

unfoldable pub step : System → Choice → Option System
step s main_runs = main_step s s.main
step s (worker_runs i pid) = worker_at i pid s (get_elem? s.workers i)

unfoldable pub run : System → List Choice → Option System
run s [] = some s
run s (c ∷ cs) = step s c >>= λ s'. run s' cs
