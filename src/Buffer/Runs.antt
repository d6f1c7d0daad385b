-- ===== src/Buffer/Runs.antt =====
-- Whole runs of the programs of lab8.
use cse.Base.{
  ℕ, zero, suc, ◌+◌, ◌*◌, ◌<◌, ◌≡◌, refl, sym, ap, ◌∙◌, subst, true, false, Bool, Option, none,
  some, List, [], ◌∷◌, length, replicate, get_elem?, All, ◌>>=◌, ◌>>◌, assert, arith, Gives, gives,
  Gives-bind, Gives-value, Gives-mono, ltb, ◌==◌, if◌then◌else◌,
}
use cse.Base.Int.{pos}
use mathlib.Core.Option.{some-injective}
use native.Mathlib.Nat.{mod-eq_of_lt}
use cse.Buffer.{Task, SBuffer, Zone, setup_buffer}
use cse.Buffer.Ring.{Holds}
use cse.Buffer.System.{
  Worker, idle, finished, System, init, boot, Choice, main_runs, worker_runs, worker_at, step, run,
  claimed, working, reserved, filed,
}
use cse.Buffer.Invariant.{
  sum_to, values_below, main_value, sent, sum_below, total, claims, holds, keeps, files, value,
  Honest, Inv, InvAt, weight,
}
use cse.Buffer.MainSteps.{main_step-Inv}
use cse.Buffer.WorkerSteps.{worker_step-Kept, Kept}

worker_at-Inv :
    (n m : ℕ) (s : System) (i pid : ℕ) (o : Option Worker)
    → get_elem? s.workers i ≡ o
    → Inv n m s
    → Gives (Inv n m) (worker_at i pid s o)
unfolding worker_at Kept
worker_at-Inv n m s i pid none e v = gives v
worker_at-Inv n m s i pid (some w) e v =
    Gives-bind (worker_step-Kept n m s i pid v w e) (λ (w', s') v'. gives v')

step-Inv : (n m : ℕ) (s : System) (c : Choice) → Inv n m s → Gives (Inv n m) (step s c)
unfolding step
step-Inv n m s main_runs v = main_step-Inv n m s v
step-Inv n m s (worker_runs i pid) v = worker_at-Inv n m s i pid (get_elem? s.workers i) refl v

run-keeps : (n m : ℕ) (s : System) (cs : List Choice) → Inv n m s → Gives (Inv n m) (run s cs)
unfolding run
run-keeps n m s [] v = gives v
run-keeps n m s (c ∷ cs) v = Gives-bind (step-Inv n m s c v) (λ s' v'. run-keeps n m s' cs v')

total-replicate : (f : Worker → ℕ) (k : ℕ) → f idle ≡ 0 → total f (replicate k idle) ≡ 0
total-replicate f zero e = refl
total-replicate f (suc k) e = omega (arith, e, total-replicate f k e)

All-replicate : (k : ℕ) → All Honest (replicate k idle)
All-replicate zero = tt
All-replicate (suc k) = (tt, All-replicate k)

none_ne_some : {A : Type 0} {x : A} → none ≡ some x → ⊥
none_ne_some e = cc

setup-Holds :
    (zone : Zone) (n : ℕ) (b : SBuffer)
    → 0 < n
    → length zone.cells ≡ n
    → setup_buffer zone n ≡ some b
    → Holds b [] × (b.cap ≡ n)
unfolding setup_buffer
setup-Holds zone n b positive size e = by_calls zone.opened zone.sized zone.mapped e
  where
    by_calls :
        (opened sized mapped : Bool)
        → (assert opened
            >> (assert sized
                >> (assert mapped
                    >> some (record {
                      cap = n;
                      head = 0;
                      tail = 0;
                      mapsz = 32 + n * 24;
                      cells = zone.cells;
                    }))))
          ≡ some b
        → Holds b [] × (b.cap ≡ n)
    by_calls true true true e =
        subst (λ b. Holds b [] × (b.cap ≡ n)) (some-injective _ _ e)
          (
            record {
              taken = 0;
              positive = positive;
              block = size;
              tail = sym (mod-eq_of_lt positive);
              head = sym (mod-eq_of_lt positive);
              fits = omega arith;
              content = tt;
            },
            refl,
          )
    by_calls true true false e = elim (none_ne_some e) [ ]
    by_calls true false mapped e = elim (none_ne_some e) [ ]
    by_calls false sized mapped e = elim (none_ne_some e) [ ]

init-Inv :
    (n m k : ℕ) (r a : SBuffer)
    → Holds r []
    → r.cap ≡ n
    → Holds a []
    → a.cap ≡ m
    → Inv n m (init r a (replicate k idle))
unfolding values_below
init-Inv n m k r a held_r cap_r held_a cap_a = record {
  xs = [];
  ys = [];
  checked = [];
  requests = held_r;
  answers = held_a;
  requests_cap = cap_r;
  answers_cap = cap_a;
  tasks = omega (arith, total-replicate claims k refl);
  asw = omega (arith, total-replicate files k refl);
  slots = omega (arith, cap_a, total-replicate keeps k refl);
  count = omega (arith, total-replicate holds k refl);
  once = λ f. omega (arith, total-replicate (value f) k refl);
  check = refl;
  solved = tt;
  honest = All-replicate k;
  sound = omega arith;
}

boot-Inv :
    (requests answers : Zone) (n m k : ℕ) (s : System)
    → 0 < n
    → 0 < m
    → length requests.cells ≡ n
    → length answers.cells ≡ m
    → boot requests answers n m k ≡ some s
    → Inv n m s
unfolding boot
boot-Inv requests answers n m k s some_request some_answer size_r size_a e =
    with_buffers (setup_buffer requests n) (setup_buffer answers m) refl refl e
  where
    with_buffers :
        (o p : Option SBuffer)
        → setup_buffer requests n ≡ o
        → setup_buffer answers m ≡ p
        → (o >>= λ r. p >>= λ a. some (init r a (replicate k idle))) ≡ some s
        → Inv n m s
    with_buffers none p f g e = elim (none_ne_some e) [ ]
    with_buffers (some r) none f g e = elim (none_ne_some e) [ ]
    with_buffers (some r) (some a) f g e =
        let (held_r, cap_r) = setup-Holds requests n r some_request size_r f in
        let (held_a, cap_a) = setup-Holds answers m a some_answer size_a g in
        subst (Inv n m) (some-injective _ _ e) (init-Inv n m k r a held_r cap_r held_a cap_a)

values-sum : (n : ℕ) → values_below sum_to n ≡ sum_below n
unfolding values_below sum_below
values-sum zero = refl
values-sum (suc n) = omega (arith, values-sum n)

-- Nothing is left when all answers were received.
finished-empty :
    (n m : ℕ) (s : System)
    → InvAt n m s finished
    → (s.check ≡ pos (sum_below n)) × Holds s.requests [] × Holds s.answers []
finished-empty n m s v =
    let xs : v.xs ≡ [] = nil_of v.xs (omega (arith, v.count)) in
    let ys : v.ys ≡ [] = nil_of v.ys (omega (arith, v.count)) in
    (
      v.check
          ∙ ap pos (
              omega (
                arith,
                v.once sum_to,
                ap (weight sum_to) xs,
                ap (weight sum_to) ys,
                value-holds s.workers (omega (arith, v.count)),
                values-sum n,
              )),
      subst (Holds s.requests) xs v.requests,
      subst (Holds s.answers) ys v.answers,
    )
  where
    not_zero : (n : ℕ) → suc n ≡ 0 → ⊥
    not_zero n e = omega arith

    one_more : (n : ℕ) → 1 + n ≡ 0 → ⊥
    one_more n e = omega arith

    nil_of : (ts : List Task) → length ts ≡ 0 → ts ≡ []
    nil_of [] e = refl
    nil_of (t ∷ ts) e = elim (not_zero (length ts) e) [ ]

    value-holds : (ws : List Worker) → total holds ws ≡ 0 → total (value sum_to) ws ≡ 0
    value-holds [] e = refl
    value-holds (idle ∷ ws) e = omega (arith, value-holds ws (omega arith))
    value-holds (claimed ∷ ws) e = omega (arith, value-holds ws (omega arith))
    value-holds (working t ∷ ws) e = elim (one_more (total holds ws) e) [ ]
    value-holds (reserved t ∷ ws) e = elim (one_more (total holds ws) e) [ ]
    value-holds (filed ∷ ws) e = omega (arith, value-holds ws (omega arith))

-- How often the query `q` is in a buffer, with a worker, with `main` or among the checked answers.
abbrev pub places : (n m q : ℕ) (s : System) → Inv n m s → ℕ
places n m q s v =
    let once : ℕ → ℕ = λ k. if k == q then 1 else 0 in
    weight once v.xs
    + total (value once) s.workers
    + weight once v.ys
    + main_value once s.main
    + total once v.checked

values-one : (q n : ℕ) → values_below (λ k. if k == q then 1 else 0) n ≡ (if ltb q n then 1 else 0)
unfolding values_below
values-one q zero = ground arith
values-one q (suc n) = ground (arith, values-one q n)

-- However the processes of lab8 take turns, none faults, and the invariant holds: each buffer holds a list
-- of tasks, never more than it has room for, the semaphores count them, and `check` is the sum of the
-- answers to the checked queries. Every query that `main` has made so far is in exactly one place, and no
-- other query is in any: in one of the two buffers, with a worker, with `main`, or among the checked. It is
-- for at least one request and one answer slot, and maps of the size that was asked for.
pub run-Inv :
    (requests answers : Zone) (n m k : ℕ) (s : System) (cs : List Choice)
    → 0 < n
    → 0 < m
    → length requests.cells ≡ n
    → length answers.cells ≡ m
    → boot requests answers n m k ≡ some s
    → Gives
        (λ s'.
          (v : Inv n m s') × ((q : ℕ)
            → places n m q s' v ≡ (if ltb q (sent n s'.main) then 1 else 0)))
        (run s cs)
run-Inv requests answers n m k s cs some_request some_answer size_r size_a e =
    Gives-mono
      (run-keeps n m s cs
        (boot-Inv requests answers n m k s some_request some_answer size_r size_a e))
      (λ s' v. (v, λ q. v.once (λ k. if k == q then 1 else 0) ∙ values-one q (sent n s'.main)))

-- When `main` is behind its loops, `check` is the sum of the answers to all `n` requests, those of 0 to
-- n - 1, and both buffers are empty: for every order of the steps, any number of workers, at least one
-- request and one answer slot.
pub run-check :
    (requests answers : Zone) (n m k : ℕ) (s s' : System) (cs : List Choice)
    → 0 < n
    → 0 < m
    → length requests.cells ≡ n
    → length answers.cells ≡ m
    → boot requests answers n m k ≡ some s
    → run s cs ≡ some s'
    → s'.main ≡ finished
    → (s'.check ≡ pos (sum_below n)) × Holds s'.requests [] × Holds s'.answers []
run-check requests answers n m k s s' cs some_request some_answer size_r size_a e ran done =
    let (reached, same, both) =
      Gives-value (run-Inv requests answers n m k s cs some_request some_answer size_r size_a e) in
    finished-empty n m s'
      (subst (InvAt n m s') done (subst (Inv n m) (some-injective _ _ (sym same ∙ ran)) both.0))
