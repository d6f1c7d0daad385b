-- ===== src/Buffer/WorkerSteps.antt =====
-- The steps of the workers of lab8, prog2.c, keep the counts.
use cse.Base.{
  ℕ, ◌+◌, ◌-◌, ◌≡◌, refl, ap, ◌∙◌, subst, inl, inr, some, List, [], ◌∷◌, ◌++◌, length,
  length-append, get_elem?, set, All-append, ltb, ltb→lt, Bool-cases, arith, Gives, gives,
  Gives-bind,
}
use cse.Buffer.{Task}
use cse.Buffer.Ring.{Holds, buffer_en_queue-append, buffer_de_queue-cons}
use cse.Buffer.System.{solve, Worker, idle, claimed, working, reserved, filed, System, worker_step}
use cse.Buffer.MainSteps.{weight-snoc}
use cse.Buffer.Invariant.{
  Solved, total, weight, claims, holds, keeps, files, value, Honest, Inv, total-set, All-set,
  All-get, uncons, solve-Solved,
}

-- The counts of the workers when the one at `i` goes from `w` to `w'`.
record Moves (ws : List Worker) (i : ℕ) (w w' : Worker) : Type 0 where
  claims : total claims (set ws i w') + claims w ≡ total claims ws + claims w'
  holds : total holds (set ws i w') + holds w ≡ total holds ws + holds w'
  keeps : total keeps (set ws i w') + keeps w ≡ total keeps ws + keeps w'
  files : total files (set ws i w') + files w ≡ total files ws + files w'
  value : (f : ℕ → ℕ) → total (value f) (set ws i w') + value f w ≡ total (value f) ws + value f w'

set-Moves : (ws : List Worker) (i : ℕ) (w w' : Worker) → get_elem? ws i ≡ some w → Moves ws i w w'
set-Moves ws i w w' e = record {
  claims = total-set claims ws i w w' e;
  holds = total-set holds ws i w w' e;
  keeps = total-set keeps ws i w w' e;
  files = total-set files ws i w w' e;
  value = λ f. total-set (value f) ws i w w' e;
}

solve-query : (pid : ℕ) (t : Task) → (solve pid t).query ≡ t.query
unfolding solve
solve-query pid t = refl

module _ (n m : ℕ) (s : System) (i pid : ℕ) (v : Inv n m s) where
  -- The worker is put back.
  unfoldable pub Kept : Worker × System → Type 0
  Kept (w, s') = Inv n m (record s' { workers = set s'.workers i w })

  -- A step that only changes the semaphores, and where the worker stands.
  counted :
      (w w' : Worker) (tasks slots asw : ℕ)
      → get_elem? s.workers i ≡ some w
      → Honest w'
      → (tasks + claims w' ≡ s.tasks + claims w)
        × (slots + keeps w' ≡ s.slots + keeps w)
        × (asw + files w' ≡ s.asw + files w)
        × (holds w' ≡ holds w)
        × ((f : ℕ → ℕ) → value f w' ≡ value f w)
      → Inv n m (record s { tasks = tasks; slots = slots; asw = asw; workers = set s.workers i w' })
  counted w w' tasks slots asw at honest (a, b, d, e, f) =
      let c = set-Moves s.workers i w w' at in
      record {
        xs = v.xs;
        ys = v.ys;
        checked = v.checked;
        requests = v.requests;
        answers = v.answers;
        requests_cap = v.requests_cap;
        answers_cap = v.answers_cap;
        tasks = omega (arith, v.tasks, c.claims, a);
        asw = omega (arith, v.asw, c.files, d);
        slots = omega (arith, v.slots, c.keeps, b);
        count = omega (arith, v.count, c.holds, e);
        once = λ g. omega (arith, v.once g, c.value g, f g);
        check = v.check;
        solved = v.solved;
        honest = All-set Honest s.workers i _ v.honest honest;
        sound = v.sound;
      }

  idle-Inv : get_elem? s.workers i ≡ some idle → Gives Kept (worker_step pid s idle)
  unfolding worker_step Kept
  idle-Inv at = elim (Bool-cases (ltb 0 s.tasks)) [
    | inl e ↦
        let some_task = ltb→lt 0 s.tasks e in
        rw e (
          gives (
            counted idle claimed (s.tasks - 1) s.slots s.asw at tt
              (omega (arith, some_task), refl, refl, refl, λ f. refl)))
    | inr e ↦
        rw e (
          gives (counted idle idle s.tasks s.slots s.asw at tt (refl, refl, refl, refl, λ f. refl)))
  ]

  claimed-Inv : get_elem? s.workers i ≡ some claimed → Gives Kept (worker_step pid s claimed)
  unfolding worker_step Kept
  claimed-Inv at =
      let (x, xs, e) =
        uncons v.xs (omega (arith, v.tasks, (set-Moves s.workers i claimed idle at).claims)) in
      Gives-bind (buffer_de_queue-cons (subst (Holds s.requests) e v.requests))
        (λ (t, b) (same, held, cap).
          let c = set-Moves s.workers i claimed (working (solve pid t)) at in
          gives (record {
            xs = xs;
            ys = v.ys;
            checked = v.checked;
            requests = held;
            answers = v.answers;
            requests_cap = cap ∙ v.requests_cap;
            answers_cap = v.answers_cap;
            tasks = omega (arith, v.tasks, c.claims, ap length e);
            asw = omega (arith, v.asw, c.files);
            slots = omega (arith, v.slots, c.keeps);
            count = omega (arith, v.count, c.holds, ap length e);
            once = λ f. omega (
              arith,
              v.once f,
              c.value f,
              ap (weight f) e,
              ap (λ t. f t.query) same,
              ap f (solve-query pid t),
            );
            check = v.check;
            solved = v.solved;
            honest = All-set Honest s.workers i _ v.honest (solve-Solved pid t);
            sound = v.sound;
          }))

  working-Inv :
      (t : Task)
      → get_elem? s.workers i ≡ some (working t)
      → Gives Kept (worker_step pid s (working t))
  unfolding worker_step Kept
  working-Inv t at =
      let honest = All-get Honest s.workers i (working t) v.honest at in
      elim (Bool-cases (ltb 0 s.slots)) [
        | inl e ↦
            let some_slot = ltb→lt 0 s.slots e in
            rw e (
              gives (
                counted (working t) (reserved t) s.tasks (s.slots - 1) s.asw at honest
                  (refl, omega (arith, some_slot), refl, refl, λ f. refl)))
        | inr e ↦ rw e (
            gives (
              counted (working t) (working t) s.tasks s.slots s.asw at honest
                (refl, refl, refl, refl, λ f. refl)))
      ]

  reserved-Inv :
      (t : Task)
      → get_elem? s.workers i ≡ some (reserved t)
      → Gives Kept (worker_step pid s (reserved t))
  unfolding worker_step Kept
  reserved-Inv t at =
      let c = set-Moves s.workers i (reserved t) filed at in
      let honest = All-get Honest s.workers i (reserved t) v.honest at in
      Gives-bind
        (buffer_en_queue-append t v.answers (omega (arith, v.slots, c.keeps, v.answers_cap)))
        (λ b (held, cap). gives (record {
          xs = v.xs;
          ys = v.ys ++ t ∷ [];
          checked = v.checked;
          requests = v.requests;
          answers = held;
          requests_cap = v.requests_cap;
          answers_cap = cap ∙ v.answers_cap;
          tasks = omega (arith, v.tasks, c.claims);
          asw = omega (arith, v.asw, c.files, length-append v.ys (t ∷ []));
          slots = omega (arith, v.slots, c.keeps, length-append v.ys (t ∷ []));
          count = omega (arith, v.count, c.holds, length-append v.ys (t ∷ []));
          once = λ f. omega (arith, v.once f, c.value f, weight-snoc f v.ys t);
          check = v.check;
          solved = All-append Solved v.ys (t ∷ []) v.solved (honest, tt);
          honest = All-set Honest s.workers i _ v.honest tt;
          sound = v.sound;
        }))

  filed-Inv : get_elem? s.workers i ≡ some filed → Gives Kept (worker_step pid s filed)
  unfolding worker_step Kept
  filed-Inv at = gives (
      counted filed idle s.tasks s.slots (s.asw + 1) at tt
        (refl, refl, omega arith, refl, λ f. refl))

  pub worker_step-Kept :
      (w : Worker) → get_elem? s.workers i ≡ some w → Gives Kept (worker_step pid s w)
  worker_step-Kept idle at = idle-Inv at
  worker_step-Kept claimed at = claimed-Inv at
  worker_step-Kept (working t) at = working-Inv t at
  worker_step-Kept (reserved t) at = reserved-Inv t at
  worker_step-Kept filed at = filed-Inv at
