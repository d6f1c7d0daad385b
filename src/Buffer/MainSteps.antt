-- ===== src/Buffer/MainSteps.antt =====
-- The steps of prog1.c of lab8 keep the counts.
use cse.Base.{
  ℕ, suc, ◌+◌, ◌≡◌, refl, sym, ap, ap₂, ◌∙◌, subst, inl, inr, List, [], ◌∷◌, ◌++◌, length,
  length-append, All, ltb, ltb→lt, ltb→le, Bool-cases, arith, Gives, gives, Gives-bind,
}
use cse.Base.Int.{pos, negsuc, ◌+ℤ◌}
use cse.Buffer.{Task}
use cse.Buffer.Ring.{Holds, buffer_en_queue-append, buffer_de_queue-cons}
use cse.Buffer.System.{
  Main, filling, filled, collecting, promised, collected, finished, System, main_step,
}
use cse.Buffer.Invariant.{
  sum_to, values_below, Solved, total, weight, holds, InvAt, Inv, total-append, uncons,
}

+ℤ-pos : (a b : ℕ) → pos a +ℤ pos b ≡ pos (a + b)
unfolding ◌+ℤ◌
+ℤ-pos a b = ground arith

-- One request more.
pub weight-snoc :
    (f : ℕ → ℕ) (xs : List Task) (t : Task) → weight f (xs ++ t ∷ []) ≡ weight f xs + f t.query
weight-snoc f xs t = omega (arith, total-append (λ t. f t.query) xs (t ∷ []))

values_below-next : (f : ℕ → ℕ) (n : ℕ) → values_below f (n + 1) ≡ values_below f n + f n
unfolding values_below
values_below-next f n = let e : n + 1 ≡ suc n = omega arith in ap (values_below f) e

module _ (n m : ℕ) (s : System) where
  filling-Inv : (i : ℕ) → InvAt n m s (filling i) → Gives (Inv n m) (main_step s (filling i))
  unfolding main_step
  filling-Inv i v = elim (Bool-cases (ltb i s.requests.cap)) [
    | inl e ↦
        let more = ltb→lt i s.requests.cap e in
        let t : Task = record { worker = 0; query = i; answer = negsuc 0 } in
        rw e (
          Gives-bind (buffer_en_queue-append t v.requests (omega (arith, v.count, v.requests_cap)))
            (λ b (held, cap). gives (record {
              xs = v.xs ++ t ∷ [];
              ys = v.ys;
              checked = v.checked;
              requests = held;
              answers = v.answers;
              requests_cap = cap ∙ v.requests_cap;
              answers_cap = v.answers_cap;
              tasks = omega (arith, v.tasks, length-append v.xs (t ∷ []));
              asw = v.asw;
              slots = v.slots;
              count = omega (arith, v.count, length-append v.xs (t ∷ []));
              once = λ f. omega (arith, v.once f, weight-snoc f v.xs t, values_below-next f i);
              check = v.check;
              solved = v.solved;
              honest = v.honest;
              sound = omega (arith, v.requests_cap);
            })))
    | inr e ↦
        let all = ltb→le i s.requests.cap e in
        let last : i ≡ n = omega (arith, v.requests_cap, v.sound) in
        rw e (
          gives (record {
            xs = v.xs;
            ys = v.ys;
            checked = v.checked;
            requests = v.requests;
            answers = v.answers;
            requests_cap = v.requests_cap;
            answers_cap = v.answers_cap;
            tasks = v.tasks;
            asw = v.asw;
            slots = v.slots;
            count = v.count ∙ last;
            once = λ f. v.once f ∙ ap (values_below f) last;
            check = v.check;
            solved = v.solved;
            honest = v.honest;
            sound = omega arith;
          }))
  ]

  filled-Inv : (i : ℕ) → InvAt n m s (filled i) → Gives (Inv n m) (main_step s (filled i))
  unfolding main_step
  filled-Inv i v = gives (record {
    xs = v.xs;
    ys = v.ys;
    checked = v.checked;
    requests = v.requests;
    answers = v.answers;
    requests_cap = v.requests_cap;
    answers_cap = v.answers_cap;
    tasks = omega (arith, v.tasks);
    asw = v.asw;
    slots = v.slots;
    count = v.count;
    once = v.once;
    check = v.check;
    solved = v.solved;
    honest = v.honest;
    sound = omega (arith, v.sound);
  })

  collecting-Inv :
      (i : ℕ)
      → s.main ≡ collecting i
      → InvAt n m s (collecting i)
      → Gives (Inv n m) (main_step s (collecting i))
  unfolding main_step
  collecting-Inv i here v = elim (Bool-cases (ltb i s.requests.cap)) [
    | inl e ↦ elim (Bool-cases (ltb 0 s.asw)) [
      | inl told ↦
          let some_answer = ltb→lt 0 s.asw told in
          let more = ltb→lt i s.requests.cap e in
          rw (e, told)
            (gives (record {
              xs = v.xs;
              ys = v.ys;
              checked = v.checked;
              requests = v.requests;
              answers = v.answers;
              requests_cap = v.requests_cap;
              answers_cap = v.answers_cap;
              tasks = v.tasks;
              asw = omega (arith, v.asw);
              slots = v.slots;
              count = v.count;
              once = v.once;
              check = v.check;
              solved = v.solved;
              honest = v.honest;
              sound = omega (arith, v.requests_cap);
            }))
      | inr none_yet ↦ rw (e, none_yet) (gives (subst (InvAt n m s) (sym here) v))
    ]
    | inr e ↦
        let all = ltb→le i s.requests.cap e in
        let last : i ≡ n = omega (arith, v.requests_cap, v.sound) in
        rw e (
          gives (record {
            xs = v.xs;
            ys = v.ys;
            checked = v.checked;
            requests = v.requests;
            answers = v.answers;
            requests_cap = v.requests_cap;
            answers_cap = v.answers_cap;
            tasks = v.tasks;
            asw = v.asw;
            slots = v.slots;
            count =
                ap (λ k. length v.xs + total holds s.workers + length v.ys + k) (sym last)
                ∙ v.count;
            once = v.once;
            check = v.check;
            solved = v.solved;
            honest = v.honest;
            sound = tt;
          }))
  ]

  promised-Inv : (i : ℕ) → InvAt n m s (promised i) → Gives (Inv n m) (main_step s (promised i))
  unfolding main_step
  promised-Inv i v =
      let (y, ys, e) = uncons v.ys (omega (arith, v.asw)) in
      let solved = subst (All Solved) e v.solved in
      Gives-bind (buffer_de_queue-cons (subst (Holds s.answers) e v.answers))
        (λ (r, b) (same, held, cap). gives (record {
          xs = v.xs;
          ys = ys;
          checked = v.checked;
          requests = v.requests;
          answers = held;
          requests_cap = v.requests_cap;
          answers_cap = cap ∙ v.answers_cap;
          tasks = v.tasks;
          asw = omega (arith, v.asw, ap length e);
          slots = omega (arith, v.slots, ap length e);
          count = omega (arith, v.count, ap length e);
          once = λ f. omega (arith, v.once f, ap (weight f) e, ap (λ t. f t.query) same);
          check = v.check;
          solved = solved.1;
          honest = v.honest;
          sound = (v.sound, subst Solved (sym same) solved.0);
        }))

  collected-Inv :
      (i : ℕ) (t : Task)
      → InvAt n m s (collected i t)
      → Gives (Inv n m) (main_step s (collected i t))
  unfolding main_step
  collected-Inv i t v = gives (record {
    xs = v.xs;
    ys = v.ys;
    checked = t.query ∷ v.checked;
    requests = v.requests;
    answers = v.answers;
    requests_cap = v.requests_cap;
    answers_cap = v.answers_cap;
    tasks = v.tasks;
    asw = v.asw;
    slots = omega (arith, v.slots);
    count = v.count;
    once = λ f. omega (arith, v.once f);
    check =
        ap₂ ◌+ℤ◌ v.check v.sound.1
        ∙ +ℤ-pos (total sum_to v.checked) (sum_to t.query)
        ∙ ap pos (omega arith);
    solved = v.solved;
    honest = v.honest;
    sound = omega (arith, v.sound.0);
  })

  finished-Inv : s.main ≡ finished → InvAt n m s finished → Gives (Inv n m) (main_step s finished)
  unfolding main_step
  finished-Inv here v = gives (subst (InvAt n m s) (sym here) v)

-- `main` keeps the counts at every step.
pub main_step-Inv : (n m : ℕ) (s : System) → Inv n m s → Gives (Inv n m) (main_step s s.main)
main_step-Inv n m s v = by_place s.main refl v
  where
    by_place : (p : Main) → s.main ≡ p → InvAt n m s p → Gives (Inv n m) (main_step s p)
    by_place (filling i) e v = filling-Inv n m s i v
    by_place (filled i) e v = filled-Inv n m s i v
    by_place (collecting i) e v = collecting-Inv n m s i e v
    by_place (promised i) e v = promised-Inv n m s i v
    by_place (collected i t) e v = collected-Inv n m s i t v
    by_place finished e v = finished-Inv n m s e v
