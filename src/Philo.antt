-- ===== src/Philo.antt =====
-- The dining philosophers of final/philo.c: the table of forks, doActivity, and muse, one lock or
-- unlock at a time, with the other threads between two of them.
use cse.Base.{
  ℕ, ◌+◌, ◌-◌, ◌%◌, ◌<◌, ◌≡◌, refl, Bool, true, false, Option, none, some, ltb, ◌==◌, if◌then◌else◌,
}
mod Numbers
mod Locks
mod Owners
pub mod Safety
pub mod Progress
mod Left
pub mod Ending
pub mod Edge
mod Examples

-- THINK, HUNGRY and EAT
pub data Activity : Type 0 where
  think : Activity
  hungry : Activity
  eat : Activity

pub record Philosopher : Type 0 where
  pub id : ℕ
  pub state : Activity
  pub ate : ℕ
  pub cycle : ℕ

-- The owner of each fork; a fork is a mutex.
abbrev pub Forks : Type 0
Forks = ℕ → Option ℕ

abbrev pub make_table : Forks
make_table f = none

-- Where a thread stands in muse: at the test of the loop, between two locks, between two unlocks in
-- the loop and behind it, and at the end.
pub data Place : Type 0 where
  loop : Place
  locked_first : Place
  unlocked_second : Place
  leaving : Place
  returned : Place

pub record Muse : Type 0 where
  pub philo : Philosopher
  pub place : Place

-- What a step comes to. `blocked` waits for a mutex, `exits` ends the process, and `undefined` is an
-- unlock of a mutex that the thread does not hold.
pub data Outcome : Type 0 where
  moved : Forks → Muse → Outcome
  blocked : Outcome
  ended : Outcome
  exits : ℕ → Outcome
  undefined : Outcome

abbrev pub is_owner : Option ℕ → ℕ → Bool
is_owner none i = false
is_owner (some j) i = j == i

abbrev pub is_free : Option ℕ → Bool
is_free none = true
is_free (some j) = false

abbrev pub put : Forks → ℕ → Option ℕ → Forks
put forks f owner g = if g == f then owner else forks g

-- `pthread_mutex_lock` of a default mutex: also its owner blocks. `next` is what follows.
abbrev pub lock : Forks → (f i : ℕ) → (Forks → Outcome) → Outcome
lock forks f i next =
    let after = next (put forks f (some i)) in if is_free (forks f) then after else blocked

-- `pthread_mutex_unlock`, and what follows it
abbrev pub unlock : Forks → (f i : ℕ) → (Forks → Outcome) → Outcome
unlock forks f i next =
    let after = next (put forks f none) in if is_owner (forks f) i then after else undefined

-- `doActivity`: the exit codes 1, 2 and 3 for an activity that does not follow from the state.
unfoldable pub do_activity : Activity → Philosopher → (Philosopher → Outcome) → Outcome
do_activity think p next = elim (p.state) [
  | eat ↦ next (record p { state = think })
  | think ↦ exits 1
  | hungry ↦ exits 1
]
do_activity hungry p next = elim (p.state) [
  | think ↦ next (record p { state = hungry })
  | hungry ↦ exits 2
  | eat ↦ exits 2
]
do_activity eat p next = elim (p.state) [
  | hungry ↦ next (record p { state = eat; ate = p.ate + 1 })
  | think ↦ exits 3
  | eat ↦ exits 3
]

abbrev pub first : ℕ → ℕ → ℕ
first n id = (id + id % 2) % n

abbrev pub second : ℕ → ℕ → ℕ
second n id = (id + (1 - id % 2)) % n

-- One round of the switch in muse, up to its first lock or unlock.
unfoldable pub round : ℕ → Forks → Philosopher → Activity → Outcome
unfolding do_activity
round n forks p think = do_activity hungry p (λ q. moved forks (record { philo = q; place = loop }))
round n forks p hungry =
    lock forks (first n p.id) p.id (λ g. moved g (record { philo = p; place = locked_first }))
round n forks p eat =
    unlock forks (second n p.id) p.id (λ g. moved g (record { philo = p; place = unlocked_second }))

unfoldable pub leave : ℕ → Forks → Philosopher → Outcome
leave n forks p =
    unlock forks (second n p.id) p.id (λ g. moved g (record { philo = p; place = leaving }))

unfoldable pub muse_at : ℕ → Forks → Philosopher → Place → Outcome
unfolding round leave do_activity
muse_at n forks p loop =
    let on = round n forks p p.state in
    let off = leave n forks p in if ltb p.ate p.cycle then on else off
muse_at n forks p locked_first =
    lock forks (second n p.id) p.id
      (λ g. do_activity eat p (λ q. moved g (record { philo = q; place = loop })))
muse_at n forks p unlocked_second =
    unlock forks (first n p.id) p.id
      (λ g. do_activity think p (λ q. moved g (record { philo = q; place = loop })))
muse_at n forks p leaving =
    unlock forks (first n p.id) p.id
      (λ g. do_activity think p (λ q. moved g (record { philo = q; place = returned })))
muse_at n forks p returned = ended

-- One step of a thread of `n`.
unfoldable pub muse : ℕ → Forks → Muse → Outcome
unfolding muse_at
muse n forks m = muse_at n forks m.philo m.place

-- The threads by number.
pub record System : Type 0 where
  pub forks : Forks
  pub seats : ℕ → Muse

abbrev pub sit : (ℕ → Muse) → ℕ → Muse → ℕ → Muse
sit seats i m j = if j == i then m else seats j

abbrev pub start : ℕ → System
start c = record {
  forks = make_table;
  seats =
      λ i. record { philo = record { id = i; state = think; ate = 0; cycle = c }; place = loop };
}

-- A thread of the `n` goes one step on.
pub data Step (n : ℕ) (s : System) : System → Type 0 where
  moves :
      (i : ℕ) {forks : Forks} {m : Muse}
      → i < n
      → muse n s.forks (s.seats i) ≡ moved forks m
      → Step n s (record { forks = forks; seats = sit s.seats i m })

pub data Reach (n : ℕ) (s : System) : System → Type 0 where
  here : Reach n s s
  later : {t u : System} → Reach n s t → Step n t u → Reach n s u
