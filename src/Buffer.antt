-- ===== src/Buffer.antt =====
-- The buffers that the programs of lab8 share: buffer.c, with the tasks of prog1.c and prog2.c.
pub mod Ring
pub mod System
pub mod Invariant
pub mod MainSteps
pub mod WorkerSteps
pub mod Runs
mod Examples
use cse.Base.{
  ℕ, zero, suc, ◌+◌, ◌*◌, ◌%◌, Bool, Option, none, some, List, [], ltb, length, get_elem?, set,
  ◌>>=◌, ◌>>◌, assert,
}
use cse.Base.Int.{ℤ, pos}

-- The query is not below 0: `main` of prog1.c counts up from 0.
pub record Task : Type 0 where
  pub worker : ℕ
  pub query : ℕ
  pub answer : ℤ

pub record SBuffer : Type 0 where
  pub cap : ℕ
  pub head : ℕ
  pub tail : ℕ
  pub mapsz : ℕ
  pub cells : List Task

-- What the system does about a zone: whether `shm_open`, `ftruncate` and `mmap` succeed, and what the
-- map holds then.
pub record Zone : Type 0 where
  pub opened : Bool
  pub sized : Bool
  pub mapped : Bool
  pub cells : List Task

-- The header of the map has four numbers of 8 bytes, a task three. `none` is the exit at `error`.
unfoldable pub setup_buffer : Zone → (ntasks : ℕ) → Option SBuffer
setup_buffer zone ntasks =
    assert zone.opened
    >> (assert zone.sized
        >> (assert zone.mapped
            >> some (record {
              cap = ntasks;
              head = 0;
              tail = 0;
              mapsz = 32 + ntasks * 24;
              cells = zone.cells;
            })))

-- A write outside the map, and a remainder by 0, are faults.
unfoldable pub buffer_en_queue : SBuffer → Task → Option SBuffer
buffer_en_queue b t =
    assert (ltb b.head (length b.cells))
    >> (assert (ltb 0 b.cap)
        >> some (record b { head = (b.head + 1) % b.cap; cells = set b.cells b.head t }))

unfoldable pub buffer_de_queue : SBuffer → Option (Task × SBuffer)
buffer_de_queue b = do
  t ← get_elem? b.cells b.tail
  assert (ltb 0 b.cap)
  some (t, record b { tail = (b.tail + 1) % b.cap })
