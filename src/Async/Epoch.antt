-- ===== src/Async/Epoch.antt =====
-- EpochContext of src/uni20/async/epoch_context.hpp. An epoch and the epochs that follow it through
-- `next_epoch_` are a list; an operation on the first of them returns the new list and the tasks
-- that it hands to the scheduler, or `none` where a DEBUG_CHECK fails. Each runs under the mutex.
pub mod Writer
pub mod Reader
pub mod Invariant
pub mod Start
pub mod Reads
pub mod Writes
pub mod Extend
pub mod Handles
pub mod Errors
use uni.Prelude.{
  ℕ, suc, Bool, true, false, not, ◌&&◌, Option, none, some, List, [], ◌∷◌, map, is_empty, check,
  ◌>>=◌, ◌>>◌, if◌then◌else◌, ◌==◌, ltb, leb,
}
use uni.Prelude.Int.{ℤ, pos, ◌+ℤ◌, ◌-ℤ◌}
use uni.Async.Task.{TaskState, Resumed, reschedule}

pub data Phase : Type 0 where
  pending started writing reading finished : Phase

abbrev pub rank : Phase → ℕ
rank pending = 0
rank started = 1
rank writing = 2
rank reading = 3
rank finished = 4

-- The comparisons of two phases.
abbrev pub is : Phase → Phase → Bool
is p q = rank p == rank q

abbrev pub at_most : Phase → Phase → Bool
at_most p q = leb (rank p) (rank q)

-- `writer_tasks` has the back of the vector first.
pub record Epoch : Type 0 where
  pub eptr : Option ℕ
  pub counter : ℤ
  pub phase : Phase
  pub total_writers : ℕ
  pub num_writers : ℕ
  pub writer_tasks : List TaskState
  pub writer_active : Bool
  pub num_readers : ℕ
  pub reader_tasks : List TaskState

abbrev pub Chain : Type 0
Chain = List Epoch

abbrev pub Step : Type 0
Step = Option (Chain × List Resumed)

unfoldable pub new_epoch : Epoch
new_epoch = record {
  eptr = none;
  counter = pos 0;
  phase = pending;
  total_writers = 0;
  num_writers = 0;
  writer_tasks = [];
  writer_active = false;
  num_readers = 0;
  reader_tasks = [];
}

-- The constructor from the next epoch, on a chain that begins with that epoch.
unfoldable pub make_previous : Chain → Chain
unfolding new_epoch
make_previous [] = new_epoch ∷ []
make_previous (n ∷ rest) = record new_epoch { counter = n.counter -ℤ pos 1 } ∷ n ∷ rest

unfoldable pub execute_writer : Epoch → Chain → TaskState → Step
execute_writer e rest t = do
  check (is e.phase writing)
  check (not e.writer_active)
  some (record e { writer_active = true } ∷ rest, reschedule e.eptr t ∷ [])

unfoldable pub execute_readers : Epoch → Chain → Step
execute_readers e rest =
    some (record e { reader_tasks = [] } ∷ rest, map (reschedule e.eptr) e.reader_tasks)

-- `start_next` is `next_epoch_->start`.
module _ (start_next : Option ℕ → Step) where
  unfoldable pub advance_finished : Epoch → Chain → Step
  advance_finished e rest = do
    check (is e.phase reading && not (is_empty rest))
    (rest', out) ← start_next e.eptr
    some (record e { phase = finished } ∷ rest', out)

  unfoldable pub advance_reading : Epoch → Chain → Step
  advance_reading e rest = do
    check (is e.phase writing)
    let e' = record e { phase = reading }
    if ltb 0 e.num_readers
        then execute_readers e' rest
        else if not (is_empty rest)
        then advance_finished e' rest
        else some (e' ∷ rest, [])

  run_next_writer : List TaskState → Epoch → Chain → Step
  run_next_writer [] e rest =
      if e.num_writers == 0 then advance_reading e rest else some (e ∷ rest, [])
  run_next_writer (t ∷ ts) e rest = execute_writer (record e { writer_tasks = ts }) rest t

  unfoldable pub advance_writing : Epoch → Chain → Step
  unfolding run_next_writer
  advance_writing e rest = do
    check (is e.phase started)
    run_next_writer e.writer_tasks (record e { phase = writing }) rest

  unfoldable pub advance_start : Epoch → Chain → Step
  advance_start e rest = do
    check (is e.phase pending)
    let e' = record e { phase = started }
    if ltb 0 e.total_writers then advance_writing e' rest else some (e' ∷ rest, [])

-- start(eptr): the start that a finished epoch gives to its successor.
unfoldable pub start_with : Chain → Option ℕ → Step
start_with [] eptr = none
start_with (e ∷ rest) eptr = do
  check (is e.phase pending)
  advance_start (start_with rest) (record e { eptr = eptr }) rest

unfoldable pub start : Epoch → Chain → Step
start e rest =
    if is e.phase pending then advance_start (start_with rest) e rest else some (e ∷ rest, [])

-- The start of an epoch whose value has been written.
unfoldable pub start_reading : Epoch → Chain → Step
start_reading e rest = do
  check (is e.phase pending)
  check (e.total_writers == 0)
  advance_start (start_with rest) (record e { total_writers = suc e.total_writers }) rest

-- The chain of an epoch with no successor, and the epoch that is to follow it.
unfoldable pub set_next_epoch : Epoch → Chain → Epoch → Step
set_next_epoch e rest next = do
  check (is_empty rest)
  check (at_most e.phase reading)
  let rest' = record next { counter = e.counter +ℤ pos 1 } ∷ []
  if is e.phase reading && (e.num_readers == 0)
      then advance_finished (start_with rest') e rest'
      else some (e ∷ rest', [])
