-- ===== src/Async/Epoch/Writer.antt =====
-- The writer interface of EpochContext, which EpochContextWriter<T> alone calls.
use uni.Prelude.{
  ℕ, suc, ◌-◌, Bool, true, false, not, ◌&&◌, ◌||◌, Option, none, some, List, [], ◌∷◌, check, ◌>>◌,
  if◌then◌else◌, ◌==◌, ltb, leb,
}
use uni.Async.Task.{TaskState}
use uni.Async.Epoch.{
  Epoch, Chain, Step, started, writing, reading, is, at_most, rank, start_with, execute_writer,
  advance_writing, advance_reading,
}

unfoldable pub writer_acquire : Epoch → Chain → Step
writer_acquire e rest = do
  check (at_most e.phase started)
  let e' = record e { num_writers = suc e.num_writers; total_writers = suc e.total_writers }
  if is e'.phase started then advance_writing (start_with rest) e' rest else some (e' ∷ rest, [])

unfoldable pub has_writer : Epoch → Bool
has_writer e = ltb 0 e.total_writers || leb (rank writing) (rank e.phase)

unfoldable pub writer_clear_errors : Epoch → Chain → Step
writer_clear_errors e rest = do
  check (at_most e.phase writing)
  some (record e { eptr = none } ∷ rest, [])

unfoldable pub writer_bind : TaskState → Epoch → Chain → Step
writer_bind t e rest = do
  check (at_most e.phase writing)
  check (not (is e.phase started))
  if is e.phase writing && not e.writer_active
      then execute_writer e rest t
      else some (record e { writer_tasks = t ∷ e.writer_tasks } ∷ rest, [])

-- With the answer: whether the caller is now the active writer.
unfoldable pub writer_try_make_active : Epoch → Option (Epoch × Bool)
writer_try_make_active e = do
  check (at_most e.phase writing)
  if ltb (rank e.phase) (rank writing) || e.writer_active
      then some (e, false)
      else some (record e { writer_active = true }, true)

abbrev keep_first : Option ℕ → ℕ → Option ℕ
keep_first none x = some x
keep_first (some y) x = some y

-- The first error stays.
unfoldable pub writer_set_exception : ℕ → Epoch → Chain → Step
writer_set_exception x e rest = do
  check (at_most e.phase reading)
  some (record e { eptr = keep_first e.eptr x } ∷ rest, [])

-- The release of a writer that never became active.
unfoldable pub writer_cancel : Epoch → Chain → Step
writer_cancel e rest = do
  check (at_most e.phase writing)
  check (leb 1 e.num_writers)
  let e' = record e { num_writers = e.num_writers - 1 }
  if (e'.num_writers == 0) && is e'.phase writing
      then (check (not e'.writer_active) >> advance_reading (start_with rest) e' rest)
      else some (e' ∷ rest, [])

unfoldable pub run_waiting_writer : List TaskState → Epoch → Chain → Step
run_waiting_writer [] e rest = some (e ∷ rest, [])
run_waiting_writer (t ∷ ts) e rest = execute_writer (record e { writer_tasks = ts }) rest t

unfoldable pub writer_release_active : Epoch → Chain → Step
unfolding run_waiting_writer
writer_release_active e rest = do
  check (is e.phase writing)
  check (leb 1 e.num_writers)
  check e.writer_active
  let e' = record e { writer_active = false; num_writers = e.num_writers - 1 }
  if (e'.num_writers == 0) && is e'.phase writing
      then advance_reading (start_with rest) e' rest
      else run_waiting_writer e'.writer_tasks e' rest
