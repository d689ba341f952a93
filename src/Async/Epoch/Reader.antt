-- ===== src/Async/Epoch/Reader.antt =====
-- The reader interface of EpochContext, which EpochContextReader<T> alone calls.
use uni.Prelude.{
  ℕ, suc, ◌-◌, Bool, not, ◌&&◌, Option, some, [], ◌∷◌, ◌++◌, is_empty, check, ◌>>=◌, ◌>>◌,
  if◌then◌else◌, ◌==◌, leb,
}
use uni.Async.Task.{TaskState, reschedule}
use uni.Async.Epoch.{Epoch, Chain, Step, reading, finished, is, at_most, start_with}

unfoldable pub reader_acquire : Epoch → Chain → Step
reader_acquire e rest = do
  check (at_most e.phase reading)
  some (record e { num_readers = suc e.num_readers } ∷ rest, [])

unfoldable pub reader_ready : Epoch → Option Bool
reader_ready e = do check (at_most e.phase reading); some (is e.phase reading)

unfoldable pub reader_bind : TaskState → Epoch → Chain → Step
reader_bind t e rest = do
  check (at_most e.phase reading)
  if is e.phase reading
      then some (e ∷ rest, reschedule e.eptr t ∷ [])
      else some (record e { reader_tasks = e.reader_tasks ++ (t ∷ []) } ∷ rest, [])

unfoldable pub reader_exception : Epoch → Option (Option ℕ)
reader_exception e = do check (is e.phase reading); some e.eptr

unfoldable pub reader_release : Epoch → Chain → Step
reader_release e rest = do
  check (at_most e.phase reading)
  check (leb 1 e.num_readers)
  let e' = record e { num_readers = e.num_readers - 1 }
  if is e'.phase reading && (e'.num_readers == 0) && not (is_empty rest)
      then (start_with rest e'.eptr >>= λ s. some (record e' { phase = finished } ∷ s.0, s.1))
      else some (e' ∷ rest, [])
