-- ===== src/Async/Queue.antt =====
-- EpochQueue of src/uni20/async/epoch_queue.hpp, with the epochs of one value oldest first, and
-- the calls that the queue's users make through EpochContextReader and EpochContextWriter.
pub mod Lift
pub mod Calls
pub mod History
pub mod Order
pub mod Progress
pub mod Drain
pub mod Writing
use uni.Prelude.{
  ℕ, zero, suc, ◌+◌, Bool, Option, none, some, List, [], ◌∷◌, ◌++◌, ◌>>=◌, if◌then◌else◌,
}
use uni.Async.Task.{TaskState, Resumed, stored}
use uni.Async.Epoch.{Epoch, Chain, Step, new_epoch, start, start_reading, set_next_epoch}
use uni.Async.Epoch.Writer.{
  has_writer, writer_acquire, writer_bind, writer_cancel, writer_release_active,
  writer_set_exception, writer_clear_errors, writer_try_make_active,
}
use uni.Async.Epoch.Reader.{reader_acquire, reader_bind, reader_release}

-- An earlier epoch stays as it is.
abbrev pub behind : Epoch → Step → Step
behind e none = none
behind e (some (c, out)) = some (e ∷ c, out)

-- A call on the latest epoch, `current_`.
unfoldable pub on_last : (Epoch → Chain → Step) → Chain → Step
on_last f [] = none
on_last f (e ∷ []) = f e []
on_last f (e ∷ e' ∷ rest) = behind e (on_last f (e' ∷ rest))

-- A call on the epoch at a position.
unfoldable pub at : ℕ → (Epoch → Chain → Step) → Chain → Step
at i f [] = none
at zero f (e ∷ rest) = f e rest
at (suc i) f (e ∷ rest) = behind e (at i f rest)

-- Two steps in turn, with the tasks of both.
abbrev pub and_then : Step → (Chain → Step) → Step
and_then none k = none
and_then (some (c, out)) k = k c >>= λ s. some (s.0, out ++ s.1)

-- EpochQueue() with start_reading() or start(), as Async<T> makes it with a value or without one.
unfoldable pub make_queue : Bool → Step
make_queue with_value = if with_value then start_reading new_epoch [] else start new_epoch []

unfoldable pub create_read_context : Chain → Step
create_read_context = on_last reader_acquire

-- The first part of create_write_context: a new epoch, if the latest one has a writer.
unfoldable pub extend : Epoch → Chain → Step
extend e rest = if has_writer e then set_next_epoch e rest new_epoch else some (e ∷ rest, [])

unfoldable pub create_write_context : Chain → Step
create_write_context c = and_then (on_last extend c) (on_last writer_acquire)

-- writer_try_make_active as a step, without its answer.
unfoldable pub make_active : Epoch → Chain → Step
make_active e rest = writer_try_make_active e >>= λ r. some (r.0 ∷ rest, [])

-- EpochContextWriter::release, by its flag `acquired_`.
unfoldable pub writer_release : Bool → Epoch → Chain → Step
writer_release acquired e rest =
    if acquired then writer_release_active e rest else writer_cancel e rest

-- The calls, each on the epoch that its handle tracks. `extends` and `writes` are the two critical
-- sections of create_write_context, between which other threads may run.
pub data Call : Type 0 where
  reads extends writes : Call
  binds_reader binds_writer : ℕ → TaskState → Call
  releases_reader clears_errors tries_active : ℕ → Call
  releases_writer : ℕ → Bool → Call
  sets_exception : ℕ → ℕ → Call

unfoldable pub run_call : Call → Chain → Step
run_call reads c = create_read_context c
run_call extends c = on_last extend c
run_call writes c = on_last writer_acquire c
run_call (binds_reader i s) c = at i (reader_bind s) c
run_call (binds_writer i s) c = at i (writer_bind s) c
run_call (releases_reader i) c = at i reader_release c
run_call (clears_errors i) c = at i writer_clear_errors c
run_call (tries_active i) c = at i make_active c
run_call (releases_writer i acquired) c = at i (writer_release acquired) c
run_call (sets_exception i x) c = at i (writer_set_exception x) c

-- The copies of a task that a call brings in.
abbrev pub bound : ℕ → Call → ℕ
bound t (binds_reader i s) = stored t (s ∷ [])
bound t (binds_writer i s) = stored t (s ∷ [])
bound t _ = 0

-- A history of calls, with the tasks handed to the scheduler in order.
unfoldable pub run_calls : List Call → Chain → Step
run_calls [] c = some (c, [])
run_calls (x ∷ xs) c = and_then (run_call x c) (run_calls xs)
