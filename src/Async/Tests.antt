-- ===== src/Async/Tests.antt =====
-- Runs of the epoch queue on small inputs, and the theorems at such inputs.
use uni.Prelude.{ℕ, ◌≡◌, ◌⊎◌, inl, inr, refl, true, false, none, some, List, [], ◌∷◌, arith}
use uni.Prelude.Int.{pos, ◌+ℤ◌}
use uni.Async.Task.{TaskState, Resumed, resumption, reschedule, normal, raise}
use uni.Async.Epoch.{
  Epoch, Chain, Step, finished, pending, reading, writing, start, start_reading, start_with,
  advance_start, advance_writing, advance_reading, advance_finished, execute_writer,
  execute_readers, new_epoch, set_next_epoch,
}
use uni.Async.Epoch.Writer.{
  has_writer, writer_acquire, writer_bind, writer_release_active, writer_cancel,
  writer_set_exception,
}
use uni.Async.Epoch.Reader.{reader_acquire, reader_bind, reader_release}
use uni.Async.Queue.{
  Call, reads, extends, writes, binds_reader, binds_writer, releases_reader, releases_writer,
  sets_exception, make_queue, run_call, run_calls, at, on_last, extend, create_read_context,
  create_write_context, writer_release,
}
use uni.Async.Queue.History.{Legal, Leaves, history}
use uni.Async.Queue.Order.{history-order}
use uni.Async.Queue.Drain.{Drains, history-Drains}
use uni.Async.Queue.Writing.{create_write_context-one}
use uni.Async.Queue.Lift.{Last}
use uni.Async.Epoch.Invariant.{IsWriting, IsPending}
use uni.Async.Epoch.Errors.{Waits, Inherits, release-Inherits}

abbrev job : ℕ → TaskState
job t = record { task = t; cancel_on_exception = false }

-- A write by task 1, which fails with error 7, a read by task 2, and a second write by task 3.
abbrev calls : List Call
calls =
    extends
    ∷ writes
    ∷ binds_writer 0 (job 1)
    ∷ reads
    ∷ binds_reader 0 (job 2)
    ∷ extends
    ∷ writes
    ∷ binds_writer 1 (job 3)
    ∷ sets_exception 0 7
    ∷ releases_writer 0 true
    ∷ releases_reader 0
    ∷ []

-- What a run computes with.
unfoldable ran : Step → Step
unfolding make_queue start start_reading start_with advance_start advance_writing advance_reading
    advance_finished execute_writer execute_readers new_epoch set_next_epoch has_writer
    writer_acquire writer_bind writer_release_active writer_cancel writer_set_exception
    reader_acquire reader_bind reader_release run_call run_calls at on_last extend
    create_read_context writer_release history reschedule resumption ◌+ℤ◌
ran s = s

abbrev outputs : Step → List Resumed
outputs none = []
outputs (some (c, out)) = out

-- The tasks run in turn, and the error of the first reaches the others.
calls-outputs :
    outputs (ran (history false calls))
    ≡ record { task = 1; resumption = normal }
      ∷ record { task = 2; resumption = raise 7 }
      ∷ record { task = 3; resumption = raise 7 }
      ∷ []
unfolding ran
calls-outputs = refl

abbrev chain_of : Step → Chain
chain_of none = []
chain_of (some (c, out)) = c

-- The first writer still runs, and the second write waits for it and for the reader.
abbrev blocked : List Call
blocked =
    extends
    ∷ writes
    ∷ binds_writer 0 (job 1)
    ∷ reads
    ∷ binds_reader 0 (job 2)
    ∷ extends
    ∷ writes
    ∷ []

blocked-Legal : Leaves (Legal blocked) (make_queue false)
unfolding ran
blocked-Legal = ground arith

blocked_run :
    history false blocked
    ≡ some (chain_of (ran (history false blocked)), outputs (ran (history false blocked)))
unfolding ran
blocked_run = refl

abbrev first : Epoch
first = record {
  eptr = none;
  counter = pos 0;
  phase = writing;
  total_writers = 1;
  num_writers = 1;
  writer_tasks = [];
  writer_active = true;
  num_readers = 1;
  reader_tasks = job 2 ∷ [];
}

abbrev second : Epoch
second = record {
  eptr = none;
  counter = pos 1;
  phase = pending;
  total_writers = 1;
  num_writers = 1;
  writer_tasks = [];
  writer_active = false;
  num_readers = 0;
  reader_tasks = [];
}

first-IsWriting : IsWriting first
first-IsWriting = ground arith

second-IsPending : IsPending second []
second-IsPending = ground arith

history-order_example : (first.phase ≡ finished) ⊎ (second.phase ≡ pending)
unfolding ran
history-order_example =
    history-order false blocked 0 1 {e = first} {e' = second} blocked-Legal blocked_run
      (omega arith) refl refl

history-Drains_example : (ys : List Call) × Drains ys (chain_of (ran (history false blocked)))
history-Drains_example = history-Drains false blocked blocked-Legal blocked_run

create_write_context-one_example :
    Leaves (Last λ e. e.total_writers ≡ 1) (create_write_context (first ∷ second ∷ []))
create_write_context-one_example =
    create_write_context-one true (first ∷ second ∷ [])
      (inl (inr (inl first-IsWriting), (second-IsPending, tt))) tt

-- The reader of a failed epoch goes; the writer that waits behind it meets the error.
abbrev failed : Epoch
failed = record first { eptr = some 7; phase = reading; num_writers = 0; reader_tasks = [] }

release-Inherits_example :
    Inherits (λ s. Waits s (failed ∷ second ∷ [])) (some 7) (reader_release failed (second ∷ []))
    × Inherits (λ s. Waits s (failed ∷ second ∷ [])) (some 7) (writer_cancel failed (second ∷ []))
    × Inherits
        (λ s. Waits s (failed ∷ second ∷ []))
        (some 7)
        (writer_release_active failed (second ∷ []))
release-Inherits_example = release-Inherits failed (second ∷ []) (second-IsPending, tt)
