-- ===== src/Async/Queue/Calls.antt =====
-- The calls of free handles on a queue in order (epoch_queue.hpp).
use uni.Prelude.{ℕ, ◌+◌, ◌≡◌, ◌<◌, Bool, true, false, [], ◌∷◌, arith, ◌<◌}
use native.Mathlib.Nat.{zero-add}
use uni.Async.Task.{TaskState, stored}
use uni.Async.Epoch.{Epoch, Chain, reading, at_most}
use uni.Async.Epoch.Writer.{
  has_writer, writer_acquire, writer_try_make_active, writer_bind, writer_set_exception,
  writer_clear_errors,
}
use uni.Async.Epoch.Reader.{reader_acquire, reader_bind, reader_release}
use uni.Async.Epoch.Invariant.{IsOrdered, IsLive, tasks, Ensures, FreeReader, FreeWriter, HasActive}
use uni.Async.Epoch.Reads.{reader_acquire-Ensures, reader_bind-Ensures, reader_release-Ensures}
use uni.Async.Epoch.Writes.{
  writer_acquire-Ensures, writer_bind-Ensures, writer_cancel-Ensures, writer_release_active-Ensures,
  writer_set_exception-Ensures, writer_clear_errors-Ensures,
}
use uni.Async.Epoch.Extend.{set_next_epoch-Ensures}
use uni.Async.Queue.Lift.{At, Last, IsSafe, at-Ensures, on_last-Ensures}
use uni.Async.Queue.{
  Call, reads, extends, writes, binds_reader, binds_writer, releases_reader, releases_writer,
  clears_errors, tries_active, sets_exception, on_last, create_read_context, extend, make_active,
  writer_release, run_call, bound,
}

-- A call comes from a handle that exists and is free to make it.
abbrev pub Allowed : Call → Chain → Type 0
Allowed reads c = Last (λ e. Unit) c
Allowed extends c = Last (λ e. Unit) c
Allowed writes c = Last (λ e. has_writer e ≡ false) c
Allowed (binds_reader i s) c = At FreeReader i c
Allowed (binds_writer i s) c = At FreeWriter i c
Allowed (releases_reader i) c = At FreeReader i c
Allowed (clears_errors i) c = At (λ e. 0 < e.num_writers) i c
Allowed (tries_active i) c = At FreeWriter i c
Allowed (releases_writer i true) c = At HasActive i c
Allowed (releases_writer i false) c = At FreeWriter i c
Allowed (sets_exception i x) c = At (λ e. at_most e.phase reading ≡ true) i c

make_active-Ensures :
    (m : Bool) (t : ℕ) (e : Epoch) (rest : Chain)
    → IsLive m e rest
    → FreeWriter e
    → Ensures m t (tasks t (e ∷ rest)) (make_active e rest)
unfolding make_active writer_try_make_active
make_active-Ensures true t e rest l f = ground arith
make_active-Ensures false t e rest l f = ground arith

extend-Ensures :
    (m : Bool) (t : ℕ) (e : Epoch) → IsLive m e [] → Ensures m t (tasks t (e ∷ [])) (extend e [])
unfolding extend
extend-Ensures true t e l = ground (arith, set_next_epoch-Ensures true t e l)
extend-Ensures false t e l = ground (arith, set_next_epoch-Ensures false t e l)

-- A finished epoch has no handle, so each call on a handle is safe.
module _ (t : ℕ) where
  reader_bind-IsSafe : (s : TaskState) → IsSafe FreeReader (reader_bind s) t (stored t (s ∷ []))
  reader_bind-IsSafe s = record {
    live = λ e h d. omega (arith, d.num_readers);
    safe = λ m e rest. reader_bind-Ensures m t s e rest;
  }

  reader_release-IsSafe : IsSafe FreeReader reader_release t 0
  reader_release-IsSafe = record {
    live = λ e h d. omega (arith, d.num_readers);
    safe = λ m e rest l h. rw zero-add (reader_release-Ensures m t e rest l h);
  }

  writer_bind-IsSafe : (s : TaskState) → IsSafe FreeWriter (writer_bind s) t (stored t (s ∷ []))
  writer_bind-IsSafe s = record {
    live = λ e h d. omega (arith, d.num_writers);
    safe = λ m e rest. writer_bind-Ensures m t s e rest;
  }

  make_active-IsSafe : IsSafe FreeWriter make_active t 0
  make_active-IsSafe = record {
    live = λ e h d. omega (arith, d.num_writers);
    safe = λ m e rest l h. rw zero-add (make_active-Ensures m t e rest l h);
  }

  writer_cancel-IsSafe : IsSafe FreeWriter (writer_release false) t 0
  unfolding writer_release
  writer_cancel-IsSafe = record {
    live = λ e h d. omega (arith, d.num_writers);
    safe = λ m e rest l h. rw zero-add (writer_cancel-Ensures m t e rest l h);
  }

  writer_release_active-IsSafe : IsSafe HasActive (writer_release true) t 0
  unfolding writer_release
  writer_release_active-IsSafe = record {
    live = λ e h d. cc (d.idle, h.0);
    safe = λ m e rest l h. rw zero-add (writer_release_active-Ensures m t e rest l h.0);
  }

  writer_clear_errors-IsSafe : IsSafe (λ e. 0 < e.num_writers) writer_clear_errors t 0
  writer_clear_errors-IsSafe = record {
    live = λ e h d. omega (arith, d.num_writers);
    safe = λ m e rest l h. rw zero-add (writer_clear_errors-Ensures m t e rest l h);
  }

  writer_set_exception-IsSafe :
      (x : ℕ) → IsSafe (λ e. at_most e.phase reading ≡ true) (writer_set_exception x) t 0
  writer_set_exception-IsSafe x = record {
    live = λ e h d. ground (arith, d.phase);
    safe = λ m e rest l h. rw zero-add (writer_set_exception-Ensures m t x e rest l);
  }

  pub extend-ordered :
      (m : Bool) (c : Chain)
      → IsOrdered m c
      → Last (λ e. Unit {0}) c
      → Ensures m t (0 + tasks t c) (on_last extend c)
  extend-ordered =
      on_last-Ensures (λ e. Unit) extend t 0 (λ m e l u. rw zero-add (extend-Ensures m t e l))

  read-ordered :
      (m : Bool) (c : Chain)
      → IsOrdered m c
      → Last (λ e. Unit {0}) c
      → Ensures m t (0 + tasks t c) (on_last reader_acquire c)
  read-ordered =
      on_last-Ensures (λ e. Unit) reader_acquire t 0
        (λ m e l u. rw zero-add (reader_acquire-Ensures m t e [] l))

  pub write-ordered :
      (m : Bool) (c : Chain)
      → IsOrdered m c
      → Last (λ e. has_writer e ≡ false) c
      → Ensures m t (0 + tasks t c) (on_last writer_acquire c)
  unfolding has_writer
  write-ordered =
      on_last-Ensures (λ e. has_writer e ≡ false) writer_acquire t 0
        (λ m e l u. rw zero-add (writer_acquire-Ensures m t e [] l (ground arith)))

  -- No check fails, and the queue stays in order.
  pub call-Ensures :
      (m : Bool) (x : Call) (c : Chain)
      → IsOrdered m c
      → Allowed x c
      → Ensures m t (bound t x + tasks t c) (run_call x c)
  unfolding run_call create_read_context
  call-Ensures m reads c = read-ordered m c
  call-Ensures m extends c = extend-ordered m c
  call-Ensures m writes c = write-ordered m c
  call-Ensures m (binds_reader i s) c = at-Ensures (reader_bind-IsSafe s) m i c
  call-Ensures m (binds_writer i s) c = at-Ensures (writer_bind-IsSafe s) m i c
  call-Ensures m (releases_reader i) c = at-Ensures reader_release-IsSafe m i c
  call-Ensures m (clears_errors i) c = at-Ensures writer_clear_errors-IsSafe m i c
  call-Ensures m (tries_active i) c = at-Ensures make_active-IsSafe m i c
  call-Ensures m (releases_writer i true) c = at-Ensures writer_release_active-IsSafe m i c
  call-Ensures m (releases_writer i false) c = at-Ensures writer_cancel-IsSafe m i c
  call-Ensures m (sets_exception i x) c = at-Ensures (writer_set_exception-IsSafe x) m i c
