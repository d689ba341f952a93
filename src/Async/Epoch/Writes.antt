-- ===== src/Async/Epoch/Writes.antt =====
-- The writer interface of epoch_context.hpp and the invariants, for a caller who holds a writer that
-- is not bound, or the active one.
use uni.Prelude.{
  ℕ, suc, ◌+◌, ◌-◌, ◌≡◌, ◌<◌, refl, Bool, true, false, List, [], ◌∷◌, is_empty, arith,
}
use uni.Async.Task.{TaskState, stored}
use uni.Async.Epoch.{Epoch, Chain, started, writing, start_with, at_most}
use uni.Async.Epoch.Writer.{
  writer_acquire, writer_bind, writer_cancel, writer_release_active, writer_set_exception,
  writer_clear_errors, run_waiting_writer,
}
use uni.Async.Epoch.Invariant.{Bounded, AllPending, tasks, Ensures, IsLive, FreeWriter}
use uni.Async.Epoch.Start.{
  start_with-Ensures, advance_writing-Ensures, execute_writer-Ensures, advance_reading-Ensures,
}

pub writer_acquire-Ensures :
    (m : Bool) (t : ℕ) (e : Epoch) (rest : Chain)
    → IsLive m e rest
    → at_most e.phase started ≡ true
    → Ensures m t (tasks t (e ∷ rest)) (writer_acquire e rest)
unfolding writer_acquire
writer_acquire-Ensures true t e rest l p = ground (
  arith,
  advance_writing-Ensures t (start_with rest)
      (record e { num_writers = suc e.num_writers; total_writers = suc e.total_writers }) rest,
  λ (n : is_empty rest ≡ false). start_with-Ensures t rest e.eptr n l.1,
)
writer_acquire-Ensures false t e rest l p = ground arith

pub writer_bind-Ensures :
    (m : Bool) (t : ℕ) (s : TaskState) (e : Epoch) (rest : Chain)
    → IsLive m e rest
    → FreeWriter e
    → Ensures m t (stored t (s ∷ []) + tasks t (e ∷ rest)) (writer_bind s e rest)
unfolding writer_bind
writer_bind-Ensures true t s e rest l f =
    ground (arith, execute_writer-Ensures t (start_with rest) e rest s)
writer_bind-Ensures false t s e rest l f = ground arith

pub writer_cancel-Ensures :
    (m : Bool) (t : ℕ) (e : Epoch) (rest : Chain)
    → IsLive m e rest
    → FreeWriter e
    → Ensures m t (tasks t (e ∷ rest)) (writer_cancel e rest)
unfolding writer_cancel
writer_cancel-Ensures true t e rest l f = ground (
  arith,
  advance_reading-Ensures t (start_with rest) (record e { num_writers = e.num_writers - 1 }) rest,
  λ (n : is_empty rest ≡ false). start_with-Ensures t rest e.eptr n l.1,
)
writer_cancel-Ensures false t e rest l f = ground arith

run_waiting_writer-Ensures :
    (t : ℕ) (ss : List TaskState) (e : Epoch) (rest : Chain)
    → e.writer_tasks ≡ ss
    → e.phase ≡ writing
    → 0 < e.num_writers
    → e.writer_active ≡ false
    → Bounded e
    → AllPending rest
    → Ensures true t (tasks t (e ∷ rest)) (run_waiting_writer ss e rest)
unfolding run_waiting_writer
run_waiting_writer-Ensures t [] e rest q p n i b a = ground arith
run_waiting_writer-Ensures t (s ∷ ss) e rest q p n i b a =
    ground
      (arith, execute_writer-Ensures t (start_with rest) (record e { writer_tasks = ss }) rest s)

pub writer_release_active-Ensures :
    (m : Bool) (t : ℕ) (e : Epoch) (rest : Chain)
    → IsLive m e rest
    → e.writer_active ≡ true
    → Ensures m t (tasks t (e ∷ rest)) (writer_release_active e rest)
unfolding writer_release_active
writer_release_active-Ensures true t e rest l f = ground (
  arith,
  run_waiting_writer-Ensures t e.writer_tasks
      (record e { writer_active = false; num_writers = e.num_writers - 1 }) rest refl,
  advance_reading-Ensures t (start_with rest)
      (record e { writer_active = false; num_writers = e.num_writers - 1 }) rest,
  λ (n : is_empty rest ≡ false). start_with-Ensures t rest e.eptr n l.1,
)
writer_release_active-Ensures false t e rest l f = ground arith

pub writer_set_exception-Ensures :
    (m : Bool) (t x : ℕ) (e : Epoch) (rest : Chain)
    → IsLive m e rest
    → Ensures m t (tasks t (e ∷ rest)) (writer_set_exception x e rest)
unfolding writer_set_exception
writer_set_exception-Ensures true t x e rest l = ground arith
writer_set_exception-Ensures false t x e rest l = ground arith

pub writer_clear_errors-Ensures :
    (m : Bool) (t : ℕ) (e : Epoch) (rest : Chain)
    → IsLive m e rest
    → 0 < e.num_writers
    → Ensures m t (tasks t (e ∷ rest)) (writer_clear_errors e rest)
unfolding writer_clear_errors
writer_clear_errors-Ensures true t e rest l f = ground arith
writer_clear_errors-Ensures false t e rest l f = ground arith
