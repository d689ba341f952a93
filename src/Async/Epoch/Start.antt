-- ===== src/Async/Epoch/Start.antt =====
-- The start of a pending epoch, with all the transitions that follow it at once.
use uni.Prelude.{
  ℕ, suc, ◌+◌, ◌≡◌, ◌≤◌, refl, false, true, Option, List, [], ◌∷◌, length, map, is_empty, arith,
}
use uni.Async.Task.{TaskState, stored, resumed, reschedule}
use uni.Async.Epoch.{
  Epoch, Chain, Step, started, writing, reading, advance_finished, advance_reading, execute_readers,
  execute_writer, advance_writing, advance_start, start_with, run_next_writer,
}
use uni.Async.Epoch.Invariant.{Bounded, IsPending, IsReading, AllPending, tasks, Ensures}

resumed-reschedule :
    (t : ℕ) (eptr : Option ℕ) (ss : List TaskState)
    → resumed t (map (reschedule eptr) ss) ≡ stored t ss
unfolding reschedule
resumed-reschedule t eptr [] = refl
resumed-reschedule t eptr (s ∷ ss) = omega (arith, resumed-reschedule t eptr ss)

module _ (t : ℕ) (start_next : Option ℕ → Step) where
  pub advance_finished-Ensures :
      (e : Epoch) (rest : Chain)
      → IsReading e []
      → e.num_readers ≡ 0
      → is_empty rest ≡ false
      → Ensures true t (tasks t rest) (start_next e.eptr)
      → Ensures true t (tasks t rest) (advance_finished start_next e rest)
  unfolding advance_finished
  advance_finished-Ensures e rest r z n h = ground arith

  pub advance_reading-Ensures :
      (e : Epoch) (rest : Chain)
      → e.phase ≡ writing
      → e.num_writers ≡ 0
      → e.writer_active ≡ false
      → e.writer_tasks ≡ []
      → length e.reader_tasks ≤ e.num_readers
      → AllPending rest
      → (is_empty rest ≡ false → Ensures true t (tasks t rest) (start_next e.eptr))
      → Ensures true t (tasks t (e ∷ rest)) (advance_reading start_next e rest)
  unfolding advance_reading execute_readers
  advance_reading-Ensures e rest p z i w r a h = ground (
    arith,
    advance_finished-Ensures (record e { phase = reading }) rest,
    resumed-reschedule t e.eptr e.reader_tasks,
  )

  -- A running epoch hands over the task, which is its active writer from now on.
  pub execute_writer-Ensures :
      (e : Epoch) (rest : Chain) (s : TaskState)
      → e.phase ≡ writing
      → e.writer_active ≡ false
      → suc (length e.writer_tasks) ≤ e.num_writers
      → Bounded e
      → AllPending rest
      → Ensures true t (stored t (s ∷ []) + tasks t (e ∷ rest)) (execute_writer e rest s)
  unfolding execute_writer reschedule
  execute_writer-Ensures e rest s p i n b a = ground arith

  run_next_writer-Ensures :
      (ss : List TaskState) (e : Epoch) (rest : Chain)
      → e.writer_tasks ≡ ss
      → e.phase ≡ writing
      → e.writer_active ≡ false
      → Bounded e
      → AllPending rest
      → (is_empty rest ≡ false → Ensures true t (tasks t rest) (start_next e.eptr))
      → Ensures true t (tasks t (e ∷ rest)) (run_next_writer start_next ss e rest)
  unfolding run_next_writer
  run_next_writer-Ensures [] e rest q p i b a h = ground (arith, advance_reading-Ensures e rest)
  run_next_writer-Ensures (s ∷ ss) e rest q p i b a h =
      ground (arith, execute_writer-Ensures (record e { writer_tasks = ss }) rest s)

  pub advance_writing-Ensures :
      (e : Epoch) (rest : Chain)
      → e.phase ≡ started
      → e.writer_active ≡ false
      → Bounded e
      → AllPending rest
      → (is_empty rest ≡ false → Ensures true t (tasks t rest) (start_next e.eptr))
      → Ensures true t (tasks t (e ∷ rest)) (advance_writing start_next e rest)
  unfolding advance_writing
  advance_writing-Ensures e rest p i b a h =
      ground
        (arith, run_next_writer-Ensures e.writer_tasks (record e { phase = writing }) rest refl)

  pub advance_start-Ensures :
      (e : Epoch) (rest : Chain)
      → IsPending e rest
      → AllPending rest
      → (is_empty rest ≡ false → Ensures true t (tasks t rest) (start_next e.eptr))
      → Ensures true t (tasks t (e ∷ rest)) (advance_start start_next e rest)
  unfolding advance_start
  advance_start-Ensures e rest w a h =
      ground (arith, advance_writing-Ensures (record e { phase = started }) rest)

pub start_with-Ensures :
    (t : ℕ) (c : Chain) (eptr : Option ℕ)
    → is_empty c ≡ false
    → AllPending c
    → Ensures true t (tasks t c) (start_with c eptr)
unfolding start_with
start_with-Ensures t [] eptr n a = cc
start_with-Ensures t (e ∷ rest) eptr n a = ground (
  arith,
  advance_start-Ensures t (start_with rest) (record e { eptr = eptr }) rest,
  λ (m : is_empty rest ≡ false). start_with-Ensures t rest eptr m a.1,
)
