-- ===== src/Async/Epoch/Handles.antt =====
-- The number of handles through the operations of epoch_context.hpp.
use uni.Prelude.{ℕ, suc, ◌+◌, ◌-◌, ◌≡◌, false, Option, none, some, List, [], ◌∷◌, arith}
use uni.Async.Task.{TaskState}
use uni.Async.Epoch.{
  Epoch, Chain, Step, reading, writing, advance_finished, advance_reading, execute_readers,
  execute_writer, run_next_writer, advance_writing, advance_start, start_with,
}
use uni.Async.Epoch.Writer.{writer_cancel, writer_release_active, run_waiting_writer}
use uni.Async.Epoch.Reader.{reader_release}

-- The handles on the epochs of a chain.
abbrev pub held : Chain → ℕ
held [] = 0
held (e ∷ rest) = e.num_writers + e.num_readers + held rest

abbrev pub Holds : ℕ → Step → Type 0
Holds k none = Unit
Holds k (some (c, out)) = held c ≡ k

module _ (start_next : Option ℕ → Step) (e : Epoch) (rest : Chain) where
  advance_finished-Holds :
      Holds (held rest) (start_next e.eptr)
      → Holds (held (e ∷ rest)) (advance_finished start_next e rest)
  unfolding advance_finished
  advance_finished-Holds h = ground arith

module _ (start_next : Option ℕ → Step) where
  advance_reading-Holds :
      (e : Epoch) (rest : Chain)
      → Holds (held rest) (start_next e.eptr)
      → Holds (held (e ∷ rest)) (advance_reading start_next e rest)
  unfolding advance_reading execute_readers
  advance_reading-Holds e rest h =
      ground (arith, advance_finished-Holds start_next (record e { phase = reading }) rest)

  execute_writer-Holds :
      (e : Epoch) (rest : Chain) (s : TaskState) → Holds (held (e ∷ rest)) (execute_writer e rest s)
  unfolding execute_writer
  execute_writer-Holds e rest s = ground arith

  run_next_writer-Holds :
      (ss : List TaskState) (e : Epoch) (rest : Chain)
      → Holds (held rest) (start_next e.eptr)
      → Holds (held (e ∷ rest)) (run_next_writer start_next ss e rest)
  unfolding run_next_writer
  run_next_writer-Holds [] e rest h = ground (arith, advance_reading-Holds e rest)
  run_next_writer-Holds (s ∷ ss) e rest h =
      execute_writer-Holds (record e { writer_tasks = ss }) rest s

  advance_start-Holds :
      (e : Epoch) (rest : Chain)
      → Holds (held rest) (start_next e.eptr)
      → Holds (held (e ∷ rest)) (advance_start start_next e rest)
  unfolding advance_start advance_writing
  advance_start-Holds e rest h =
      ground (arith, run_next_writer-Holds e.writer_tasks (record e { phase = writing }) rest)

start_with-Holds : (c : Chain) (eptr : Option ℕ) → Holds (held c) (start_with c eptr)
unfolding start_with
start_with-Holds [] eptr = tt
start_with-Holds (e ∷ rest) eptr = ground (
  arith,
  advance_start-Holds (start_with rest) (record e { eptr = eptr }) rest
      (start_with-Holds rest eptr),
)

module _ (k : ℕ) (e : Epoch) (rest : Chain) (h : held (e ∷ rest) ≡ suc k) where
  pub reader_release-Holds : Holds k (reader_release e rest)
  unfolding reader_release
  reader_release-Holds = ground (arith, start_with-Holds rest e.eptr)

  pub writer_cancel-Holds : Holds k (writer_cancel e rest)
  unfolding writer_cancel
  writer_cancel-Holds = ground (
    arith,
    advance_reading-Holds (start_with rest) (record e { num_writers = e.num_writers - 1 }) rest
        (start_with-Holds rest e.eptr),
  )

  run_waiting_writer-Holds :
      (ss : List TaskState) (e' : Epoch)
      → held (e' ∷ rest) ≡ k
      → Holds k (run_waiting_writer ss e' rest)
  unfolding run_waiting_writer
  run_waiting_writer-Holds [] e' q = q
  run_waiting_writer-Holds (s ∷ ss) e' q =
      ground
        (arith, execute_writer-Holds (start_with rest) (record e' { writer_tasks = ss }) rest s)

  pub writer_release_active-Holds : Holds k (writer_release_active e rest)
  unfolding writer_release_active
  writer_release_active-Holds = ground (
    arith,
    run_waiting_writer-Holds e.writer_tasks
        (record e { writer_active = false; num_writers = e.num_writers - 1 }),
    advance_reading-Holds (start_with rest)
        (record e { writer_active = false; num_writers = e.num_writers - 1 }) rest
        (start_with-Holds rest e.eptr),
  )
