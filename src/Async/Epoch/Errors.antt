-- ===== src/Async/Epoch/Errors.antt =====
-- The error of an epoch, in the epochs that start after it and in their tasks (epoch_context.hpp).
use uni.Prelude.{
  ℕ, ◌-◌, ◌≡◌, ◌⊎◌, inl, inr, refl, Bool, true, false, Option, none, some, List, [], ◌∷◌, map,
  arith,
}
use mathlib.Core.List.{Mem, mem-cons_self, mem-cons_of_mem}
use uni.Async.Task.{TaskState, Resumption, Resumed, reschedule, resumption}
use uni.Async.Epoch.{
  Epoch, Chain, Step, pending, writing, reading, advance_finished, advance_reading, execute_readers,
  execute_writer, run_next_writer, advance_writing, advance_start, start_with,
}
use uni.Async.Epoch.Reader.{reader_release}
use uni.Async.Epoch.Writer.{writer_cancel, writer_release_active, run_waiting_writer}
use uni.Async.Epoch.Invariant.{AllPending}

-- What a task meets when it is resumed, for the error and whether the task asked to be cancelled.
abbrev pub Meets : Option ℕ → Bool → Resumption → Type 0
Meets none asked met = met ≡ Resumption.normal
Meets (some e) true met = met ≡ Resumption.cancel
Meets (some e) false met = met ≡ Resumption.raise e

module _ (Q : TaskState → Type 0) where
  -- A waiting task with `Q` is handed over, and meets the error as it asked to.
  unfoldable pub IsFor : Option ℕ → Resumed → Type 0
  IsFor eptr r =
      (s : TaskState) × Q s × (r.task ≡ s.task) × Meets eptr s.cancel_on_exception r.resumption

  abbrev pub AllFor : Option ℕ → List Resumed → Type 0
  AllFor eptr [] = Unit
  AllFor eptr (r ∷ rs) = IsFor eptr r × AllFor eptr rs

  abbrev pub AllOf : List TaskState → Type 0
  AllOf [] = Unit
  AllOf (s ∷ ss) = Q s × AllOf ss

  abbrev pub EachOf : Chain → Type 0
  EachOf [] = Unit
  EachOf (e ∷ rest) = AllOf e.writer_tasks × AllOf e.reader_tasks × EachOf rest

-- Each epoch still waits or has the error.
abbrev pub AllMarked : Option ℕ → Chain → Type 0
AllMarked eptr [] = Unit
AllMarked eptr (e ∷ rest) = ((e.phase ≡ pending) ⊎ (e.eptr ≡ eptr)) × AllMarked eptr rest

-- The task waits in one of the epochs.
abbrev pub Waits : TaskState → Chain → Type 0
Waits s [] = ⊥
Waits s (e ∷ rest) = Mem s e.writer_tasks ⊎ (Mem s e.reader_tasks ⊎ Waits s rest)

AllPending-AllMarked : (eptr : Option ℕ) (c : Chain) → AllPending c → AllMarked eptr c
AllPending-AllMarked eptr [] a = tt
AllPending-AllMarked eptr (e ∷ c) a = (inl a.0.phase, AllPending-AllMarked eptr c a.1)

AllOf-Mem :
    (Q : TaskState → Type 0) (ss : List TaskState) → ((s : TaskState) → Mem s ss → Q s) → AllOf Q ss
AllOf-Mem Q [] h = tt
AllOf-Mem Q (s ∷ ss) h = (h s mem-cons_self, AllOf-Mem Q ss (λ t m. h t (mem-cons_of_mem s m)))

EachOf-Waits :
    (Q : TaskState → Type 0) (c : Chain) → ((s : TaskState) → Waits s c → Q s) → EachOf Q c
EachOf-Waits Q [] h = tt
EachOf-Waits Q (e ∷ rest) h = (
  AllOf-Mem Q e.writer_tasks (λ s m. h s (inl m)),
  AllOf-Mem Q e.reader_tasks (λ s m. h s (inr (inl m))),
  EachOf-Waits Q rest (λ s m. h s (inr (inr m))),
)

module _ (Q : TaskState → Type 0) where
  abbrev pub Inherits : Option ℕ → Step → Type 0
  Inherits eptr none = Unit
  Inherits eptr (some (c, out)) = AllMarked eptr c × AllFor Q eptr out

  resumption-Meets : (eptr : Option ℕ) (asked : Bool) → Meets eptr asked (resumption eptr asked)
  unfolding resumption
  resumption-Meets none asked = refl
  resumption-Meets (some e) true = refl
  resumption-Meets (some e) false = refl

  reschedule-IsFor : (eptr : Option ℕ) (s : TaskState) → Q s → IsFor Q eptr (reschedule eptr s)
  unfolding reschedule IsFor
  reschedule-IsFor eptr s q = (s, q, refl, resumption-Meets eptr s.cancel_on_exception)

  map-AllFor :
      (eptr : Option ℕ) (ss : List TaskState)
      → AllOf Q ss
      → AllFor Q eptr (map (reschedule eptr) ss)
  map-AllFor eptr [] a = tt
  map-AllFor eptr (s ∷ ss) a = (reschedule-IsFor eptr s a.0, map-AllFor eptr ss a.1)

  module _ (eptr : Option ℕ) (start_next : Option ℕ → Step) (rest : Chain)
      (marked : AllMarked eptr rest) (next : Inherits eptr (start_next eptr)) where
    advance_finished-Inherits :
        (e : Epoch) → e.eptr ≡ eptr → Inherits eptr (advance_finished start_next e rest)
    unfolding advance_finished
    advance_finished-Inherits e q = rw (q, advance_finished) (ground arith)

    advance_reading-Inherits :
        (e : Epoch)
        → AllOf Q e.reader_tasks
        → e.eptr ≡ eptr
        → Inherits eptr (advance_reading start_next e rest)
    unfolding advance_reading execute_readers
    advance_reading-Inherits e o q = ground (
      arith,
      advance_finished-Inherits (record e { phase = reading }),
      map-AllFor eptr e.reader_tasks o,
    )

    execute_writer-Inherits :
        (e : Epoch) (s : TaskState) → Q s → e.eptr ≡ eptr → Inherits eptr (execute_writer e rest s)
    unfolding execute_writer
    execute_writer-Inherits e s o q = ground (arith, reschedule-IsFor eptr s o)

    run_next_writer-Inherits :
        (ss : List TaskState) (e : Epoch)
        → AllOf Q ss
        → AllOf Q e.reader_tasks
        → e.eptr ≡ eptr
        → Inherits eptr (run_next_writer start_next ss e rest)
    unfolding run_next_writer
    run_next_writer-Inherits [] e w o q = ground (arith, advance_reading-Inherits e o)
    run_next_writer-Inherits (s ∷ ss) e w o q =
        execute_writer-Inherits (record e { writer_tasks = ss }) s w.0 q

    advance_start-Inherits :
        (e : Epoch)
        → AllOf Q e.writer_tasks
        → AllOf Q e.reader_tasks
        → e.eptr ≡ eptr
        → Inherits eptr (advance_start start_next e rest)
    unfolding advance_start advance_writing
    advance_start-Inherits e w o q =
        ground (arith, run_next_writer-Inherits e.writer_tasks (record e { phase = writing }) w o)

  start_with-Inherits :
      (eptr : Option ℕ) (c : Chain) → AllPending c → EachOf Q c → Inherits eptr (start_with c eptr)
  unfolding start_with
  start_with-Inherits eptr [] a o = tt
  start_with-Inherits eptr (e ∷ rest) a o = ground (
    arith,
    advance_start-Inherits eptr (start_with rest) rest (AllPending-AllMarked eptr rest a.1)
        (start_with-Inherits eptr rest a.1 o.2) (record e { eptr = eptr }) o.0 o.1 refl,
  )

  module _ (e : Epoch) (rest : Chain) (a : AllPending rest) (o : EachOf Q (e ∷ rest)) where
    reader_release-Inherits : Inherits e.eptr (reader_release e rest)
    unfolding reader_release
    reader_release-Inherits =
        ground (arith, start_with-Inherits e.eptr rest a o.2, AllPending-AllMarked e.eptr rest a)

    writer_cancel-Inherits : Inherits e.eptr (writer_cancel e rest)
    unfolding writer_cancel
    writer_cancel-Inherits = ground (
      arith,
      AllPending-AllMarked e.eptr rest a,
      advance_reading-Inherits e.eptr (start_with rest) rest (AllPending-AllMarked e.eptr rest a)
          (start_with-Inherits e.eptr rest a o.2) (record e { num_writers = e.num_writers - 1 }) o.1
          refl,
    )

    run_waiting_writer-Inherits :
        (ss : List TaskState) (e' : Epoch)
        → AllOf Q ss
        → e'.eptr ≡ e.eptr
        → Inherits e.eptr (run_waiting_writer ss e' rest)
    unfolding run_waiting_writer
    run_waiting_writer-Inherits [] e' w q = ground (arith, AllPending-AllMarked e.eptr rest a)
    run_waiting_writer-Inherits (s ∷ ss) e' w q =
        execute_writer-Inherits e.eptr (start_with rest) rest (AllPending-AllMarked e.eptr rest a)
          (start_with-Inherits e.eptr rest a o.2) (record e' { writer_tasks = ss }) s w.0 q

    writer_release_active-Inherits : Inherits e.eptr (writer_release_active e rest)
    unfolding writer_release_active
    writer_release_active-Inherits = ground (
      arith,
      run_waiting_writer-Inherits e.writer_tasks
          (record e { writer_active = false; num_writers = e.num_writers - 1 }) o.0 refl,
      advance_reading-Inherits e.eptr (start_with rest) rest (AllPending-AllMarked e.eptr rest a)
          (start_with-Inherits e.eptr rest a o.2)
          (record e { writer_active = false; num_writers = e.num_writers - 1 }) o.1 refl,
    )

module _ (e : Epoch) (rest : Chain) (a : AllPending rest) where
  -- Whichever release ends a phase, by a reader, an inactive writer or the active one: the epochs
  -- that start get the error of the released epoch, or none if it has none; and every task handed
  -- over waited in one of the epochs, and is resumed without an error if there is none, and else is
  -- cancelled if it asked for that and meets the error as an exception if it did not.
  pub release-Inherits :
      Inherits (λ s. Waits s (e ∷ rest)) e.eptr (reader_release e rest)
      × Inherits (λ s. Waits s (e ∷ rest)) e.eptr (writer_cancel e rest)
      × Inherits (λ s. Waits s (e ∷ rest)) e.eptr (writer_release_active e rest)
  release-Inherits =
      let o = EachOf-Waits (λ s. Waits s (e ∷ rest)) (e ∷ rest) (λ s m. m) in
      (
        reader_release-Inherits (λ s. Waits s (e ∷ rest)) e rest a o,
        writer_cancel-Inherits (λ s. Waits s (e ∷ rest)) e rest a o,
        writer_release_active-Inherits (λ s. Waits s (e ∷ rest)) e rest a o,
      )
