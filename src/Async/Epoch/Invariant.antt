-- ===== src/Async/Epoch/Invariant.antt =====
-- The invariants that epoch_context.hpp documents above EpochContext, and those of its task lists.
use uni.Prelude.{
  ℕ, ◌+◌, ◌≡◌, ◌≤◌, ◌<◌, Bool, true, false, none, some, [], ◌∷◌, ◌⊎◌, length, if◌then◌else◌,
}
use uni.Async.Task.{stored, resumed}
use uni.Async.Epoch.{Epoch, Chain, Step, pending, started, writing, reading, finished}

-- The bound writer tasks and the running one belong to distinct writers, the reader tasks to readers.
pub record Bounded (e : Epoch) : Type 0 where
  pub writers : length e.writer_tasks + (if e.writer_active then 1 else 0) ≤ e.num_writers
  pub total : e.num_writers ≤ e.total_writers
  pub readers : length e.reader_tasks ≤ e.num_readers

-- Only the last epoch may have had no writer yet.
pub record IsPending (e : Epoch) (rest : Chain) : Type 0 where
  pub phase : e.phase ≡ pending
  pub written : (0 < e.total_writers) ⊎ (rest ≡ [])
  pub idle : e.writer_active ≡ false
  pub bounded : Bounded e

pub record IsStarted (e : Epoch) (rest : Chain) : Type 0 where
  pub phase : e.phase ≡ started
  pub last : rest ≡ []
  pub total_writers : e.total_writers ≡ 0
  pub bounded : Bounded e

-- A bound writer task waits only while another one runs.
pub record IsWriting (e : Epoch) : Type 0 where
  pub phase : e.phase ≡ writing
  pub num_writers : 0 < e.num_writers
  pub bounded : Bounded e
  pub waits : (e.writer_active ≡ true) ⊎ (e.writer_tasks ≡ [])

-- No task waits. With no reader left the epoch has no successor.
pub record IsReading (e : Epoch) (rest : Chain) : Type 0 where
  pub phase : e.phase ≡ reading
  pub num_writers : e.num_writers ≡ 0
  pub idle : e.writer_active ≡ false
  pub writer_tasks : e.writer_tasks ≡ []
  pub reader_tasks : e.reader_tasks ≡ []
  pub waits : (0 < e.num_readers) ⊎ (rest ≡ [])

pub record IsFinished (e : Epoch) : Type 0 where
  pub phase : e.phase ≡ finished
  pub num_writers : e.num_writers ≡ 0
  pub num_readers : e.num_readers ≡ 0
  pub idle : e.writer_active ≡ false
  pub writer_tasks : e.writer_tasks ≡ []
  pub reader_tasks : e.reader_tasks ≡ []

abbrev pub AllPending : Chain → Type 0
AllPending [] = Unit
AllPending (e ∷ rest) = IsPending e rest × AllPending rest

abbrev pub IsCurrent : Epoch → Chain → Type 0
IsCurrent e rest = IsStarted e rest ⊎ IsWriting e ⊎ IsReading e rest

-- Finished epochs, one that runs, and epochs that wait for it.
abbrev pub IsRunning : Chain → Type 0
IsRunning [] = ⊥
IsRunning (e ∷ rest) = (IsCurrent e rest × AllPending rest) ⊎ (IsFinished e × IsRunning rest)

abbrev pub tasks_of : ℕ → Epoch → ℕ
tasks_of t e = stored t e.writer_tasks + stored t e.reader_tasks

-- How often a coroutine is stored in a chain.
abbrev pub tasks : ℕ → Chain → ℕ
tasks t [] = 0
tasks t (e ∷ rest) = tasks_of t e + tasks t rest

-- The two states of a chain: all its epochs wait, or it runs.
abbrev pub IsOrdered : Bool → Chain → Type 0
IsOrdered false c = AllPending c
IsOrdered true c = IsRunning c

-- An epoch that is not finished, before its pending successors.
abbrev pub IsLive : Bool → Epoch → Chain → Type 0
IsLive false e rest = IsPending e rest × AllPending rest
IsLive true e rest = IsCurrent e rest × AllPending rest

-- Some writer is neither bound to a stored task nor active.
abbrev pub FreeWriter : Epoch → Type 0
FreeWriter e = length e.writer_tasks + (if e.writer_active then 1 else 0) < e.num_writers

abbrev pub HasActive : Epoch → Type 0
HasActive e = (e.writer_active ≡ true) × (0 < e.num_writers)

-- Some reader is not bound to a stored task.
abbrev pub FreeReader : Epoch → Type 0
FreeReader e = length e.reader_tasks < e.num_readers

-- No check fails, the chain is in the given state, and of `k` copies of a task each is stored or
-- handed over.
abbrev pub Ensures : Bool → ℕ → ℕ → Step → Type 0
Ensures m t k none = ⊥
Ensures m t k (some (c, out)) = IsOrdered m c × (tasks t c + resumed t out ≡ k)
