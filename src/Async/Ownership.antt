-- ===== src/Async/Ownership.antt =====
-- async_task.hpp, async_task_impl.hpp and async_task_promise.hpp of src/uni20/async: who owns a
-- coroutine. The frames are a heap by address, where the address of a destroyed frame is never given
-- out again; AsyncTask and AsyncTaskFactory are objects by number. `running` lists the coroutines that
-- execute, each resumed by the next, and `leaked` those that abandon_leak gave up. A frame that has reached its end is destroyed at once, so done()
-- is false for every frame of the heap.
pub mod Calls
pub mod Suspend
pub mod Counting
pub mod Steps
pub mod Chain
pub mod References
pub mod Tasks
pub mod Resuming
pub mod Starting
pub mod Coroutines
pub mod Ending
pub mod Factories
pub mod Releasing
pub mod History
mod Tests
use uni.Prelude.{
  ℕ, zero, suc, ◌+◌, ◌-◌, Bool, true, false, not, Option, none, some, List, [], ◌∷◌, ◌++◌,
  if◌then◌else◌, ◌==◌, ltb, leb, get_elem?,
}
use uni.Prelude.Outcome.{Outcome, ◌>>=◌, or_fault, or_refused, check_that}

-- BasicAsyncTaskPromise; `E` are the exceptions.
pub record Promise (E : Type 0) : Type 0 where
  pub awaiter_count : ℕ
  pub continuation : Option ℕ
  pub cancel_on_resume : Bool
  pub exception : Option E
  pub started : Bool
  pub sched : Option ℕ

abbrev pub Frames : Type 0 → Type 0
Frames E = ℕ → Option (Promise E)

unfoldable pub write {ℓ} : {A : Type ℓ} → (ℕ → Option A) → ℕ → Option A → ℕ → Option A
write heap address new i = if i == address then new else heap i

-- An AsyncTask holds one reference, an AsyncTaskFactory those it has not handed out.
pub data Owner : Type 0 where
  task : Option ℕ → Owner
  factory : Option ℕ → ℕ → Owner

abbrev pub set_slot {ℓ} : {A : Type ℓ} → ℕ → A → List A → List A
set_slot i a [] = []
set_slot zero a (b ∷ bs) = a ∷ bs
set_slot (suc i) a (b ∷ bs) = b ∷ set_slot i a bs

pub record World (E : Type 0) : Type 0 where
  pub frames : Frames E
  pub next : ℕ
  pub objects : List Owner
  pub running : List ℕ
  pub leaked : List ℕ

module _ {E : Type 0} where
  unfoldable pub load : Frames E → ℕ → Outcome (Promise E)
  load frames h = or_fault (frames h)

  unfoldable pub add_awaiter : ℕ → ℕ → Frames E → Outcome (ℕ × Frames E)
  unfolding write load
  add_awaiter count h frames = do
    p ← load frames h
    Outcome.done (
      p.awaiter_count,
      write frames h (some (record p { awaiter_count = p.awaiter_count + count })),
    )

  -- Whether these were the last references. A count below zero is a fault.
  unfoldable pub release_awaiter : ℕ → ℕ → Frames E → Outcome (Bool × Frames E)
  unfolding write load
  release_awaiter count h frames = do
    p ← load frames h
    let left = write frames h (some (record p { awaiter_count = p.awaiter_count - count })) in
        if ltb p.awaiter_count count
        then Outcome.fault
        else Outcome.done (p.awaiter_count == count, left)

  -- The destructor of the promise checks that no continuation is left.
  unfoldable pub destroy_and_track : ℕ → Frames E → Outcome (Frames E)
  unfolding write load
  destroy_and_track h frames = do
    p ← load frames h
    elim (p.continuation) [ none ↦ Outcome.done (write frames h none) | some _ ↦ Outcome.refused ]

  -- The frame goes and its continuation is returned.
  unfoldable pub destroy_with_continuation : ℕ → Frames E → Outcome (Option ℕ × Frames E)
  unfolding write load
  destroy_with_continuation h frames = do
    p ← load frames h
    Outcome.done (p.continuation, write frames h none)

  -- `while (handle) handle = handle.promise().destroy_with_continuation();`, on fuel.
  unfoldable pub destroy_chain : ℕ → Option ℕ → Frames E → Outcome (Frames E)
  unfolding destroy_with_continuation
  destroy_chain fuel none frames = Outcome.done frames
  destroy_chain zero (some h) frames = Outcome.fault
  destroy_chain (suc fuel) (some h) frames = do
    (c, frames') ← destroy_with_continuation h frames
    destroy_chain fuel c frames'

  abbrev pub with_frames : World E → Frames E → World E
  with_frames w frames = record w { frames = frames }

  -- Every frame is destroyed at most once, and there have been `next` frames.
  unfoldable pub destroy_all : Option ℕ → World E → Outcome (World E)
  unfolding destroy_chain
  destroy_all h w = do frames ← destroy_chain w.next h w.frames; Outcome.done (with_frames w frames)

  -- destroy_owned_coroutine.
  unfoldable pub destroy_owned_coroutine : ℕ → World E → Outcome (World E)
  unfolding load destroy_all
  destroy_owned_coroutine h w = do
    p ← load w.frames h
    _ ← check_that p.cancel_on_resume
    destroy_all (some h) w
