-- ===== src/Async/Scheduler.antt =====
-- DebugScheduler of src/uni20/async/debug_scheduler.hpp. What a task does when it is resumed is a
-- parameter: the world it leaves, the tasks that it pushes to the queue, and what its calls of pause and
-- resume make of the flag `Blocked_`.
pub mod Rounds
mod Tests
use uni.Prelude.{
  ℕ, zero, suc, Bool, true, false, not, ◌&&◌, ◌||◌, Option, none, some, List, [], ◌∷◌, ◌++◌,
  is_empty, if◌then◌else◌,
}
use mathlib.Core.List.{reverse}

pub record DebugScheduler (Task : Type 0) : Type 0 where
  pub blocked : Bool
  pub handles : List Task

-- What one resumption did.
pub record Effect (Task World : Type 0) : Type 0 where
  pub world : World
  pub pushed : List Task
  pub blocks : Bool → Bool

module _ {Task : Type 0} where
  -- Also reschedule.
  unfoldable pub schedule : Task → DebugScheduler Task → DebugScheduler Task
  schedule task s = record { blocked = s.blocked; handles = s.handles ++ task ∷ [] }

  unfoldable pub can_run : DebugScheduler Task → Bool
  can_run s = not s.blocked && not (is_empty s.handles)

  module _ {World : Type 0} (resume : Task → World → Effect Task World) where
    -- The loop over the tasks that were taken out of the queue.
    unfoldable pub resume_each :
        List Task → DebugScheduler Task → World → DebugScheduler Task × World
    resume_each [] s w = (s, w)
    resume_each (task ∷ tasks) s w =
        let e = resume task w in
        resume_each tasks (record { blocked = e.blocks s.blocked; handles = s.handles ++ e.pushed })
          e.world

    unfoldable pub run : DebugScheduler Task → World → DebugScheduler Task × World
    unfolding resume_each
    run s w =
        let rounds =
          resume_each (reverse s.handles) (record { blocked = s.blocked; handles = [] }) w in
        if s.blocked then (s, w) else rounds

    -- The loop of run_all, on fuel.
    unfoldable pub run_until_done :
        ℕ → DebugScheduler Task → World → Option (DebugScheduler Task × World)
    run_until_done zero s w = none
    run_until_done (suc fuel) s w =
        let more = run_until_done fuel (run s w).0 (run s w).1 in
        if is_empty s.handles then some (s, w) else more

    unfoldable pub run_all : ℕ → DebugScheduler Task → World → Option (DebugScheduler Task × World)
    unfolding run_until_done
    run_all fuel s w = if s.blocked then some (s, w) else run_until_done fuel s w

    -- A wait that does nothing, or runs one round, or is the panic over a deadlock.
    unfoldable pub help_while_waiting :
        Bool → DebugScheduler Task → World → Option (DebugScheduler Task × World)
    unfolding run
    help_while_waiting is_ready s w =
        if is_ready
        then some (s, w)
        else if s.blocked || is_empty s.handles
        then none
        else some (run s w)
