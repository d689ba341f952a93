-- ===== src/Async/Ownership/History.antt =====
-- Programs of coroutines, AsyncTasks and factories, from none on.
use uni.Prelude.{ℕ, ◌≡◌, refl, Option, none, some, List, [], ◌∷◌, ◌++◌}
use uni.Prelude.Outcome.{Outcome, ◌>>=◌}
use uni.Async.Ownership.{Owner, World}
use uni.Async.Ownership.Calls.{
  get_return_object, move_construct, destruct, move_assign, make_sole_owner, reschedule_task,
  resume, abandon_leak, set_cancel_on_resume, exception_on_resume, set_scheduler,
}
use uni.Async.Ownership.Suspend.{
  suspend_task_awaitable, resume_at_once, suspend_factory_awaitable, take_next, release_outstanding,
  assign_factory, move_factory, await_suspend, unhandled_exception, final_suspend,
}
use uni.Async.Ownership.Counting.{IsHeld}
use uni.Async.Ownership.Chain.{Sound}
use uni.Async.Ownership.Tasks.{move_construct-Sound, destruct-Sound, move_assign-Sound}
use uni.Async.Ownership.Resuming.{
  make_sole_owner-Sound, resume-Sound, reschedule_task-Sound, abandon_leak-Sound,
  set_cancel_on_resume-Sound, exception_on_resume-Sound, set_scheduler-Sound,
}
use uni.Async.Ownership.Starting.{get_return_object-Sound}
use uni.Async.Ownership.Coroutines.{
  suspend_task_awaitable_goes, suspend_task_awaitable-Sound, resume_at_once-Sound,
  unhandled_exception-Sound, await_suspend-Sound,
}
use uni.Async.Ownership.Ending.{final_suspend-Sound}
use uni.Async.Ownership.Factories.{
  suspend_factory_awaitable-Sound, take_next-Sound, move_factory-Sound,
}
use uni.Async.Ownership.Releasing.{release_outstanding-Sound, assign_factory-Sound}

-- The calls, on objects by number, and what the coroutine that executes does.
pub data Command (E : Type 0) : Type 0 where
  create suspend suspend_and_go_on finish : Command E
  move_from destroy submit sole_owner resume_task leak cancel await : ℕ → Command E
  assign schedule_on assign_of_factory : ℕ → ℕ → Command E
  fail_on_resume : ℕ → E → Command E
  suspend_with take_from drop_factory move_factory_from : ℕ → Command E
  throw : Option E → Command E

module _ {E : Type 0} where
  abbrev pub perform : Command E → World E → Outcome (World E)
  perform Command.create w = get_return_object w
  perform Command.suspend w = suspend_task_awaitable w
  perform Command.suspend_and_go_on w = resume_at_once w
  perform Command.finish w = final_suspend w
  perform (Command.move_from i) w = move_construct i w
  perform (Command.destroy i) w = destruct i w
  perform (Command.sole_owner i) w = make_sole_owner i w
  perform (Command.resume_task i) w = resume i w
  perform (Command.leak i) w = abandon_leak i w
  perform (Command.cancel i) w = set_cancel_on_resume i w
  perform (Command.await i) w = await_suspend i w
  perform (Command.assign i j) w = move_assign i j w
  perform (Command.schedule_on i s) w = set_scheduler i s w
  perform (Command.fail_on_resume i e) w = exception_on_resume i e w
  perform (Command.suspend_with n) w = suspend_factory_awaitable n w
  perform (Command.take_from i) w = take_next i w
  perform (Command.drop_factory i) w = release_outstanding i w
  perform (Command.move_factory_from i) w = move_factory i w
  perform (Command.assign_of_factory i j) w = assign_factory i j w
  perform (Command.submit i) w = do (b, w') ← reschedule_task i w; Outcome.done w'
  perform (Command.throw e) w = unhandled_exception e w

  abbrev pub perform_all : List (Command E) → World E → Outcome (World E)
  perform_all [] w = Outcome.done w
  perform_all (command ∷ commands) w = do w' ← perform command w; perform_all commands w'

  abbrev pub no_coroutine : World E
  no_coroutine = record { frames = λ a. none; next = 0; objects = []; running = []; leaked = [] }

  no_coroutine-IsHeld : IsHeld no_coroutine none
  no_coroutine-IsHeld = record { counted = λ a. refl; held = λ a. refl; fresh = λ a l. refl }

  perform-Sound : (command : Command E) (w : World E) → IsHeld w none → Sound (perform command w)
  perform-Sound Command.create w c = get_return_object-Sound w c
  perform-Sound Command.suspend w c = suspend_task_awaitable-Sound w c
  perform-Sound Command.suspend_and_go_on w c = resume_at_once-Sound w c
  perform-Sound Command.finish w c = final_suspend-Sound w c
  perform-Sound (Command.move_from i) w c = move_construct-Sound i w c
  perform-Sound (Command.destroy i) w c = destruct-Sound i w c
  perform-Sound (Command.sole_owner i) w c = make_sole_owner-Sound i w c
  perform-Sound (Command.resume_task i) w c = resume-Sound i w c
  perform-Sound (Command.leak i) w c = abandon_leak-Sound i w c
  perform-Sound (Command.cancel i) w c = set_cancel_on_resume-Sound i w c
  perform-Sound (Command.await i) w c = await_suspend-Sound i w c
  perform-Sound (Command.assign i j) w c = move_assign-Sound i j w c
  perform-Sound (Command.schedule_on i s) w c = set_scheduler-Sound i s w c
  perform-Sound (Command.fail_on_resume i e) w c = exception_on_resume-Sound i e w c
  perform-Sound (Command.suspend_with n) w c = suspend_factory_awaitable-Sound n w c
  perform-Sound (Command.take_from i) w c = take_next-Sound i w c
  perform-Sound (Command.drop_factory i) w c = release_outstanding-Sound i w c
  perform-Sound (Command.move_factory_from i) w c = move_factory-Sound i w c
  perform-Sound (Command.assign_of_factory i j) w c = assign_factory-Sound i j w c
  perform-Sound (Command.submit i) w c = reschedule_task-Sound i w c
  perform-Sound (Command.throw e) w c = unhandled_exception-Sound e w c

  after-Sound :
      (m : Outcome (World E)) (f : World E → Outcome (World E))
      → Sound m
      → ((w : World E) → IsHeld w none → Sound (f w))
      → Sound (m >>= f)
  after-Sound (Outcome.done w) f c g = g w c
  after-Sound Outcome.refused f c g = tt
  after-Sound Outcome.fault f c g = c

  all-Sound :
      (commands : List (Command E)) (w : World E) → IsHeld w none → Sound (perform_all commands w)
  all-Sound [] w c = c
  all-Sound (command ∷ commands) w c =
      after-Sound (perform command w) (perform_all commands) (perform-Sound command w c)
        (all-Sound commands)

  -- Whatever the program of coroutines, AsyncTasks and factories, from none on: no destroyed frame is
  -- read or written, no awaiter count goes below zero, and every loop over continuations ends; and when
  -- no check refuses a call, then the awaiter count of a coroutine that is there is the number of its
  -- references in tasks and factories, and it is held in exactly one way: by references, by executing,
  -- by being leaked, or as the continuation of one other; a destroyed coroutine is held in none.
  pub perform_all-Sound : (commands : List (Command E)) → Sound (perform_all commands no_coroutine)
  perform_all-Sound commands = all-Sound commands no_coroutine no_coroutine-IsHeld

  -- Wherever a program has come, from no coroutine on: when a coroutine executes, the check of its
  -- suspension, that it has no reference yet, holds; it stops executing, and the new AsyncTask refers
  -- to it.
  pub suspend_task_awaitable-done :
      (commands : List (Command E)) (w : World E)
      → perform_all commands no_coroutine ≡ Outcome.done w
      → (h : ℕ) (others : List ℕ) → w.running ≡ h ∷ others
      → (w' : World E) × (suspend_task_awaitable w ≡ Outcome.done w')
        × (w'.running ≡ others)
        × (w'.objects ≡ w.objects ++ Owner.task (some h) ∷ [])
  suspend_task_awaitable-done commands w e h others r =
      let (new, f, p, q) =
        suspend_task_awaitable_goes w (rw e at (perform_all-Sound commands)) h others r in
      (new, f, p, q)
