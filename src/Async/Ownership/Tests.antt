-- ===== src/Async/Ownership/Tests.antt =====
-- A coroutine that awaits another.
use uni.Prelude.{ℕ, ◌≡◌, refl, none, some, List, [], ◌∷◌}
use uni.Prelude.Outcome.{Outcome}
use uni.Async.Ownership.{Owner, World}
use uni.Async.Ownership.Suspend.{suspend_task_awaitable}
use uni.Async.Ownership.Chain.{Sound}
use uni.Async.Ownership.History.{
  Command, perform_all, no_coroutine, perform_all-Sound, suspend_task_awaitable-done,
}

-- The first coroutine makes a second one and awaits it; the second suspends, is resumed and throws; its
-- end hands the exception to the first, which executes again.
abbrev waiting_for : List (Command ℕ)
waiting_for =
    Command.create
    ∷ Command.resume_task 0
    ∷ Command.create
    ∷ Command.await 1
    ∷ Command.suspend
    ∷ Command.resume_task 2
    ∷ Command.throw (some 5)
    ∷ Command.finish
    ∷ []

perform_all-Sound_example : Sound (perform_all waiting_for no_coroutine)
perform_all-Sound_example = perform_all-Sound waiting_for

abbrev executing_of : Outcome (World ℕ) → List ℕ
executing_of (Outcome.done w) = w.running
executing_of Outcome.refused = []
executing_of Outcome.fault = []

executing_first : executing_of (perform_all waiting_for no_coroutine) ≡ 0 ∷ []
unfolding uni.Async.Ownership.Calls.get_return_object uni.Async.Ownership.Calls.resume
    uni.Async.Ownership.Suspend.await_suspend suspend_task_awaitable
    uni.Async.Ownership.Suspend.unhandled_exception uni.Async.Ownership.Suspend.final_suspend
executing_first = refl

abbrev started : List (Command ℕ)
started = Command.create ∷ Command.resume_task 0 ∷ []

abbrev after : Outcome (World ℕ) → World ℕ
after (Outcome.done w) = w
after Outcome.refused = no_coroutine
after Outcome.fault = no_coroutine

suspend_task_awaitable-done_example :
    (w : World ℕ) × (suspend_task_awaitable (after (perform_all started no_coroutine))
      ≡ Outcome.done w)
    × (w.running ≡ [])
    × (w.objects ≡ Owner.task none ∷ Owner.task (some 0) ∷ [])
unfolding uni.Async.Ownership.Calls.get_return_object uni.Async.Ownership.Calls.resume
suspend_task_awaitable-done_example =
    suspend_task_awaitable-done started (after (perform_all started no_coroutine)) refl 0 [] refl
