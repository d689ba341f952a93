-- ===== src/Async/Scheduler/Tests.antt =====
-- Tasks that count down: each pushes the next, and the world is the list of the tasks resumed.
use uni.Prelude.{ℕ, zero, suc, ◌≡◌, refl, true, false, none, some, List, [], ◌∷◌, ◌++◌, arith}
use uni.Async.Scheduler.{DebugScheduler, Effect, resume_each, run, run_all}
use uni.Async.Scheduler.Rounds.{Descends, run_all-paused, run_all-ends}

abbrev pushed_by : ℕ → List ℕ
pushed_by zero = []
pushed_by (suc n) = n ∷ []

abbrev count_down : ℕ → List ℕ → Effect ℕ (List ℕ)
count_down n log = record { world = log ++ n ∷ []; pushed = pushed_by n; blocks = λ b. b }

-- The same, but every task pauses the scheduler.
abbrev pausing : ℕ → List ℕ → Effect ℕ (List ℕ)
pausing n log = record { world = log ++ n ∷ []; pushed = pushed_by n; blocks = λ b. true }

abbrev queued : DebugScheduler ℕ
queued = record { blocked = false; handles = 1 ∷ 2 ∷ [] }

-- The last task goes first.
order : run count_down queued [] ≡ (record { blocked = false; handles = 1 ∷ 0 ∷ [] }, 2 ∷ 1 ∷ [])
unfolding run resume_each
order = refl

count_down-Descends : Descends count_down (λ n. n)
count_down-Descends zero log = (refl, tt)
count_down-Descends (suc n) log = (refl, (omega arith, tt))

run_all-ends_example :
    (s' : DebugScheduler ℕ) × (w' : List ℕ) × (run_all count_down 4 queued [] ≡ some (s', w'))
    × (s'.handles ≡ [])
run_all-ends_example =
    run_all-ends count_down (λ n. n) count_down-Descends 3 queued [] refl
      (omega arith, (omega arith, tt))

run_all-paused_example : run_all pausing 9 queued [] ≡ none
unfolding run resume_each
run_all-paused_example = run_all-paused pausing 9 queued [] refl refl refl refl
