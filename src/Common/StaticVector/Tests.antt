-- ===== src/Common/StaticVector/Tests.antt =====
-- Calls on a vector of capacity 3.
use uni.Prelude.{arith, ℕ, ◌≡◌, refl, List, [], ◌∷◌, get_elem?}
use uni.Prelude.Outcome.{Outcome, or_refused}
use uni.Common.StaticVector.{swap, at_pos, push_back, pop_back, construct_at, destroy_at}
use uni.Common.StaticVector.Refines.{holding, outcome_of}
use uni.Common.StaticVector.Calls.{Call}
use uni.Common.StaticVector.Swap.{swap-holding}
use uni.Common.StaticVector.History.{
  run_calls, on_lists, IsBounded, run_calls-on_lists, at_pos-get_elem?,
}

abbrev calls : List (Call ℕ)
calls = Call.push 4 ∷ Call.push 5 ∷ Call.resize_to 3 ∷ Call.pop ∷ Call.copy_from (7 ∷ 8 ∷ []) ∷ []

kept :
    run_calls {T = ℕ} 3 0 (Call.push 4 ∷ Call.push 5 ∷ Call.pop ∷ []) (holding 3 [])
    ≡ Outcome.done (holding 3 (4 ∷ []))
unfolding push_back pop_back construct_at destroy_at
kept = refl

too_many : run_calls {T = ℕ} 1 0 (Call.push 4 ∷ Call.push 5 ∷ []) (holding 1 []) ≡ Outcome.refused
unfolding push_back construct_at
too_many = refl

run_calls-on_lists_example :
    (run_calls 3 0 calls (holding 3 []) ≡ outcome_of 3 (on_lists 3 0 calls []))
    × IsBounded 3 (on_lists 3 0 calls [])
run_calls-on_lists_example = run_calls-on_lists 3 0 calls

last_of_two :
    at_pos {T = ℕ} 1 (holding 3 (4 ∷ 5 ∷ [])) ≡ or_refused (get_elem? {A = ℕ} (4 ∷ 5 ∷ []) 1)
last_of_two = at_pos-get_elem? 3 (4 ∷ 5 ∷ []) 1

swap-holding_example :
    swap {T = ℕ} 4 0 (holding 4 (1 ∷ [])) (holding 4 (7 ∷ 8 ∷ 9 ∷ []))
    ≡ Outcome.done (holding 4 (7 ∷ 8 ∷ 9 ∷ []), holding 4 (1 ∷ []))
swap-holding_example = swap-holding 4 0 (1 ∷ []) (7 ∷ 8 ∷ 9 ∷ []) (omega arith) (omega arith)
