-- ===== src/Async/Sinks/Tests.antt =====
-- Three sinks of a promise, one of them moved and one destroyed.
use uni.Prelude.{ℕ, ◌≡◌, ◌≤◌, refl, true, false, some, List, [], ◌∷◌, length}
use uni.Prelude.Outcome.{Outcome}
use uni.Async.Sinks.{Sinks, owned_by, register_exception_sink, propagated}
use uni.Async.Sinks.Links.{elem, Unique, IsLists}
use uni.Async.Sinks.Calls.{listed, register_exception_sink-IsLists}
use uni.Async.Sinks.History.{
  Command, apply_all, no_sinks, no_sinks-IsLists, epochs, propagated-apply_all,
}

abbrev three_sinks : List Command
three_sinks =
    Command.register false 7 0 (some 40) false
    ∷ Command.register false 7 1 (some 41) true
    ∷ Command.register false 7 2 (some 42) false
    ∷ Command.move_to false 3 1
    ∷ Command.destroy true 0
    ∷ Command.register false 7 2 (some 43) true
    ∷ []

abbrev sinks_after : Outcome Sinks → Sinks
sinks_after (Outcome.done s) = s
sinks_after Outcome.refused = no_sinks
sinks_after Outcome.fault = no_sinks

three_propagated :
    propagated 9
      ((sinks_after (apply_all three_sinks no_sinks)).heads 7)
      (sinks_after (apply_all three_sinks no_sinks)).nodes
    ≡ some 43 ∷ some 41 ∷ []
unfolding propagated uni.Async.Sinks.register_exception_sink
    uni.Async.Sinks.move_exception_sink_from
three_propagated = refl

propagated-apply_all_example :
    (sinks : List ℕ) × Unique sinks
    × ((n : ℕ)
        → elem n sinks ≡ owned_by ((sinks_after (apply_all three_sinks no_sinks)).nodes n).owner 7)
    × ((fuel : ℕ)
        → length sinks ≤ fuel
        → propagated fuel
            ((sinks_after (apply_all three_sinks no_sinks)).heads 7)
            (sinks_after (apply_all three_sinks no_sinks)).nodes
          ≡ epochs (sinks_after (apply_all three_sinks no_sinks)).nodes sinks)
unfolding uni.Async.Sinks.register_exception_sink uni.Async.Sinks.move_exception_sink_from
propagated-apply_all_example =
    propagated-apply_all three_sinks (sinks_after (apply_all three_sinks no_sinks)) refl 7

register_exception_sink-IsLists_example :
    (s : Sinks) × (register_exception_sink false 7 0 (some 40) true no_sinks ≡ Outcome.done s)
    × IsLists s (listed 7 0 (some 40) (λ p. []))
register_exception_sink-IsLists_example =
    register_exception_sink-IsLists false 7 0 (some 40) true no_sinks (λ p. []) no_sinks-IsLists
