-- ===== src/Async/Storage/Tests.antt =====
-- Two handles that share a value.
use uni.Prelude.{ℕ, ◌≡◌, refl, List, [], ◌∷◌}
use uni.Async.Storage.{Outcome, Store, ◌>>=◌, take, use_count}
use uni.Async.Storage.Handles.{Sound}
use uni.Async.Storage.History.{Command, run_all, nothing, history-Sound}

-- A value is made, shared, replaced through the second handle, and one handle dropped.
abbrev shared : List (Command ℕ)
shared =
    Command.make_value 7
    ∷ Command.copy_from 0
    ∷ Command.emplace_at 1 8
    ∷ Command.assign_copy 0 1
    ∷ Command.reset_at 0
    ∷ []

history-Sound_example : Sound (run_all shared nothing)
history-Sound_example = history-Sound shared

shared_count : (run_all shared nothing >>= use_count 1) ≡ Outcome.done 1
unfolding use_count uni.Async.Storage.handle uni.Async.Storage.load uni.Async.Storage.write
    uni.Async.Storage.make_constructed uni.Async.Storage.construct uni.Async.Storage.copy_construct
    uni.Async.Storage.add_ref uni.Async.Storage.emplace uni.Async.Storage.destroy_object
    uni.Async.Storage.copy_assign uni.Async.Storage.reset uni.Async.Storage.release_ref
shared_count = refl
