-- ===== src/Async/Epoch/Extend.antt =====
-- The start of the first epoch of a chain, and the link to a new last one.
use uni.Prelude.{ℕ, ◌≡◌, Bool, true, false, [], ◌∷◌, is_empty, arith}
use uni.Async.Epoch.{Epoch, Chain, start, start_reading, start_with, set_next_epoch, new_epoch}
use uni.Prelude.Int.{pos, ◌+ℤ◌}
use uni.Async.Epoch.Writer.{has_writer}
use uni.Async.Epoch.Invariant.{IsLive, tasks, Ensures}
use uni.Async.Epoch.Start.{start_with-Ensures, advance_start-Ensures, advance_finished-Ensures}

-- A start makes a waiting chain run, and leaves a running one alone.
pub start-Ensures :
    (m : Bool) (t : ℕ) (e : Epoch) (rest : Chain)
    → IsLive m e rest
    → Ensures true t (tasks t (e ∷ rest)) (start e rest)
unfolding start
start-Ensures true t e rest l = ground arith
start-Ensures false t e rest l = ground (
  arith,
  advance_start-Ensures t (start_with rest) e rest l.0 l.1,
  λ (n : is_empty rest ≡ false). start_with-Ensures t rest e.eptr n l.1,
)

pub start_reading-Ensures :
    (t : ℕ) (e : Epoch) (rest : Chain)
    → IsLive false e rest
    → e.total_writers ≡ 0
    → Ensures true t (tasks t (e ∷ rest)) (start_reading e rest)
unfolding start_reading
start_reading-Ensures t e rest l z = ground (
  arith,
  advance_start-Ensures t (start_with rest) (record e { total_writers = 1 }) rest,
  λ (n : is_empty rest ≡ false). start_with-Ensures t rest e.eptr n l.1,
)

-- A writer has come before the new epoch.
pub set_next_epoch-Ensures :
    (m : Bool) (t : ℕ) (e : Epoch)
    → IsLive m e []
    → has_writer e ≡ true
    → Ensures m t (tasks t (e ∷ [])) (set_next_epoch e [] new_epoch)
unfolding set_next_epoch new_epoch has_writer
set_next_epoch-Ensures true t e l w = ground (
  arith,
  advance_finished-Ensures t (start_with (record new_epoch { counter = e.counter +ℤ pos 1 } ∷ [])) e
      (record new_epoch { counter = e.counter +ℤ pos 1 } ∷ []),
  start_with-Ensures t (record new_epoch { counter = e.counter +ℤ pos 1 } ∷ []) e.eptr,
)
set_next_epoch-Ensures false t e l w = ground arith
