-- ===== src/Async/Queue/Order.antt =====
-- The order of the epochs of a queue (epoch_queue.hpp).
use uni.Prelude.{ℕ, zero, suc, ◌≡◌, ◌<◌, ◌⊎◌, inl, inr, Bool, some, List, [], ◌∷◌, get_elem?, arith}
use uni.Async.Task.{Resumed}
use uni.Async.Epoch.{Epoch, Chain, pending, finished}
use uni.Async.Epoch.Invariant.{IsRunning, AllPending}
use uni.Async.Queue.{Call, make_queue}
use uni.Async.Queue.History.{Legal, Leaves, history, history-IsRunning}

AllPending-phase :
    (c : Chain) (j : ℕ) (e : Epoch) → AllPending c → get_elem? c j ≡ some e → e.phase ≡ pending
AllPending-phase [] j e a h = cc
AllPending-phase (x ∷ c) zero e a h = ground (arith, a.0.phase)
AllPending-phase (x ∷ c) (suc j) e a h = AllPending-phase c j e a.1 h

IsRunning-order :
    (c : Chain) (i j : ℕ) (e e' : Epoch)
    → IsRunning c
    → i < j
    → get_elem? c i ≡ some e
    → get_elem? c j ≡ some e'
    → (e.phase ≡ finished) ⊎ (e'.phase ≡ pending)
IsRunning-order [] i j e e' r h p q = cc
IsRunning-order (x ∷ c) i zero e e' r h p q = absurd (omega arith)
IsRunning-order (x ∷ c) i (suc j) e e' (inl (l, a)) h p q = inr (AllPending-phase c j e' a q)
IsRunning-order (x ∷ c) zero (suc j) e e' (inr (d, r)) h p q = inl (ground (arith, d.phase))
IsRunning-order (x ∷ c) (suc i) (suc j) e e' (inr (d, r)) h p q =
    IsRunning-order c i j e e' r (omega arith) p q

-- Of any two epochs of a queue after a legal history of calls, the earlier one is finished or the
-- later one has not begun.
pub history-order :
    (with_value : Bool) (xs : List Call) {c : Chain} {out : List Resumed} (i j : ℕ) {e e' : Epoch}
    → Leaves (Legal xs) (make_queue with_value)
    → history with_value xs ≡ some (c, out)
    → i < j
    → get_elem? c i ≡ some e
    → get_elem? c j ≡ some e'
    → (e.phase ≡ finished) ⊎ (e'.phase ≡ pending)
history-order with_value xs {c} i j {e} {e'} l r =
    IsRunning-order c i j e e' (history-IsRunning with_value xs l r)
