-- ===== src/Async/Queue/History.antt =====
-- Histories of calls: each is made by a handle that is free to make it.
use uni.Prelude.{ℕ, ◌+◌, ◌≡◌, Bool, true, false, none, some, List, [], ◌∷◌, ◌++◌, arith, ◌>>=◌}
use native.Mathlib.Nat.{add-zero}
use uni.Async.Task.{Resumed, resumed}
use uni.Async.Epoch.{Chain, Step, new_epoch}
use uni.Async.Epoch.Extend.{start-Ensures, start_reading-Ensures}
use uni.Async.Epoch.Invariant.{IsOrdered, IsRunning, tasks, Ensures}
use uni.Async.Queue.{Call, run_call, run_calls, bound, and_then, make_queue}
use uni.Async.Queue.Calls.{Allowed, call-Ensures}

resumed-append : (t : ℕ) (xs ys : List Resumed) → resumed t (xs ++ ys) ≡ resumed t xs + resumed t ys
resumed-append t [] ys = omega arith
resumed-append t (x ∷ xs) ys = omega (arith, resumed-append t xs ys)

-- A condition on the chain that a step leaves.
abbrev pub Leaves : (Chain → Type 0) → Step → Type 0
Leaves P none = ⊥
Leaves P (some (c, out)) = P c

-- Every call of the history is allowed where it is made.
abbrev pub Legal : List Call → Chain → Type 0
Legal [] c = Unit
Legal (x ∷ xs) c = Allowed x c × Leaves (Legal xs) (run_call x c)

-- The copies of a task that a history brings in.
abbrev pub bound_all : ℕ → List Call → ℕ
bound_all t [] = 0
bound_all t (x ∷ xs) = bound t x + bound_all t xs

add_out :
    (m : Bool) (t k j : ℕ) (c : Chain) (out : List Resumed) (s : Step)
    → Ensures m t k s
    → resumed t out + k ≡ j
    → Ensures m t j (s >>= λ r. some (r.0, out ++ r.1))
add_out m t k j c out none h q = h
add_out m t k j c out (some (c', out')) h q = (h.0, omega (arith, resumed-append t out out', h.1))

module _ (t : ℕ) (m : Bool) where
  pub and_then-Ensures :
      (k j : ℕ) (s : Step) (next : Chain → Step)
      → Ensures m t k s
      → Leaves (λ c. IsOrdered m c → Ensures m t (j + tasks t c) (next c)) s
      → Ensures m t (j + k) (and_then s next)
  and_then-Ensures k j none next h n = h
  and_then-Ensures k j (some (c, out)) next h n =
      add_out m t (j + tasks t c) _ c out (next c) (n h.0) (omega (arith, h.1))

pub Leaves-map :
    {P Q : Chain → Type 0} (s : Step) → ((c : Chain) → P c → Q c) → Leaves P s → Leaves Q s
Leaves-map none f h = h
Leaves-map (some (c, out)) f h = f c h

pub Leaves-out :
    (P : Chain → Type 0) (out : List Resumed) (s : Step)
    → Leaves P s
    → Leaves P (s >>= λ r. some (r.0, out ++ r.1))
Leaves-out P out none h = h
Leaves-out P out (some (c, out')) h = h

-- After any legal history no check has failed, the queue is in order, and each task that was bound
-- is stored in it or has been handed to the scheduler, as often as it was bound.
pub run_calls-Ensures :
    (m : Bool) (t : ℕ) (xs : List Call) (c : Chain)
    → IsOrdered m c
    → Legal xs c
    → Ensures m t (bound_all t xs + tasks t c) (run_calls xs c)
unfolding run_calls
run_calls-Ensures m t [] c o l = (o, omega arith)
run_calls-Ensures m t (x ∷ xs) c o l =
    let rest =
      and_then-Ensures t m (bound t x + tasks t c) (bound_all t xs) (run_call x c) (run_calls xs)
        (call-Ensures t m x c o l.0)
        (Leaves-map (run_call x c) (λ c' l' o'. run_calls-Ensures m t xs c' o' l') l.1) in
    rw (← regroup) rest
  where
    regroup : bound_all t xs + (bound t x + tasks t c) ≡ bound t x + bound_all t xs + tasks t c
    regroup = omega arith

make_queue-Ensures : (t : ℕ) (with_value : Bool) → Ensures true t 0 (make_queue with_value)
unfolding make_queue new_epoch
make_queue-Ensures t true = ground (arith, start_reading-Ensures t new_epoch [])
make_queue-Ensures t false = ground (arith, start-Ensures false t new_epoch [])

-- A queue and the calls that follow on it.
unfoldable pub history : Bool → List Call → Step
history with_value xs = and_then (make_queue with_value) (run_calls xs)

pub history-Ensures :
    (t : ℕ) (with_value : Bool) (xs : List Call)
    → Leaves (Legal xs) (make_queue with_value)
    → Ensures true t (bound_all t xs) (history with_value xs)
unfolding history
history-Ensures t with_value xs l = rw (← add-zero (bound_all t xs)) (
    and_then-Ensures t true 0 (bound_all t xs) (make_queue with_value) (run_calls xs)
      (make_queue-Ensures t with_value)
      (Leaves-map (make_queue with_value) (λ c l' o. run_calls-Ensures true t xs c o l') l))

pub history-IsRunning :
    (with_value : Bool) (xs : List Call) {c : Chain} {out : List Resumed}
    → Leaves (Legal xs) (make_queue with_value)
    → history with_value xs ≡ some (c, out)
    → IsRunning c
history-IsRunning with_value xs l e = (rw e at (history-Ensures 0 with_value xs l)).0
