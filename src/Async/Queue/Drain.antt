-- ===== src/Async/Queue/Drain.antt =====
-- The release of the handles of a queue, one after another (epoch_queue.hpp).
use uni.Prelude.{
  ℕ, zero, suc, ◌+◌, ◌-◌, ◌≡◌, ◌≢◌, ◌<◌, ◌⊎◌, inl, inr, Bool, true, none, some, List, [], ◌∷◌, refl,
  sym, ap, ◌∙◌, arith,
}
use Prim.Native.Nat.{pred}
use uni.Async.Task.{Resumed}
use uni.Async.Epoch.{Epoch, Chain, Step, Phase, pending}
use uni.Async.Epoch.Handles.{
  held, Holds, reader_release-Holds, writer_cancel-Holds, writer_release_active-Holds,
}
use uni.Async.Epoch.Writer.{writer_cancel, writer_release_active}
use uni.Async.Epoch.Reader.{reader_release}
use uni.Async.Epoch.Invariant.{IsRunning, FreeReader, FreeWriter, HasActive, tasks, Ensures}
use uni.Async.Queue.{Call, make_queue, behind, at, bound, run_call, run_calls, writer_release}
use uni.Async.Queue.Lift.{At, Last}
use uni.Async.Queue.Calls.{Allowed, call-Ensures}
use uni.Async.Queue.History.{Legal, Leaves, history, history-IsRunning, Leaves-out}
use uni.Async.Queue.Progress.{
  IsRelease, HasRelease, release_call, release_call-IsRelease, release_call-Allowed,
  IsRunning-release,
}

behind-Holds :
    (k l : ℕ) (e : Epoch) (s : Step)
    → Holds l s
    → e.num_writers + e.num_readers + l ≡ k
    → Holds k (behind e s)
behind-Holds k l e none h q = tt
behind-Holds k l e (some (c, out)) h q = omega arith

-- A call that takes one handle at an epoch takes one at a position. `P` says that there is one.
module _ (P : Epoch → Type 0) (f : Epoch → Chain → Step)
    (some_handle : (e : Epoch) → P e → 0 < e.num_writers + e.num_readers)
    (one : (k : ℕ) (e : Epoch) (rest : Chain) → held (e ∷ rest) ≡ suc k → Holds k (f e rest)) where
  position_held : (i : ℕ) (c : Chain) → At P i c → 0 < held c
  position_held i [] a = absurd a
  position_held zero (e ∷ rest) a = omega (arith, some_handle e a)
  position_held (suc i) (e ∷ rest) a = omega (arith, position_held i rest a)

  at-Holds : (k i : ℕ) (c : Chain) → At P i c → held c ≡ suc k → Holds k (at i f c)
  unfolding at
  at-Holds k i [] a h = absurd a
  at-Holds k zero (e ∷ rest) a h = one k e rest h
  at-Holds k (suc i) (e ∷ rest) a h =
      let n = position_held i rest a in
      behind-Holds k (held rest - 1) e (at i f rest)
        (at-Holds (held rest - 1) i rest a (omega (arith, n))) (omega (arith, n))

-- A release takes exactly one handle.
release_call-Holds :
    (k i : ℕ) (c : Chain) (r : HasRelease i c)
    → held c ≡ suc k
    → Holds k (run_call (release_call i c r) c)
unfolding run_call writer_release
release_call-Holds k i c (inl a) h =
    at-Holds FreeReader reader_release (λ e f. omega arith) reader_release-Holds k i c a h
release_call-Holds k i c (inr (inl a)) h =
    at-Holds HasActive writer_release_active (λ e f. omega arith) writer_release_active-Holds k i c
      a h
release_call-Holds k i c (inr (inr a)) h =
    at-Holds FreeWriter writer_cancel (λ e f. omega arith) writer_cancel-Holds k i c a h

HasRelease-held : (i : ℕ) (c : Chain) → HasRelease i c → 0 < held c
HasRelease-held i c (inl a) =
    position_held FreeReader reader_release (λ e f. omega arith) reader_release-Holds i c a
HasRelease-held i c (inr (inl a)) =
    position_held HasActive writer_release_active (λ e f. omega arith) writer_release_active-Holds i
      c a
HasRelease-held i c (inr (inr a)) =
    position_held FreeWriter writer_cancel (λ e f. omega arith) writer_cancel-Holds i c a

-- The newest epoch is no longer pending.
abbrev pub HasBegun : Chain → Type 0
HasBegun = Last λ e. e.phase ≢ pending

phase_cases : (p : Phase) → (p ≡ pending) ⊎ (p ≢ pending)
phase_cases p = ground arith

Last-cases : (e : Epoch) (c : Chain) → Last (λ e. e.phase ≡ pending) (e ∷ c) ⊎ HasBegun (e ∷ c)
Last-cases e [] = phase_cases e.phase
Last-cases e (e' ∷ c) = Last-cases e' c

abbrev pub Releases : List Call → Type 0
Releases [] = Unit
Releases (x ∷ xs) = IsRelease x × Releases xs

-- Releases that may be made one after another, and then the newest epoch has begun.
abbrev pub Drains : List Call → Chain → Type 0
Drains xs c = Releases xs × Legal xs c × Leaves HasBegun (run_calls xs c)

drain_step :
    (j k : ℕ) (x : Call) (c : Chain) (s : Step)
    → run_call x c ≡ s
    → IsRelease x
    → Allowed x c
    → Holds k s
    → Ensures true 0 j s
    → ((c' : Chain) → held c' ≡ k → IsRunning c' → (xs : List Call) × Drains xs c')
    → (xs : List Call) × Drains xs c
unfolding run_calls
drain_step j k x c none q r a h e next = absurd e
drain_step j k x c (some (c', out)) q r a h e next =
    let (xs, d) = next c' h e.0 in
    (x ∷ xs, ((r, d.0), (a, rw q d.1), rw q (Leaves-out HasBegun out (run_calls xs c') d.2)))

drain_first :
    (k : ℕ) (c : Chain)
    → held c ≡ k
    → IsRunning c
    → Last (λ e. e.phase ≡ pending) c
    → ((j : ℕ)
        → k ≡ suc j
        → (c' : Chain) → held c' ≡ j
        → IsRunning c'
        → (xs : List Call) × Drains xs c')
    → (xs : List Call) × Drains xs c
drain_first k c h r p next =
    let (i, f) = IsRunning-release c r p in
    let n = HasRelease-held i c f in
    let e : held c ≡ suc (k - 1) = omega (arith, n) in
    let x = release_call i c f in
    let a = release_call-Allowed i c f in
    drain_step (bound 0 x + tasks 0 c) (k - 1) x c (run_call x c) refl
      (release_call-IsRelease i c f) a (release_call-Holds (k - 1) i c f e)
      (call-Ensures 0 true x c r a) (next (k - 1) (omega (arith, n)))

drain : (k : ℕ) (c : Chain) → held c ≡ k → IsRunning c → (xs : List Call) × Drains xs c
unfolding run_calls
drain k [] h r = absurd r
drain zero (e ∷ c) h r = elim (Last-cases e c) [
  | inl p ↦ drain_first zero (e ∷ c) h r p (λ j q. absurd (omega arith))
  | inr b ↦ ([], (tt, tt, b))
]
drain (suc k) (e ∷ c) h r = elim (Last-cases e c) [
  | inl p ↦ drain_first (suc k) (e ∷ c) h r p (λ j q c' h' r'. drain k c' (h' ∙ ap pred (sym q)) r')
  | inr b ↦ ([], (tt, tt, b))
]

-- After any legal history no epoch is stuck: some sequence of releases by the handles that are left,
-- each of them allowed, passes every check and lets the newest epoch begin.
pub history-Drains :
    (with_value : Bool) (xs : List Call) {c : Chain} {out : List Resumed}
    → Leaves (Legal xs) (make_queue with_value)
    → history with_value xs ≡ some (c, out)
    → (ys : List Call) × Drains ys c
history-Drains with_value xs {c} l e = drain (held c) c refl (history-IsRunning with_value xs l e)
