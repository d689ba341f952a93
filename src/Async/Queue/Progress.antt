-- ===== src/Async/Queue/Progress.antt =====
-- Queues whose newest epoch still waits, and their handles (epoch_queue.hpp).
use uni.Prelude.{ℕ, suc, ◌≡◌, ◌⊎◌, inl, inr, true, false, [], ◌∷◌, arith, Bool-cases}
use uni.Async.Epoch.{Epoch, Chain, pending}
use uni.Async.Epoch.Invariant.{IsRunning, IsCurrent, IsWriting, FreeReader, FreeWriter, HasActive}
use uni.Async.Queue.{Call, releases_reader, releases_writer}
use uni.Async.Queue.Lift.{At, Last}
use uni.Async.Queue.Calls.{Allowed}

abbrev pub IsRelease : Call → Type 0
IsRelease (releases_reader i) = Unit
IsRelease (releases_writer i acquired) = Unit
IsRelease _ = ⊥

-- A release by a reader, by the active writer or by an inactive one.
abbrev pub HasRelease : ℕ → Chain → Type 0
HasRelease i c = At FreeReader i c ⊎ At HasActive i c ⊎ At FreeWriter i c

abbrev pub release_call : (i : ℕ) (c : Chain) → HasRelease i c → Call
release_call i c (inl h) = releases_reader i
release_call i c (inr (inl h)) = releases_writer i true
release_call i c (inr (inr h)) = releases_writer i false

pub release_call-IsRelease :
    (i : ℕ) (c : Chain) (h : HasRelease i c) → IsRelease (release_call i c h)
release_call-IsRelease i c (inl h) = tt
release_call-IsRelease i c (inr (inl h)) = tt
release_call-IsRelease i c (inr (inr h)) = tt

pub release_call-Allowed : (i : ℕ) (c : Chain) (h : HasRelease i c) → Allowed (release_call i c h) c
release_call-Allowed i c (inl h) = h
release_call-Allowed i c (inr (inl h)) = h
release_call-Allowed i c (inr (inr h)) = h

IsWriting-release : (e : Epoch) (rest : Chain) → IsWriting e → HasRelease 0 (e ∷ rest)
IsWriting-release e rest w = elim (Bool-cases e.writer_active) [
  | inl h ↦ inr (inl (h, w.num_writers))
  | inr h ↦ inr (inr (ground (arith, w.waits, w.num_writers)))
]

IsCurrent-release :
    (e e' : Epoch) (rest : Chain) → IsCurrent e (e' ∷ rest) → HasRelease 0 (e ∷ e' ∷ rest)
IsCurrent-release e e' rest (inl s) = cc (s.last)
IsCurrent-release e e' rest (inr (inl w)) = IsWriting-release e (e' ∷ rest) w
IsCurrent-release e e' rest (inr (inr r)) = inl (ground (arith, r.waits, r.reader_tasks))

pub IsRunning-release :
    (c : Chain) → IsRunning c → Last (λ e. e.phase ≡ pending) c → (i : ℕ) × HasRelease i c
IsRunning-release [] r p = absurd r
IsRunning-release (e ∷ []) (inl (inl s, a)) p = ground (arith, s.phase)
IsRunning-release (e ∷ []) (inl (inr (inl s), a)) p = ground (arith, s.phase)
IsRunning-release (e ∷ []) (inl (inr (inr s), a)) p = ground (arith, s.phase)
IsRunning-release (e ∷ []) (inr (d, r)) p = absurd r
IsRunning-release (e ∷ e' ∷ rest) (inl (l, a)) p = (0, IsCurrent-release e e' rest l)
IsRunning-release (e ∷ e' ∷ rest) (inr (d, r)) p =
    let (i, h) = IsRunning-release (e' ∷ rest) r p in (suc i, h)
