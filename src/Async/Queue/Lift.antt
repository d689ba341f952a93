-- ===== src/Async/Queue/Lift.antt =====
-- Calls on an epoch at a position of the queue (epoch_queue.hpp).
use uni.Prelude.{ℕ, zero, suc, ◌+◌, ◌≡◌, Bool, true, false, none, some, [], ◌∷◌, inl, inr, arith}
use uni.Async.Epoch.{Epoch, Chain, Step}
use uni.Async.Epoch.Invariant.{
  IsPending, IsCurrent, IsFinished, IsOrdered, IsLive, tasks, tasks_of, Ensures,
}
use uni.Async.Queue.{behind, on_last, at}

-- A property of the epoch at a position, which has to exist.
abbrev pub At : (Epoch → Type 0) → ℕ → Chain → Type 0
At P i [] = ⊥
At P zero (e ∷ rest) = P e
At P (suc i) (e ∷ rest) = At P i rest

abbrev pub Last : (Epoch → Type 0) → Chain → Type 0
Last P [] = ⊥
Last P (e ∷ []) = P e
Last P (e ∷ e' ∷ rest) = Last P (e' ∷ rest)

-- A call that no finished epoch allows is safe on every epoch that allows it.
pub record IsSafe (P : Epoch → Type 0) (f : Epoch → Chain → Step) (t k : ℕ) : Type 0 where
  pub live : (e : Epoch) → P e → IsFinished e → ⊥
  pub safe :
      (m : Bool) (e : Epoch) (rest : Chain)
      → IsLive m e rest
      → P e
      → Ensures m t (k + tasks t (e ∷ rest)) (f e rest)

module _ (t : ℕ) where
  behind-pending :
      (k j : ℕ) (e e' : Epoch) (rest : Chain) (s : Step)
      → IsPending e (e' ∷ rest)
      → Ensures false t k s
      → tasks_of t e + k ≡ j
      → Ensures false t j (behind e s)
  behind-pending k j e e' rest none p h q = h
  behind-pending k j e e' rest (some ([], out)) p h q = ground arith
  behind-pending k j e e' rest (some (x ∷ c, out)) p h q = ground arith

  behind-current :
      (k j : ℕ) (e e' : Epoch) (rest : Chain) (s : Step)
      → IsCurrent e (e' ∷ rest)
      → Ensures false t k s
      → tasks_of t e + k ≡ j
      → Ensures true t j (behind e s)
  behind-current k j e e' rest none p h q = h
  behind-current k j e e' rest (some ([], out)) p h q = ground arith
  behind-current k j e e' rest (some (x ∷ c, out)) p h q = ground arith

  behind-finished :
      (k j : ℕ) (e : Epoch) (s : Step)
      → IsFinished e
      → Ensures true t k s
      → tasks_of t e + k ≡ j
      → Ensures true t j (behind e s)
  behind-finished k j e none p h q = h
  behind-finished k j e (some (c, out)) p h q = ground arith

module _ {P : Epoch → Type 0} {f : Epoch → Chain → Step} {t k : ℕ} (s : IsSafe P f t k) where
  pub at-Ensures :
      (m : Bool) (i : ℕ) (c : Chain)
      → IsOrdered m c
      → At P i c
      → Ensures m t (k + tasks t c) (at i f c)
  unfolding at
  at-Ensures m i [] o a = absurd a
  at-Ensures false zero (e ∷ rest) o a = s.safe false e rest o a
  at-Ensures true zero (e ∷ rest) (inl l) a = s.safe true e rest l a
  at-Ensures true zero (e ∷ rest) (inr (d, r)) a = absurd (s.live e a d)
  at-Ensures m (suc i) (e ∷ []) o a = absurd a
  at-Ensures false (suc i) (e ∷ e' ∷ rest) o a =
      behind-pending t (k + tasks t (e' ∷ rest)) _ e e' rest _ o.0
        (at-Ensures false i (e' ∷ rest) o.1 a) (omega arith)
  at-Ensures true (suc i) (e ∷ e' ∷ rest) (inl l) a =
      behind-current t (k + tasks t (e' ∷ rest)) _ e e' rest _ l.0
        (at-Ensures false i (e' ∷ rest) l.1 a) (omega arith)
  at-Ensures true (suc i) (e ∷ e' ∷ rest) (inr (d, r)) a =
      behind-finished t (k + tasks t (e' ∷ rest)) _ e _ d (at-Ensures true i (e' ∷ rest) r a)
        (omega arith)

-- The last epoch of a running queue is never finished.
module _ (P : Epoch → Type 0) (f : Epoch → Chain → Step) (t k : ℕ)
    (safe : (m : Bool) (e : Epoch)
      → IsLive m e []
      → P e
      → Ensures m t (k + tasks t (e ∷ [])) (f e [])) where
  pub on_last-Ensures :
      (m : Bool) (c : Chain) → IsOrdered m c → Last P c → Ensures m t (k + tasks t c) (on_last f c)
  unfolding on_last
  on_last-Ensures m [] o a = absurd a
  on_last-Ensures false (e ∷ []) o a = safe false e o a
  on_last-Ensures true (e ∷ []) (inl l) a = safe true e l a
  on_last-Ensures true (e ∷ []) (inr (d, r)) a = absurd r
  on_last-Ensures false (e ∷ e' ∷ rest) o a =
      behind-pending t (k + tasks t (e' ∷ rest)) _ e e' rest _ o.0
        (on_last-Ensures false (e' ∷ rest) o.1 a) (omega arith)
  on_last-Ensures true (e ∷ e' ∷ rest) (inl l) a =
      behind-current t (k + tasks t (e' ∷ rest)) _ e e' rest _ l.0
        (on_last-Ensures false (e' ∷ rest) l.1 a) (omega arith)
  on_last-Ensures true (e ∷ e' ∷ rest) (inr (d, r)) a =
      behind-finished t (k + tasks t (e' ∷ rest)) _ e _ d (on_last-Ensures true (e' ∷ rest) r a)
        (omega arith)
