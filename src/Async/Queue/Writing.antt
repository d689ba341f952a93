-- ===== src/Async/Queue/Writing.antt =====
-- create_write_context of epoch_queue.hpp on a queue in order.
use uni.Prelude.{ℕ, ◌≡◌, inl, inr, Bool, true, false, none, some, [], ◌∷◌, arith}
use uni.Async.Epoch.{
  Epoch, Chain, Step, new_epoch, set_next_epoch, start_with, advance_start, advance_finished,
  advance_writing,
}
use uni.Async.Epoch.Writer.{has_writer, writer_acquire}
use uni.Async.Epoch.Invariant.{IsOrdered, IsLive, Ensures}
use uni.Async.Queue.{
  on_last, behind, and_then, extend, create_write_context, run_call, extends, writes,
}
use uni.Async.Queue.Lift.{Last}
use uni.Async.Queue.Calls.{extend-ordered, write-ordered}
use uni.Async.Queue.History.{Leaves, Leaves-out, Legal}

abbrev IsFresh : Epoch → Type 0
IsFresh e = has_writer e ≡ false

behind-Leaves :
    (Q : Epoch → Type 0) (e : Epoch) (s : Step) → Leaves (Last Q) s → Leaves (Last Q) (behind e s)
behind-Leaves Q e none h = h
behind-Leaves Q e (some ([], out)) h = absurd h
behind-Leaves Q e (some (x ∷ c, out)) h = h

module _ (P Q : Epoch → Type 0) (f : Epoch → Chain → Step)
    (one : (m : Bool) (e : Epoch) → IsLive m e [] → P e → Leaves (Last Q) (f e [])) where
  on_last-Leaves : (m : Bool) (c : Chain) → IsOrdered m c → Last P c → Leaves (Last Q) (on_last f c)
  unfolding on_last
  on_last-Leaves m [] o a = absurd a
  on_last-Leaves false (e ∷ []) o a = one false e o a
  on_last-Leaves true (e ∷ []) (inl l) a = one true e l a
  on_last-Leaves true (e ∷ []) (inr (d, r)) a = absurd r
  on_last-Leaves false (e ∷ e' ∷ c) o a =
      behind-Leaves Q e (on_last f (e' ∷ c)) (on_last-Leaves false (e' ∷ c) o.1 a)
  on_last-Leaves true (e ∷ e' ∷ c) (inl l) a =
      behind-Leaves Q e (on_last f (e' ∷ c)) (on_last-Leaves false (e' ∷ c) l.1 a)
  on_last-Leaves true (e ∷ e' ∷ c) (inr (d, r)) a =
      behind-Leaves Q e (on_last f (e' ∷ c)) (on_last-Leaves true (e' ∷ c) r a)

extend-IsFresh :
    (m : Bool) (e : Epoch) → IsLive m e [] → Unit {0} → Leaves (Last IsFresh) (extend e [])
unfolding extend set_next_epoch new_epoch has_writer advance_finished start_with advance_start
extend-IsFresh true e l u = ground arith
extend-IsFresh false e l u = ground arith

writer_acquire-one :
    (m : Bool) (e : Epoch)
    → IsLive m e []
    → IsFresh e
    → Leaves (Last λ e. e.total_writers ≡ 1) (writer_acquire e [])
unfolding writer_acquire has_writer advance_writing
writer_acquire-one true e l f = ground arith
writer_acquire-one false e l f = ground arith

-- The second critical section, wherever the first one has led.
writes-Legal :
    (m : Bool) (k : ℕ) (s : Step)
    → Ensures m 0 k s
    → Leaves (Last IsFresh) s
    → Leaves (Legal (writes ∷ [])) s
unfolding run_call
writes-Legal m k none h f = h
writes-Legal m k (some (c, out)) h f =
    (f, Leaves-Ensures m _ (on_last writer_acquire c) (write-ordered 0 m c h.0 f))
  where
    Leaves-Ensures : (m : Bool) (k : ℕ) (s : Step) → Ensures m 0 k s → Leaves (λ c. Unit) s
    Leaves-Ensures m k none h = h
    Leaves-Ensures m k (some (c, out)) h = tt

module _ (m : Bool) (c : Chain) (o : IsOrdered m c) (n : Last (λ e. Unit {0}) c) where
  extend_first : Leaves (Last IsFresh) (on_last extend c)
  extend_first = on_last-Leaves (λ e. Unit) IsFresh extend extend-IsFresh m c o n

  -- The two critical sections of create_write_context are calls that the queue allows in turn.
  pub create_write_context-Legal : Legal (extends ∷ writes ∷ []) c
  unfolding run_call
  create_write_context-Legal =
      (n, writes-Legal m _ (on_last extend c) (extend-ordered 0 m c o n) extend_first)

  writes_once :
      (s : Step) (k : ℕ)
      → Ensures m 0 k s
      → Leaves (Last IsFresh) s
      → Leaves (Last λ e. e.total_writers ≡ 1) (and_then s (on_last writer_acquire))
  writes_once none k h f = h
  writes_once (some (c', out)) k h f =
      Leaves-out (Last λ e. e.total_writers ≡ 1) out (on_last writer_acquire c') (
        on_last-Leaves IsFresh (λ e. e.total_writers ≡ 1) writer_acquire writer_acquire-one m c' h.0
          f)

  -- On a queue in order, with at least one epoch, create_write_context passes every check, and then
  -- the newest epoch has had one writer in all: the new one.
  pub create_write_context-one : Leaves (Last λ e. e.total_writers ≡ 1) (create_write_context c)
  unfolding create_write_context
  create_write_context-one =
      writes_once (on_last extend c) _ (extend-ordered 0 m c o n) extend_first
