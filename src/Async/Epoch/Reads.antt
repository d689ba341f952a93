-- ===== src/Async/Epoch/Reads.antt =====
-- The reader interface of epoch_context.hpp and the invariants, for a caller who holds a reader that
-- is not bound.
use uni.Prelude.{ℕ, ◌+◌, ◌≡◌, Bool, true, false, List, [], ◌∷◌, ◌++◌, arith, length-append}
use uni.Async.Task.{TaskState, stored, reschedule}
use uni.Async.Epoch.{Epoch, Chain}
use uni.Async.Epoch.Reader.{reader_acquire, reader_bind, reader_release}
use uni.Async.Epoch.Invariant.{tasks, Ensures, IsLive, FreeReader}
use uni.Async.Epoch.Start.{start_with-Ensures}

stored-append : (t : ℕ) (ss rs : List TaskState) → stored t (ss ++ rs) ≡ stored t ss + stored t rs
stored-append t [] rs = omega arith
stored-append t (s ∷ ss) rs = omega (arith, stored-append t ss rs)

pub reader_acquire-Ensures :
    (m : Bool) (t : ℕ) (e : Epoch) (rest : Chain)
    → IsLive m e rest
    → Ensures m t (tasks t (e ∷ rest)) (reader_acquire e rest)
unfolding reader_acquire
reader_acquire-Ensures true t e rest l = ground arith
reader_acquire-Ensures false t e rest l = ground arith

pub reader_bind-Ensures :
    (m : Bool) (t : ℕ) (s : TaskState) (e : Epoch) (rest : Chain)
    → IsLive m e rest
    → FreeReader e
    → Ensures m t (stored t (s ∷ []) + tasks t (e ∷ rest)) (reader_bind s e rest)
unfolding reader_bind reschedule
reader_bind-Ensures true t s e rest l f =
    ground (arith, length-append e.reader_tasks (s ∷ []), stored-append t e.reader_tasks (s ∷ []))
reader_bind-Ensures false t s e rest l f =
    ground (arith, length-append e.reader_tasks (s ∷ []), stored-append t e.reader_tasks (s ∷ []))

pub reader_release-Ensures :
    (m : Bool) (t : ℕ) (e : Epoch) (rest : Chain)
    → IsLive m e rest
    → FreeReader e
    → Ensures m t (tasks t (e ∷ rest)) (reader_release e rest)
unfolding reader_release
reader_release-Ensures true t e rest l f = ground (arith, start_with-Ensures t rest e.eptr)
reader_release-Ensures false t e rest l f = ground arith
