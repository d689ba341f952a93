-- ===== src/Async/Task.antt =====
-- AsyncTask as epoch_context.hpp sees it: a coroutine handle, and what it meets when it is resumed.
use uni.Prelude.{ℕ, ◌+◌, Bool, Option, none, some, List, [], ◌∷◌, if◌then◌else◌, ◌==◌}

-- A coroutine is known by a number. The flag says whether an error cancels it.
pub record TaskState : Type 0 where
  pub task : ℕ
  pub cancel_on_exception : Bool

-- set_cancel_on_resume() and exception_on_resume(e).
pub data Resumption : Type 0 where
  normal cancel : Resumption
  raise : ℕ → Resumption

-- A task handed to AsyncTask::reschedule.
pub record Resumed : Type 0 where
  pub task : ℕ
  pub resumption : Resumption

abbrev on_error : Bool → ℕ → Resumption
on_error c e = if c then cancel else raise e

-- `if (eptr) { if (cancel_on_exception) … else … }`
unfoldable pub resumption : Option ℕ → Bool → Resumption
resumption none c = normal
resumption (some e) c = on_error c e

unfoldable pub reschedule : Option ℕ → TaskState → Resumed
reschedule eptr t = record { task = t.task; resumption = resumption eptr t.cancel_on_exception }

-- How often a coroutine stands in a list.
abbrev pub stored : ℕ → List TaskState → ℕ
stored t [] = 0
stored t (s ∷ ss) = (if s.task == t then 1 else 0) + stored t ss

abbrev pub resumed : ℕ → List Resumed → ℕ
resumed t [] = 0
resumed t (r ∷ rs) = (if r.task == t then 1 else 0) + resumed t rs
