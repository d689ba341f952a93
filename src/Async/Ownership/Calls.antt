-- ===== src/Async/Ownership/Calls.antt =====
-- The operations of BasicAsyncTask, AsyncTaskFactory and the coroutine that executes. A call on an
-- empty AsyncTask that the source does not allow is refused.
use uni.Prelude.{
  ℕ, suc, Bool, true, false, not, Option, none, some, List, [], ◌∷◌, ◌++◌, if◌then◌else◌, ◌==◌,
  get_elem?,
}
use uni.Prelude.Outcome.{Outcome, ◌>>=◌, or_refused, check_that}
use uni.Async.Ownership.{
  Promise, Frames, Owner, World, write, set_slot, load, add_awaiter, release_awaiter, destroy_all,
  with_frames, destroy_owned_coroutine,
}

abbrev pub is_task : Owner → Outcome (Option ℕ)
is_task (Owner.task h) = Outcome.done h
is_task (Owner.factory h n) = Outcome.refused

abbrev pub is_factory : Owner → Outcome (Option ℕ × ℕ)
is_factory (Owner.task h) = Outcome.refused
is_factory (Owner.factory h n) = Outcome.done (h, n)

-- The coroutine that executes.
abbrev pub current : List ℕ → Outcome (ℕ × List ℕ)
current [] = Outcome.refused
current (h ∷ others) = Outcome.done (h, others)

abbrev pub executes : Option ℕ → List ℕ → List ℕ
executes none running = running
executes (some h) running = h ∷ running

abbrev pub is_absent {ℓ} : {A : Type ℓ} → Option A → Bool
is_absent none = true
is_absent (some a) = false

module _ {E : Type 0} where
  -- The handle of an AsyncTask.
  unfoldable pub handle : ℕ → World E → Outcome (Option ℕ)
  handle i w = or_refused (get_elem? w.objects i) >>= is_task

  unfoldable pub owning_handle : ℕ → World E → Outcome ℕ
  unfolding handle
  owning_handle i w = do h ← handle i w; or_refused h

  abbrev pub put : ℕ → Owner → World E → World E
  put i owner w = record w { objects = set_slot i owner w.objects }

  abbrev pub new_promise : Promise E
  new_promise = record {
    awaiter_count = 1;
    continuation = none;
    cancel_on_resume = false;
    exception = none;
    started = false;
    sched = none;
  }

  -- get_return_object and initial_suspend.
  unfoldable pub get_return_object : World E → Outcome (World E)
  unfolding write
  get_return_object w = Outcome.done (record w {
    frames = write w.frames w.next (some new_promise);
    next = suc w.next;
    objects = w.objects ++ Owner.task (some w.next) ∷ [];
  })

  unfoldable pub move_construct : ℕ → World E → Outcome (World E)
  unfolding handle
  move_construct other w = do
    h ← handle other w
    Outcome.done
        (record w { objects = set_slot other (Owner.task none) w.objects ++ Owner.task h ∷ [] })

  abbrev pub destroy_if : Bool → ℕ → World E → Outcome (World E)
  destroy_if true h w = destroy_owned_coroutine h w
  destroy_if false h w = Outcome.done w

  abbrev pub release_of : Option ℕ → World E → Outcome (World E)
  release_of none w = Outcome.done w
  release_of (some h) w = do
    (last, frames) ← release_awaiter 1 h w.frames
    destroy_if last h (with_frames w frames)

  -- The destructor; its object stays behind empty.
  unfoldable pub destruct : ℕ → World E → Outcome (World E)
  unfolding handle release_awaiter destroy_owned_coroutine
  destruct this w = do h ← handle this w; release_of h (put this (Owner.task none) w)

  unfoldable pub move_assign : ℕ → ℕ → World E → Outcome (World E)
  unfolding handle destruct
  move_assign this other w =
      let assigned = (do
        w' ← destruct this w
        h ← handle other w'
        Outcome.done (put this (Owner.task h) (put other (Owner.task none) w'))) in
      if this == other then Outcome.done w else assigned

  abbrev pub keep_or_drop : Bool → ℕ → ℕ → World E → Outcome (World E)
  keep_or_drop true this h w = do
    (prior, frames) ← add_awaiter 1 h w.frames
    Outcome.done (with_frames w frames)
  keep_or_drop false this h w = Outcome.done (put this (Owner.task none) w)

  unfoldable pub make_sole_owner : ℕ → World E → Outcome (World E)
  unfolding owning_handle release_awaiter add_awaiter
  make_sole_owner this w = do
    h ← owning_handle this w
    (last, frames) ← release_awaiter 1 h w.frames
    keep_or_drop last this h (with_frames w frames)

  unfoldable pub change : ℕ → (Promise E → Promise E) → Frames E → Outcome (Frames E)
  unfolding load write
  change h f frames = do p ← load frames h; Outcome.done (write frames h (some (f p)))

  abbrev pub with_started : Promise E → Promise E
  with_started p = record p { started = true }

  abbrev pub start_or_destroy : Bool → ℕ → World E → Outcome (Option ℕ × World E)
  start_or_destroy true h w = do w' ← destroy_all (some h) w; Outcome.done (none, w')
  start_or_destroy false h w = do
    frames ← change h with_started w.frames
    Outcome.done (some h, with_frames w frames)

  -- The coroutine to resume; a cancelled one is destroyed with its continuations.
  unfoldable pub release_handle : ℕ → World E → Outcome (Option ℕ × World E)
  unfolding owning_handle release_awaiter load destroy_all change
  release_handle this w = do
    h ← owning_handle this w
    (last, frames) ← release_awaiter 1 h w.frames
    _ ← check_that last
    p ← load frames h
    start_or_destroy p.cancel_on_resume h (with_frames (put this (Owner.task none) w) frames)

  unfoldable pub resume : ℕ → World E → Outcome (World E)
  unfolding release_handle
  resume this w = do
    (h, w') ← release_handle this w
    Outcome.done (record w' { running = executes h w'.running })

  unfoldable pub abandon_leak : ℕ → World E → Outcome (World E)
  unfolding release_handle
  abandon_leak this w = do
    (h, w') ← release_handle this w
    Outcome.done (record w' { leaked = executes h w'.leaked })

  unfoldable pub set_cancel_on_resume : ℕ → World E → Outcome (World E)
  unfolding owning_handle change
  set_cancel_on_resume this w = do
    h ← owning_handle this w
    frames ← change h (λ p. record p { cancel_on_resume = true }) w.frames
    Outcome.done (with_frames w frames)

  -- The first exception stays.
  abbrev pub first_exception : Option E → E → Option E
  first_exception none e = some e
  first_exception (some e') e = some e'

  abbrev pub with_exception : E → Promise E → Promise E
  with_exception e p = record p { exception = first_exception p.exception e }

  unfoldable pub exception_on_resume : ℕ → E → World E → Outcome (World E)
  unfolding owning_handle change
  exception_on_resume this e w = do
    h ← owning_handle this w
    frames ← change h (with_exception e) w.frames
    Outcome.done (with_frames w frames)

  abbrev pub scheduled_by : Option ℕ → ℕ → Frames E → Outcome (Frames E)
  scheduled_by none sched frames = Outcome.done frames
  scheduled_by (some h) sched frames = change h (λ p. record p { sched = some sched }) frames

  unfoldable pub set_scheduler : ℕ → ℕ → World E → Outcome (World E)
  unfolding handle change
  set_scheduler this sched w = do
    h ← handle this w
    frames ← scheduled_by h sched w.frames
    Outcome.done (with_frames w frames)

  -- Whether the task goes to its scheduler.
  abbrev pub submitted : Option ℕ → World E → Outcome (Bool × World E)
  submitted none w = Outcome.done (false, w)
  submitted (some h) w = do
    p ← load w.frames h
    _ ← check_that (not (is_absent p.sched))
    Outcome.done (true, w)

  unfoldable pub reschedule_task : ℕ → World E → Outcome (Bool × World E)
  unfolding make_sole_owner handle load
  reschedule_task this w = do w' ← make_sole_owner this w; h ← handle this w'; submitted h w'
