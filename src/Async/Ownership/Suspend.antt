-- ===== src/Async/Ownership/Suspend.antt =====
-- What the coroutine that executes does: it suspends, awaits another task, fails, or ends; and what an
-- AsyncTaskFactory does with the references of a suspended coroutine.
use uni.Prelude.{
  ℕ, zero, suc, Bool, true, false, Option, none, some, List, [], ◌∷◌, ◌++◌, if◌then◌else◌, ◌==◌,
  get_elem?,
}
use uni.Prelude.Outcome.{Outcome, ◌>>=◌, or_refused, check_that}
use uni.Async.Ownership.{
  Promise, Frames, Owner, World, set_slot, load, add_awaiter, release_awaiter, destroy_and_track,
  destroy_all, with_frames,
}
use uni.Async.Ownership.Calls.{is_absent, is_factory, handle, put, current, change, with_exception}

module _ {E : Type 0} where
  -- suspend_task_awaitable: the awaitable keeps the AsyncTask.
  unfoldable pub suspend_task_awaitable : World E → Outcome (World E)
  unfolding add_awaiter
  suspend_task_awaitable w = do
    (h, others) ← current w.running
    (prior, frames) ← add_awaiter 1 h w.frames
    _ ← check_that (prior == 0)
    Outcome.done (record w {
      frames = frames;
      objects = w.objects ++ Owner.task (some h) ∷ [];
      running = others;
    })

  -- The same when the awaitable gives the AsyncTask back: the coroutine goes on.
  unfoldable pub resume_at_once : World E → Outcome (World E)
  unfolding add_awaiter release_awaiter
  resume_at_once w = do
    (h, others) ← current w.running
    (prior, frames) ← add_awaiter 1 h w.frames
    _ ← check_that (prior == 0)
    (last, frames') ← release_awaiter 1 h frames
    _ ← check_that last
    Outcome.done (with_frames w frames')

  abbrev pub new_factory : ℕ → ℕ → List ℕ → World E → Outcome (World E)
  new_factory zero h others w = do
    frames ← destroy_and_track h w.frames
    Outcome.done (record w {
      frames = frames;
      objects = w.objects ++ Owner.factory none 0 ∷ [];
      running = others;
    })
  new_factory (suc n) h others w =
      Outcome.done
        (record w { objects = w.objects ++ Owner.factory (some h) (suc n) ∷ []; running = others })

  -- suspend_factory_awaitable, with take_shared_ownership.
  unfoldable pub suspend_factory_awaitable : ℕ → World E → Outcome (World E)
  unfolding add_awaiter destroy_and_track
  suspend_factory_awaitable count w = do
    (h, others) ← current w.running
    (prior, frames) ← add_awaiter count h w.frames
    _ ← check_that (prior == 0)
    new_factory count h others (with_frames w frames)

  abbrev pub hand_out : ℕ → Option ℕ → ℕ → World E → Outcome (World E)
  hand_out this h zero w = Outcome.refused
  hand_out this h (suc n) w =
      Outcome.done
        (record w { objects = set_slot this (Owner.factory h n) w.objects ++ Owner.task h ∷ [] })

  unfoldable pub take_next : ℕ → World E → Outcome (World E)
  take_next this w = do
    owner ← or_refused (get_elem? w.objects this)
    (h, count) ← is_factory owner
    hand_out this h count w

  abbrev pub track_if : Bool → ℕ → Frames E → Outcome (Frames E)
  track_if true h frames = destroy_and_track h frames
  track_if false h frames = Outcome.done frames

  abbrev pub release_references : Option ℕ → ℕ → Frames E → Outcome (Frames E)
  release_references none count frames = Outcome.done frames
  release_references (some h) zero frames = Outcome.done frames
  release_references (some h) (suc n) frames = do
    (last, frames') ← release_awaiter (suc n) h frames
    track_if last h frames'

  -- The destructor of a factory.
  unfoldable pub release_outstanding : ℕ → World E → Outcome (World E)
  unfolding release_awaiter destroy_and_track
  release_outstanding this w = do
    owner ← or_refused (get_elem? w.objects this)
    (h, count) ← is_factory owner
    frames ← release_references h count w.frames
    Outcome.done
        (record w { frames = frames; objects = set_slot this (Owner.factory none 0) w.objects })

  unfoldable pub move_factory : ℕ → World E → Outcome (World E)
  move_factory other w = do
    owner ← or_refused (get_elem? w.objects other)
    (h, count) ← is_factory owner
    Outcome.done (record w {
      objects = set_slot other (Owner.factory none 0) w.objects ++ Owner.factory h count ∷ [];
    })

  -- The move assignment of a factory.
  unfoldable pub assign_factory : ℕ → ℕ → World E → Outcome (World E)
  unfolding release_outstanding
  assign_factory this other w =
      let assigned = (do
        w' ← release_outstanding this w
        owner ← or_refused (get_elem? w'.objects other)
        (h, count) ← is_factory owner
        Outcome.done (put this (Owner.factory h count) (put other (Owner.factory none 0) w'))) in
      if this == other then Outcome.done w else assigned

  abbrev pub awaits : Option ℕ → ℕ → ℕ → List ℕ → World E → Outcome (World E)
  awaits none this outer others w = Outcome.done w
  awaits (some h) this outer others w = do
    p ← load w.frames h
    _ ← check_that (is_absent p.continuation)
    q ← load w.frames outer
    frames ←
        change h (λ r. record r { continuation = some outer; sched = q.sched; started = true })
          w.frames
    (last, frames') ← release_awaiter 1 h frames
    _ ← check_that last
    Outcome.done (record (put this (Owner.task none) w) { frames = frames'; running = h ∷ others })

  -- co_await on an AsyncTask: the inner coroutine executes, and the outer one is its continuation.
  unfoldable pub await_suspend : ℕ → World E → Outcome (World E)
  unfolding handle load change release_awaiter
  await_suspend this w = do
    (outer, others) ← current w.running
    h ← handle this w
    awaits h this outer others w

  -- unhandled_exception of the coroutine that executes; without an exception it is task_cancelled.
  abbrev pub failed : Option E → Promise E → Promise E
  failed none p = record p { cancel_on_resume = true }
  failed (some e) p = with_exception e p

  unfoldable pub unhandled_exception : Option E → World E → Outcome (World E)
  unfolding change
  unhandled_exception e w = do
    (h, others) ← current w.running
    frames ← change h (failed e) w.frames
    Outcome.done (with_frames w frames)

  abbrev pub pass_on : Option E → ℕ → Frames E → Outcome (Frames E)
  pass_on none c frames = Outcome.done frames
  pass_on (some e) c frames = change c (with_exception e) frames

  -- What follows the end of a coroutine: its continuations are destroyed, or the first goes on.
  abbrev pub continue_with : Bool → Option E → Option ℕ → World E → Outcome (World E)
  continue_with true e c w = destroy_all c w
  continue_with false e none w = Outcome.done w
  continue_with false e (some c) w = do
    frames ← pass_on e c w.frames
    Outcome.done (record w { frames = frames; running = c ∷ w.running })

  unfoldable pub final_suspend : World E → Outcome (World E)
  unfolding load change destroy_and_track destroy_all
  final_suspend w = do
    (h, others) ← current w.running
    p ← load w.frames h
    frames ← change h (λ q. record q { continuation = none }) w.frames
    frames' ← destroy_and_track h frames
    continue_with p.cancel_on_resume p.exception p.continuation
        (record w { frames = frames'; running = others })
