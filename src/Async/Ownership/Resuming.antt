-- ===== src/Async/Ownership/Resuming.antt =====
-- The operations of AsyncTask that start a coroutine, and those on its promise.
use uni.Prelude.{
  ℕ, ◌≡◌, refl, Bool, true, false, Option, none, some, ◌==◌, get_elem?, arith, inl, inr,
  Option-cases,
}
use uni.Prelude.Outcome.{Outcome, ◌>>=◌, check_that}
use uni.Async.Ownership.{Frames, Owner, World, set_slot, with_frames, load, release_awaiter}
use uni.Async.Ownership.Calls.{
  submitted, reschedule_task, handle, keep_or_drop, make_sole_owner, start_or_destroy, executes,
  with_started, release_handle, resume, abandon_leak, set_cancel_on_resume, with_exception,
  exception_on_resume, set_scheduler,
}
use uni.Async.Ownership.Counting.{one_self, IsHeld, total-set_slot}
use uni.Async.Ownership.Steps.{world}
use uni.Async.Ownership.Chain.{unreferenced, Sound, destroy_all-IsHeld}
use uni.Async.Ownership.References.{orphan, release-IsHeld, change-IsHeld, adopt-IsHeld}
use uni.Async.Ownership.Tasks.{handle-cases, owning-cases, task_frame}

module _ {E : Type 0} where
  -- The reference of a task is released; its object is empty, or about to be.
  pub released :
      (w : World E) (i h : ℕ)
      → IsHeld w none
      → get_elem? w.objects i ≡ some (Owner.task (some h))
      → (b : Bool) × (new : Frames E) × (release_awaiter 1 h w.frames ≡ Outcome.done (b, new))
        × IsHeld
            (world w new (set_slot i (Owner.task none) w.objects) w.running w.leaked)
            (orphan b h)
  released w i h c g =
      let (p, e, l) = task_frame w i h c g in
      let (new, f, d) = release-IsHeld w h 0 p (set_slot i (Owner.task none) w.objects) c e l (λ a.
        omega (arith, total-set_slot a i w.objects (Owner.task (some h)) (Owner.task none) g)) in
      (p.awaiter_count == 1, new, f, d)

  keep_or_drop-Sound :
      (b : Bool) (this h : ℕ) (w : World E) (frames : Frames E)
      → get_elem? w.objects this ≡ some (Owner.task (some h))
      → IsHeld
          (world w frames (set_slot this (Owner.task none) w.objects) w.running w.leaked)
          (orphan b h)
      → Sound (keep_or_drop b this h (with_frames w frames))
  keep_or_drop-Sound false this h w frames g c = c
  keep_or_drop-Sound true this h w frames g c =
      let (new, f, d) =
        adopt-IsHeld (world w frames (set_slot this (Owner.task none) w.objects) w.running w.leaked)
          h w.objects c
          (λ a.
            omega
              (arith, total-set_slot a this w.objects (Owner.task (some h)) (Owner.task none) g)) in
      rw f d

  pub make_sole_owner-Sound : (i : ℕ) (w : World E) → IsHeld w none → Sound (make_sole_owner i w)
  unfolding make_sole_owner
  make_sole_owner-Sound i w c = elim (owning-cases i w) [
    | inl e ↦ rw e tt
    | inr (h, e, g) ↦
        let (b, new, f, d) = released w i h c g in rw (e, f) (keep_or_drop-Sound b i h w new g d)
  ]

  submitted-Sound :
      (h : Option ℕ) (i : ℕ) (w : World E)
      → IsHeld w none
      → get_elem? w.objects i ≡ some (Owner.task h)
      → Sound (do (b, w') ← submitted h w; Outcome.done w')
  unfolding load
  submitted-Sound none i w c g = c
  submitted-Sound (some h) i w c g =
      let (p, e, l) = task_frame w i h c g in
      elim (Option-cases (p.sched)) [ inl n ↦ rw (e, n) tt | inr (k, n) ↦ rw (e, n) c ]

  pub reschedule_task-Sound :
      (i : ℕ) (w : World E)
      → IsHeld w none
      → Sound (do (b, w') ← reschedule_task i w; Outcome.done w')
  unfolding reschedule_task
  reschedule_task-Sound i w c = after (make_sole_owner i w) (make_sole_owner-Sound i w c)
    where
      after :
          (m : Outcome (World E))
          → Sound m
          → Sound (do (b, w') ← (do w ← m; h ← handle i w; submitted h w); Outcome.done w')
      after (Outcome.done w) c = elim (handle-cases i w) [
        | inl e ↦ rw e tt
        | inr (h, e, g) ↦ rw e (submitted-Sound h i w c g)
      ]
      after Outcome.refused c = tt
      after Outcome.fault c = c

  -- What resume and abandon_leak do with the coroutine of release_handle.
  pub Hands : Outcome (Option ℕ × World E) → Type 0
  Hands (Outcome.done (o, w)) = IsHeld w o
  Hands Outcome.refused = Unit
  Hands Outcome.fault = ⊥

  start_or_destroy-Hands :
      (b : Bool) (h : ℕ) (w : World E) → IsHeld w (some h) → Hands (start_or_destroy b h w)
  unfolding Hands
  start_or_destroy-Hands true h w c = let (new, e, d) = destroy_all-IsHeld w (some h) c in rw e d
  start_or_destroy-Hands false h w c =
      let (p, e, z) = unreferenced w (some h) c h (omega (arith, one_self h)) in
      let (new, f, d) = change-IsHeld w (some h) h p with_started c e refl refl in rw f d

  checked-Hands :
      (b : Bool) (h : ℕ) (w : World E)
      → IsHeld w (orphan b h)
      → Hands (do _ ← check_that b; p ← load w.frames h; start_or_destroy p.cancel_on_resume h w)
  unfolding Hands load
  checked-Hands false h w c = tt
  checked-Hands true h w c =
      let (p, e, z) = unreferenced w (some h) c h (omega (arith, one_self h)) in
      rw e (start_or_destroy-Hands p.cancel_on_resume h w c)

  release_handle-Hands : (i : ℕ) (w : World E) → IsHeld w none → Hands (release_handle i w)
  unfolding release_handle Hands
  release_handle-Hands i w c = elim (owning-cases i w) [
    | inl e ↦ rw e tt
    | inr (h, e, g) ↦
        let (b, new, f, d) = released w i h c g in
        rw (e, f)
          (checked-Hands b h
            (world w new (set_slot i (Owner.task none) w.objects) w.running w.leaked) d)
  ]

  pub executes-IsHeld :
      (w : World E) (o : Option ℕ)
      → IsHeld w o
      → IsHeld (record w { running = executes o w.running }) none
  executes-IsHeld w none c = c
  executes-IsHeld w (some h) c = record {
    counted = c.counted;
    held = λ a. omega (arith, c.held a);
    fresh = c.fresh;
  }

  leaks-IsHeld :
      (w : World E) (o : Option ℕ)
      → IsHeld w o
      → IsHeld (record w { leaked = executes o w.leaked }) none
  leaks-IsHeld w none c = c
  leaks-IsHeld w (some h) c = record {
    counted = c.counted;
    held = λ a. omega (arith, c.held a);
    fresh = c.fresh;
  }

  Hands-bind :
      (m : Outcome (Option ℕ × World E)) (f : Option ℕ × World E → Outcome (World E))
      → Hands m
      → ((o : Option ℕ) (w : World E) → IsHeld w o → Sound (f (o, w)))
      → Sound (m >>= f)
  unfolding Hands
  Hands-bind (Outcome.done (o, w)) f k g = g o w k
  Hands-bind Outcome.refused f k g = tt
  Hands-bind Outcome.fault f k g = k

  pub resume-Sound : (i : ℕ) (w : World E) → IsHeld w none → Sound (resume i w)
  unfolding resume
  resume-Sound i w c =
      Hands-bind (release_handle i w) _ (release_handle-Hands i w c)
        (λ o w' d. executes-IsHeld w' o d)

  pub abandon_leak-Sound : (i : ℕ) (w : World E) → IsHeld w none → Sound (abandon_leak i w)
  unfolding abandon_leak
  abandon_leak-Sound i w c =
      Hands-bind (release_handle i w) _ (release_handle-Hands i w c) (λ o w' d. leaks-IsHeld w' o d)

  pub set_cancel_on_resume-Sound :
      (i : ℕ) (w : World E) → IsHeld w none → Sound (set_cancel_on_resume i w)
  unfolding set_cancel_on_resume
  set_cancel_on_resume-Sound i w c = elim (owning-cases i w) [
    | inl e ↦ rw e tt
    | inr (h, e, g) ↦
        let (p, f, l) = task_frame w i h c g in
        let (new, k, d) =
          change-IsHeld w none h p (λ q. record q { cancel_on_resume = true }) c f refl refl in
        rw (e, k) d
  ]

  pub exception_on_resume-Sound :
      (i : ℕ) (x : E) (w : World E) → IsHeld w none → Sound (exception_on_resume i x w)
  unfolding exception_on_resume
  exception_on_resume-Sound i x w c = elim (owning-cases i w) [
    | inl e ↦ rw e tt
    | inr (h, e, g) ↦
        let (p, f, l) = task_frame w i h c g in
        let (new, k, d) = change-IsHeld w none h p (with_exception x) c f refl refl in rw (e, k) d
  ]

  pub set_scheduler-Sound : (i s : ℕ) (w : World E) → IsHeld w none → Sound (set_scheduler i s w)
  unfolding set_scheduler
  set_scheduler-Sound i s w c = elim (handle-cases i w) [
    | inl e ↦ rw e tt
    | inr (none, e, g) ↦ rw e c
    | inr (some h, e, g) ↦
        let (p, f, l) = task_frame w i h c g in
        let (new, k, d) =
          change-IsHeld w none h p (λ q. record q { sched = some s }) c f refl refl in
        rw (e, k) d
  ]
