-- ===== src/Async/Ownership/Coroutines.antt =====
-- What the coroutine that executes does keeps what holds the coroutines.
use uni.Prelude.{
  ℕ, ◌≡◌, refl, Bool, true, false, Option, none, some, List, [], ◌∷◌, ◌++◌, ◌==◌, get_elem?, arith,
  ◌⊎◌, inl, inr, Option-cases,
}
use uni.Prelude.Outcome.{Outcome, ◌>>=◌, check_that}
use uni.Async.Ownership.{Promise, Frames, Owner, World, write, set_slot, load, add_awaiter}
use uni.Async.Ownership.Calls.{current, change}
use uni.Async.Ownership.Suspend.{
  suspend_task_awaitable, resume_at_once, awaits, await_suspend, failed, unhandled_exception,
}
use uni.Async.Ownership.Counting.{one_self, IsHeld, total-append}
use uni.Async.Ownership.Steps.{world, write-IsHeld}
use uni.Async.Ownership.Chain.{referenced, Sound}
use uni.Async.Ownership.References.{
  orphan, executing, suspend-IsHeld, release-IsHeld, change-IsHeld,
}
use uni.Async.Ownership.Tasks.{handle-cases, task_frame}
use uni.Async.Ownership.Resuming.{executes-IsHeld, released}

pub running-cases :
    (running : List ℕ)
    → (current running ≡ Outcome.refused)
      ⊎ ((h : ℕ) × (others : List ℕ) × (current running ≡ Outcome.done (h, others))
          × (running ≡ h ∷ others))
running-cases [] = inl refl
running-cases (h ∷ others) = inr (h, others, refl, refl)

module _ {E : Type 0} where
  -- A task for the coroutine that executes; the coroutine stops.
  task_of :
      (w : World E) (h : ℕ) (others : List ℕ)
      → IsHeld w none
      → w.running ≡ h ∷ others
      → (new : Frames E) × (add_awaiter 1 h w.frames ≡ Outcome.done (0, new))
        × IsHeld (world w new (w.objects ++ Owner.task (some h) ∷ []) others w.leaked) none
  task_of w h others c r =
      let (new, f, held_by) = suspend-IsHeld w h 1 others c r in
      (
        new,
        f,
        held_by (w.objects ++ Owner.task (some h) ∷ [])
            (λ a. omega (arith, total-append a w.objects (Owner.task (some h) ∷ []))),
      )

  pub suspend_task_awaitable-Sound :
      (w : World E) → IsHeld w none → Sound (suspend_task_awaitable w)
  unfolding suspend_task_awaitable
  suspend_task_awaitable-Sound w c = elim (running-cases w.running) [
    | inl e ↦ rw e tt
    | inr (h, others, e, r) ↦ let (new, f, d) = task_of w h others c r in rw (e, f) d
  ]

  pub suspend_task_awaitable_goes :
      (w : World E)
      → IsHeld w none
      → (h : ℕ) (others : List ℕ) → w.running ≡ h ∷ others
      → (w' : World E) × (suspend_task_awaitable w ≡ Outcome.done w')
        × (w'.running ≡ others)
        × (w'.objects ≡ w.objects ++ Owner.task (some h) ∷ [])
  unfolding suspend_task_awaitable
  suspend_task_awaitable_goes w c h others r =
      let (new, f, d) = task_of w h others c r in
      (
        world w new (w.objects ++ Owner.task (some h) ∷ []) others w.leaked,
        rw (r, f) refl,
        refl,
        refl,
      )

  -- A coroutine in hand goes on to execute.
  goes_on :
      (b : Bool) (w : World E) (h : ℕ) (running : List ℕ)
      → running ≡ h ∷ w.running
      → IsHeld w (orphan b h)
      → Sound (do _ ← check_that b; Outcome.done (record w { running = running }))
  goes_on false w h running r c = tt
  goes_on true w h running r c = rw r (executes-IsHeld w (some h) c)

  pub resume_at_once-Sound : (w : World E) → IsHeld w none → Sound (resume_at_once w)
  unfolding resume_at_once
  resume_at_once-Sound w c = elim (running-cases w.running) [
    | inl e ↦ rw e tt
    | inr (h, others, e, r) ↦
        let (new, f, d) = task_of w h others c r in
        let (p, k, l) =
          referenced (world w new (w.objects ++ Owner.task (some h) ∷ []) others w.leaked) none d h
            (omega (arith, one_self h, total-append h w.objects (Owner.task (some h) ∷ []))) in
        let (new', m, d') =
          release-IsHeld (world w new (w.objects ++ Owner.task (some h) ∷ []) others w.leaked) h 0 p
            w.objects d k
            (omega (arith, l, one_self h, total-append h w.objects (Owner.task (some h) ∷ [])))
            (λ a. omega (arith, total-append a w.objects (Owner.task (some h) ∷ []))) in
        rw (e, f, m)
          (goes_on (p.awaiter_count == 1) (world w new' w.objects others w.leaked) h w.running r d')
  ]

  pub unhandled_exception-Sound :
      (x : Option E) (w : World E) → IsHeld w none → Sound (unhandled_exception x w)
  unfolding unhandled_exception
  unhandled_exception-Sound x w c = elim (running-cases w.running) [
    | inl e ↦ rw e tt
    | inr (h, others, e, r) ↦
        let (p, f, z) = executing w h others c r in
        let (new, k, d) =
          change-IsHeld w none h p (failed x) c f (count_failed x p) (next_failed x p) in
        rw (e, k) d
  ]
    where
      count_failed : (x : Option E) (p : Promise E) → (failed x p).awaiter_count ≡ p.awaiter_count
      count_failed none p = refl
      count_failed (some e) p = refl

      next_failed : (x : Option E) (p : Promise E) → (failed x p).continuation ≡ p.continuation
      next_failed none p = refl
      next_failed (some e) p = refl

  -- The inner coroutine takes the one that executes as its continuation.
  hooked :
      (w : World E) (h outer : ℕ) (others : List ℕ) (p : Promise E) (sched : Option ℕ)
      → IsHeld w none
      → w.running ≡ outer ∷ others
      → w.frames h ≡ some p
      → p.continuation ≡ none
      → (new : Frames E) × (change h
            (λ r. record r { continuation = some outer; sched = sched; started = true })
            w.frames
          ≡ Outcome.done new)
        × IsHeld (world w new w.objects others w.leaked) none
  unfolding change load
  hooked w h outer others p sched c r e n = (
    write w.frames h (some (record p { continuation = some outer; sched = sched; started = true })),
    rw e refl,
    write-IsHeld w none none h p _ w.objects others w.leaked c e (λ a. refl)
        (λ a. rw (n, r) (ground arith)),
  )

  awaits-Sound :
      (h : Option ℕ) (this outer : ℕ) (others : List ℕ) (w : World E)
      → IsHeld w none
      → w.running ≡ outer ∷ others
      → get_elem? w.objects this ≡ some (Owner.task h)
      → Sound (awaits h this outer others w)
  unfolding load
  awaits-Sound none this outer others w c r g = c
  awaits-Sound (some h) this outer others w c r g =
      let (p, e, l) = task_frame w this h c g in
      let (q, f, z) = executing w outer others c r in
      elim (Option-cases (p.continuation)) [
        | inl n ↦
            let (new, k, d) = hooked w h outer others p q.sched c r e n in
            let (b, new', m, d') = released (world w new w.objects others w.leaked) this h d g in
            rw (e, n, f, k, m)
              (goes_on b (world w new' (set_slot this (Owner.task none) w.objects) others w.leaked)
                h (h ∷ others) refl d')
        | inr (x, n) ↦ rw (e, n) tt
      ]

  pub await_suspend-Sound : (this : ℕ) (w : World E) → IsHeld w none → Sound (await_suspend this w)
  unfolding await_suspend
  await_suspend-Sound this w c = elim (running-cases w.running) [
    | inl e ↦ rw e tt
    | inr (outer, others, e, r) ↦ elim (handle-cases this w) [
      | inl f ↦ rw (e, f) tt
      | inr (h, f, g) ↦ rw (e, f) (awaits-Sound h this outer others w c r g)
    ]
  ]
