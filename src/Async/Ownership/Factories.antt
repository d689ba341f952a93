-- ===== src/Async/Ownership/Factories.antt =====
-- The operations of AsyncTaskFactory keep what holds the coroutines.
use uni.Prelude.{
  ℕ, zero, suc, ◌+◌, ◌≡◌, refl, Bool, true, false, Option, none, some, List, [], ◌∷◌, ◌++◌,
  if◌then◌else◌, ◌==◌, get_elem?, arith, ◌⊎◌, inl, inr, Option-cases,
}
use uni.Prelude.Outcome.{Outcome, ◌>>=◌, or_refused}
use uni.Async.Ownership.{
  Promise, Frames, Owner, World, write, set_slot, with_frames, load, destroy_and_track,
}
use uni.Async.Ownership.Calls.{is_factory}
use uni.Async.Ownership.Suspend.{
  new_factory, suspend_factory_awaitable, hand_out, take_next, move_factory,
}
use uni.Async.Ownership.Counting.{
  one, one_self, total, weight, IsHeld, total-set_slot, total-append,
}
use uni.Async.Ownership.Steps.{world}
use uni.Async.Ownership.Chain.{unreferenced, Sound, destroy-IsHeld}
use uni.Async.Ownership.References.{orphan, suspend-IsHeld}
use uni.Async.Ownership.Tasks.{objects-IsHeld}
use uni.Async.Ownership.Coroutines.{running-cases}

pub no_gain : (b : Bool) → ◌≡◌ {A = ℕ} (if b then 0 else 0) 0
no_gain true = refl
no_gain false = refl

not_zero : (n : ℕ) → (suc n == 0) ≡ false
not_zero n = ground arith

module _ {E : Type 0} where
  track_done :
      (frames : Frames E) (h : ℕ) (p : Promise E)
      → frames h ≡ some p
      → p.continuation ≡ none
      → destroy_and_track h frames ≡ Outcome.done (write frames h none)
  unfolding destroy_and_track load
  track_done frames h p e n = rw e (rw n refl)

  track_refused :
      (frames : Frames E) (h c : ℕ) (p : Promise E)
      → frames h ≡ some p
      → p.continuation ≡ some c
      → destroy_and_track h frames ≡ Outcome.refused
  unfolding destroy_and_track load
  track_refused frames h c p e n = rw e (rw n refl)

  pub track-cases :
      (w : World E) (h : ℕ)
      → IsHeld w (some h)
      → (destroy_and_track h w.frames ≡ Outcome.refused)
        ⊎ ((new : Frames E) × (destroy_and_track h w.frames ≡ Outcome.done new)
            × IsHeld (with_frames w new) none)
  track-cases w h c =
      let (p, e, z) = unreferenced w (some h) c h (omega (arith, one_self h)) in
      elim (Option-cases (p.continuation)) [
        | inl n ↦
            inr (
              write w.frames h none,
              track_done w.frames h p e n,
              rw n at (destroy-IsHeld w h p c e),
            )
        | inr (k, n) ↦ inl (track_refused w.frames h k p e n)
      ]

  new_factory-Sound :
      (n h : ℕ) (others : List ℕ) (w : World E) (frames : Frames E)
      → ((objects : List Owner)
          → ((a : ℕ) → total a objects ≡ total a w.objects + (if a == h then n else 0))
          → IsHeld (world w frames objects others w.leaked) (orphan (n == 0) h))
      → Sound (new_factory n h others (with_frames w frames))
  new_factory-Sound zero h others w frames c =
      elim (track-cases (world w frames (w.objects ++ Owner.factory none 0 ∷ []) others w.leaked) h
        (c (w.objects ++ Owner.factory none 0 ∷ []) (λ a.
          omega (arith, no_gain (a == h), total-append a w.objects (Owner.factory none 0 ∷ []))))) [
            | inl e ↦ rw e tt
            | inr (new, e, d) ↦ rw e d
          ]
  new_factory-Sound (suc n) h others w frames c = rw (not_zero n) at (
      c (w.objects ++ Owner.factory (some h) (suc n) ∷ [])
        (λ a. omega (arith, total-append a w.objects (Owner.factory (some h) (suc n) ∷ []))))

  pub suspend_factory_awaitable-Sound :
      (n : ℕ) (w : World E) → IsHeld w none → Sound (suspend_factory_awaitable n w)
  unfolding suspend_factory_awaitable
  suspend_factory_awaitable-Sound n w c = elim (running-cases w.running) [
    | inl e ↦ rw e tt
    | inr (h, others, e, r) ↦
        let (new, f, held_by) = suspend-IsHeld w h n others c r in
        rw (e, f) (new_factory-Sound n h others w new held_by)
  ]

  hand_out-Sound :
      (this n : ℕ) (h : Option ℕ) (w : World E)
      → IsHeld w none
      → get_elem? w.objects this ≡ some (Owner.factory h n)
      → Sound (hand_out this h n w)
  hand_out-Sound this zero h w c g = tt
  hand_out-Sound this (suc n) h w c g =
      objects-IsHeld w (set_slot this (Owner.factory h n) w.objects ++ Owner.task h ∷ []) c (λ a.
        omega (
          arith,
          one_less a h n,
          total-append a (set_slot this (Owner.factory h n) w.objects) (Owner.task h ∷ []),
          total-set_slot a this w.objects (Owner.factory h (suc n)) (Owner.factory h n) g,
        ))
    where
      one_less :
          (a : ℕ) (h : Option ℕ) (n : ℕ)
          → weight a (Owner.factory h (suc n)) ≡ weight a (Owner.factory h n) + one a h
      one_less a none n = refl
      one_less a (some k) n = ground arith

  -- Calls on a factory.
  pub on_factory :
      (P : Outcome (World E) → Type 0) (this : ℕ) (w : World E)
      (f : Option ℕ × ℕ → Outcome (World E))
      → P Outcome.refused
      → ((h : Option ℕ) (n : ℕ)
          → get_elem? w.objects this ≡ some (Owner.factory h n)
          → P (f (h, n)))
      → P (do owner ← or_refused (get_elem? w.objects this); p ← is_factory owner; f p)
  on_factory P this w f r s = elim (Option-cases (get_elem? w.objects this)) [
    | inl e ↦ rw e r
    | inr (Owner.task h, e) ↦ rw e r
    | inr (Owner.factory h n, e) ↦ rw e (s h n e)
  ]

  pub take_next-Sound : (this : ℕ) (w : World E) → IsHeld w none → Sound (take_next this w)
  unfolding take_next
  take_next-Sound this w c = on_factory Sound this w _ tt (λ h n g. hand_out-Sound this n h w c g)

  pub move_factory-Sound : (other : ℕ) (w : World E) → IsHeld w none → Sound (move_factory other w)
  unfolding move_factory
  move_factory-Sound other w c = on_factory Sound other w _ tt (λ h n g.
      objects-IsHeld w (set_slot other (Owner.factory none 0) w.objects ++ Owner.factory h n ∷ []) c
        (λ a. omega (
          arith,
          total-append a (set_slot other (Owner.factory none 0) w.objects) (Owner.factory h n ∷ []),
          total-set_slot a other w.objects (Owner.factory h n) (Owner.factory none 0) g,
        )))
