-- ===== src/Async/Ownership/Chain.antt =====
-- The loop that destroys a coroutine and its continuations, and the frames that holders keep alive.
use uni.Prelude.{
  ℕ, zero, suc, ◌+◌, ◌≡◌, ◌≤◌, ◌<◌, refl, ap, Option, none, some, List, arith, inl, inr, Bool-cases,
  Option-cases,
}
use uni.Prelude.Outcome.{Outcome, ◌>>=◌}
use uni.Async.Ownership.{
  Promise, Frames, Owner, World, write, with_frames, load, destroy_with_continuation, destroy_chain,
  destroy_all, destroy_owned_coroutine,
}
use uni.Async.Ownership.Counting.{
  one, one_self, count, total, owned, refs, live, waiting, sum_frames, sum-write, IsHeld, live_of,
  live_bound, below_next,
}
use uni.Async.Ownership.Steps.{write-IsHeld}

owned_zero : (n : ℕ) → owned n ≡ 0 → n ≡ 0
owned_zero zero e = refl
owned_zero (suc n) e = ground arith

pub owned_positive : (n : ℕ) → 0 < n → owned n ≡ 1
owned_positive zero e = ground arith
owned_positive (suc n) e = refl

no_fuel : (n : ℕ) {m : ℕ} {X : Type 0} → n + 1 ≡ m + 0 → m ≤ 0 → X
no_fuel n e l = ground arith

module _ {E : Type 0} where
  -- A coroutine with a reference is there.
  pub referenced :
      (w : World E) (o : Option ℕ)
      → IsHeld w o
      → (h : ℕ) → 0 < total h w.objects
      → (p : Promise E) × (w.frames h ≡ some p) × (p.awaiter_count ≡ total h w.objects)
  referenced w o c h l = elim (Option-cases (w.frames h)) [
    | inl e ↦ no (rw e at (c.counted h)) l
    | inr (p, e) ↦ (p, e, rw e at (c.counted h))
  ]
    where
      no : {n : ℕ} {X : Type 0} → 0 ≡ n → 0 < n → X
      no p q = ground arith

  -- A coroutine that is held in another way is there, without a reference.
  pub unreferenced :
      (w : World E) (o : Option ℕ)
      → IsHeld w o
      → (h : ℕ) → 0 < count h w.running + count h w.leaked + waiting h w.frames w.next + one h o
      → (p : Promise E) × (w.frames h ≡ some p) × (p.awaiter_count ≡ 0)
  unreferenced w o c h l =
      let (p, e) = live_of (w.frames h) (omega (arith, c.held h)) in
      (p, e, owned_zero p.awaiter_count (omega (arith, rw e at (c.held h))))

  pub orphan_unreferenced :
      (w : World E) (h : ℕ) (p : Promise E)
      → IsHeld w (some h)
      → w.frames h ≡ some p
      → p.awaiter_count ≡ 0
  orphan_unreferenced w h p c e =
      owned_zero p.awaiter_count
        (omega (arith, one_self h, live_bound (w.frames h), ap (λ x. owned (refs x)) e, c.held h))

  pub destroy-IsHeld :
      (w : World E) (h : ℕ) (p : Promise E)
      → IsHeld w (some h)
      → w.frames h ≡ some p
      → IsHeld (with_frames w (write w.frames h none)) p.continuation
  destroy-IsHeld w h p c e =
      let zp = orphan_unreferenced w h p c e in
      write-IsHeld w (some h) p.continuation h p none w.objects w.running w.leaked c e
        (λ a. rw zp (ground arith)) (λ a. rw zp (ground arith))

  live_count_bound : (f : Frames E) (n : ℕ) → sum_frames live f n ≤ n
  live_count_bound f zero = omega arith
  live_count_bound f (suc n) = omega (arith, live_count_bound f n, live_bound (f n))

  chain-IsHeld :
      (fuel : ℕ) (o : Option ℕ) (w : World E)
      → IsHeld w o
      → sum_frames live w.frames w.next ≤ fuel
      → (new : Frames E) × (destroy_chain fuel o w.frames ≡ Outcome.done new)
        × IsHeld (with_frames w new) none
  unfolding destroy_chain destroy_with_continuation load
  chain-IsHeld fuel none w c l = (w.frames, refl, c)
  chain-IsHeld zero (some h) w c l =
      let (p, e, z) = unreferenced w (some h) c h (omega (arith, one_self h)) in
      no_fuel _ (sum-write live w.frames h w.next (some p) none (below_next w (some h) c h p e) e) l
  chain-IsHeld (suc fuel) (some h) w c l =
      let (p, e, z) = unreferenced w (some h) c h (omega (arith, one_self h)) in
      let (new, f, d) =
        chain-IsHeld fuel p.continuation (with_frames w (write w.frames h none))
          (destroy-IsHeld w h p c e)
          (omega (
            arith,
            sum-write live w.frames h w.next (some p) none (below_next w (some h) c h p e) e,
          )) in
      (new, rw e f, d)

  pub destroy_all-IsHeld :
      (w : World E) (o : Option ℕ)
      → IsHeld w o
      → (new : Frames E) × (destroy_all o w ≡ Outcome.done (with_frames w new))
        × IsHeld (with_frames w new) none
  unfolding destroy_all
  destroy_all-IsHeld w o c =
      let (new, e, d) = chain-IsHeld w.next o w c (live_count_bound w.frames w.next) in
      (new, rw e refl, d)

  -- The outcome is no fault, and a state reached is as it must be.
  abbrev pub Sound : Outcome (World E) → Type 0
  Sound (Outcome.done w) = IsHeld w none
  Sound Outcome.refused = Unit
  Sound Outcome.fault = ⊥

  -- The same, and the objects of the state reached are `objects`.
  abbrev pub Keeps : List Owner → Outcome (World E) → Type 0
  Keeps objects (Outcome.done w) = IsHeld w none × (w.objects ≡ objects)
  Keeps objects Outcome.refused = Unit
  Keeps objects Outcome.fault = ⊥

  pub Keeps-Sound : (objects : List Owner) (m : Outcome (World E)) → Keeps objects m → Sound m
  Keeps-Sound objects (Outcome.done w) k = k.0
  Keeps-Sound objects Outcome.refused k = tt
  Keeps-Sound objects Outcome.fault k = k

  pub Keeps-bind :
      (objects : List Owner) (m : Outcome (World E)) (f : World E → Outcome (World E))
      → Keeps objects m
      → ((w : World E) → IsHeld w none → w.objects ≡ objects → Sound (f w))
      → Sound (m >>= f)
  Keeps-bind objects (Outcome.done w) f k g = g w k.0 k.1
  Keeps-bind objects Outcome.refused f k g = tt
  Keeps-bind objects Outcome.fault f k g = k

  pub destroy_all-Keeps :
      (w : World E) (o : Option ℕ) → IsHeld w o → Keeps w.objects (destroy_all o w)
  destroy_all-Keeps w o c = let (new, e, d) = destroy_all-IsHeld w o c in rw e (d, refl)

  pub destroy_owned-Keeps :
      (w : World E) (h : ℕ) → IsHeld w (some h) → Keeps w.objects (destroy_owned_coroutine h w)
  unfolding destroy_owned_coroutine load
  destroy_owned-Keeps w h c =
      let (p, e, z) = unreferenced w (some h) c h (omega (arith, one_self h)) in
      rw e (elim (Bool-cases (p.cancel_on_resume)) [
        | inl q ↦ rw q (destroy_all-Keeps w (some h) c)
        | inr q ↦ rw q tt
      ])
