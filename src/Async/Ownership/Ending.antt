-- ===== src/Async/Ownership/Ending.antt =====
-- The end of a coroutine keeps what holds the others.
use uni.Prelude.{
  ℕ, ◌≡◌, refl, Bool, true, false, Option, none, some, List, ◌∷◌, ==_iff, arith, inl, inr,
}
use uni.Prelude.Outcome.{Outcome}
use uni.Async.Ownership.{Promise, Frames, World, write, with_frames, load, destroy_and_track}
use uni.Async.Ownership.Calls.{change, with_exception}
use uni.Async.Ownership.Suspend.{continue_with, final_suspend}
use uni.Async.Ownership.Counting.{one_self, IsHeld}
use uni.Async.Ownership.Steps.{world, write-IsHeld}
use uni.Async.Ownership.Chain.{unreferenced, Sound, destroy_all-Keeps, Keeps-Sound}
use uni.Async.Ownership.References.{executing, change-IsHeld}
use uni.Async.Ownership.Resuming.{executes-IsHeld}
use uni.Async.Ownership.Coroutines.{running-cases}

module _ {E : Type 0} where
  abbrev unhooked : Promise E → Promise E
  unhooked p = record p { continuation = none }

  continue_with-Sound :
      (b : Bool) (x : Option E) (o : Option ℕ) (w : World E)
      → IsHeld w o
      → Sound (continue_with b x o w)
  continue_with-Sound true x o w c = Keeps-Sound _ _ (destroy_all-Keeps w o c)
  continue_with-Sound false x none w c = c
  continue_with-Sound false none (some k) w c = executes-IsHeld w (some k) c
  continue_with-Sound false (some x) (some k) w c =
      let (p, e, z) = unreferenced w (some k) c k (omega (arith, one_self k)) in
      let (new, f, d) = change-IsHeld w (some k) k p (with_exception x) c e refl refl in
      rw f (executes-IsHeld (with_frames w new) (some k) d)

  -- The frame goes without its continuation, which stays in hand.
  ended :
      (w : World E) (h : ℕ) (others : List ℕ) (p : Promise E)
      → IsHeld w none
      → w.running ≡ h ∷ others
      → w.frames h ≡ some p
      → p.awaiter_count ≡ 0
      → (mid new : Frames E) × (change h unhooked w.frames ≡ Outcome.done mid)
        × (destroy_and_track h mid ≡ Outcome.done new)
        × IsHeld (world w new w.objects others w.leaked) p.continuation
  unfolding change load destroy_and_track write
  ended w h others p c r e z = (
    mid,
    write mid h none,
    rw e refl,
    rw there refl,
    write-IsHeld (world w mid w.objects w.running w.leaked) p.continuation p.continuation h
        (unhooked p) none w.objects others w.leaked unhook there (λ a. rw z (ground arith))
        (λ a. rw (z, r) (ground arith)),
  )
    where
      mid : Frames E
      mid = write w.frames h (some (unhooked p))

      there : mid h ≡ some (unhooked p)
      there = rw ((==_iff h h).1 refl) refl

      unhook : IsHeld (world w mid w.objects w.running w.leaked) p.continuation
      unhook =
          write-IsHeld w none p.continuation h p (some (unhooked p)) w.objects w.running w.leaked c
            e (λ a. refl) (λ a. rw z (ground arith))

  pub final_suspend-Sound : (w : World E) → IsHeld w none → Sound (final_suspend w)
  unfolding final_suspend load
  final_suspend-Sound w c = elim (running-cases w.running) [
    | inl e ↦ rw e tt
    | inr (h, others, e, r) ↦
        let (p, f, z) = executing w h others c r in
        let (mid, new, k, m, d) = ended w h others p c r f z in
        rw (e, k, f, m)
          (continue_with-Sound p.cancel_on_resume p.exception p.continuation
            (world w new w.objects others w.leaked) d)
  ]
