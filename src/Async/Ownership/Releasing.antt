-- ===== src/Async/Ownership/Releasing.antt =====
-- The release of the references of an AsyncTaskFactory, and its move assignment.
use uni.Prelude.{
  ℕ, zero, suc, ◌≡◌, refl, ap, ◌∙◌, Bool, true, false, Option, none, some, ◌==◌, ==_iff, get_elem?,
  arith, ◌⊎◌, inl, inr, Bool-cases, Option-cases,
}
use uni.Prelude.Outcome.{Outcome, ◌>>=◌, or_refused}
use uni.Async.Ownership.{Owner, World, set_slot, with_frames}
use uni.Async.Ownership.Calls.{is_factory, put}
use uni.Async.Ownership.Suspend.{assign_factory, track_if, release_references, release_outstanding}
use uni.Async.Ownership.Counting.{
  weight, IsHeld, get-set_slot, get-set_slot_apart, total-set_slot, total-get_elem?,
}
use uni.Async.Ownership.Steps.{world}
use uni.Async.Ownership.Chain.{referenced, Keeps, Keeps-Sound, Keeps-bind, Sound}
use uni.Async.Ownership.References.{orphan, release-IsHeld}
use uni.Async.Ownership.Tasks.{objects-IsHeld}
use uni.Async.Ownership.Factories.{no_gain, track-cases, on_factory}

module _ {E : Type 0} where
  tracked-Keeps :
      (b : Bool) (h : ℕ) (w : World E)
      → IsHeld w (orphan b h)
      → Keeps w.objects (do frames ← track_if b h w.frames; Outcome.done (with_frames w frames))
  tracked-Keeps false h w c = (c, refl)
  tracked-Keeps true h w c = elim (track-cases w h c) [
    | inl e ↦ rw e tt
    | inr (new, e, d) ↦ rw e (d, refl)
  ]

  release_references-Keeps :
      (this n : ℕ) (h : Option ℕ) (w : World E)
      → IsHeld w none
      → get_elem? w.objects this ≡ some (Owner.factory h n)
      → Keeps (set_slot this (Owner.factory none 0) w.objects) (do
        frames ← release_references h n w.frames
        Outcome.done (record w {
          frames = frames;
          objects = set_slot this (Owner.factory none 0) w.objects;
        }))
  release_references-Keeps this n none w c g = (
    objects-IsHeld w (set_slot this (Owner.factory none 0) w.objects) c (λ a.
        omega
          (arith, total-set_slot a this w.objects (Owner.factory none n) (Owner.factory none 0) g)),
    refl,
  )
  release_references-Keeps this zero (some h) w c g = (
    objects-IsHeld w (set_slot this (Owner.factory none 0) w.objects) c (λ a. omega (
      arith,
      no_gain (a == h),
      total-set_slot a this w.objects (Owner.factory (some h) 0) (Owner.factory none 0) g,
    )),
    refl,
  )
  release_references-Keeps this (suc n) (some h) w c g =
      let l = total-get_elem? h this w.objects (Owner.factory (some h) (suc n)) g in
      let (p, e, t) = referenced w none c h (omega (arith, l, self h)) in
      let (new, f, d) =
        release-IsHeld w h n p (set_slot this (Owner.factory none 0) w.objects) c e
          (omega (arith, l, t, self h))
          (λ a. omega (
            arith,
            total-set_slot a this w.objects (Owner.factory (some h) (suc n)) (Owner.factory none 0)
                g,
          )) in
      rw f (
        tracked-Keeps (p.awaiter_count == suc n) h
          (world w new (set_slot this (Owner.factory none 0) w.objects) w.running w.leaked) d)
    where
      self : (h : ℕ) → weight h (Owner.factory (some h) (suc n)) ≡ suc n
      self h = rw ((==_iff h h).1 refl) refl

  release_outstanding-Keeps :
      (this : ℕ) (w : World E)
      → IsHeld w none
      → Keeps (set_slot this (Owner.factory none 0) w.objects) (release_outstanding this w)
  unfolding release_outstanding
  release_outstanding-Keeps this w c =
      on_factory (Keeps (set_slot this (Owner.factory none 0) w.objects)) this w _ tt
        (λ h n g. release_references-Keeps this n h w c g)

  pub release_outstanding-Sound :
      (this : ℕ) (w : World E) → IsHeld w none → Sound (release_outstanding this w)
  release_outstanding-Sound this w c = Keeps-Sound _ _ (release_outstanding-Keeps this w c)

  -- The second half of the assignment, once the left factory is empty.
  given-Sound :
      (i j : ℕ) (w : World E)
      → IsHeld w none
      → (i == j) ≡ false
      → get_elem? w.objects i ≡ some (Owner.factory none 0)
      → Sound (do
        owner ← or_refused (get_elem? w.objects j)
        (h, n) ← is_factory owner
        Outcome.done (put i (Owner.factory h n) (put j (Owner.factory none 0) w)))
  given-Sound i j w c q g = on_factory Sound j w _ tt (λ h n k.
      objects-IsHeld w
        (set_slot i (Owner.factory h n) (set_slot j (Owner.factory none 0) w.objects)) c
        (λ a. omega (
          arith,
          total-set_slot a j w.objects (Owner.factory h n) (Owner.factory none 0) k,
          total-set_slot a i (set_slot j (Owner.factory none 0) w.objects) (Owner.factory none 0)
              (Owner.factory h n) (get-set_slot_apart i j w.objects (Owner.factory none 0) q ∙ g),
        )))

  release_refused :
      (i : ℕ) (w : World E)
      → (release_outstanding i w ≡ Outcome.refused)
        ⊎ ((h : Option ℕ) × (n : ℕ) × (get_elem? w.objects i ≡ some (Owner.factory h n)))
  unfolding release_outstanding
  release_refused i w = elim (Option-cases (get_elem? w.objects i)) [
    | inl e ↦ inl (rw e refl)
    | inr (Owner.task h, e) ↦ inl (rw e refl)
    | inr (Owner.factory h n, e) ↦ inr (h, n, e)
  ]

  pub assign_factory-Sound : (i j : ℕ) (w : World E) → IsHeld w none → Sound (assign_factory i j w)
  unfolding assign_factory
  assign_factory-Sound i j w c = elim (Bool-cases (i == j)) [
    | inl q ↦ rw q c
    | inr q ↦ rw q (elim (release_refused i w) [
      | inl e ↦ rw e tt
      | inr (h, n, g) ↦
          Keeps-bind (set_slot i (Owner.factory none 0) w.objects) (release_outstanding i w) _
            (release_outstanding-Keeps i w c)
            (λ w' d r. given-Sound i j w' d q (
              ap (λ os. get_elem? os i) r
              ∙ get-set_slot i w.objects (Owner.factory h n) (Owner.factory none 0) g))
    ])
  ]
