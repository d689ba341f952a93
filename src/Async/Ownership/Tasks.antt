-- ===== src/Async/Ownership/Tasks.antt =====
-- The operations of AsyncTask keep what holds the coroutines.
use uni.Prelude.{
  ℕ, ◌≡◌, ◌<◌, refl, sym, ap, ◌∙◌, Bool, true, false, Option, none, some, List, [], ◌∷◌, ◌++◌, ◌==◌,
  get_elem?, arith, ◌⊎◌, inl, inr, Bool-cases, Option-cases,
}
use uni.Prelude.Outcome.{Outcome, ◌>>=◌}
use uni.Async.Ownership.{Promise, Owner, World, set_slot}
use uni.Async.Ownership.Calls.{
  handle, owning_handle, put, move_construct, destroy_if, release_of, destruct, move_assign,
}
use uni.Async.Ownership.Counting.{
  one_self, total, IsHeld, total-set_slot, total-append, total-get_elem?, get-set_slot,
  get-set_slot_apart,
}
use uni.Async.Ownership.Steps.{world}
use uni.Async.Ownership.Chain.{
  referenced, Sound, Keeps, Keeps-Sound, Keeps-bind, destroy_owned-Keeps,
}
use uni.Async.Ownership.References.{orphan, release-IsHeld}

module _ {E : Type 0} where
  pub handle-cases :
      (i : ℕ) (w : World E)
      → (handle i w ≡ Outcome.refused)
        ⊎ ((h : Option ℕ) × (handle i w ≡ Outcome.done h)
            × (get_elem? w.objects i ≡ some (Owner.task h)))
  unfolding handle
  handle-cases i w = elim (Option-cases (get_elem? w.objects i)) [
    | inl e ↦ inl (rw e refl)
    | inr (Owner.task h, e) ↦ inr (h, rw e refl, e)
    | inr (Owner.factory h n, e) ↦ inl (rw e refl)
  ]

  pub owning-cases :
      (i : ℕ) (w : World E)
      → (owning_handle i w ≡ Outcome.refused)
        ⊎ ((h : ℕ) × (owning_handle i w ≡ Outcome.done h)
            × (get_elem? w.objects i ≡ some (Owner.task (some h))))
  unfolding owning_handle
  owning-cases i w = elim (handle-cases i w) [
    | inl e ↦ inl (rw e refl)
    | inr (none, e, g) ↦ inl (rw e refl)
    | inr (some h, e, g) ↦ inr (h, rw e refl, g)
  ]

  pub objects-IsHeld :
      (w : World E) (objects : List Owner)
      → IsHeld w none
      → ((a : ℕ) → total a objects ≡ total a w.objects)
      → IsHeld (world w w.frames objects w.running w.leaked) none
  objects-IsHeld w objects c t = record {
    counted = λ a. c.counted a ∙ sym (t a);
    held = c.held;
    fresh = c.fresh;
  }

  -- The coroutine of a task that is not empty.
  pub task_frame :
      (w : World E) (i h : ℕ)
      → IsHeld w none
      → get_elem? w.objects i ≡ some (Owner.task (some h))
      → (p : Promise E) × (w.frames h ≡ some p) × (0 < p.awaiter_count)
  task_frame w i h c g =
      let l = total-get_elem? h i w.objects (Owner.task (some h)) g in
      let (p, e, t) = referenced w none c h (omega (arith, l, one_self h)) in
      (p, e, omega (arith, t, l, one_self h))

  pub move_construct-Sound : (i : ℕ) (w : World E) → IsHeld w none → Sound (move_construct i w)
  unfolding move_construct
  move_construct-Sound i w c = elim (handle-cases i w) [
    | inl e ↦ rw e tt
    | inr (h, e, g) ↦ rw e (
        objects-IsHeld w (set_slot i (Owner.task none) w.objects ++ Owner.task h ∷ []) c (λ a.
          omega (
            arith,
            total-append a (set_slot i (Owner.task none) w.objects) (Owner.task h ∷ []),
            total-set_slot a i w.objects (Owner.task h) (Owner.task none) g,
          )))
  ]

  destroy_if-Keeps :
      (b : Bool) (h : ℕ) (w : World E) → IsHeld w (orphan b h) → Keeps w.objects (destroy_if b h w)
  destroy_if-Keeps true h w c = destroy_owned-Keeps w h c
  destroy_if-Keeps false h w c = (c, refl)

  release_of-Keeps :
      (w : World E) (i : ℕ) (h : Option ℕ)
      → IsHeld w none
      → get_elem? w.objects i ≡ some (Owner.task h)
      → Keeps (set_slot i (Owner.task none) w.objects) (release_of h (put i (Owner.task none) w))
  release_of-Keeps w i none c g = (
    objects-IsHeld w (set_slot i (Owner.task none) w.objects) c
        (λ a. omega (arith, total-set_slot a i w.objects (Owner.task none) (Owner.task none) g)),
    refl,
  )
  release_of-Keeps w i (some h) c g =
      let (p, e, l) = task_frame w i h c g in
      let objects = set_slot i (Owner.task none) w.objects in
      let (new, f, d) = release-IsHeld w h 0 p objects c e l (λ a.
        omega (arith, total-set_slot a i w.objects (Owner.task (some h)) (Owner.task none) g)) in
      rw f (destroy_if-Keeps (p.awaiter_count == 1) h (world w new objects w.running w.leaked) d)

  pub destruct-Keeps :
      (i : ℕ) (w : World E)
      → IsHeld w none
      → Keeps (set_slot i (Owner.task none) w.objects) (destruct i w)
  unfolding destruct
  destruct-Keeps i w c = elim (handle-cases i w) [
    | inl e ↦ rw e tt
    | inr (h, e, g) ↦ rw e (release_of-Keeps w i h c g)
  ]

  destruct_refused :
      (i : ℕ) (w : World E) → handle i w ≡ Outcome.refused → destruct i w ≡ Outcome.refused
  unfolding destruct
  destruct_refused i w e = rw e refl

  pub destruct-Sound : (i : ℕ) (w : World E) → IsHeld w none → Sound (destruct i w)
  destruct-Sound i w c = Keeps-Sound _ (destruct i w) (destruct-Keeps i w c)

  -- The second half of the assignment, once the left task is empty.
  assigned-Sound :
      (i j : ℕ) (w : World E)
      → IsHeld w none
      → (i == j) ≡ false
      → get_elem? w.objects i ≡ some (Owner.task none)
      → Sound (handle j w >>= λ h. Outcome.done (put i (Owner.task h) (put j (Owner.task none) w)))
  assigned-Sound i j w c q g = elim (handle-cases j w) [
    | inl f ↦ rw f tt
    | inr (h, f, k) ↦ rw f (
        objects-IsHeld w (set_slot i (Owner.task h) (set_slot j (Owner.task none) w.objects)) c
          (λ a. omega (
            arith,
            total-set_slot a j w.objects (Owner.task h) (Owner.task none) k,
            total-set_slot a i (set_slot j (Owner.task none) w.objects) (Owner.task none)
                (Owner.task h) (get-set_slot_apart i j w.objects (Owner.task none) q ∙ g),
          )))
  ]

  pub move_assign-Sound : (i j : ℕ) (w : World E) → IsHeld w none → Sound (move_assign i j w)
  unfolding move_assign
  move_assign-Sound i j w c = elim (Bool-cases (i == j)) [
    | inl q ↦ rw q c
    | inr q ↦ rw q (elim (handle-cases i w) [
      | inl e ↦ rw (destruct_refused i w e) tt
      | inr (h, e, g) ↦
          Keeps-bind (set_slot i (Owner.task none) w.objects) (destruct i w) _
            (destruct-Keeps i w c)
            (λ w' d r. assigned-Sound i j w' d q (
              ap (λ os. get_elem? os i) r
              ∙ get-set_slot i w.objects (Owner.task h) (Owner.task none) g))
    ])
  ]
