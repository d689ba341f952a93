-- ===== src/Async/Ownership/Starting.antt =====
-- A new coroutine keeps what holds the others.
use uni.Prelude.{
  ℕ, suc, ◌+◌, ◌≡◌, ◌≤◌, refl, sym, ap, ◌∙◌, none, some, List, [], ◌∷◌, ◌++◌, ◌==◌, ==_iff, arith,
  inl, inr, Bool-cases,
}
use uni.Async.Ownership.{Frames, Owner, World, write}
use uni.Async.Ownership.Calls.{new_promise, get_return_object}
use uni.Async.Ownership.Counting.{
  next_of, one, count, total, owned, refs, live, waiting, IsHeld, total-append, sum-write_above,
}
use uni.Async.Ownership.Chain.{Sound}

module _ {E : Type 0} where
  new_waiting :
      (a n : ℕ) (f : Frames E) → waiting a (write f n (some new_promise)) (suc n) ≡ waiting a f n
  unfolding write
  new_waiting a n f = rw ((==_iff n n).1 refl) (
      omega
        (arith, sum-write_above (λ p. one a (next_of p)) f n n (some new_promise) (omega arith)))

  new_held :
      (a n rest : ℕ) (f : Frames E)
      → f n ≡ none
      → live (f a) ≡ owned (refs (f a)) + rest
      → live (write f n (some new_promise) a) ≡ owned (refs (write f n (some new_promise) a)) + rest
  unfolding write
  new_held a n rest f e h = elim (Bool-cases (a == n)) [
    | inl q ↦ rw q (omega (arith, rw ((==_iff a n).0 q, e) at h))
    | inr q ↦ rw q h
  ]

  new_counted :
      (a n : ℕ) (f : Frames E) (objects : List Owner)
      → f n ≡ none
      → refs (f a) ≡ total a objects
      → refs (write f n (some new_promise) a) ≡ total a (objects ++ Owner.task (some n) ∷ [])
  unfolding write
  new_counted a n f objects e h = elim (Bool-cases (a == n)) [
    | inl q ↦ rw q (
        sym (
          total-append a objects (Owner.task (some n) ∷ [])
          ∙ rw q (omega (arith, h, ap refs (ap f ((==_iff a n).0 q) ∙ e)))))
    | inr q ↦
        rw q (h ∙ sym (total-append a objects (Owner.task (some n) ∷ []) ∙ rw q (omega arith)))
  ]

  -- A new coroutine stands at the next address.
  pub get_return_object-Sound : (w : World E) → IsHeld w none → Sound (get_return_object w)
  unfolding get_return_object
  get_return_object-Sound w c = record {
    counted =
        λ a. new_counted a w.next w.frames w.objects (c.fresh w.next (omega arith)) (c.counted a);
    held = λ a. omega (
      arith,
      c.held a,
      new_waiting a w.next w.frames,
      new_held a w.next (count a w.running + count a w.leaked + waiting a w.frames w.next) w.frames
          (c.fresh w.next (omega arith)) (omega (arith, c.held a)),
    );
    fresh = λ a l. later a l (c.fresh a (omega arith));
  }
    where
      later :
          (a : ℕ)
          → suc w.next ≤ a
          → w.frames a ≡ none
          → write w.frames w.next (some new_promise) a ≡ none
      later a l e =
          unfold write in elim (Bool-cases (a == w.next)) [ inl q ↦ ground arith | inr q ↦ rw q e ]
