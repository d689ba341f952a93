-- ===== src/Async/Ownership/References.antt =====
-- Steps on the references of a coroutine, and on what else a promise records.
use uni.Prelude.{
  ℕ, suc, ◌+◌, ◌-◌, ◌≡◌, ◌<◌, refl, ap, Bool, true, false, Option, none, some, List, ◌∷◌,
  if◌then◌else◌, ◌==◌, ltb, ==_iff, arith, inl, inr, Bool-cases,
}
use uni.Prelude.Outcome.{Outcome}
use uni.Async.Ownership.{
  Promise, Frames, Owner, World, write, with_frames, load, add_awaiter, release_awaiter,
}
use uni.Async.Ownership.Calls.{change}
use uni.Async.Ownership.Counting.{one_self, total, owned, IsHeld}
use uni.Async.Ownership.Steps.{world, write-IsHeld}
use uni.Async.Ownership.Chain.{unreferenced, owned_positive}

-- The coroutine that lost its last reference.
abbrev pub orphan : Bool → ℕ → Option ℕ
orphan true h = some h
orphan false h = none

gains :
    (b : Bool) (x y n : ℕ)
    → x ≡ y + (if b then n else 0)
    → x + (if b then 0 else 0) ≡ y + (if b then 0 + n else 0)
gains true x y n t = omega arith
gains false x y n t = omega arith

module _ {E : Type 0} where
  abbrev pub counting : Promise E → ℕ → Promise E
  counting p n = record p { awaiter_count = n }

  release_write-IsHeld :
      (w : World E) (h n : ℕ) (p : Promise E) (objects : List Owner)
      → IsHeld w none
      → w.frames h ≡ some p
      → n < p.awaiter_count
      → ((a : ℕ) → total a objects + (if a == h then suc n else 0) ≡ total a w.objects)
      → IsHeld
          (world w
            (write w.frames h (some (counting p (p.awaiter_count - suc n))))
            objects
            w.running
            w.leaked)
          (orphan (p.awaiter_count == suc n) h)
  release_write-IsHeld w h n p objects c e l t =
      write-IsHeld w none (orphan (p.awaiter_count == suc n) h) h p _ objects w.running w.leaked c e
        (λ a. counts (a == h) _ _ (t a))
        (λ a. elim (Bool-cases (p.awaiter_count == suc n)) [
          | inl q ↦
              rw
                (
                  q,
                  owned_positive p.awaiter_count (ground arith),
                  ap owned (zero_left p.awaiter_count ((==_iff p.awaiter_count (suc n)).0 q)),
                )
                (ground arith)
          | inr q ↦
              rw
                (
                  q,
                  owned_positive p.awaiter_count (ground arith),
                  owned_positive (p.awaiter_count - suc n) (ground arith),
                )
                (ground arith)
        ])
    where
      counts :
          (b : Bool) (x y : ℕ)
          → x + (if b then suc n else 0) ≡ y
          → x + (if b then p.awaiter_count else 0) ≡ y + (if b then p.awaiter_count - suc n else 0)
      counts true x y t = omega arith
      counts false x y t = omega arith

      zero_left : (k : ℕ) → k ≡ suc n → k - suc n ≡ 0
      zero_left k q = omega arith

  pub release-IsHeld :
      (w : World E) (h n : ℕ) (p : Promise E) (objects : List Owner)
      → IsHeld w none
      → w.frames h ≡ some p
      → n < p.awaiter_count
      → ((a : ℕ) → total a objects + (if a == h then suc n else 0) ≡ total a w.objects)
      → (new : Frames E) × (release_awaiter (suc n) h w.frames
          ≡ Outcome.done (p.awaiter_count == suc n, new))
        × IsHeld (world w new objects w.running w.leaked) (orphan (p.awaiter_count == suc n) h)
  unfolding release_awaiter load
  release-IsHeld w h n p objects c e l t = (
    write w.frames h (some (counting p (p.awaiter_count - suc n))),
    rw (e, enough p.awaiter_count l) refl,
    release_write-IsHeld w h n p objects c e l t,
  )
    where
      enough : (k : ℕ) → n < k → ltb k (suc n) ≡ false
      enough k l = ground arith

  pub change-IsHeld :
      (w : World E) (o : Option ℕ) (h : ℕ) (p : Promise E) (f : Promise E → Promise E)
      → IsHeld w o
      → w.frames h ≡ some p
      → (f p).awaiter_count ≡ p.awaiter_count
      → (f p).continuation ≡ p.continuation
      → (new : Frames E) × (change h f w.frames ≡ Outcome.done new) × IsHeld (with_frames w new) o
  unfolding change load
  change-IsHeld w o h p f c e i j = (
    write w.frames h (some (f p)),
    rw e refl,
    write-IsHeld w o o h p (some (f p)) w.objects w.running w.leaked c e (λ a. rw i refl)
        (λ a. rw (i, j) refl),
  )

  -- The coroutine that executes is there, without a reference.
  pub executing :
      (w : World E) (h : ℕ) (others : List ℕ)
      → IsHeld w none
      → w.running ≡ h ∷ others
      → (p : Promise E) × (w.frames h ≡ some p) × (p.awaiter_count ≡ 0)
  executing w h others c r = unreferenced w none c h (rw r (omega (arith, one_self h)))

  suspend_write-IsHeld :
      (w : World E) (h n : ℕ) (others : List ℕ) (objects : List Owner) (p : Promise E)
      → IsHeld w none
      → w.running ≡ h ∷ others
      → w.frames h ≡ some p
      → p.awaiter_count ≡ 0
      → ((a : ℕ) → total a objects ≡ total a w.objects + (if a == h then n else 0))
      → IsHeld
          (world w
            (write w.frames h (some (counting p (p.awaiter_count + n))))
            objects
            others
            w.leaked)
          (orphan (n == 0) h)
  suspend_write-IsHeld w h n others objects p c r e z t =
      write-IsHeld w none (orphan (n == 0) h) h p _ objects others w.leaked c e
        (λ a. rw z (gains (a == h) _ _ _ (t a)))
        (λ a.
          rw (z, r)
            (elim (Bool-cases (n == 0)) [
              | inl q ↦ rw (q, (==_iff n 0).0 q) (ground arith)
              | inr q ↦ rw (q, owned_positive (0 + n) (ground arith)) (ground arith)
            ]))

  -- A coroutine that executes gets its first references, whoever holds them, and stops.
  pub suspend-IsHeld :
      (w : World E) (h n : ℕ) (others : List ℕ)
      → IsHeld w none
      → w.running ≡ h ∷ others
      → (new : Frames E) × (add_awaiter n h w.frames ≡ Outcome.done (0, new))
        × ((objects : List Owner)
            → ((a : ℕ) → total a objects ≡ total a w.objects + (if a == h then n else 0))
            → IsHeld (world w new objects others w.leaked) (orphan (n == 0) h))
  unfolding add_awaiter load
  suspend-IsHeld w h n others c r =
      let (p, e, z) = executing w h others c r in
      (
        write w.frames h (some (counting p (p.awaiter_count + n))),
        rw e (
            ap (λ k. Outcome.done (k, write w.frames h (some (counting p (p.awaiter_count + n)))))
              z),
        λ objects t. suspend_write-IsHeld w h n others objects p c r e z t,
      )

  -- The coroutine in the hand of a loop gets a reference.
  pub adopt-IsHeld :
      (w : World E) (h : ℕ) (objects : List Owner)
      → IsHeld w (some h)
      → ((a : ℕ) → total a objects ≡ total a w.objects + (if a == h then 1 else 0))
      → (new : Frames E) × (add_awaiter 1 h w.frames ≡ Outcome.done (0, new))
        × IsHeld (world w new objects w.running w.leaked) none
  unfolding add_awaiter load
  adopt-IsHeld w h objects c t =
      let (p, e, z) = unreferenced w (some h) c h (omega (arith, one_self h)) in
      (
        write w.frames h (some (counting p (p.awaiter_count + 1))),
        rw e (
            ap (λ k. Outcome.done (k, write w.frames h (some (counting p (p.awaiter_count + 1)))))
              z),
        adopted w h objects p c e z t,
      )
    where
      adopted :
          (w : World E) (h : ℕ) (objects : List Owner) (p : Promise E)
          → IsHeld w (some h)
          → w.frames h ≡ some p
          → p.awaiter_count ≡ 0
          → ((a : ℕ) → total a objects ≡ total a w.objects + (if a == h then 1 else 0))
          → IsHeld
              (world w
                (write w.frames h (some (counting p (p.awaiter_count + 1))))
                objects
                w.running
                w.leaked)
              none
      adopted w h objects p c e z t =
          write-IsHeld w (some h) none h p _ objects w.running w.leaked c e
            (λ a. rw z (gains (a == h) _ _ _ (t a))) (λ a. rw z (ground arith))
