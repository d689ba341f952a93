-- ===== src/Async/Ownership/Counting.antt =====
-- Who holds a coroutine: the references of AsyncTasks and factories, the coroutines that execute or
-- are leaked, the continuations, and the handle that a loop over continuations has in its hand.
use uni.Prelude.{
  ℕ, zero, suc, ◌+◌, ◌≡◌, ◌≤◌, ◌<◌, refl, sym, ◌∙◌, false, Option, none, some, List, [], ◌∷◌, ◌++◌,
  if◌then◌else◌, ◌==◌, leb, ==_iff, get_elem?, arith, inl, inr, Bool-cases,
}
use uni.Async.Ownership.{Promise, Frames, Owner, World, write, set_slot}

abbrev pub one : ℕ → Option ℕ → ℕ
one a none = 0
one a (some k) = if a == k then 1 else 0

abbrev pub count : ℕ → List ℕ → ℕ
count a [] = 0
count a (h ∷ hs) = one a (some h) + count a hs

abbrev pub weight : ℕ → Owner → ℕ
weight a (Owner.task h) = one a h
weight a (Owner.factory none n) = 0
weight a (Owner.factory (some k) n) = if a == k then n else 0

-- The references to the coroutine `a`.
abbrev pub total : ℕ → List Owner → ℕ
total a [] = 0
total a (o ∷ os) = weight a o + total a os

abbrev pub owned : ℕ → ℕ
owned zero = 0
owned (suc n) = 1

pub total-append : (a : ℕ) (os ps : List Owner) → total a (os ++ ps) ≡ total a os + total a ps
total-append a [] ps = omega arith
total-append a (o ∷ os) ps = omega (arith, total-append a os ps)

some_same : {A : Type 0} (x y : A) → some x ≡ some y → x ≡ y
some_same x y e = cc

pub total-set_slot :
    (a i : ℕ) (os : List Owner) (old new : Owner)
    → get_elem? os i ≡ some old
    → total a (set_slot i new os) + weight a old ≡ total a os + weight a new
total-set_slot a i [] old new e = cc
total-set_slot a zero (o ∷ os) old new e = rw (some_same o old e) (omega arith)
total-set_slot a (suc i) (o ∷ os) old new e = omega (arith, total-set_slot a i os old new e)

pub total-get_elem? :
    (a i : ℕ) (os : List Owner) (o : Owner) → get_elem? os i ≡ some o → weight a o ≤ total a os
total-get_elem? a i [] o e = cc
total-get_elem? a zero (x ∷ os) o e = rw (some_same x o e) (omega arith)
total-get_elem? a (suc i) (x ∷ os) o e = omega (arith, total-get_elem? a i os o e)

pub get-set_slot :
    (i : ℕ) (os : List Owner) (old new : Owner)
    → get_elem? os i ≡ some old
    → get_elem? (set_slot i new os) i ≡ some new
get-set_slot i [] old new e = cc
get-set_slot zero (o ∷ os) old new e = refl
get-set_slot (suc i) (o ∷ os) old new e = get-set_slot i os old new e

pub get-set_slot_apart :
    (i j : ℕ) (os : List Owner) (new : Owner)
    → (i == j) ≡ false
    → get_elem? (set_slot j new os) i ≡ get_elem? os i
get-set_slot_apart i j [] new e = refl
get-set_slot_apart zero zero (o ∷ os) new e = cc
get-set_slot_apart zero (suc j) (o ∷ os) new e = refl
get-set_slot_apart (suc i) zero (o ∷ os) new e = refl
get-set_slot_apart (suc i) (suc j) (o ∷ os) new e = get-set_slot_apart i j os new (ground arith)

pub one_self : (a : ℕ) → one a (some a) ≡ 1
one_self a = rw ((==_iff a a).1 refl) refl

module _ {E : Type 0} where
  abbrev pub refs : Option (Promise E) → ℕ
  refs none = 0
  refs (some p) = p.awaiter_count

  abbrev pub live : Option (Promise E) → ℕ
  live none = 0
  live (some p) = 1

  abbrev pub next_of : Option (Promise E) → Option ℕ
  next_of none = none
  next_of (some p) = p.continuation

  -- The sum over the first `n` frames.
  abbrev pub sum_frames : (Option (Promise E) → ℕ) → Frames E → ℕ → ℕ
  sum_frames g f zero = 0
  sum_frames g f (suc n) = sum_frames g f n + g (f n)

  -- How many coroutines have `a` as their continuation.
  abbrev pub waiting : ℕ → Frames E → ℕ → ℕ
  waiting a f n = sum_frames (λ p. one a (next_of p)) f n

  pub sum-write_above :
      (g : Option (Promise E) → ℕ) (f : Frames E) (h n : ℕ) (new : Option (Promise E))
      → n ≤ h
      → sum_frames g (write f h new) n ≡ sum_frames g f n
  unfolding write
  sum-write_above g f h zero new l = refl
  sum-write_above g f h (suc n) new l = elim (Bool-cases (n == h)) [
    | inl e ↦ ground arith
    | inr e ↦ rw (e, sum-write_above g f h n new (omega arith)) refl
  ]

  pub sum-write :
      (g : Option (Promise E) → ℕ) (f : Frames E) (h n : ℕ) (old new : Option (Promise E))
      → h < n
      → f h ≡ old
      → sum_frames g (write f h new) n + g old ≡ sum_frames g f n + g new
  unfolding write
  sum-write g f h zero old new l q = ground arith
  sum-write g f h (suc n) old new l q = elim (Bool-cases (n == h)) [
    | inl e ↦
        rw (e, sum-write_above g f h n new (ground arith))
          (rw ((==_iff n h).0 e) (rw q (omega arith)))
    | inr e ↦ rw e (omega (arith, sum-write g f h n old new (ground arith) q))
  ]

  -- `o` is the handle in the hand of a loop.
  pub record IsHeld (w : World E) (o : Option ℕ) : Type 0 where
    pub counted : (a : ℕ) → refs (w.frames a) ≡ total a w.objects
    pub held :
        (a : ℕ)
        → live (w.frames a)
          ≡ owned (refs (w.frames a))
            + count a w.running
            + count a w.leaked
            + waiting a w.frames w.next
            + one a o
    pub fresh : (a : ℕ) → w.next ≤ a → w.frames a ≡ none

  pub live_of : (f : Option (Promise E)) → 0 < live f → (p : Promise E) × (f ≡ some p)
  live_of none l = ground arith
  live_of (some p) l = (p, refl)

  pub live_bound : (f : Option (Promise E)) → live f ≤ 1
  live_bound none = omega arith
  live_bound (some p) = omega arith

  pub below_next :
      (w : World E) (o : Option ℕ)
      → IsHeld w o
      → (h : ℕ) (p : Promise E) → w.frames h ≡ some p
      → h < w.next
  below_next w o c h p e = elim (Bool-cases (leb w.next h)) [
    | inl l ↦ no (sym (c.fresh h (ground arith)) ∙ e)
    | inr l ↦ ground arith
  ]
    where
      no : {X : Type 0} {p : Promise E} → none ≡ some p → X
      no e = cc
