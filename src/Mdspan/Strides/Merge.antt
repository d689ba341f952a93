-- ===== src/Mdspan/Strides/Merge.antt =====
-- The offsets that merged dimensions visit (strides.hpp).
use mathlib.Core.List.{Perm}
use mathlib.Core.List.Perm
use uni.Prelude.{ℕ, suc, ◌≡◌, refl, sym, ap, ◌∙◌, true, List, [], ◌∷◌, inl, inr, arith, Bool-cases}
use uni.Prelude.Int.{ℤ, pos, ◌*ℤ◌}
use uni.Mdspan.Vec.{Vec, nil, cons, scale, ==ℤ→≡}
use uni.Mdspan.Sort.{Sort}
use uni.Mdspan.Strides.{
  ExtentStrides, all_contiguous, can_merge_with_inner, merge_with_inner, merge_right, merge_left,
  merge_right_all, merge_left_all, sort_and_merge_right, sort_and_merge_left, larger_stride,
  smaller_stride,
}
use uni.Mdspan.Visits.{
  visits, steps, steps-mul, visits_congr, visits_cong_eq, visits_swap, visits-perm,
}

pub all_contiguous-scale :
    {n : ℕ} (v w : Vec ℤ n) (e : ℕ) → all_contiguous v w e ≡ true → v ≡ scale w e
unfolding all_contiguous scale
all_contiguous-scale nil nil e h = refl
all_contiguous-scale (cons a v) (cons b w) e h =
    cc (==ℤ→≡ a (b *ℤ pos e) (ground arith), all_contiguous-scale v w e (ground arith))

module _ {n : ℕ} where
  -- Two loops that may be merged visit what the merged loop visits, in the same order.
  visits-merge_with_inner :
      (outer inner : ExtentStrides n) (ds : List (ExtentStrides n)) (o : Vec ℤ n)
      → can_merge_with_inner outer inner ≡ true
      → visits (merge_with_inner outer inner ∷ ds) o ≡ visits (outer ∷ inner ∷ ds) o
  unfolding can_merge_with_inner merge_with_inner visits
  visits-merge_with_inner outer inner ds o h =
      steps-mul outer.extent inner.extent inner.strides (visits ds) o
      ∙ ap (λ s. steps outer.extent s (steps inner.extent inner.strides (visits ds)) o)
          (sym (all_contiguous-scale outer.strides inner.strides inner.extent h))

  -- The loop of sort_and_merge_right keeps the order of the visits too.
  pub visits-merge_right :
      (current : ExtentStrides n) (ds : List (ExtentStrides n)) (o : Vec ℤ n)
      → visits (merge_right current ds) o ≡ visits (current ∷ ds) o
  unfolding merge_right
  visits-merge_right current [] o = refl
  visits-merge_right current (inner ∷ ds) o =
      elim (Bool-cases (can_merge_with_inner current inner)) [
        | inl h ↦ rw h (
            visits-merge_right (merge_with_inner current inner) ds o
            ∙ visits-merge_with_inner current inner ds o h)
        | inr h ↦ rw h (
            visits_cong_eq current (merge_right inner ds) (inner ∷ ds) (visits-merge_right inner ds)
              o)
      ]

  pub visits-merge_left :
      (current : ExtentStrides n) (ds : List (ExtentStrides n)) (o : Vec ℤ n)
      → Perm (visits (merge_left current ds) o) (visits (current ∷ ds) o)
  unfolding merge_left
  visits-merge_left current [] o = Perm.refl (visits (current ∷ []) o)
  visits-merge_left current (outer ∷ ds) o =
      elim (Bool-cases (can_merge_with_inner outer current)) [
        | inl h ↦ rw h (
            Perm.trans (visits-merge_left (merge_with_inner outer current) ds o)
              (rw (visits-merge_with_inner outer current ds o h) (visits_swap outer current ds o)))
        | inr h ↦
            rw h (
              visits_congr current (merge_left outer ds) (outer ∷ ds) (visits-merge_left outer ds)
                o)
      ]

module _ {n : ℕ} (s : Sort (ExtentStrides (suc n))) where
  -- Whatever the dimensions and the start, the loops over what sort_and_merge_right makes of them
  -- visit the offsets that the loops over the dimensions visit, each as often.
  pub visits-sort_and_merge_right :
      (ds : List (ExtentStrides (suc n))) (o : Vec ℤ (suc n))
      → Perm (visits (sort_and_merge_right s ds) o) (visits ds o)
  unfolding sort_and_merge_right
  visits-sort_and_merge_right [] o = Perm.rfl
  visits-sort_and_merge_right (d ∷ []) o = Perm.rfl
  visits-sort_and_merge_right (d ∷ d' ∷ ds) o =
      Perm.trans (merged (s.sort larger_stride (d ∷ d' ∷ ds)))
        (visits-perm (s.sort-perm larger_stride (d ∷ d' ∷ ds)) o)
    where
      merged :
          (es : List (ExtentStrides (suc n))) → Perm (visits (merge_right_all es) o) (visits es o)
      merged [] = Perm.rfl
      merged (e ∷ es) = rw (visits-merge_right e es o) Perm.rfl

  -- Whatever the dimensions and the start, the loops over what sort_and_merge_left makes of them
  -- visit the offsets that the loops over the dimensions visit, each as often.
  pub visits-sort_and_merge_left :
      (ds : List (ExtentStrides (suc n))) (o : Vec ℤ (suc n))
      → Perm (visits (sort_and_merge_left s ds) o) (visits ds o)
  unfolding sort_and_merge_left
  visits-sort_and_merge_left [] o = Perm.rfl
  visits-sort_and_merge_left (d ∷ []) o = Perm.rfl
  visits-sort_and_merge_left (d ∷ d' ∷ ds) o =
      Perm.trans (merged (s.sort smaller_stride (d ∷ d' ∷ ds)))
        (visits-perm (s.sort-perm smaller_stride (d ∷ d' ∷ ds)) o)
    where
      merged :
          (es : List (ExtentStrides (suc n))) → Perm (visits (merge_left_all es) o) (visits es o)
      merged [] = Perm.rfl
      merged (e ∷ es) = visits-merge_left e es o
