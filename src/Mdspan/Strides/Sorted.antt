-- ===== src/Mdspan/Strides/Sorted.antt =====
-- The order of a merged plan and, with Compact, what it looks like (strides.hpp).
use uni.Prelude.{ℕ, suc, ◌≤◌, List, [], ◌∷◌, inl, inr, arith, Bool-cases}
use uni.Mdspan.Sort.{Sort, IsSorted}
use uni.Mdspan.Strides.{
  ExtentStrides, abs, primary, can_merge_with_inner, merge_with_inner, merge_right, merge_left,
  larger_stride, smaller_stride,
}

abbrev size_of : {n : ℕ} → ExtentStrides (suc n) → ℕ
size_of d = abs (primary d.strides)

module _ {n : ℕ} where
  merged_right :
      (current inner : ExtentStrides (suc n)) (ds : List (ExtentStrides (suc n)))
      → IsSorted larger_stride (inner ∷ ds)
      → IsSorted larger_stride (merge_with_inner current inner ∷ ds)
  unfolding larger_stride merge_with_inner
  merged_right current inner [] s = tt
  merged_right current inner (d ∷ ds) s = s

  merged_left :
      (outer current : ExtentStrides (suc n)) (ds : List (ExtentStrides (suc n)))
      → IsSorted smaller_stride (current ∷ outer ∷ ds)
      → IsSorted smaller_stride (merge_with_inner outer current ∷ ds)
  unfolding smaller_stride merge_with_inner
  merged_left outer current [] s = tt
  merged_left outer current (d ∷ ds) s = (ground (arith, s.0, s.1.0), s.1.1)

  -- The first stride of a merged list is no larger than that of the dimension it starts from.
  right_first :
      (d current : ExtentStrides (suc n)) (ds : List (ExtentStrides (suc n)))
      → size_of current ≤ size_of d
      → IsSorted larger_stride (current ∷ ds)
      → IsSorted larger_stride (merge_right current ds)
      → IsSorted larger_stride (d ∷ merge_right current ds)
  unfolding merge_right merge_with_inner larger_stride
  right_first d current [] h s t = (ground arith, tt)
  right_first d current (inner ∷ ds) h s t =
      elim (Bool-cases (can_merge_with_inner current inner)) [
        | inl m ↦ rw m (
            right_first d (merge_with_inner current inner) ds (ground (arith, s.0))
              (merged_right current inner ds s.1) (rw m at t))
        | inr m ↦ rw m (ground arith, (rw m at t))
      ]

  pub merge_right-IsSorted :
      (current : ExtentStrides (suc n)) (ds : List (ExtentStrides (suc n)))
      → IsSorted larger_stride (current ∷ ds)
      → IsSorted larger_stride (merge_right current ds)
  unfolding merge_right larger_stride
  merge_right-IsSorted current [] s = tt
  merge_right-IsSorted current (inner ∷ ds) s =
      elim (Bool-cases (can_merge_with_inner current inner)) [
        | inl m ↦ rw m (
            merge_right-IsSorted (merge_with_inner current inner) ds
              (merged_right current inner ds s.1))
        | inr m ↦ rw m (
            right_first current inner ds (ground (arith, s.0)) s.1
              (merge_right-IsSorted inner ds s.1))
      ]

  left_first :
      (d current : ExtentStrides (suc n)) (ds : List (ExtentStrides (suc n)))
      → size_of d ≤ size_of current
      → IsSorted smaller_stride (merge_left current ds)
      → IsSorted smaller_stride (d ∷ merge_left current ds)
  unfolding merge_left merge_with_inner smaller_stride
  left_first d current [] h t = (ground arith, tt)
  left_first d current (outer ∷ ds) h t = elim (Bool-cases (can_merge_with_inner outer current)) [
    | inl m ↦ rw m (left_first d (merge_with_inner outer current) ds h (rw m at t))
    | inr m ↦ rw m (ground arith, (rw m at t))
  ]

  pub merge_left-IsSorted :
      (current : ExtentStrides (suc n)) (ds : List (ExtentStrides (suc n)))
      → IsSorted smaller_stride (current ∷ ds)
      → IsSorted smaller_stride (merge_left current ds)
  unfolding merge_left smaller_stride
  merge_left-IsSorted current [] s = tt
  merge_left-IsSorted current (outer ∷ ds) s =
      elim (Bool-cases (can_merge_with_inner outer current)) [
        | inl m ↦ rw m (
            merge_left-IsSorted (merge_with_inner outer current) ds
              (merged_left outer current ds s))
        | inr m ↦
            rw m
              (left_first current outer ds (ground (arith, s.0)) (merge_left-IsSorted outer ds s.1))
      ]
