-- ===== src/Mdspan/Strides.antt =====
-- src/uni20/mdspan/strides.hpp: an extent with one stride for each of N tensors, and the merging of
-- dimensions that are contiguous in all of them. Extents are not negative.
pub mod Merge
pub mod Compact
pub mod Sorted
use uni.Prelude.{ℕ, suc, ◌*◌, Bool, true, false, ◌&&◌, List, [], ◌∷◌, if◌then◌else◌, ltb}
use uni.Prelude.Int.{ℤ, pos, negsuc, ◌*ℤ◌}
use uni.Mdspan.Vec.{Vec, nil, cons, ◌==ℤ◌}
use uni.Mdspan.Sort.{Sort}

pub record ExtentStrides (n : ℕ) : Type 0 where
  pub extent : ℕ
  pub strides : Vec ℤ n

-- Each outer stride is the inner one times the inner extent.
unfoldable pub all_contiguous : {n : ℕ} → Vec ℤ n → Vec ℤ n → ℕ → Bool
all_contiguous nil nil e = true
all_contiguous (cons a v) (cons b w) e = ◌==ℤ◌ a (b *ℤ pos e) && all_contiguous v w e

module _ {n : ℕ} where
  unfoldable pub can_merge_with_inner : ExtentStrides n → ExtentStrides n → Bool
  can_merge_with_inner outer inner = all_contiguous outer.strides inner.strides inner.extent

  unfoldable pub merge_with_inner : ExtentStrides n → ExtentStrides n → ExtentStrides n
  merge_with_inner outer inner = record {
    extent = outer.extent * inner.extent;
    strides = inner.strides;
  }

  -- The loop of sort_and_merge_right from `current` on; the list is what is written to `out`.
  unfoldable pub merge_right : ExtentStrides n → List (ExtentStrides n) → List (ExtentStrides n)
  merge_right current [] = current ∷ []
  merge_right current (inner ∷ rest) =
      let merged = merge_right (merge_with_inner current inner) rest in
      let apart = current ∷ merge_right inner rest in
      if can_merge_with_inner current inner then merged else apart

  -- The loop of sort_and_merge_left.
  unfoldable pub merge_left : ExtentStrides n → List (ExtentStrides n) → List (ExtentStrides n)
  merge_left current [] = current ∷ []
  merge_left current (candidate ∷ rest) =
      let merged = merge_left (merge_with_inner candidate current) rest in
      let apart = current ∷ merge_left candidate rest in
      if can_merge_with_inner candidate current then merged else apart

  unfoldable pub merge_right_all : List (ExtentStrides n) → List (ExtentStrides n)
  merge_right_all [] = []
  merge_right_all (d ∷ ds) = merge_right d ds

  unfoldable pub merge_left_all : List (ExtentStrides n) → List (ExtentStrides n)
  merge_left_all [] = []
  merge_left_all (d ∷ ds) = merge_left d ds

-- std::abs, as a number.
unfoldable pub abs : ℤ → ℕ
abs (pos n) = n
abs (negsuc n) = suc n

abbrev pub primary : {n : ℕ} → Vec ℤ (suc n) → ℤ
primary (cons a v) = a

-- The comparisons by the stride in the first tensor.
unfoldable pub larger_stride : {n : ℕ} → ExtentStrides (suc n) → ExtentStrides (suc n) → Bool
larger_stride lhs rhs = ltb (abs (primary rhs.strides)) (abs (primary lhs.strides))

unfoldable pub smaller_stride : {n : ℕ} → ExtentStrides (suc n) → ExtentStrides (suc n) → Bool
smaller_stride lhs rhs = ltb (abs (primary lhs.strides)) (abs (primary rhs.strides))

module _ {n : ℕ} (s : Sort (ExtentStrides (suc n))) where
  unfoldable pub sort_and_merge_right : List (ExtentStrides (suc n)) → List (ExtentStrides (suc n))
  unfolding merge_right_all
  sort_and_merge_right [] = []
  sort_and_merge_right (d ∷ []) = d ∷ []
  sort_and_merge_right (d ∷ d' ∷ ds) = merge_right_all (s.sort larger_stride (d ∷ d' ∷ ds))

  unfoldable pub sort_and_merge_left : List (ExtentStrides (suc n)) → List (ExtentStrides (suc n))
  unfolding merge_left_all
  sort_and_merge_left [] = []
  sort_and_merge_left (d ∷ []) = d ∷ []
  sort_and_merge_left (d ∷ d' ∷ ds) = merge_left_all (s.sort smaller_stride (d ∷ d' ∷ ds))
