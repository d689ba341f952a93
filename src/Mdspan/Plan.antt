-- ===== src/Mdspan/Plan.antt =====
-- src/uni20/mdspan/iteration_plan.hpp for several tensors of one shape: a dimension with its stride
-- in each of them is an ExtentStrides. A shape of no dimensions has rank 0.
pub mod Run
pub mod Offsets
pub mod Zero
use uni.Prelude.{
  ℕ, zero, suc, ◌-◌, Bool, true, false, List, [], ◌∷◌, length, if◌then◌else◌, ◌==◌, leb, ltb,
}
use uni.Prelude.Int.{ℤ, pos, negsuc}
use uni.Mdspan.Vec.{Vec, add, scale, negate, zeros}
use uni.Mdspan.Sort.{Sort}
use uni.Mdspan.Strides.{ExtentStrides, primary, larger_stride, sort_and_merge_right}
use uni.Mdspan.Visits.{steps}

abbrev pub is_negative : ℤ → Bool
is_negative (pos k) = false
is_negative (negsuc k) = true

module _ {n : ℕ} where
  -- A dimension with a negative stride in the first tensor is walked backwards, from its last offset.
  unfoldable pub first_offsets : ExtentStrides (suc n) → Vec ℤ (suc n) → Vec ℤ (suc n)
  first_offsets d o =
      if is_negative (primary d.strides) then add o (scale d.strides (d.extent - 1)) else o

  unfoldable pub turned : ExtentStrides (suc n) → ExtentStrides (suc n)
  turned d = if is_negative (primary d.strides) then record d { strides = negate d.strides } else d

  -- The loop that fills `raw_plan` and `offsets`; `continue` for an extent 0.
  unfoldable pub raw_plan :
      List (ExtentStrides (suc n)) → Vec ℤ (suc n) → List (ExtentStrides (suc n)) × Vec ℤ (suc n)
  raw_plan [] o = ([], o)
  raw_plan (d ∷ ds) o =
      let (plan, o') = raw_plan ds (if d.extent == 0 then o else first_offsets d o) in
      if d.extent == 0 then (plan, o') else (turned d ∷ plan, o')

  unfoldable pub sort_and_merge :
      Sort (ExtentStrides (suc n)) → List (ExtentStrides (suc n)) → List (ExtentStrides (suc n))
  sort_and_merge s [] = []
  sort_and_merge s (d ∷ ds) = sort_and_merge_right s (s.sort larger_stride (d ∷ ds))

  unfoldable pub make_multi_iteration_plan_with_offset :
      Sort (ExtentStrides (suc n))
      → List (ExtentStrides (suc n))
      → List (ExtentStrides (suc n)) × Vec ℤ (suc n)
  unfolding sort_and_merge
  make_multi_iteration_plan_with_offset s ds =
      let (plan, offsets) = raw_plan ds (zeros (suc n)) in (sort_and_merge s plan, offsets)

-- MultiUnrollHelper, as the list of the offsets at which the operation is applied. `depth` counts
-- the dimensions after the first one of the plan.
abbrev max_unroll_depth : ℕ
max_unroll_depth = 3

module _ {n : ℕ} where
  -- The innermost loop, and the levels that are unrolled at compile time.
  unfoldable pub run_unrolled : ℕ → List (ExtentStrides n) → Vec ℤ n → List (Vec ℤ n)
  run_unrolled depth [] o = []
  run_unrolled zero (d ∷ ds) o = steps d.extent d.strides (λ o. o ∷ []) o
  run_unrolled (suc depth) (d ∷ ds) o = steps d.extent d.strides (run_unrolled depth ds) o

  unfoldable pub run_dynamic : ℕ → List (ExtentStrides n) → Vec ℤ n → List (Vec ℤ n)
  run_dynamic depth [] o = []
  run_dynamic depth (d ∷ ds) o =
      steps d.extent d.strides
        (if depth == max_unroll_depth
          then run_unrolled (max_unroll_depth - 1) ds
          else run_dynamic (depth - 1) ds)
        o

  unfoldable pub run : List (ExtentStrides n) → Vec ℤ n → List (Vec ℤ n)
  run plan o =
      let depth = length plan - 1 in
      if leb depth 2 then run_unrolled depth plan o else run_dynamic depth plan o

  -- The callers return at once from an empty plan.
  unfoldable pub run_plan : List (ExtentStrides n) × Vec ℤ n → List (Vec ℤ n)
  run_plan ([], offsets) = []
  run_plan (d ∷ plan, offsets) = run (d ∷ plan) offsets
