-- ===== src/Mdspan/Tests.antt =====
-- Plans of small shapes, and the theorems at them, with an insertion sort for std::sort.
use mathlib.Core.List.{Perm, map}
use uni.Prelude.{ℕ, suc, ◌≡◌, ◌<◌, arith, refl, inl, inr, List, [], ◌∷◌}
use uni.Prelude.Int.{ℤ, pos, negsuc, ◌+ℤ◌, ◌*ℤ◌, ◌-ℤ◌}
use uni.Mdspan.Vec.{Vec, nil, cons, add, scale, negate, zeros, neg_ℤ, ◌==ℤ◌}
use uni.Mdspan.Sort.Insertion.{insert, insertion_sort, by_insertion}
use uni.Mdspan.Strides.{
  ExtentStrides, all_contiguous, can_merge_with_inner, merge_with_inner, merge_right, merge_left,
  merge_right_all, merge_left_all, abs, larger_stride, smaller_stride, sort_and_merge_right,
  sort_and_merge_left,
}
use uni.Mdspan.Strides.Merge.{visits-sort_and_merge_right}
use uni.Mdspan.Indices.{offset_at, indices}
use uni.Mdspan.Visits.{steps, visits}
use uni.Mdspan.Plan.{
  first_offsets, turned, raw_plan, sort_and_merge, make_multi_iteration_plan_with_offset,
  run_unrolled, run_dynamic, run, run_plan,
}
use uni.Mdspan.Plan.Run.{run-visits}
use uni.Mdspan.Plan.Offsets.{IsCons, run_plan-make_multi_iteration_plan_with_offset}
use uni.Mdspan.Plan.Zero.{visits-HasZero-IsCons}

abbrev dim : ℕ → ℤ → ℤ → ExtentStrides 2
dim e a b = record { extent = e; strides = cons a (cons b nil) }

-- A 2 × 3 matrix: packed by rows in the first tensor and in the second.
abbrev packed : List (ExtentStrides 2)
packed = dim 2 (pos 3) (pos 3) ∷ dim 3 (pos 1) (pos 1) ∷ []

-- The first tensor reversed along the rows, the second one transposed.
abbrev reversed : List (ExtentStrides 2)
reversed = dim 2 (negsuc 2) (pos 1) ∷ dim 3 (pos 1) (pos 2) ∷ []

-- The shape (0, 3) packed by rows.
abbrev no_rows : List (ExtentStrides 2)
no_rows = dim 0 (pos 3) (pos 3) ∷ dim 3 (pos 1) (pos 1) ∷ []

abbrev origin : Vec ℤ 2
origin = cons (pos 0) (cons (pos 0) nil)

unfoldable ran {ℓ} : {A : Type ℓ} → A → A
unfolding steps visits insert insertion_sort all_contiguous can_merge_with_inner merge_with_inner
    merge_right merge_left merge_right_all merge_left_all abs larger_stride smaller_stride
    sort_and_merge_right sort_and_merge_left add scale negate zeros neg_ℤ ◌==ℤ◌ ◌+ℤ◌ ◌*ℤ◌ ◌-ℤ◌
    first_offsets turned raw_plan sort_and_merge make_multi_iteration_plan_with_offset run_unrolled
    run_dynamic run run_plan
ran a = a

-- The two dimensions are merged into one of extent 6.
packed_plan :
    make_multi_iteration_plan_with_offset by_insertion packed ≡ (dim 6 (pos 1) (pos 1) ∷ [], origin)
unfolding ran
packed_plan = refl

-- The walk starts at the last row, with the offset -3 in the first tensor.
reversed_plan :
    make_multi_iteration_plan_with_offset by_insertion reversed
    ≡ (dim 2 (pos 3) (negsuc 0) ∷ dim 3 (pos 1) (pos 2) ∷ [], cons (negsuc 2) (cons (pos 1) nil))
unfolding ran
reversed_plan = refl

-- The plan for a matrix without rows, whose stride of the columns is left.
no_rows_offsets :
    run_plan (make_multi_iteration_plan_with_offset by_insertion no_rows)
    ≡ cons (pos 0) (cons (pos 0) nil)
      ∷ cons (pos 1) (cons (pos 1) nil)
      ∷ cons (pos 2) (cons (pos 2) nil)
      ∷ []
unfolding ran
no_rows_offsets = refl

visits-sort_and_merge_right_example :
    Perm (visits (sort_and_merge_right by_insertion packed) origin) (visits packed origin)
visits-sort_and_merge_right_example = visits-sort_and_merge_right by_insertion packed origin

run-visits_example : run reversed origin ≡ visits reversed origin
run-visits_example = run-visits (dim 2 (negsuc 2) (pos 1)) (dim 3 (pos 1) (pos 2) ∷ []) origin

run_plan-make_multi_iteration_plan_with_offset_example :
    Perm
      (run_plan (make_multi_iteration_plan_with_offset by_insertion reversed))
      (map (offset_at reversed (zeros 2)) (indices reversed))
run_plan-make_multi_iteration_plan_with_offset_example =
    run_plan-make_multi_iteration_plan_with_offset by_insertion reversed
      (arith_pos, (arith_pos, tt)) tt
  where
    arith_pos : {n : ℕ} → 0 < suc n
    arith_pos = omega arith

visits-HasZero-IsCons_example :
    (visits no_rows (zeros 2) ≡ [])
    × IsCons (run_plan (make_multi_iteration_plan_with_offset by_insertion no_rows))
visits-HasZero-IsCons_example =
    visits-HasZero-IsCons by_insertion no_rows (inl refl) (inr (inl (omega arith)))
