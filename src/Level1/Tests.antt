-- ===== src/Level1/Tests.antt =====
-- A 2 × 2 matrix by rows is assigned the transpose of another, and one whose columns run backwards
-- is changed in place.
use mathlib.Core.List.{Nodup, Mem, mem-cons_self, mem-cons_of_mem, flat_map, map}
use native.Mathlib.Nat.{ℕ_set}
use uni.Prelude.{ℕ, suc, ◌≡◌, ◌<◌, refl, List, [], ◌∷◌, arith}
use uni.Prelude.Int.{pos, negsuc, pos_part, ◌+ℤ◌, ◌*ℤ◌, ◌-ℤ◌}
use uni.Prelude.Distinct.{Apart-not_mem, Distinct-Nodup}
use uni.Mdspan.Vec.{nil, cons, add, scale, negate, zeros, neg_ℤ, ◌==ℤ◌}
use uni.Mdspan.Sort.Insertion.{insert, insertion_sort, by_insertion}
use uni.Mdspan.Strides.{
  primary, ExtentStrides, all_contiguous, can_merge_with_inner, merge_with_inner, merge_right,
  merge_right_all, abs, larger_stride, sort_and_merge_right,
}
use uni.Mdspan.Memory.{Memory, store}
use uni.Mdspan.Indices.{indices}
use uni.Mdspan.Visits.{steps}
use uni.Mdspan.Plan.{
  first_offsets, turned, raw_plan, sort_and_merge, make_multi_iteration_plan_with_offset,
  run_unrolled, run_dynamic, run, run_plan,
}
use uni.Mdspan.Single.{
  first_offset, single_raw_plan, narrow, make_iteration_plan_with_offset, run_level, run_deep,
  run_depth, run_single,
}
use uni.Mdspan.Single.Offsets.{run_single-make_iteration_plan_with_offset}
use uni.Level1.ApplyUnary.{apply_unary_inplace, element_offset, apply_unary_inplace-indices}
use uni.Level1.Assign.{assign, dst_offset, src_offset, assign-indices, assign_apart}

abbrev transposed : List (ExtentStrides 2)
transposed =
    record { extent = 2; strides = cons (pos 2) (cons (pos 1) nil) }
    ∷ record { extent = 2; strides = cons (pos 1) (cons (pos 2) nil) }
    ∷ []

-- 1 2 / 3 4
abbrev numbers : Memory ℕ
numbers z = suc (pos_part z)

abbrev blank : Memory ℕ
blank z = 0

unfoldable ran {ℓ} : {A : Type ℓ} → A → A
unfolding steps insert insertion_sort all_contiguous can_merge_with_inner merge_with_inner
    merge_right merge_right_all abs larger_stride sort_and_merge_right add scale negate zeros neg_ℤ
    ◌==ℤ◌ ◌+ℤ◌ ◌*ℤ◌ ◌-ℤ◌ first_offsets turned raw_plan sort_and_merge
    make_multi_iteration_plan_with_offset run_unrolled run_dynamic run run_plan assign store
    flat_map map
ran a = a

assigned :
    (assign by_insertion transposed numbers blank (pos 1) ≡ 3)
    × (assign by_insertion transposed numbers blank (pos 2) ≡ 2)
unfolding ran
assigned = (refl, refl)

offsets_run : map (dst_offset transposed) (indices transposed) ≡ pos 0 ∷ pos 1 ∷ pos 2 ∷ pos 3 ∷ []
unfolding ran
offsets_run = refl

offsets-Nodup : Nodup (map (dst_offset transposed) (indices transposed))
offsets-Nodup = rw offsets_run (
    Distinct-Nodup (pos 0 ∷ pos 1 ∷ pos 2 ∷ pos 3 ∷ [])
      ((cc, (cc, (cc, tt))), ((cc, (cc, tt)), ((cc, tt), (tt, tt)))))

second_index : Mem (0 ∷ 1 ∷ []) (indices transposed)
unfolding ran
second_index = mem-cons_of_mem _ mem-cons_self

two_positive : 0 < 2
two_positive = omega arith

assign-indices_example :
    assign by_insertion transposed numbers blank (dst_offset transposed (0 ∷ 1 ∷ []))
    ≡ numbers (src_offset transposed (0 ∷ 1 ∷ []))
assign-indices_example =
    assign-indices by_insertion transposed (two_positive, (two_positive, tt)) tt numbers blank ℕ_set
      offsets-Nodup (0 ∷ 1 ∷ []) second_index

assign_apart_example : assign by_insertion transposed numbers blank (pos 4) ≡ blank (pos 4)
assign_apart_example =
    assign_apart by_insertion transposed (two_positive, (two_positive, tt)) tt numbers blank (pos 4)
      (rw offsets_run
        (Apart-not_mem (pos 4) (pos 0 ∷ pos 1 ∷ pos 2 ∷ pos 3 ∷ []) (cc, (cc, (cc, (cc, tt))))))

-- A 2 × 2 matrix whose columns run backwards.
abbrev backwards : List (ExtentStrides 1)
backwards =
    record { extent = 2; strides = cons (pos 2) nil }
    ∷ record { extent = 2; strides = cons (negsuc 0) nil }
    ∷ []

unfoldable ran_single {ℓ} : {A : Type ℓ} → A → A
unfolding ran first_offset single_raw_plan narrow make_iteration_plan_with_offset run_level run_deep
    run_depth run_single apply_unary_inplace
ran_single a = a

-- Once turned, the two dimensions are merged into one.
backwards_plan :
    make_iteration_plan_with_offset by_insertion backwards
    ≡ (record { extent = 4; stride = pos 1 } ∷ [], negsuc 0)
unfolding ran_single
backwards_plan = refl

backwards_run :
    map (element_offset backwards) (indices backwards) ≡ pos 0 ∷ negsuc 0 ∷ pos 2 ∷ pos 1 ∷ []
unfolding ran_single
backwards_run = refl

backwards-Nodup : Nodup (map (element_offset backwards) (indices backwards))
backwards-Nodup = rw backwards_run (
    Distinct-Nodup (pos 0 ∷ negsuc 0 ∷ pos 2 ∷ pos 1 ∷ [])
      ((cc, (cc, (cc, tt))), ((cc, (cc, tt)), ((cc, tt), (tt, tt)))))

backwards_index : Mem (0 ∷ 1 ∷ []) (indices backwards)
unfolding ran_single
backwards_index = mem-cons_of_mem _ mem-cons_self

apply_unary_inplace-indices_example :
    apply_unary_inplace by_insertion backwards suc numbers (element_offset backwards (0 ∷ 1 ∷ []))
    ≡ suc (numbers (element_offset backwards (0 ∷ 1 ∷ [])))
apply_unary_inplace-indices_example =
    apply_unary_inplace-indices by_insertion backwards (two_positive, (two_positive, tt)) tt suc
      numbers ℕ_set backwards-Nodup (0 ∷ 1 ∷ []) backwards_index

run_single-make_iteration_plan_with_offset_example :
    run_single (make_iteration_plan_with_offset by_insertion backwards)
    ≡ map primary (run_plan (make_multi_iteration_plan_with_offset by_insertion backwards))
run_single-make_iteration_plan_with_offset_example =
    run_single-make_iteration_plan_with_offset by_insertion backwards
      (two_positive, (two_positive, tt))
