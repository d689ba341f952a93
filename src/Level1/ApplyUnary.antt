-- ===== src/Level1/ApplyUnary.antt =====
-- src/uni20/level1/apply_unary.hpp. An operation that changes nothing but its result is a function.
use mathlib.Core.List.{foldl, map, map-map, map-id, Mem, Nodup, mem-map_of_mem}
use mathlib.Core.List.Perm
use mathlib.Core.List.{Perm}
use uni.Prelude.{ℕ, ◌≡◌, List}
use uni.Prelude.Int.{ℤ}
use uni.Mdspan.Vec.{zeros}
use uni.Mdspan.Sort.{Sort}
use uni.Mdspan.Strides.{ExtentStrides, primary}
use uni.Mdspan.Memory.{Memory, store, write_all_at, write_all_apart}
use uni.Mdspan.Indices.{offset_at, indices}
use uni.Mdspan.Plan.Offsets.{AllPositive, IsCons, run_plan-make_multi_iteration_plan_with_offset}
use uni.Mdspan.Single.{make_iteration_plan_with_offset, run_single}
use uni.Mdspan.Single.Offsets.{run_single-make_iteration_plan_with_offset}

unfoldable pub apply_unary_inplace :
    {A : Type 0} → Sort (ExtentStrides 1) → List (ExtentStrides 1) → (A → A) → Memory A → Memory A
apply_unary_inplace s ds op elements =
    foldl (λ c o. store c o (op (c o))) elements (run_single (make_iteration_plan_with_offset s ds))

-- Where the element of a multi-index lies.
abbrev pub element_offset : List (ExtentStrides 1) → List ℕ → ℤ
element_offset ds is = primary (offset_at ds (zeros 1) is)

module _ {A : Type 0} (s : Sort (ExtentStrides 1)) (ds : List (ExtentStrides 1))
    (a : AllPositive ds) (h : IsCons ds) (op : A → A) (elements : Memory A) where
  visited-perm :
      Perm
        (run_single (make_iteration_plan_with_offset s ds))
        (map (element_offset ds) (indices ds))
  visited-perm =
      rw
        (
          run_single-make_iteration_plan_with_offset s ds a,
          ← map-map primary (offset_at ds (zeros 1)) (indices ds),
        )
        (Perm.map primary (run_plan-make_multi_iteration_plan_with_offset s ds a h))

  -- For extents that are all positive and of which there is at least one, when no two multi-indices
  -- share an offset, apply_unary_inplace leaves at each multi-index the operation's result on the old
  -- element.
  pub apply_unary_inplace-indices :
      IsSet A
      → Nodup (map (element_offset ds) (indices ds))
      → (is : List ℕ) → Mem is (indices ds)
      → apply_unary_inplace s ds op elements (element_offset ds is)
        ≡ op (elements (element_offset ds is))
  unfolding apply_unary_inplace
  apply_unary_inplace-indices is_set d is m =
      write_all_at (λ o. o) (λ o x. op x) is_set _ elements (element_offset ds is)
        (rw (map-id (run_single (make_iteration_plan_with_offset s ds)))
          (Perm.nodup (Perm.symm visited-perm) d))
        ((Perm.mem_iff visited-perm).1 (mem-map_of_mem (element_offset ds) m))

  -- For such extents apply_unary_inplace changes no offset that is not one of a multi-index.
  pub apply_unary_inplace_apart :
      (r : ℤ)
      → ¬ Mem r (map (element_offset ds) (indices ds))
      → apply_unary_inplace s ds op elements r ≡ elements r
  unfolding apply_unary_inplace
  apply_unary_inplace_apart r n =
      write_all_apart (λ o. o) (λ o x. op x) (run_single (make_iteration_plan_with_offset s ds))
        elements r
        (λ m. n (
          (Perm.mem_iff visited-perm).0
            (rw (map-id (run_single (make_iteration_plan_with_offset s ds))) at m)))
