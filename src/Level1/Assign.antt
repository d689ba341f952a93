-- ===== src/Level1/Assign.antt =====
-- src/uni20/level1/assign.hpp. The two tensors have the same extents and lie in separate memories;
-- a dimension carries its stride in the destination and then that in the source.
use mathlib.Core.List.{foldl, map, map-map, Mem, Nodup, mem-map_of_mem}
use mathlib.Core.List.Perm
use mathlib.Core.List.{Perm}
use uni.Prelude.{ℕ, ◌≡◌, List}
use uni.Prelude.Int.{ℤ}
use uni.Mdspan.Vec.{zeros}
use uni.Mdspan.Sort.{Sort}
use uni.Mdspan.Strides.{ExtentStrides}
use uni.Mdspan.Memory.{Memory, store, first, second, write_all_at, write_all_apart}
use uni.Mdspan.Indices.{offset_at, indices}
use uni.Mdspan.Plan.{make_multi_iteration_plan_with_offset, run_plan}
use uni.Mdspan.Plan.Offsets.{AllPositive, IsCons, run_plan-make_multi_iteration_plan_with_offset}

unfoldable pub assign :
    {A : Type 0} → Sort (ExtentStrides 2) → List (ExtentStrides 2) → Memory A → Memory A → Memory A
assign s ds src dst =
    foldl (λ c o. store c (first o) (src (second o))) dst
      (run_plan (make_multi_iteration_plan_with_offset s ds))

-- Where the element of a multi-index lies in the destination and in the source.
abbrev pub dst_offset : List (ExtentStrides 2) → List ℕ → ℤ
dst_offset ds is = first (offset_at ds (zeros 2) is)

abbrev pub src_offset : List (ExtentStrides 2) → List ℕ → ℤ
src_offset ds is = second (offset_at ds (zeros 2) is)

module _ {A : Type 0} (s : Sort (ExtentStrides 2)) (ds : List (ExtentStrides 2))
    (a : AllPositive ds) (h : IsCons ds) (src dst : Memory A) where
  firsts-perm :
      Perm
        (map first (run_plan (make_multi_iteration_plan_with_offset s ds)))
        (map (dst_offset ds) (indices ds))
  firsts-perm =
      rw (← map-map first (offset_at ds (zeros 2)) (indices ds))
        (Perm.map first (run_plan-make_multi_iteration_plan_with_offset s ds a h))

  -- For extents that are all positive and of which there is at least one, when no two multi-indices
  -- share an offset in the destination, assign leaves at each multi-index of the destination the
  -- element of the source at that multi-index.
  pub assign-indices :
      IsSet A
      → Nodup (map (dst_offset ds) (indices ds))
      → (is : List ℕ) → Mem is (indices ds)
      → assign s ds src dst (dst_offset ds is) ≡ src (src_offset ds is)
  unfolding assign
  assign-indices is_set d is m =
      write_all_at first (λ o x. src (second o)) is_set _ dst (offset_at ds (zeros 2) is)
        (Perm.nodup (Perm.symm firsts-perm) d)
        ((Perm.mem_iff (run_plan-make_multi_iteration_plan_with_offset s ds a h)).1
          (mem-map_of_mem (offset_at ds (zeros 2)) m))

  -- For such extents assign changes no offset that is not one of a multi-index of the destination.
  pub assign_apart :
      (r : ℤ) → ¬ Mem r (map (dst_offset ds) (indices ds)) → assign s ds src dst r ≡ dst r
  unfolding assign
  assign_apart r n =
      write_all_apart first (λ o x. src (second o)) _ dst r
        (λ m. n ((Perm.mem_iff firsts-perm).0 m))
