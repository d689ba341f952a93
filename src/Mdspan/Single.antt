-- ===== src/Mdspan/Single.antt =====
-- src/uni20/mdspan/iteration_plan.hpp for one tensor. The rank is not 0 in what the theorems say.
pub mod Offsets
use mathlib.Core.List.{flat_map, map}
use uni.Prelude.{ℕ, zero, suc, ◌-◌, Bool, List, [], ◌∷◌, length, if◌then◌else◌, ◌==◌, leb}
use uni.Prelude.Int.{ℤ, pos, ◌+ℤ◌, ◌-ℤ◌, ◌*ℤ◌}
use uni.Mdspan.Vec.{◌==ℤ◌}
use uni.Mdspan.Sort.{Sort}
use uni.Mdspan.Strides.{ExtentStrides, primary}
use uni.Mdspan.Indices.{range}
use uni.Mdspan.Plan.{is_negative, turned, sort_and_merge}

pub record ExtentStride : Type 0 where
  pub extent : ℕ
  pub stride : ℤ

-- `extent - 1` is converted to a signed number, so that it is -1 for an extent 0.
unfoldable pub first_offset : ExtentStrides 1 → ℤ → ℤ
first_offset d o =
    if is_negative (primary d.strides) then o +ℤ primary d.strides *ℤ (pos d.extent -ℤ pos 1) else o

unfoldable pub single_raw_plan : List (ExtentStrides 1) → ℤ → List (ExtentStrides 1) × ℤ
single_raw_plan [] o = ([], o)
single_raw_plan (d ∷ ds) o =
    let (plan, o') = single_raw_plan ds (first_offset d o) in
    if d.extent == 0 then (plan, o') else (turned d ∷ plan, o')

unfoldable pub narrow : ExtentStrides 1 → ExtentStride
narrow d = record { extent = d.extent; stride = primary d.strides }

-- The dimensions of the mapping are given as ExtentStrides.
unfoldable pub make_iteration_plan_with_offset :
    Sort (ExtentStrides 1) → List (ExtentStrides 1) → List ExtentStride × ℤ
make_iteration_plan_with_offset s ds =
    let (plan, offset) = single_raw_plan ds (pos 0) in (map narrow (sort_and_merge s plan), offset)

-- `for (i = 0; i < e; ++i)`, by what each round adds to the list of visited offsets.
abbrev pub each : ℕ → (ℕ → List ℤ) → List ℤ
each e body = flat_map body (range 0 e)

-- UnrollHelper::run at a level that is known at compile time.
unfoldable pub run_level : ℕ → List ExtentStride → ℤ → List ℤ
run_level depth [] o = []
run_level zero (d ∷ ds) o =
    if ◌==ℤ◌ d.stride (pos 1)
    then each d.extent (λ i. (o +ℤ pos i) ∷ [])
    else each d.extent (λ i. (o +ℤ pos i *ℤ d.stride) ∷ [])
run_level (suc depth) (d ∷ ds) o = each d.extent (λ i. run_level depth ds (o +ℤ pos i *ℤ d.stride))

-- UnrollHelper::run_dynamic.
unfoldable pub run_deep : ℕ → List ExtentStride → ℤ → List ℤ
run_deep depth [] o = []
run_deep depth (d ∷ ds) o =
    let deeper = each d.extent (λ i. run_deep (depth - 1) ds (o +ℤ pos i *ℤ d.stride)) in
    if depth == 3 then each d.extent (λ i. run_level 2 ds (o +ℤ pos i *ℤ d.stride)) else deeper

unfoldable pub run_depth : ℕ → List ExtentStride → ℤ → List ℤ
run_depth depth plan o = if leb depth 2 then run_level depth plan o else run_deep depth plan o

-- apply_unary_inplace returns at once from an empty plan.
unfoldable pub run_single : List ExtentStride × ℤ → List ℤ
run_single ([], o) = []
run_single (d ∷ plan, o) = run_depth (length (d ∷ plan) - 1) (d ∷ plan) o
