-- ===== src/Mdspan/Single/Offsets.antt =====
-- The plan and the loops for one tensor, through those for several (iteration_plan.hpp).
use mathlib.Core.List.{map}
use mathlib.Core.Path.{fun_ext}
use uni.Prelude.{
  ℕ, zero, suc, ◌-◌, ◌≡◌, ◌≤◌, ◌<◌, refl, sym, ap, ◌∙◌, false, List, [], ◌∷◌, length, length-map,
  inl, inr, ◌==◌, leb, arith, Bool-cases,
}
use uni.Prelude.Int.{ℤ, pos, ◌+ℤ◌, ◌-ℤ◌, ◌*ℤ◌}
use uni.Mdspan.Vec.{Vec, zeros, nil, cons, add, scale, ◌==ℤ◌, ==ℤ→≡}
use uni.Mdspan.Sort.{Sort}
use uni.Mdspan.Strides.{ExtentStrides, primary}
use uni.Mdspan.Visits.{visits}
use uni.Mdspan.Indices.{range, visits-range, map-flat_map}
use uni.Mdspan.Plan.{
  is_negative, first_offsets, turned, raw_plan, sort_and_merge,
  make_multi_iteration_plan_with_offset, run_plan,
}
use uni.Mdspan.Plan.Run.{run-visits}
use uni.Mdspan.Plan.Offsets.{AllPositive, raw_plan-suc}
use uni.Mdspan.Single.{
  first_offset, single_raw_plan, narrow, make_iteration_plan_with_offset, each, run_level, run_deep,
  run_depth, run_single,
}

*ℤ_pos_comm : (a : ℤ) (i : ℕ) → a *ℤ pos i ≡ pos i *ℤ a
unfolding ◌*ℤ◌
*ℤ_pos_comm a i = ground arith

*ℤ-one : (i : ℕ) → pos i *ℤ pos 1 ≡ pos i
unfolding ◌*ℤ◌
*ℤ-one i = ground arith

primary-add :
    (d : ExtentStrides 1) (o : Vec ℤ 1) (i : ℕ)
    → primary (add o (scale d.strides i)) ≡ primary o +ℤ pos i *ℤ primary d.strides
primary-add d o i = go d.strides o
  where
    go : (v o : Vec ℤ 1) → primary (add o (scale v i)) ≡ primary o +ℤ pos i *ℤ primary v
    go (cons a nil) (cons x nil) = unfold add scale in ap (λ t. x +ℤ t) (*ℤ_pos_comm a i)

-- A loop over the offsets of one tensor.
each-visits :
    (f : ℤ → List ℤ) (d : ExtentStrides 1) (ds : List (ExtentStrides 1))
    → ((o : Vec ℤ 1) → f (primary o) ≡ map primary (visits ds o))
    → (o : Vec ℤ 1)
    → each d.extent (λ i. f (primary o +ℤ pos i *ℤ primary d.strides))
      ≡ map primary (visits (d ∷ ds) o)
each-visits f d ds h o =
    ap (each d.extent) (fun_ext λ i. ap f (sym (primary-add d o i)) ∙ h (add o (scale d.strides i)))
    ∙ sym (map-flat_map primary (λ i. visits ds (add o (scale d.strides i))) (range 0 d.extent))
    ∙ ap (map primary) (sym (visits-range d ds o))

run_level-visits :
    (depth : ℕ) (ds : List (ExtentStrides 1))
    → length ds ≡ suc depth
    → (o : Vec ℤ 1) → run_level depth (map narrow ds) (primary o) ≡ map primary (visits ds o)
unfolding run_level narrow
run_level-visits depth [] h o = absurd (omega arith)
run_level-visits zero (d ∷ []) h o = elim (Bool-cases (◌==ℤ◌ (primary d.strides) (pos 1))) [
  | inl e ↦ rw e (
      ap (each d.extent) (
        fun_ext λ i.
          ap (λ t. (primary o +ℤ t) ∷ [])
            (sym (*ℤ-one i) ∙ ap (λ a. pos i *ℤ a) (sym (==ℤ→≡ (primary d.strides) (pos 1) e))))
      ∙ each-visits (λ x. x ∷ []) d [] (λ p. unfold visits in refl) o)
  | inr e ↦ rw e (each-visits (λ x. x ∷ []) d [] (λ p. unfold visits in refl) o)
]
run_level-visits zero (d ∷ e ∷ ds) h o = absurd (omega arith)
run_level-visits (suc depth) (d ∷ ds) h o =
    each-visits (run_level depth (map narrow ds)) d ds (run_level-visits depth ds (omega arith)) o

run_deep-visits :
    (depth : ℕ) (ds : List (ExtentStrides 1))
    → 3 ≤ depth
    → length ds ≡ suc depth
    → (o : Vec ℤ 1) → run_deep depth (map narrow ds) (primary o) ≡ map primary (visits ds o)
unfolding run_deep narrow
run_deep-visits depth [] m h o = absurd (omega arith)
run_deep-visits depth (d ∷ ds) m h o = elim (Bool-cases (depth == 3)) [
  | inl e ↦
      rw e (each-visits (run_level 2 (map narrow ds)) d ds (run_level-visits 2 ds (ground arith)) o)
  | inr e ↦ rw e (
      each-visits (run_deep (depth - 1) (map narrow ds)) d ds
        (run_deep-visits (depth - 1) ds (ground arith) (omega arith)) o)
]

run_depth-visits :
    (d : ExtentStrides 1) (ds : List (ExtentStrides 1)) (o : Vec ℤ 1)
    → run_depth (length ds) (map narrow (d ∷ ds)) (primary o) ≡ map primary (visits (d ∷ ds) o)
unfolding run_depth
run_depth-visits d ds o = elim (Bool-cases (leb (length ds) 2)) [
  | inl h ↦ rw h (run_level-visits (length ds) (d ∷ ds) refl o)
  | inr h ↦ rw h (run_deep-visits (length ds) (d ∷ ds) (ground arith) refl o)
]

run_single-run_plan :
    (ds : List (ExtentStrides 1)) (o : Vec ℤ 1)
    → run_single (map narrow ds, primary o) ≡ map primary (run_plan (ds, o))
unfolding run_single run_plan
run_single-run_plan [] o = refl
run_single-run_plan (d ∷ ds) o =
    ap (λ k. run_depth k (map narrow (d ∷ ds)) (primary o)) (omega (arith, length-map ds narrow))
    ∙ run_depth-visits d ds o
    ∙ ap (map primary) (sym (run-visits d ds o))

minus_one : (e : ℕ) → 0 < e → pos e -ℤ pos 1 ≡ pos (e - 1)
unfolding ◌-ℤ◌
minus_one e h = ground arith

first_offset-first_offsets :
    (d : ExtentStrides 1) (o : Vec ℤ 1)
    → 0 < d.extent
    → first_offset d (primary o) ≡ primary (first_offsets d o)
first_offset-first_offsets d o h = elim (Bool-cases (is_negative (primary d.strides))) [
  | inl m ↦
      unfold first_offset first_offsets in
      rw m (
        ap (λ t. primary o +ℤ t)
          (ap (λ t. primary d.strides *ℤ t) (minus_one d.extent h)
            ∙ *ℤ_pos_comm (primary d.strides) (d.extent - 1))
        ∙ sym (primary-add d o (d.extent - 1)))
  | inr m ↦ unfold first_offset first_offsets in rw m refl
]

single_raw_plan-suc :
    (d : ExtentStrides 1) (ds : List (ExtentStrides 1)) (o : ℤ)
    → (d.extent == 0) ≡ false
    → single_raw_plan (d ∷ ds) o ≡ (
      turned d ∷ (single_raw_plan ds (first_offset d o)).0,
      (single_raw_plan ds (first_offset d o)).1,
    )
unfolding single_raw_plan
single_raw_plan-suc d ds o h = rw h

single_raw_plan-raw_plan :
    (ds : List (ExtentStrides 1))
    → AllPositive ds
    → (o : Vec ℤ 1)
    → single_raw_plan ds (primary o) ≡ ((raw_plan ds o).0, primary (raw_plan ds o).1)
single_raw_plan-raw_plan [] a o = unfold single_raw_plan raw_plan in refl
single_raw_plan-raw_plan (d ∷ ds) a o = elim (Bool-cases (d.extent == 0)) [
  | inl e ↦ absurd (ground (arith, a.0))
  | inr e ↦
      rw
        (
          single_raw_plan-suc d ds (primary o) e,
          raw_plan-suc d ds o e,
          first_offset-first_offsets d o a.0,
          single_raw_plan-raw_plan ds a.1 (first_offsets d o),
        )
        refl
]

-- For positive extents the loops over the plan for one tensor visit what the loops over the plan
-- for several tensors visit, of which it is the only one, in the same order.
pub run_single-make_iteration_plan_with_offset :
    (s : Sort (ExtentStrides 1)) (ds : List (ExtentStrides 1))
    → AllPositive ds
    → run_single (make_iteration_plan_with_offset s ds)
      ≡ map primary (run_plan (make_multi_iteration_plan_with_offset s ds))
unfolding zeros make_iteration_plan_with_offset make_multi_iteration_plan_with_offset
run_single-make_iteration_plan_with_offset s ds a =
    ap (λ q. run_single (map narrow (sort_and_merge s q.0), q.1))
      (single_raw_plan-raw_plan ds a (zeros 1))
    ∙ run_single-run_plan (sort_and_merge s (raw_plan ds (zeros 1)).0) (raw_plan ds (zeros 1)).1
