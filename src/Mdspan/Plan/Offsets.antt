-- ===== src/Mdspan/Plan/Offsets.antt =====
-- The offsets that the loops over a plan visit, from the corrected start (iteration_plan.hpp).
use mathlib.Core.List.{Perm, map}
use mathlib.Core.List.Perm
use uni.Prelude.{
  ℕ, zero, suc, ◌-◌, ◌≡◌, ◌<◌, refl, ap, ◌∙◌, true, false, List, [], ◌∷◌, ◌++◌, inl, inr, ◌==◌,
  arith, Bool-cases,
}
use uni.Prelude.Int.{ℤ}
use uni.Mdspan.Vec.{Vec, add, scale, negate, zeros, add_right_comm}
use uni.Mdspan.Sort.{Sort}
use uni.Mdspan.Strides.{
  ExtentStrides, primary, larger_stride, sort_and_merge_right, merge_right, merge_right_all,
  can_merge_with_inner, merge_with_inner,
}
use uni.Mdspan.Strides.Merge.{visits-sort_and_merge_right}
use uni.Mdspan.Indices.{offset_at, indices, visits-indices}
use uni.Mdspan.Visits.{steps, visits, visits-perm, steps_congr, steps-perm_negate}
use uni.Mdspan.Plan.{
  is_negative, first_offsets, turned, raw_plan, sort_and_merge,
  make_multi_iteration_plan_with_offset, run_plan,
}
use uni.Mdspan.Plan.Run.{run-visits}

abbrev pub AllPositive : {n : ℕ} → List (ExtentStrides n) → Type 0
AllPositive [] = Unit
AllPositive (d ∷ ds) = (0 < d.extent) × AllPositive ds

module _ {n : ℕ} where
  pub raw_plan-zero :
      (d : ExtentStrides (suc n)) (ds : List (ExtentStrides (suc n))) (o : Vec ℤ (suc n))
      → (d.extent == 0) ≡ true
      → raw_plan (d ∷ ds) o ≡ raw_plan ds o
  unfolding raw_plan
  raw_plan-zero d ds o h = rw h

  pub raw_plan-suc :
      (d : ExtentStrides (suc n)) (ds : List (ExtentStrides (suc n))) (o : Vec ℤ (suc n))
      → (d.extent == 0) ≡ false
      → raw_plan (d ∷ ds) o
        ≡ (turned d ∷ (raw_plan ds (first_offsets d o)).0, (raw_plan ds (first_offsets d o)).1)
  unfolding raw_plan
  raw_plan-suc d ds o h = rw h

  -- The dimensions of the plan do not depend on the start.
  raw_plan_congr :
      (ds : List (ExtentStrides (suc n))) (o p : Vec ℤ (suc n))
      → (raw_plan ds o).0 ≡ (raw_plan ds p).0
  raw_plan_congr [] o p = unfold raw_plan in refl
  raw_plan_congr (d ∷ ds) o p = elim (Bool-cases (d.extent == 0)) [
    | inl h ↦ rw (raw_plan-zero d ds o h, raw_plan-zero d ds p h) (raw_plan_congr ds o p)
    | inr h ↦
        rw (raw_plan-suc d ds o h, raw_plan-suc d ds p h)
          (ap (◌∷◌ (turned d)) (raw_plan_congr ds (first_offsets d o) (first_offsets d p)))
  ]

  first_offsets-add :
      (d : ExtentStrides (suc n)) (o s : Vec ℤ (suc n))
      → first_offsets d (add o s) ≡ add (first_offsets d o) s
  unfolding first_offsets
  first_offsets-add d o s = elim (Bool-cases (is_negative (primary d.strides))) [
    | inl h ↦ rw h (add_right_comm o s (scale d.strides (d.extent - 1)))
    | inr h ↦ rw h
  ]

  raw_plan-add :
      (ds : List (ExtentStrides (suc n))) (o s : Vec ℤ (suc n))
      → (raw_plan ds (add o s)).1 ≡ add (raw_plan ds o).1 s
  raw_plan-add [] o s = unfold raw_plan in refl
  raw_plan-add (d ∷ ds) o s = elim (Bool-cases (d.extent == 0)) [
    | inl h ↦ rw (raw_plan-zero d ds o h, raw_plan-zero d ds (add o s) h) (raw_plan-add ds o s)
    | inr h ↦
        rw (raw_plan-suc d ds o h, raw_plan-suc d ds (add o s) h)
          (ap (λ q. (raw_plan ds q).1) (first_offsets-add d o s)
            ∙ raw_plan-add ds (first_offsets d o) s)
  ]

  -- A loop around the plan of the inner dimensions, by where each round starts.
  steps-raw_plan :
      (e : ℕ) (s : Vec ℤ (suc n)) (ds : List (ExtentStrides (suc n))) (o p : Vec ℤ (suc n))
      → steps e s (visits (raw_plan ds o).0) (raw_plan ds p).1
        ≡ steps e s (λ x. visits (raw_plan ds x).0 (raw_plan ds x).1) p
  unfolding steps
  steps-raw_plan zero s ds o p = refl
  steps-raw_plan (suc e) s ds o p =
      rw (raw_plan_congr ds o p, ← raw_plan-add ds p s)
        (ap (◌++◌ (visits (raw_plan ds p).0 (raw_plan ds p).1)) (steps-raw_plan e s ds p (add p s)))

  -- A dimension walked backwards from its last offset.
  steps-turned :
      (d : ExtentStrides (suc n)) (f : Vec ℤ (suc n) → List (Vec ℤ (suc n))) (o : Vec ℤ (suc n))
      → 0 < d.extent
      → Perm
          (steps (turned d).extent (turned d).strides f (first_offsets d o))
          (steps d.extent d.strides f o)
  unfolding turned first_offsets
  steps-turned d f o h = elim (Bool-cases (is_negative (primary d.strides))) [
    | inl m ↦ rw m (back d.extent (d.extent - 1) (omega arith))
    | inr m ↦ rw m Perm.rfl
  ]
    where
      back :
          (e k : ℕ)
          → e ≡ suc k
          → Perm (steps e (negate d.strides) f (add o (scale d.strides k))) (steps e d.strides f o)
      back e k q = rw q (steps-perm_negate k d.strides f o)

  turned-visits :
      (d : ExtentStrides (suc n)) (ds : List (ExtentStrides (suc n)))
      → 0 < d.extent
      → ((o : Vec ℤ (suc n)) → Perm (visits (raw_plan ds o).0 (raw_plan ds o).1) (visits ds o))
      → (o : Vec ℤ (suc n))
      → Perm
          (visits
            (turned d ∷ (raw_plan ds (first_offsets d o)).0)
            (raw_plan ds (first_offsets d o)).1)
          (visits (d ∷ ds) o)
  unfolding visits
  turned-visits d ds e ih o =
      rw
        (steps-raw_plan (turned d).extent (turned d).strides ds (first_offsets d o)
          (first_offsets d o))
        (Perm.trans (steps_congr (turned d).extent (turned d).strides ih (first_offsets d o))
          (steps-turned d (visits ds) o e))

  raw_plan-visits :
      (ds : List (ExtentStrides (suc n)))
      → AllPositive ds
      → (o : Vec ℤ (suc n)) → Perm (visits (raw_plan ds o).0 (raw_plan ds o).1) (visits ds o)
  raw_plan-visits [] a o = unfold raw_plan in Perm.rfl
  raw_plan-visits (d ∷ ds) a o = elim (Bool-cases (d.extent == 0)) [
    | inl h ↦ absurd (ground (arith, a.0))
    | inr h ↦ rw (raw_plan-suc d ds o h) (turned-visits d ds a.0 (raw_plan-visits ds a.1) o)
  ]

abbrev pub IsCons {ℓ} : {A : Type ℓ} → List A → Type 0
IsCons [] = ⊥
IsCons (x ∷ xs) = Unit

pub perm-IsCons : {A : Type 0} (xs ys : List A) → Perm xs ys → IsCons ys → IsCons xs
perm-IsCons [] [] p h = h
perm-IsCons [] (y ∷ ys) p h = cc (Perm.nil-eq p)
perm-IsCons (x ∷ xs) ys p h = tt

module _ {n : ℕ} (s : Sort (ExtentStrides (suc n))) where
  merge_right-IsCons :
      (d : ExtentStrides (suc n)) (ds : List (ExtentStrides (suc n))) → IsCons (merge_right d ds)
  unfolding merge_right
  merge_right-IsCons d [] = tt
  merge_right-IsCons d (e ∷ ds) = elim (Bool-cases (can_merge_with_inner d e)) [
    | inl h ↦ rw h (merge_right-IsCons (merge_with_inner d e) ds)
    | inr h ↦ rw h tt
  ]

  sort_and_merge_right-IsCons :
      (ds : List (ExtentStrides (suc n))) → IsCons ds → IsCons (sort_and_merge_right s ds)
  unfolding sort_and_merge_right
  sort_and_merge_right-IsCons [] h = h
  sort_and_merge_right-IsCons (d ∷ []) h = tt
  sort_and_merge_right-IsCons (d ∷ d' ∷ ds) h =
      merged (s.sort larger_stride (d ∷ d' ∷ ds))
        (perm-IsCons _ _ (s.sort-perm larger_stride (d ∷ d' ∷ ds)) tt)
    where
      merged : (es : List (ExtentStrides (suc n))) → IsCons es → IsCons (merge_right_all es)
      merged [] h = h
      merged (e ∷ es) h = merge_right-IsCons e es

  sort_and_merge-IsCons :
      (ds : List (ExtentStrides (suc n))) → IsCons ds → IsCons (sort_and_merge s ds)
  unfolding sort_and_merge
  sort_and_merge-IsCons [] h = h
  sort_and_merge-IsCons (d ∷ ds) h =
      sort_and_merge_right-IsCons (s.sort larger_stride (d ∷ ds))
        (perm-IsCons _ _ (s.sort-perm larger_stride (d ∷ ds)) tt)

  sort_and_merge-visits :
      (ds : List (ExtentStrides (suc n))) (o : Vec ℤ (suc n))
      → Perm (visits (sort_and_merge s ds) o) (visits ds o)
  unfolding sort_and_merge
  sort_and_merge-visits [] o = Perm.rfl
  sort_and_merge-visits (d ∷ ds) o =
      Perm.trans (visits-sort_and_merge_right s (s.sort larger_stride (d ∷ ds)) o)
        (visits-perm (s.sort-perm larger_stride (d ∷ ds)) o)

  -- What the loops do with a plan made from dimensions, if there are any.
  pub run_sorted :
      (ds : List (ExtentStrides (suc n))) (o : Vec ℤ (suc n))
      → IsCons ds
      → Perm (run_plan (sort_and_merge s ds, o)) (visits ds o)
  run_sorted ds o h =
      go (sort_and_merge s ds) (sort_and_merge-IsCons ds h) (sort_and_merge-visits ds o)
    where
      go :
          (es : List (ExtentStrides (suc n)))
          → IsCons es
          → Perm (visits es o) (visits ds o)
          → Perm (run_plan (es, o)) (visits ds o)
      go [] c p = absurd c
      go (e ∷ es) c p = unfold run_plan in rw (run-visits e es o) p

  raw_plan-IsCons :
      (ds : List (ExtentStrides (suc n))) (o : Vec ℤ (suc n))
      → AllPositive ds
      → IsCons ds
      → IsCons (raw_plan ds o).0
  raw_plan-IsCons [] o a h = absurd h
  raw_plan-IsCons (d ∷ ds) o a h = elim (Bool-cases (d.extent == 0)) [
    | inl e ↦ absurd (ground (arith, a.0))
    | inr e ↦ rw (raw_plan-suc d ds o e) tt
  ]

  -- For dimensions that are at least one and all of a positive extent, the loops over the plan made
  -- from them visit the offsets of the multi-indices within the extents, each once for each
  -- multi-index, in some order.
  pub run_plan-make_multi_iteration_plan_with_offset :
      (ds : List (ExtentStrides (suc n)))
      → AllPositive ds
      → IsCons ds
      → Perm
          (run_plan (make_multi_iteration_plan_with_offset s ds))
          (map (offset_at ds (zeros (suc n))) (indices ds))
  unfolding make_multi_iteration_plan_with_offset
  run_plan-make_multi_iteration_plan_with_offset ds a h = rw (← visits-indices ds (zeros (suc n))) (
      Perm.trans
        (run_sorted (raw_plan ds (zeros (suc n))).0 (raw_plan ds (zeros (suc n))).1
          (raw_plan-IsCons ds (zeros (suc n)) a h))
        (raw_plan-visits ds a (zeros (suc n))))
