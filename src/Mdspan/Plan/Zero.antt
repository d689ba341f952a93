-- ===== src/Mdspan/Plan/Zero.antt =====
-- Shapes with an extent 0, whose tensors have no elements.
use uni.Prelude.{
  ℕ, ◌⊎◌, zero, suc, ◌≡◌, ◌<◌, refl, true, List, [], ◌∷◌, ◌++◌, inl, inr, ◌==◌, arith, Bool-cases,
}
use uni.Prelude.Int.{ℤ}
use uni.Mdspan.Vec.{Vec, zeros, add}
use uni.Mdspan.Sort.{Sort}
use uni.Mdspan.Strides.{ExtentStrides}
use uni.Mdspan.Visits.{steps, visits}
use uni.Mdspan.Plan.{
  turned, first_offsets, raw_plan, make_multi_iteration_plan_with_offset, run_plan,
}
use uni.Mdspan.Plan.Offsets.{
  AllPositive, IsCons, run_sorted, raw_plan-zero, raw_plan-suc, perm-IsCons,
}

abbrev pub HasZero : {n : ℕ} → List (ExtentStrides n) → Type 0
HasZero [] = ⊥
HasZero (d ∷ ds) = (d.extent ≡ 0) ⊎ HasZero ds

abbrev pub HasPositive : {n : ℕ} → List (ExtentStrides n) → Type 0
HasPositive [] = ⊥
HasPositive (d ∷ ds) = (0 < d.extent) ⊎ HasPositive ds

append-IsCons : {A : Type 0} (xs ys : List A) → IsCons xs → IsCons (xs ++ ys)
append-IsCons [] ys h = absurd h
append-IsCons (x ∷ xs) ys h = tt

module _ {n : ℕ} where
  steps-all_nil :
      (e : ℕ) (s : Vec ℤ n) (f : Vec ℤ n → List (Vec ℤ n)) (o : Vec ℤ n)
      → ((p : Vec ℤ n) → f p ≡ [])
      → steps e s f o ≡ []
  unfolding steps
  steps-all_nil zero s f o h = refl
  steps-all_nil (suc e) s f o h = rw (h o) (steps-all_nil e s f (add o s) h)

  steps-IsCons :
      (e : ℕ) (s : Vec ℤ n) (f : Vec ℤ n → List (Vec ℤ n)) (o : Vec ℤ n)
      → 0 < e
      → IsCons (f o)
      → IsCons (steps e s f o)
  unfolding steps
  steps-IsCons zero s f o h c = absurd (omega arith)
  steps-IsCons (suc e) s f o h c = append-IsCons (f o) (steps e s f (add o s)) c

  visits-HasZero : (ds : List (ExtentStrides n)) (o : Vec ℤ n) → HasZero ds → visits ds o ≡ []
  unfolding visits steps
  visits-HasZero [] o h = absurd h
  visits-HasZero (d ∷ ds) o (inl h) = rw h refl
  visits-HasZero (d ∷ ds) o (inr h) =
      steps-all_nil d.extent d.strides (visits ds) o (λ p. visits-HasZero ds p h)

  visits-AllPositive :
      (ds : List (ExtentStrides n)) (o : Vec ℤ n) → AllPositive ds → IsCons (visits ds o)
  unfolding visits
  visits-AllPositive [] o a = tt
  visits-AllPositive (d ∷ ds) o a =
      steps-IsCons d.extent d.strides (visits ds) o a.0 (visits-AllPositive ds o a.1)

module _ {n : ℕ} where
  turned_extent : (d : ExtentStrides (suc n)) → (turned d).extent ≡ d.extent
  unfolding turned
  turned_extent d = ground arith

  raw_plan-AllPositive :
      (ds : List (ExtentStrides (suc n))) (o : Vec ℤ (suc n)) → AllPositive (raw_plan ds o).0
  raw_plan-AllPositive [] o = unfold raw_plan in tt
  raw_plan-AllPositive (d ∷ ds) o = elim (Bool-cases (d.extent == 0)) [
    | inl h ↦ rw (raw_plan-zero d ds o h) (raw_plan-AllPositive ds o)
    | inr h ↦
        rw (raw_plan-suc d ds o h)
          ((rw (turned_extent d) (ground arith)), raw_plan-AllPositive ds (first_offsets d o))
  ]

  raw_plan-HasPositive :
      (ds : List (ExtentStrides (suc n))) (o : Vec ℤ (suc n))
      → HasPositive ds
      → IsCons (raw_plan ds o).0
  raw_plan-HasPositive [] o p = absurd p
  raw_plan-HasPositive (d ∷ ds) o p = elim (Bool-cases (d.extent == 0)) [
    | inl h ↦ rw (raw_plan-zero d ds o h) (raw_plan-HasPositive ds o (later h p))
    | inr h ↦ rw (raw_plan-suc d ds o h) tt
  ]
    where
      later : (d.extent == 0) ≡ true → HasPositive (d ∷ ds) → HasPositive ds
      later h (inl q) = absurd (ground arith)
      later h (inr q) = q

module _ {n : ℕ} (s : Sort (ExtentStrides (suc n))) where
  run_plan-IsCons :
      (ds : List (ExtentStrides (suc n)))
      → HasPositive ds
      → IsCons (run_plan (make_multi_iteration_plan_with_offset s ds))
  unfolding make_multi_iteration_plan_with_offset
  run_plan-IsCons ds h =
      let plan = (raw_plan ds (zeros (suc n))).0 in
      let o = (raw_plan ds (zeros (suc n))).1 in
      perm-IsCons _ (visits plan o)
        (run_sorted s plan o (raw_plan-HasPositive ds (zeros (suc n)) h))
        (visits-AllPositive plan o (raw_plan-AllPositive ds (zeros (suc n))))

  -- For dimensions of which one has the extent 0 and one a positive extent, the plain nested loops
  -- visit nothing, since there is no element, but the loops over the plan visit some offset.
  pub visits-HasZero-IsCons :
      (ds : List (ExtentStrides (suc n)))
      → HasZero ds
      → HasPositive ds
      → (visits ds (zeros (suc n)) ≡ [])
        × IsCons (run_plan (make_multi_iteration_plan_with_offset s ds))
  visits-HasZero-IsCons ds z p = (visits-HasZero ds (zeros (suc n)) z, run_plan-IsCons ds p)
