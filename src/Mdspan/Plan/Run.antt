-- ===== src/Mdspan/Plan/Run.antt =====
-- MultiUnrollHelper of iteration_plan.hpp against plain nested loops.
use uni.Prelude.{
  ℕ, zero, suc, ◌-◌, ◌≡◌, refl, ap, List, [], ◌∷◌, length, ◌==◌, ◌≤◌, leb, arith, inl, inr,
  Bool-cases,
}
use mathlib.Core.Path.{fun_ext}
use uni.Prelude.Int.{ℤ}
use uni.Mdspan.Vec.{Vec}
use uni.Mdspan.Strides.{ExtentStrides}
use uni.Mdspan.Visits.{steps, visits}
use uni.Mdspan.Plan.{run_unrolled, run_dynamic, run}

module _ {n : ℕ} where
  run_unrolled-visits :
      (depth : ℕ) (ds : List (ExtentStrides n))
      → length ds ≡ suc depth
      → (o : Vec ℤ n) → run_unrolled depth ds o ≡ visits ds o
  unfolding run_unrolled visits
  run_unrolled-visits depth [] h o = absurd (omega arith)
  run_unrolled-visits zero (d ∷ []) h o = refl
  run_unrolled-visits zero (d ∷ e ∷ ds) h o = absurd (omega arith)
  run_unrolled-visits (suc depth) (d ∷ ds) h o =
      ap (λ f. steps d.extent d.strides f o) (fun_ext (run_unrolled-visits depth ds (omega arith)))

  run_dynamic-visits :
      (depth : ℕ) (ds : List (ExtentStrides n))
      → 3 ≤ depth
      → length ds ≡ suc depth
      → (o : Vec ℤ n) → run_dynamic depth ds o ≡ visits ds o
  unfolding run_dynamic visits
  run_dynamic-visits depth [] m h o = absurd (omega arith)
  run_dynamic-visits depth (d ∷ ds) m h o = elim (Bool-cases (depth == 3)) [
    | inl e ↦
        rw e (
          ap (λ f. steps d.extent d.strides f o)
            (fun_ext (run_unrolled-visits 2 ds (ground arith))))
    | inr e ↦ rw e (
        ap (λ f. steps d.extent d.strides f o)
          (fun_ext (run_dynamic-visits (depth - 1) ds (ground arith) (omega arith))))
  ]

  -- For a plan of at least one dimension, whatever its depth, the unrolled and the dynamic loops
  -- visit what the plain nested loops over the plan visit, in the same order.
  pub run-visits :
      (d : ExtentStrides n) (ds : List (ExtentStrides n)) (o : Vec ℤ n)
      → run (d ∷ ds) o ≡ visits (d ∷ ds) o
  unfolding run
  run-visits d ds o = elim (Bool-cases (leb (length (d ∷ ds) - 1) 2)) [
    | inl h ↦ rw h (run_unrolled-visits (length (d ∷ ds) - 1) (d ∷ ds) (omega arith) o)
    | inr h ↦
        rw h (run_dynamic-visits (length (d ∷ ds) - 1) (d ∷ ds) (ground arith) (omega arith) o)
  ]
