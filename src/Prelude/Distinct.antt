-- ===== src/Prelude/Distinct.antt =====
-- Lists without repetition, spelled out for concrete lists.
use mathlib.Core.List.{Pairwise, Mem, Nodup, Nodup-cons, eq-or-mem_of_mem-cons, not-mem-nil}
use mathlib.Core.Logic.Or
use mathlib.Core.Logic.{◌≢◌}
use mathlib.Core.HLevel.{⊥_prop}
use uni.Prelude.{List, [], ◌∷◌}

module _ {ℓ} {A : Type ℓ} where
  abbrev pub Apart : A → List A → Type ℓ
  Apart x [] = Unit
  Apart x (y ∷ ys) = (x ≢ y) × Apart x ys

  abbrev pub Distinct : List A → Type ℓ
  Distinct [] = Unit
  Distinct (x ∷ xs) = Apart x xs × Distinct xs

  pub Apart-not_mem : (x : A) (ys : List A) → Apart x ys → ¬ Mem x ys
  Apart-not_mem x [] h m = not-mem-nil m
  Apart-not_mem x (y ∷ ys) h m =
      Or.elim ⊥_prop (eq-or-mem_of_mem-cons m) (λ e. h.0 e) (λ m'. Apart-not_mem x ys h.1 m')

  pub Distinct-Nodup : (xs : List A) → Distinct xs → Nodup xs
  Distinct-Nodup [] h = Pairwise.nil
  Distinct-Nodup (x ∷ xs) h = Nodup-cons.1 (Apart-not_mem x xs h.0, Distinct-Nodup xs h.1)
