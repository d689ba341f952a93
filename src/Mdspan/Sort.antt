-- ===== src/Mdspan/Sort.antt =====
-- std::sort by a comparison, as the code uses it. It may order equal elements as it likes, so it is
-- a parameter: a function with the two documented facts.
pub mod Insertion
use mathlib.Core.List.{Perm}
use uni.Prelude.{◌≡◌, Bool, true, false, List, [], ◌∷◌}

-- No element belongs before the one that it follows.
abbrev pub IsSorted : {A : Type 0} → (A → A → Bool) → List A → Type 0
IsSorted before [] = Unit
IsSorted before (x ∷ []) = Unit
IsSorted before (x ∷ y ∷ xs) = (before y x ≡ false) × IsSorted before (y ∷ xs)

-- The documented requirement on the comparison.
pub record IsStrictWeak {A : Type 0} (before : A → A → Bool) : Type 0 where
  pub asymmetric : (x y : A) → before x y ≡ true → before y x ≡ false
  pub transitive_false : (x y z : A) → before x y ≡ false → before y z ≡ false → before x z ≡ false

pub record Sort (A : Type 0) : Type 0 where
  pub sort : (A → A → Bool) → List A → List A
  pub sort-perm : (before : A → A → Bool) (xs : List A) → Perm (sort before xs) xs
  pub sort-IsSorted :
      (before : A → A → Bool)
      → IsStrictWeak before
      → (xs : List A) → IsSorted before (sort before xs)
