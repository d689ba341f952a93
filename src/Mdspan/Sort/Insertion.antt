-- ===== src/Mdspan/Sort/Insertion.antt =====
-- An insertion sort, which std::sort may be: what the models assume of it can hold.
use mathlib.Core.List.{Perm}
use mathlib.Core.List.Perm
use uni.Prelude.{◌≡◌, inl, inr, Bool, false, List, [], ◌∷◌, if◌then◌else◌, Bool-cases}
use uni.Mdspan.Sort.{Sort, IsSorted, IsStrictWeak}

module _ {A : Type 0} (before : A → A → Bool) where
  unfoldable pub insert : A → List A → List A
  insert x [] = x ∷ []
  insert x (y ∷ ys) = let rest = insert x ys in if before x y then x ∷ y ∷ ys else y ∷ rest

  unfoldable pub insertion_sort : List A → List A
  insertion_sort [] = []
  insertion_sort (x ∷ xs) = insert x (insertion_sort xs)

  insert-perm : (x : A) (xs : List A) → Perm (insert x xs) (x ∷ xs)
  unfolding insert
  insert-perm x [] = Perm.rfl
  insert-perm x (y ∷ ys) = elim (Bool-cases (before x y)) [
    | inl h ↦ rw h Perm.rfl
    | inr h ↦ rw h (Perm.trans (Perm.cons y (insert-perm x ys)) (Perm.swap x y ys))
  ]

  pub insertion_sort-perm : (xs : List A) → Perm (insertion_sort xs) xs
  unfolding insertion_sort
  insertion_sort-perm [] = Perm.rfl
  insertion_sort-perm (x ∷ xs) =
      Perm.trans (insert-perm x (insertion_sort xs)) (Perm.cons x (insertion_sort-perm xs))

  first-IsSorted :
      (x y : A) (ys : List A)
      → before x y ≡ false
      → IsSorted before (y ∷ ys)
      → IsSorted before (insert x ys)
      → IsSorted before (y ∷ insert x ys)
  unfolding insert
  first-IsSorted x y [] h s t = (h, tt)
  first-IsSorted x y (z ∷ ys) h s t = elim (Bool-cases (before x z)) [
    | inl m ↦ rw m (h, (rw m at t))
    | inr m ↦ rw m (s.0, (rw m at t))
  ]

  insert-IsSorted :
      IsStrictWeak before
      → (x : A) (xs : List A) → IsSorted before xs
      → IsSorted before (insert x xs)
  unfolding insert
  insert-IsSorted w x [] s = tt
  insert-IsSorted w x (y ∷ []) s = elim (Bool-cases (before x y)) [
    | inl m ↦ rw m (w.asymmetric x y m, tt)
    | inr m ↦ rw m (m, tt)
  ]
  insert-IsSorted w x (y ∷ z ∷ ys) s = elim (Bool-cases (before x y)) [
    | inl m ↦ rw m (w.asymmetric x y m, s)
    | inr m ↦ rw m (first-IsSorted x y (z ∷ ys) m s (insert-IsSorted w x (z ∷ ys) s.1))
  ]

  pub insertion_sort-IsSorted :
      IsStrictWeak before → (xs : List A) → IsSorted before (insertion_sort xs)
  unfolding insertion_sort
  insertion_sort-IsSorted w [] = tt
  insertion_sort-IsSorted w (x ∷ xs) =
      insert-IsSorted w x (insertion_sort xs) (insertion_sort-IsSorted w xs)

abbrev pub by_insertion : {A : Type 0} → Sort A
by_insertion = record {
  sort = insertion_sort;
  sort-perm = insertion_sort-perm;
  sort-IsSorted = insertion_sort-IsSorted;
}
