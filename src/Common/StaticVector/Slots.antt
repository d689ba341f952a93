-- ===== src/Common/StaticVector/Slots.antt =====
-- The loops over the slots of the buffer.
use uni.Prelude.{
  ℕ, zero, suc, ◌+◌, ◌≡◌, refl, sym, ap, ◌∙◌, Option, none, some, List, [], ◌∷◌, ◌++◌, map, length,
  length-map, length-append, arith,
}
use mathlib.Core.List.{append_assoc, map-append}
use uni.Prelude.Outcome.{Outcome, ◌>>=◌}
use uni.Common.StaticVector.{
  construct_at, destroy_at, object_at, construct_each, construct_copies, destroy_each, copy_each,
  empty_slots,
}

module _ {T : Type 0} where
  pub construct_at-length :
      (before : List (Option T)) (x : T) (after : List (Option T))
      → construct_at (length before) x (before ++ none ∷ after)
        ≡ Outcome.done (before ++ some x ∷ after)
  unfolding construct_at
  construct_at-length [] x after = refl
  construct_at-length (b ∷ before) x after = rw (construct_at-length before x after) refl

  pub destroy_at-length :
      (before : List (Option T)) (x : T) (after : List (Option T))
      → destroy_at (length before) (before ++ some x ∷ after)
        ≡ Outcome.done (before ++ none ∷ after)
  unfolding destroy_at
  destroy_at-length [] x after = refl
  destroy_at-length (b ∷ before) x after = rw (destroy_at-length before x after) refl

  pub next_place :
      (before : List (Option T)) (s : Option T) → length before + 1 ≡ length (before ++ s ∷ [])
  next_place before s = omega (arith, length-append before (s ∷ []))

  pub regroup :
      (before : List (Option T)) (s : Option T) (after : List (Option T))
      → before ++ s ∷ after ≡ (before ++ s ∷ []) ++ after
  regroup before s after = sym (append_assoc before (s ∷ []) after)

  pub construct_each-length :
      (before : List (Option T)) (xs : List T) (after : List (Option T))
      → construct_each (length before) xs (before ++ (empty_slots (length xs) ++ after))
        ≡ Outcome.done (before ++ (map some xs ++ after))
  unfolding construct_each
  construct_each-length before [] after = refl
  construct_each-length before (x ∷ xs) after =
      rw (construct_at-length before x (empty_slots (length xs) ++ after)) (
        rw (next_place before (some x), regroup before (some x) (empty_slots (length xs) ++ after))
          (construct_each-length (before ++ some x ∷ []) xs after
            ∙ ap Outcome.done (sym (regroup before (some x) (map some xs ++ after)))))

  pointwise :
      {f g : List (Option T) → Outcome (List (Option T))}
      → ((s : List (Option T)) → f s ≡ g s)
      → f ≡ g
  pointwise h i s = h s i

  next_element : (before : List T) (x : T) → length before + 1 ≡ length (before ++ x ∷ [])
  next_element before x = omega (arith, length-append before (x ∷ []))

  abbrev pub copies : ℕ → T → List T
  copies zero x = []
  copies (suc k) x = x ∷ copies k x

  pub construct_copies-each :
      (i k : ℕ) (x : T) (slots : List (Option T))
      → construct_copies i k x slots ≡ construct_each i (copies k x) slots
  unfolding construct_copies construct_each
  construct_copies-each i zero x slots = refl
  construct_copies-each i (suc k) x slots =
      ap (λ f. construct_at i x slots >>= f)
        (pointwise (λ slots'. construct_copies-each (i + 1) k x slots'))

  pub destroy_each-length :
      (before : List (Option T)) (xs : List T) (after : List (Option T))
      → destroy_each (length before) (length xs) (before ++ (map some xs ++ after))
        ≡ Outcome.done (before ++ (empty_slots (length xs) ++ after))
  unfolding destroy_each
  destroy_each-length before [] after = refl
  destroy_each-length before (x ∷ xs) after =
      rw (destroy_at-length before x (map some xs ++ after)) (
        rw (next_place before none, regroup before none (map some xs ++ after))
          (destroy_each-length (before ++ none ∷ []) xs after
            ∙ ap Outcome.done (sym (regroup before none (empty_slots (length xs) ++ after)))))

  pub object_at-length :
      (before : List T) (x : T) (others : List T) (after : List (Option T))
      → object_at (length before) (map some (before ++ x ∷ others) ++ after) ≡ Outcome.done x
  unfolding object_at
  object_at-length [] x others after = refl
  object_at-length (b ∷ before) x others after = object_at-length before x others after

  -- Copying the objects of a full range is making each of them.
  pub copy_each-construct_each :
      (before xs : List T) (after slots : List (Option T))
      → copy_each (length before) (length xs) (map some (before ++ xs) ++ after) slots
        ≡ construct_each (length before) xs slots
  unfolding copy_each construct_each
  copy_each-construct_each before [] after slots = refl
  copy_each-construct_each before (x ∷ xs) after slots = rw (object_at-length before x xs after) (
      ap (λ f. construct_at (length before) x slots >>= f)
        (pointwise (λ slots'. rw (next_element before x) (
          ap (λ q. copy_each (length (before ++ x ∷ [])) (length xs) (map some q ++ after) slots')
            (sym (append_assoc before (x ∷ []) xs))
          ∙ copy_each-construct_each (before ++ x ∷ []) xs after slots'))))

  -- The same at a place that is known by the list of the objects before it.
  pub construct_at-place :
      (xs : List T) (x : T) (after : List (Option T))
      → construct_at (length xs) x (map some xs ++ none ∷ after)
        ≡ Outcome.done (map some (xs ++ x ∷ []) ++ after)
  construct_at-place xs x after =
      ap (λ k. construct_at k x (map some xs ++ none ∷ after)) (sym (length-map xs some))
      ∙ construct_at-length (map some xs) x after
      ∙ ap Outcome.done (
          regroup (map some xs) (some x) after
          ∙ ap (λ q. q ++ after) (sym (map-append some xs (x ∷ []))))

  pub destroy_at-place :
      (xs : List T) (x : T) (after : List (Option T))
      → destroy_at (length xs) (map some (xs ++ x ∷ []) ++ after)
        ≡ Outcome.done (map some xs ++ none ∷ after)
  destroy_at-place xs x after =
      ap (λ k. destroy_at k (map some (xs ++ x ∷ []) ++ after)) (sym (length-map xs some))
      ∙ ap (λ q. destroy_at (length (map some xs)) (q ++ after)) (map-append some xs (x ∷ []))
      ∙ ap (destroy_at (length (map some xs))) (sym (regroup (map some xs) (some x) after))
      ∙ destroy_at-length (map some xs) x after

  pub construct_each-place :
      (xs ys : List T) (after : List (Option T))
      → construct_each (length xs) ys (map some xs ++ (empty_slots (length ys) ++ after))
        ≡ Outcome.done (map some (xs ++ ys) ++ after)
  construct_each-place xs ys after =
      ap (λ k. construct_each k ys (map some xs ++ (empty_slots (length ys) ++ after)))
        (sym (length-map xs some))
      ∙ construct_each-length (map some xs) ys after
      ∙ ap Outcome.done (
          sym (append_assoc (map some xs) (map some ys) after)
          ∙ ap (λ q. q ++ after) (sym (map-append some xs ys)))

  pub destroy_each-place :
      (xs ys : List T) (after : List (Option T))
      → destroy_each (length xs) (length ys) (map some (xs ++ ys) ++ after)
        ≡ Outcome.done (map some xs ++ (empty_slots (length ys) ++ after))
  destroy_each-place xs ys after =
      ap (λ k. destroy_each k (length ys) (map some (xs ++ ys) ++ after)) (sym (length-map xs some))
      ∙ ap (λ q. destroy_each (length (map some xs)) (length ys) q)
          (ap (λ q. q ++ after) (map-append some xs ys)
            ∙ append_assoc (map some xs) (map some ys) after)
      ∙ destroy_each-length (map some xs) ys after
