-- ===== src/Common/StaticVector/Moves.antt =====
-- Moves of a static_vector.
use uni.Prelude.{
  ℕ, ◌+◌, ◌-◌, ◌≡◌, ◌≤◌, refl, sym, ap, ◌∙◌, Option, none, some, List, [], ◌∷◌, ◌++◌, map, length,
  arith,
}
use uni.Prelude.Outcome.{Outcome}
use uni.Common.StaticVector.{
  StaticVector, construct_at, destroy_at, object_at, move_each, empty_slots, move_construct,
  move_assign,
}
use uni.Common.StaticVector.Slots.{construct_at-length, destroy_at-length, regroup, next_place}
use uni.Common.StaticVector.Refines.{holding, empty_slots-minus, clear-holding}

module _ {T : Type 0} where
  pub object_at-slot :
      (before : List (Option T)) (x : T) (after : List (Option T))
      → object_at (length before) (before ++ some x ∷ after) ≡ Outcome.done x
  unfolding object_at
  object_at-slot [] x after = refl
  object_at-slot (b ∷ before) x after = object_at-slot before x after

  -- Objects move from one range of slots to the same range of another buffer.
  move_each-length :
      (i : ℕ) (xs : List T) (from to before after : List (Option T))
      → i ≡ length from
      → i ≡ length to
      → move_each i
          (length xs)
          (from ++ (map some xs ++ before))
          (to ++ (empty_slots (length xs) ++ after))
        ≡ Outcome.done (from ++ (empty_slots (length xs) ++ before), to ++ (map some xs ++ after))
  unfolding move_each
  move_each-length i [] from to before after e f = refl
  move_each-length i (x ∷ xs) from to before after e f =
      rw
        (
          ap (λ k. object_at k (from ++ some x ∷ (map some xs ++ before))) e
              ∙ object_at-slot from x (map some xs ++ before),
          ap (λ k. construct_at k x (to ++ none ∷ (empty_slots (length xs) ++ after))) f
              ∙ construct_at-length to x (empty_slots (length xs) ++ after),
          ap (λ k. destroy_at k (from ++ some x ∷ (map some xs ++ before))) e
              ∙ destroy_at-length from x (map some xs ++ before),
          regroup from none (map some xs ++ before),
          regroup to (some x) (empty_slots (length xs) ++ after),
        )
        (move_each-length (i + 1) xs (from ++ none ∷ []) (to ++ some x ∷ []) before after
            (ap (λ k. k + 1) e ∙ next_place from none) (ap (λ k. k + 1) f ∙ next_place to (some x))
          ∙ ap Outcome.done (λ t. (
            sym (regroup from none (empty_slots (length xs) ++ before)) t,
            sym (regroup to (some x) (map some xs ++ after)) t,
          )))

  no_objects : (max_size : ℕ) → (holding {T = T} max_size []).slots ≡ empty_slots max_size
  no_objects max_size = ap empty_slots (minus_zero max_size)
    where
      minus_zero : (n : ℕ) → n - 0 ≡ n
      minus_zero n = omega arith

  moved :
      (max_size : ℕ) (xs : List T)
      → length xs ≤ max_size
      → move_each 0 (length xs) ((holding max_size xs).slots) (empty_slots max_size)
        ≡ Outcome.done (empty_slots max_size, (holding max_size xs).slots)
  moved max_size xs l =
      ap (move_each 0 (length xs) ((holding max_size xs).slots))
        (empty_slots-minus max_size (length xs) l)
      ∙ move_each-length 0 xs [] [] (empty_slots (max_size - length xs))
          (empty_slots (max_size - length xs)) refl refl
      ∙ ap (λ q. Outcome.done (q, (holding max_size xs).slots))
          (sym (empty_slots-minus max_size (length xs) l))

  ends :
      (max_size : ℕ) (xs : List T)
      → ◌≡◌ {A = Outcome (StaticVector T × StaticVector T)}
          (Outcome.done (holding max_size xs, record { size = 0; slots = empty_slots max_size }))
          (Outcome.done (holding max_size xs, holding max_size []))
  ends max_size xs =
      ap (λ q. Outcome.done (holding max_size xs, record { size = 0; slots = q }))
        (sym (no_objects max_size))

  pub move_construct-holding :
      (max_size : ℕ) (xs : List T)
      → length xs ≤ max_size
      → move_construct max_size (holding max_size xs)
        ≡ Outcome.done (holding max_size xs, holding max_size [])
  unfolding move_construct
  move_construct-holding max_size xs l = rw (moved max_size xs l) (ends max_size xs)

  -- For two vectors of one capacity, the move assignment gives the first the elements of the second,
  -- which is left empty: no object is made over a living one, destroyed twice or left behind.
  pub move_assign-holding :
      (max_size : ℕ) (xs ys : List T)
      → length xs ≤ max_size
      → length ys ≤ max_size
      → move_assign (holding max_size xs) (holding max_size ys)
        ≡ Outcome.done (holding max_size ys, holding max_size [])
  unfolding move_assign
  move_assign-holding max_size xs ys l m =
      rw (clear-holding max_size xs l, no_objects max_size, moved max_size ys m) refl
