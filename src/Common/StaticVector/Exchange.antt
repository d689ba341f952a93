-- ===== src/Common/StaticVector/Exchange.antt =====
-- The loops of swap of a static_vector.
use uni.Prelude.{
  ℕ, ◌+◌, ◌-◌, ◌≡◌, ◌≤◌, refl, sym, ap, ◌∙◌, Option, some, List, [], ◌∷◌, ◌++◌, map, length,
  length-append, arith,
}
use mathlib.Core.List.{append_assoc, append-nil, map-append}
use uni.Prelude.Outcome.{Outcome}
use uni.Common.StaticVector.{object_at, assign_at, swap_each, append_each, empty_slots}
use uni.Common.StaticVector.Slots.{regroup, next_place, object_at-length}
use uni.Common.StaticVector.Refines.{holding, push_back-holding}
use uni.Common.StaticVector.Moves.{object_at-slot}

module _ {T : Type 0} where
  assign_at-length :
      (before : List (Option T)) (x y : T) (after : List (Option T))
      → assign_at (length before) y (before ++ some x ∷ after)
        ≡ Outcome.done (before ++ some y ∷ after)
  unfolding assign_at
  assign_at-length [] x y after = refl
  assign_at-length (b ∷ before) x y after = rw (assign_at-length before x y after) refl

  -- The objects of a range of slots against those of the same range of another buffer.
  swap_each-length :
      (i : ℕ) (xs ys : List T) (these those before after : List (Option T))
      → i ≡ length these
      → i ≡ length those
      → length xs ≡ length ys
      → swap_each i (length xs) (these ++ (map some xs ++ before)) (those ++ (map some ys ++ after))
        ≡ Outcome.done (these ++ (map some ys ++ before), those ++ (map some xs ++ after))
  unfolding swap_each
  swap_each-length i [] [] these those before after e f l = refl
  swap_each-length i [] (y ∷ ys) these those before after e f l = ground arith
  swap_each-length i (x ∷ xs) [] these those before after e f l = ground arith
  swap_each-length i (x ∷ xs) (y ∷ ys) these those before after e f l =
      rw
        (
          ap (λ k. object_at k (these ++ some x ∷ (map some xs ++ before))) e
              ∙ object_at-slot these x (map some xs ++ before),
          ap (λ k. object_at k (those ++ some y ∷ (map some ys ++ after))) f
              ∙ object_at-slot those y (map some ys ++ after),
          ap (λ k. assign_at k y (these ++ some x ∷ (map some xs ++ before))) e
              ∙ assign_at-length these x y (map some xs ++ before),
          ap (λ k. assign_at k x (those ++ some y ∷ (map some ys ++ after))) f
              ∙ assign_at-length those y x (map some ys ++ after),
          regroup these (some y) (map some xs ++ before),
          regroup those (some x) (map some ys ++ after),
        )
        (swap_each-length (i + 1) xs ys (these ++ some y ∷ []) (those ++ some x ∷ []) before after
            (ap (λ k. k + 1) e ∙ next_place these (some y))
            (ap (λ k. k + 1) f ∙ next_place those (some x)) (omega arith)
          ∙ ap Outcome.done (λ t. (
            sym (regroup these (some y) (map some ys ++ before)) t,
            sym (regroup those (some x) (map some xs ++ after)) t,
          )))

  slots_of :
      (xs ys : List T) (more : List (Option T))
      → map some (xs ++ ys) ++ more ≡ map some xs ++ (map some ys ++ more)
  slots_of xs ys more =
      ap (λ q. q ++ more) (map-append some xs ys) ∙ append_assoc (map some xs) (map some ys) more

  -- The first elements change places.
  pub swap_each-holding :
      (max_size : ℕ) (xs xs' ys ys' : List T)
      → length xs ≡ length ys
      → swap_each 0
          (length xs)
          ((holding max_size (xs ++ xs')).slots)
          ((holding max_size (ys ++ ys')).slots)
        ≡ Outcome.done ((holding max_size (ys ++ xs')).slots, (holding max_size (xs ++ ys')).slots)
  swap_each-holding max_size xs xs' ys ys' l =
      ap (λ s. swap_each 0 (length xs) s ((holding max_size (ys ++ ys')).slots))
        (slots_of xs xs' (rest (xs ++ xs')))
      ∙ ap (swap_each 0 (length xs) (map some xs ++ (map some xs' ++ rest (xs ++ xs'))))
          (slots_of ys ys' (rest (ys ++ ys')))
      ∙ swap_each-length 0 xs ys [] [] (map some xs' ++ rest (xs ++ xs'))
          (map some ys' ++ rest (ys ++ ys')) refl refl l
      ∙ ap Outcome.done (λ t. (
        (sym (slots_of ys xs' (rest (xs ++ xs')))
              ∙ ap (λ n. map some (ys ++ xs') ++ empty_slots (max_size - n)) (same xs ys xs' l))
            t,
        (sym (slots_of xs ys' (rest (ys ++ ys')))
              ∙ ap (λ n. map some (xs ++ ys') ++ empty_slots (max_size - n))
                  (same ys xs ys' (sym l)))
            t,
      ))
    where
      rest : List T → List (Option T)
      rest zs = empty_slots (max_size - length zs)

      same : (us vs ws : List T) → length us ≡ length vs → length (us ++ ws) ≡ length (vs ++ ws)
      same us vs ws e = omega (arith, length-append us ws, length-append vs ws)

  pub append_each-holding :
      (max_size i : ℕ) (ws zs us : List T) (after : List (Option T))
      → i ≡ length ws
      → length us + length zs ≤ max_size
      → append_each max_size i (length zs) (map some (ws ++ zs) ++ after) (holding max_size us)
        ≡ Outcome.done (holding max_size (us ++ zs))
  unfolding append_each
  append_each-holding max_size i ws [] us after e l =
      ap (λ q. Outcome.done (holding max_size q)) (sym (append-nil us))
  append_each-holding max_size i ws (z ∷ zs) us after e l =
      rw
        (
          ap (λ k. object_at k (map some (ws ++ z ∷ zs) ++ after)) e
              ∙ object_at-length ws z zs after,
          push_back-holding max_size us z (omega arith),
          sym (append_assoc ws (z ∷ []) zs),
        )
        (append_each-holding max_size (i + 1) (ws ++ z ∷ []) zs (us ++ z ∷ []) after
            (omega (arith, length-append ws (z ∷ []))) (omega (arith, length-append us (z ∷ [])))
          ∙ ap (λ q. Outcome.done (holding max_size q)) (append_assoc us (z ∷ []) zs))
