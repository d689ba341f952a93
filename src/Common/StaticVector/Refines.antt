-- ===== src/Common/StaticVector/Refines.antt =====
-- A static_vector against a list whose length is bounded.
use uni.Prelude.{
  ℕ, zero, suc, ◌+◌, ◌-◌, ◌≡◌, ◌≤◌, ◌<◌, refl, sym, ap, ◌∙◌, true, Option, none, some, List, [],
  ◌∷◌, ◌++◌, map, length, length-append, lt→ltb, leb, arith,
}
use uni.Prelude.Outcome.{Outcome}
use uni.Common.StaticVector.{
  StaticVector, construct_each, empty_slots, of_list, clear, push_back, pop_back,
}
use uni.Common.StaticVector.Slots.{
  construct_at-place, destroy_at-place, construct_each-length, destroy_each-length,
}

pub le→leb : (a b : ℕ) → a ≤ b → leb a b ≡ true
le→leb a b h = ground arith

pub one_more : (a b : ℕ) → b < a → a - b ≡ suc (a - suc b)
one_more a b l = omega arith

plus_one : (n : ℕ) → n + 1 ≡ suc n
plus_one n = omega arith

minus_one : (n : ℕ) → suc n - 1 ≡ n
minus_one n = omega arith

module _ {T : Type 0} where
  -- The vector of a given capacity that holds the elements of a list.
  abbrev pub holding : ℕ → List T → StaticVector T
  holding max_size xs = record {
    size = length xs;
    slots = map some xs ++ empty_slots (max_size - length xs);
  }

  abbrev pub outcome_of : ℕ → Option (List T) → Outcome (StaticVector T)
  outcome_of max_size none = Outcome.refused
  outcome_of max_size (some xs) = Outcome.done (holding max_size xs)

  pub empty_slots-plus : (k m : ℕ) → empty_slots {T = T} (k + m) ≡ empty_slots k ++ empty_slots m
  empty_slots-plus zero m = ap empty_slots (zero_plus m)
    where
      zero_plus : (m : ℕ) → zero + m ≡ m
      zero_plus m = omega arith
  empty_slots-plus (suc k) m =
      ap empty_slots (suc_plus k m) ∙ ap (λ s. none ∷ s) (empty_slots-plus k m)
    where
      suc_plus : (k m : ℕ) → suc k + m ≡ suc (k + m)
      suc_plus k m = omega arith

  pub empty_slots-minus :
      (max_size n : ℕ)
      → n ≤ max_size
      → empty_slots {T = T} max_size ≡ empty_slots n ++ empty_slots (max_size - n)
  empty_slots-minus max_size n l =
      ap empty_slots (parts max_size n l) ∙ empty_slots-plus n (max_size - n)
    where
      parts : (a b : ℕ) → b ≤ a → a ≡ b + (a - b)
      parts a b l = omega arith

  pub holding_of :
      (max_size k m : ℕ) (xs : List T)
      → k ≡ length xs
      → m ≡ max_size - length xs
      → record { size = k; slots = map some xs ++ empty_slots m } ≡ holding max_size xs
  holding_of max_size k m xs e f = rw (e, f) refl

  pub of_list-holding :
      (max_size : ℕ) (xs : List T)
      → length xs ≤ max_size
      → of_list max_size xs ≡ Outcome.done (holding max_size xs)
  unfolding of_list
  of_list-holding max_size xs l =
      rw (le→leb (length xs) max_size l, empty_slots-minus max_size (length xs) l)
        (rw (construct_each-length [] xs (empty_slots (max_size - length xs))) refl)

  pub push_back-holding :
      (max_size : ℕ) (xs : List T) (x : T)
      → length xs < max_size
      → push_back max_size x (holding max_size xs) ≡ Outcome.done (holding max_size (xs ++ x ∷ []))
  unfolding push_back
  push_back-holding max_size xs x l =
      rw
        (
          lt→ltb (length xs) max_size l,
          one_more max_size (length xs) l,
          construct_at-place xs x (empty_slots (max_size - suc (length xs))),
        )
        (ap Outcome.done (
          holding_of max_size _ _ (xs ++ x ∷ []) (omega (arith, length-append xs (x ∷ [])))
            (omega (arith, length-append xs (x ∷ [])))))

  pub pop_back-holding :
      (max_size : ℕ) (xs : List T) (x : T)
      → length xs < max_size
      → pop_back (holding max_size (xs ++ x ∷ [])) ≡ Outcome.done (holding max_size xs)
  unfolding pop_back
  pop_back-holding max_size xs x l =
      rw
        (
          length-append xs (x ∷ []),
          plus_one (length xs),
          lt→ltb 0 (suc (length xs)) (omega arith),
          minus_one (length xs),
        )
        (rw (destroy_at-place xs x (empty_slots (max_size - suc (length xs)))) (
          ap (λ q. Outcome.done (record { size = length xs; slots = map some xs ++ q }))
            (sym (ap empty_slots (one_more max_size (length xs) l)))))

  pub clear-holding :
      (max_size : ℕ) (xs : List T)
      → length xs ≤ max_size
      → clear (holding max_size xs) ≡ Outcome.done (holding max_size [])
  unfolding clear
  clear-holding max_size xs l =
      rw (destroy_each-length [] xs (empty_slots (max_size - length xs))) (
        ap (λ q. Outcome.done (record { size = 0; slots = q }))
          (sym (empty_slots-minus max_size (length xs) l))
        ∙ ap Outcome.done (holding_of max_size 0 max_size [] refl (omega arith)))

  -- The objects of a list, made in an empty buffer.
  pub fill-holding :
      (max_size : ℕ) (xs : List T)
      → length xs ≤ max_size
      → construct_each 0 xs (empty_slots max_size) ≡ Outcome.done ((holding max_size xs).slots)
  fill-holding max_size xs l =
      rw (empty_slots-minus max_size (length xs) l)
        (construct_each-length [] xs (empty_slots (max_size - length xs)))
