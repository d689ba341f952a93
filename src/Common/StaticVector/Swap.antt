-- ===== src/Common/StaticVector/Swap.antt =====
-- swap of a static_vector.
use uni.Prelude.{
  ℕ, ◌+◌, ◌-◌, ◌≡◌, ◌≤◌, refl, sym, ap, ◌∙◌, true, false, List, [], ◌++◌, length, length-append,
  arith, ltb, Bool-cases, inl, inr,
}
use mathlib.Core.List.{append-nil}
use uni.Prelude.Outcome.{Outcome, ◌>>=◌}
use uni.Common.StaticVector.{swap_each, give_rest, swap, empty_slots}
use uni.Common.StaticVector.Refines.{holding}
use uni.Common.StaticVector.Calls.{parted, shrink-holding}
use uni.Common.StaticVector.Exchange.{swap_each-holding, append_each-holding}

module _ {T : Type 0} where
  -- The longer vector gives its last elements away.
  give_rest-holding :
      (max_size : ℕ) (d : T) (ys xs zs : List T)
      → length xs ≡ length ys
      → length (xs ++ zs) ≤ max_size
      → ltb (length xs) (length (xs ++ zs)) ≡ true
      → give_rest max_size d (holding max_size ys) (holding max_size (xs ++ zs))
        ≡ Outcome.done (holding max_size (ys ++ zs), holding max_size xs)
  unfolding give_rest
  give_rest-holding max_size d ys xs zs e l h =
      rw
        (
          rest_length _ (length ys) (length zs) (length-append xs zs) e,
          append_each-holding max_size (length ys) xs zs ys
              (empty_slots (max_size - length (xs ++ zs))) (sym e)
              (omega (arith, length-append xs zs)),
          sym e,
          shrink-holding max_size d xs zs l h,
        )
        refl
    where
      rest_length : (a b c : ℕ) → a ≡ length xs + c → length xs ≡ b → a - b ≡ c
      rest_length a b c p q = omega arith

  same_length : (xs ys zs : List T) → length xs ≡ length ys → length (ys ++ zs) ≡ length (xs ++ zs)
  same_length xs ys zs e = omega (arith, length-append xs zs, length-append ys zs)

  given :
      (max_size : ℕ) (d : T) (xs ys zs : List T)
      → length xs ≡ length ys
      → length (ys ++ zs) ≤ max_size
      → ltb (length xs) (length (ys ++ zs)) ≡ true
      → give_rest max_size d
          (record { size = length xs; slots = (holding max_size ys).slots })
          (record { size = length (ys ++ zs); slots = (holding max_size (xs ++ zs)).slots })
        ≡ Outcome.done (holding max_size (ys ++ zs), holding max_size xs)
  given max_size d xs ys zs e l h =
      ap
        (λ k.
          give_rest max_size d (record { size = k; slots = (holding max_size ys).slots })
            (record { size = length (ys ++ zs); slots = (holding max_size (xs ++ zs)).slots }))
        e
      ∙ ap
          (λ k.
            give_rest max_size d (holding max_size ys)
              (record { size = k; slots = (holding max_size (xs ++ zs)).slots }))
          (same_length xs ys zs e)
      ∙ give_rest-holding max_size d ys xs zs e (rw (same_length xs ys zs e) at l)
          (rw (same_length xs ys zs e) at h)

  -- The shorter vector stands left or right.
  swap_shorter :
      (max_size : ℕ) (d : T) (xs ys zs : List T)
      → length xs ≡ length ys
      → length (ys ++ zs) ≤ max_size
      → ltb (length xs) (length (ys ++ zs)) ≡ true
      → swap max_size d (holding max_size xs) (holding max_size (ys ++ zs))
        ≡ Outcome.done (holding max_size (ys ++ zs), holding max_size xs)
  unfolding swap
  swap_shorter max_size d xs ys zs e l h =
      rw (h, rw (append-nil xs, append-nil ys) at (swap_each-holding max_size xs [] ys zs e))
        (given max_size d xs ys zs e l h)

  swap_longer :
      (max_size : ℕ) (d : T) (xs ys zs : List T)
      → length xs ≡ length ys
      → length (ys ++ zs) ≤ max_size
      → ltb (length (ys ++ zs)) (length xs) ≡ false
      → ltb (length xs) (length (ys ++ zs)) ≡ true
      → swap max_size d (holding max_size (ys ++ zs)) (holding max_size xs)
        ≡ Outcome.done (holding max_size xs, holding max_size (ys ++ zs))
  unfolding swap
  swap_longer max_size d xs ys zs e l g h =
      rw
        (
          g,
          h,
          ap
                (λ k.
                  swap_each 0 k ((holding max_size (ys ++ zs)).slots) ((holding max_size xs).slots))
                e
              ∙ rw (append-nil xs, append-nil ys) at
                  (swap_each-holding max_size ys zs xs [] (sym e)),
        )
        (ap (λ o. o >>= λ p. Outcome.done (p.1, p.0)) (given max_size d xs ys zs e l h))

  swap_even :
      (max_size : ℕ) (d : T) (xs ys : List T)
      → ltb (length xs) (length ys) ≡ false
      → ltb (length ys) (length xs) ≡ false
      → length xs ≡ length ys
      → swap max_size d (holding max_size xs) (holding max_size ys)
        ≡ Outcome.done (holding max_size ys, holding max_size xs)
  unfolding swap
  swap_even max_size d xs ys h g e =
      rw
        (
          h,
          g,
          ap (λ k. swap_each 0 k ((holding max_size xs).slots) ((holding max_size ys).slots))
                (sym e)
              ∙ rw (append-nil xs, append-nil ys) at (swap_each-holding max_size xs [] ys [] e),
        )
        (ap Outcome.done (λ t. (
          record { size = e t; slots = (holding max_size ys).slots },
          record { size = sym e t; slots = (holding max_size xs).slots },
        )))

  -- For two vectors of one capacity, swap exchanges their elements, whatever their sizes: no object is
  -- made over a living one or destroyed twice, and no precondition of a call within fails.
  pub swap-holding :
      (max_size : ℕ) (d : T) (xs ys : List T)
      → length xs ≤ max_size
      → length ys ≤ max_size
      → swap max_size d (holding max_size xs) (holding max_size ys)
        ≡ Outcome.done (holding max_size ys, holding max_size xs)
  swap-holding max_size d xs ys l m = elim (Bool-cases (ltb (length xs) (length ys))) [
    | inl h ↦
        let (us, vs, e, f) = parted (length xs) ys (below (length xs) (length ys) h) in
        rw e (swap_shorter max_size d xs us vs f (rw e at m) (rw e at h))
    | inr h ↦ elim (Bool-cases (ltb (length ys) (length xs))) [
      | inl g ↦
          let (us, vs, e, f) = parted (length ys) xs (below (length ys) (length xs) g) in
          rw e (swap_longer max_size d ys us vs f (rw e at l) (rw e at h) (rw e at g))
      | inr g ↦ swap_even max_size d xs ys h g (even (length xs) (length ys) h g)
    ]
  ]
    where
      below : (a b : ℕ) → ltb a b ≡ true → a ≤ b
      below a b h = ground arith

      even : (a b : ℕ) → ltb a b ≡ false → ltb b a ≡ false → a ≡ b
      even a b g h = ground arith
