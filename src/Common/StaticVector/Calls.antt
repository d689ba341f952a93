-- ===== src/Common/StaticVector/Calls.antt =====
-- Sequences of calls on a static_vector, and the same calls on a list of bounded length.
use uni.Prelude.{
  ℕ, zero, suc, ◌+◌, ◌-◌, ◌≡◌, ◌≤◌, refl, sym, ap, ◌∙◌, true, false, Option, none, some, List, [],
  ◌∷◌, ◌++◌, map, length, length-append, if◌then◌else◌, ltb, leb, arith,
}
use uni.Prelude.Outcome.{Outcome, ◌>>=◌}
use uni.Common.StaticVector.{
  StaticVector, construct_each, destroy_each, empty_slots, of_list, clear, assign_copy, assign_list,
  push_back, pop_back, resize,
}
use uni.Common.StaticVector.Slots.{
  copies, construct_copies-each, construct_each-place, destroy_each-place, copy_each-construct_each,
}
use uni.Common.StaticVector.Refines.{
  holding, holding_of, le→leb, empty_slots-plus, clear-holding, fill-holding,
}

-- `copy_from` assigns from another vector, which is made of a list.
pub data Call (T : Type 0) : Type 0 where
  push : T → Call T
  pop remove_all : Call T
  resize_to : ℕ → Call T
  copy_from assign_from : List T → Call T

minus_zero : (n : ℕ) → n - 0 ≡ n
minus_zero n = omega arith

module _ {T : Type 0} where
  abbrev pub drop_last : T → List T → List T
  drop_last x [] = []
  drop_last x (y ∷ ys) = x ∷ drop_last y ys

  abbrev pub first_of : ℕ → T → List T → List T
  first_of zero d xs = []
  first_of (suc k) d [] = d ∷ first_of k d []
  first_of (suc k) d (x ∷ xs) = x ∷ first_of k d xs

  -- What a call does to the elements; it is refused when they would be more than `max_size`.
  abbrev pub on_list : ℕ → T → Call T → List T → Option (List T)
  on_list max_size d (Call.push x) xs =
      if ltb (length xs) max_size then some (xs ++ x ∷ []) else none
  on_list max_size d Call.pop [] = none
  on_list max_size d Call.pop (x ∷ xs) = some (drop_last x xs)
  on_list max_size d Call.remove_all xs = some []
  on_list max_size d (Call.resize_to k) xs = if leb k max_size then some (first_of k d xs) else none
  on_list max_size d (Call.copy_from ys) xs = if leb (length ys) max_size then some ys else none
  on_list max_size d (Call.assign_from ys) xs = if leb (length ys) max_size then some ys else none

  abbrev pub on_vector : ℕ → T → Call T → StaticVector T → Outcome (StaticVector T)
  on_vector max_size d (Call.push x) v = push_back max_size x v
  on_vector max_size d Call.pop v = pop_back v
  on_vector max_size d Call.remove_all v = clear v
  on_vector max_size d (Call.resize_to k) v = resize max_size d k v
  on_vector max_size d (Call.copy_from ys) v = of_list max_size ys >>= assign_copy v
  on_vector max_size d (Call.assign_from ys) v = assign_list max_size v ys

  fills-holding :
      (max_size : ℕ) (xs : List T)
      → length xs ≤ max_size
      → construct_each 0 xs ((holding {T = T} max_size []).slots)
        ≡ Outcome.done ((holding max_size xs).slots)
  fills-holding max_size xs l =
      ap (λ n. construct_each 0 xs (empty_slots n)) (minus_zero max_size)
      ∙ fill-holding max_size xs l

  pub assign_list-holding :
      (max_size : ℕ) (xs ys : List T)
      → length xs ≤ max_size
      → length ys ≤ max_size
      → assign_list max_size (holding max_size xs) ys ≡ Outcome.done (holding max_size ys)
  unfolding assign_list
  assign_list-holding max_size xs ys l m =
      rw (clear-holding max_size xs l, le→leb (length ys) max_size m, fills-holding max_size ys m)
        refl

  pub assign_copy-holding :
      (max_size : ℕ) (xs ys : List T)
      → length xs ≤ max_size
      → length ys ≤ max_size
      → assign_copy (holding max_size xs) (holding max_size ys) ≡ Outcome.done (holding max_size ys)
  unfolding assign_copy
  assign_copy-holding max_size xs ys l m =
      rw
        (
          clear-holding max_size xs l,
          copy_each-construct_each [] ys (empty_slots (max_size - length ys))
              ((holding {T = T} max_size []).slots),
          fills-holding max_size ys m,
        )
        refl

  pub length-copies : (n : ℕ) (d : T) → length (copies n d) ≡ n
  length-copies zero d = refl
  length-copies (suc n) d = ap suc (length-copies n d)

  pub first_of-copies :
      (k : ℕ) (d : T) (xs : List T)
      → length xs ≤ k
      → first_of k d xs ≡ xs ++ copies (k - length xs) d
  first_of-copies zero d [] l = refl
  first_of-copies zero d (x ∷ xs) l = ground arith
  first_of-copies (suc k) d [] l =
      ap (λ q. d ∷ q) (first_of-copies k d [] (omega arith) ∙ ap (λ n. copies n d) (minus_zero k))
      ∙ ap (λ n. copies n d) (sym (minus_zero (suc k)))
  first_of-copies (suc k) d (x ∷ xs) l =
      ap (λ q. x ∷ q) (first_of-copies k d xs (omega arith))
      ∙ ap (λ n. x ∷ (xs ++ copies n d)) (both_less k (length xs))
    where
      both_less : (a b : ℕ) → a - b ≡ suc a - suc b
      both_less a b = omega arith

  pub first_of-append : (d : T) (ys zs : List T) → first_of (length ys) d (ys ++ zs) ≡ ys
  first_of-append d [] zs = refl
  first_of-append d (y ∷ ys) zs = ap (λ q. y ∷ q) (first_of-append d ys zs)

  pub parted :
      (k : ℕ) (xs : List T)
      → k ≤ length xs
      → (ys : List T) × (zs : List T) × (xs ≡ ys ++ zs) × (k ≡ length ys)
  parted zero xs l = ([], xs, refl, refl)
  parted (suc k) [] l = ground arith
  parted (suc k) (x ∷ xs) l =
      let (ys, zs, e, f) = parted k xs (omega arith) in (x ∷ ys, zs, ap (λ q. x ∷ q) e, ap suc f)

  pub shrink-holding :
      (max_size : ℕ) (d : T) (ys zs : List T)
      → length (ys ++ zs) ≤ max_size
      → ltb (length ys) (length (ys ++ zs)) ≡ true
      → resize max_size d (length ys) (holding max_size (ys ++ zs))
        ≡ Outcome.done (holding max_size ys)
  unfolding resize
  shrink-holding max_size d ys zs l h =
      rw (le→leb (length ys) max_size (omega (arith, length-append ys zs)), h)
        (ap
            (λ n.
              destroy_each (length ys) n
                (map some (ys ++ zs) ++ empty_slots (max_size - length (ys ++ zs)))
              >>= ends)
            (rest_length _ (length ys) _ (length-append ys zs))
          ∙ ap (λ o. o >>= ends)
              (destroy_each-place ys zs (empty_slots (max_size - length (ys ++ zs))))
          ∙ ap (λ q. ends (map some ys ++ q))
              (sym (empty_slots-plus (length zs) (max_size - length (ys ++ zs))))
          ∙ ap Outcome.done (
              holding_of max_size (length ys) (length zs + (max_size - length (ys ++ zs))) ys refl
                (omega (arith, length-append ys zs))))
    where
      ends : List (Option T) → Outcome (StaticVector T)
      ends slots = Outcome.done (record { size = length ys; slots = slots })

      rest_length : (a b c : ℕ) → a ≡ b + c → a - b ≡ c
      rest_length a b c e = omega arith

  pub grow-holding :
      (max_size : ℕ) (d : T) (k : ℕ) (xs : List T)
      → k ≤ max_size
      → ltb k (length xs) ≡ false
      → resize max_size d k (holding max_size xs)
        ≡ Outcome.done (holding max_size (xs ++ copies (k - length xs) d))
  unfolding resize
  grow-holding max_size d k xs l h =
      rw (le→leb k max_size l, h)
        (ap (λ o. o >>= ends)
            (construct_copies-each (length xs) n d
              (map some xs ++ empty_slots (max_size - length xs)))
          ∙ ap (λ q. construct_each (length xs) (copies n d) (map some xs ++ q) >>= ends)
              (ap empty_slots (room (length xs) k max_size l (leb_of h) (length-copies n d))
                ∙ empty_slots-plus (length (copies n d)) (max_size - k))
          ∙ ap (λ o. o >>= ends) (construct_each-place xs (copies n d) (empty_slots (max_size - k)))
          ∙ ap Outcome.done (
              holding_of max_size k (max_size - k) (xs ++ copies n d)
                (fills (leb_of h) (length-append xs (copies n d)) (length-copies n d))
                (ap (λ q. max_size - q)
                  (fills (leb_of h) (length-append xs (copies n d)) (length-copies n d)))))
    where
      n : ℕ
      n = k - length xs

      ends : List (Option T) → Outcome (StaticVector T)
      ends slots = Outcome.done (record { size = k; slots = slots })

      leb_of : ltb k (length xs) ≡ false → length xs ≤ k
      leb_of h = ground arith

      room : (a b c : ℕ) {m : ℕ} → b ≤ c → a ≤ b → m ≡ b - a → c - a ≡ m + (c - b)
      room a b c p q e = omega arith

      fills : {a m t b : ℕ} → a ≤ b → t ≡ a + m → m ≡ b - a → b ≡ t
      fills p q e = omega arith
