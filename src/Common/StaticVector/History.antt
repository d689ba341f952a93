-- ===== src/Common/StaticVector/History.antt =====
-- Any sequence of calls on a static_vector.
use uni.Prelude.{
  ℕ, zero, suc, ◌+◌, ◌-◌, ◌≡◌, ◌≤◌, ◌<◌, refl, sym, ap, ◌∙◌, true, false, Option, none, some, List,
  [], ◌∷◌, ◌++◌, map, length, length-append, get_elem?, ltb, ltb→lt, leb, leb→le, arith, inl, inr,
  Bool-cases, Option-cases,
}
use uni.Prelude.Outcome.{Outcome, ◌>>=◌, or_refused}
use uni.Common.StaticVector.{
  StaticVector, empty_slots, of_list, assign_copy, assign_list, at_pos, object_at, push_back,
  pop_back, resize,
}
use uni.Common.StaticVector.Refines.{
  holding, outcome_of, of_list-holding, push_back-holding, pop_back-holding, clear-holding,
}
use uni.Common.StaticVector.Calls.{
  Call, on_list, on_vector, drop_last, first_of, assign_list-holding, assign_copy-holding,
  first_of-copies, first_of-append, parted, shrink-holding, grow-holding,
}

module _ {T : Type 0} where
  abbrev pub after : Option (List T) → (List T → Option (List T)) → Option (List T)
  after none f = none
  after (some ys) f = f ys

  abbrev pub IsBounded : ℕ → Option (List T) → Type 0
  IsBounded max_size none = Unit
  IsBounded max_size (some xs) = length xs ≤ max_size

  -- The call on the vector does what it does on the list, and the list stays short enough.
  abbrev Agrees : ℕ → Outcome (StaticVector T) → Option (List T) → Type 0
  Agrees max_size o l = (o ≡ outcome_of max_size l) × IsBounded max_size l

  drop_last-last : (x : T) (xs : List T) → (y : T) × (x ∷ xs ≡ drop_last x xs ++ y ∷ [])
  drop_last-last x [] = (x, refl)
  drop_last-last x (z ∷ xs) = let (y, e) = drop_last-last z xs in (y, ap (λ q. x ∷ q) e)

  length-first_of : (k : ℕ) (d : T) (xs : List T) → length (first_of k d xs) ≡ k
  length-first_of zero d xs = refl
  length-first_of (suc k) d [] = ap suc (length-first_of k d [])
  length-first_of (suc k) d (x ∷ xs) = ap suc (length-first_of k d xs)

  module _ (max_size : ℕ) (d : T) where
    push-Agrees :
        (x : T) (xs : List T)
        → length xs ≤ max_size
        → Agrees max_size
            (on_vector max_size d (Call.push x) (holding max_size xs))
            (on_list max_size d (Call.push x) xs)
    push-Agrees x xs l = elim (Bool-cases (ltb (length xs) max_size)) [
      | inl h ↦ rw h (
        push_back-holding max_size xs x (ltb→lt (length xs) max_size h),
        omega (arith, length-append xs (x ∷ []), ltb→lt (length xs) max_size h),
      )
      | inr h ↦ rw h (unfold push_back in rw h refl, tt)
    ]

    pop-Agrees :
        (xs : List T)
        → length xs ≤ max_size
        → Agrees max_size
            (on_vector max_size d Call.pop (holding max_size xs))
            (on_list max_size d Call.pop xs)
    pop-Agrees [] l = (unfold pop_back in refl, tt)
    pop-Agrees (x ∷ xs) l =
        let (y, e) = drop_last-last x xs in
        (
          ap (λ q. pop_back (holding max_size q)) e
              ∙ pop_back-holding max_size (drop_last x xs) y
                  (shorter (ap length e) (length-append (drop_last x xs) (y ∷ [])) l),
          shorter_still (ap length e) (length-append (drop_last x xs) (y ∷ [])) l,
        )
      where
        shorter : {a b c m : ℕ} → a ≡ b → b ≡ c + 1 → a ≤ m → c < m
        shorter p q r = omega arith

        shorter_still : {a b c m : ℕ} → a ≡ b → b ≡ c + 1 → a ≤ m → c ≤ m
        shorter_still p q r = omega arith

    resize-Agrees :
        (k : ℕ) (xs : List T)
        → length xs ≤ max_size
        → Agrees max_size
            (on_vector max_size d (Call.resize_to k) (holding max_size xs))
            (on_list max_size d (Call.resize_to k) xs)
    resize-Agrees k xs l = elim (Bool-cases (leb k max_size)) [
      | inr h ↦ rw h (unfold resize in rw h refl, tt)
      | inl h ↦ rw h (
        elim (Bool-cases (ltb k (length xs))) [
          | inl g ↦ shrinks (parted k xs (below g)) g
          | inr g ↦
              grow-holding max_size d k xs (leb→le k max_size h) g
              ∙ ap (λ q. Outcome.done (holding max_size q)) (sym (first_of-copies k d xs (above g)))
        ],
        bounded (length-first_of k d xs) (leb→le k max_size h),
      )
    ]
      where
        below : ltb k (length xs) ≡ true → k ≤ length xs
        below g = ground arith

        above : ltb k (length xs) ≡ false → length xs ≤ k
        above g = ground arith

        bounded : {a b c : ℕ} → a ≡ b → b ≤ c → a ≤ c
        bounded p q = omega arith

        shrinks :
            (ys : List T) × (zs : List T) × (xs ≡ ys ++ zs) × (k ≡ length ys)
            → ltb k (length xs) ≡ true
            → resize max_size d k (holding max_size xs)
              ≡ Outcome.done (holding max_size (first_of k d xs))
        shrinks (ys, zs, e, f) g =
            rw (e, f)
              (shrink-holding max_size d ys zs (rw e at l) (rw (e, f) at g)
                ∙ ap (λ q. Outcome.done (holding max_size q)) (sym (first_of-append d ys zs)))

    copy-Agrees :
        (ys xs : List T)
        → length xs ≤ max_size
        → Agrees max_size
            (on_vector max_size d (Call.copy_from ys) (holding max_size xs))
            (on_list max_size d (Call.copy_from ys) xs)
    copy-Agrees ys xs l = elim (Bool-cases (leb (length ys) max_size)) [
      | inr h ↦ rw h (unfold of_list in rw h refl, tt)
      | inl h ↦ rw h (
        ap (λ o. o >>= assign_copy (holding max_size xs))
              (of_list-holding max_size ys (leb→le (length ys) max_size h))
            ∙ assign_copy-holding max_size xs ys l (leb→le (length ys) max_size h),
        leb→le (length ys) max_size h,
      )
    ]

    assign-Agrees :
        (ys xs : List T)
        → length xs ≤ max_size
        → Agrees max_size
            (on_vector max_size d (Call.assign_from ys) (holding max_size xs))
            (on_list max_size d (Call.assign_from ys) xs)
    assign-Agrees ys xs l = elim (Bool-cases (leb (length ys) max_size)) [
      | inr h ↦ rw h (unfold assign_list in rw (clear-holding max_size xs l, h) refl, tt)
      | inl h ↦ rw h (
        assign_list-holding max_size xs ys l (leb→le (length ys) max_size h),
        leb→le (length ys) max_size h,
      )
    ]

    on_vector-Agrees :
        (call : Call T) (xs : List T)
        → length xs ≤ max_size
        → Agrees max_size
            (on_vector max_size d call (holding max_size xs))
            (on_list max_size d call xs)
    on_vector-Agrees (Call.push x) xs l = push-Agrees x xs l
    on_vector-Agrees Call.pop xs l = pop-Agrees xs l
    on_vector-Agrees Call.remove_all xs l = (clear-holding max_size xs l, omega arith)
    on_vector-Agrees (Call.resize_to k) xs l = resize-Agrees k xs l
    on_vector-Agrees (Call.copy_from ys) xs l = copy-Agrees ys xs l
    on_vector-Agrees (Call.assign_from ys) xs l = assign-Agrees ys xs l

    abbrev pub run_calls : List (Call T) → StaticVector T → Outcome (StaticVector T)
    run_calls [] v = Outcome.done v
    run_calls (call ∷ calls) v = do v' ← on_vector max_size d call v; run_calls calls v'

    abbrev pub on_lists : List (Call T) → List T → Option (List T)
    on_lists [] xs = some xs
    on_lists (call ∷ calls) xs = after (on_list max_size d call xs) (on_lists calls)

    run_calls-from :
        (calls : List (Call T)) (xs : List T)
        → length xs ≤ max_size
        → Agrees max_size (run_calls calls (holding max_size xs)) (on_lists calls xs)
    run_calls-from [] xs l = (refl, l)
    run_calls-from (call ∷ calls) xs l = elim (Option-cases (on_list max_size d call xs)) [
      | inl h ↦
          rw h (ap (λ o. o >>= run_calls calls) (on_vector-Agrees call xs l).0 ∙ rw h refl, tt)
      | inr (ys, h) ↦
          let step = on_vector-Agrees call xs l in
          rw h (
            ap (λ o. o >>= run_calls calls) step.0
                ∙ rw h (run_calls-from calls ys (rw h at step.1)).0,
            (run_calls-from calls ys (rw h at step.1)).1,
          )
    ]

    -- Whatever calls of push_back, pop_back, clear, resize, copy assignment and assignment from a
    -- list are made on an empty vector, the vector holds what the same calls make of an empty list
    -- that refuses to grow beyond the capacity, and a call is refused on one exactly when it is on
    -- the other: no object is made over a living one or destroyed twice, and the size never exceeds
    -- the capacity.
    pub run_calls-on_lists :
        (calls : List (Call T))
        → (run_calls calls (holding max_size []) ≡ outcome_of max_size (on_lists calls []))
          × IsBounded max_size (on_lists calls [])
    run_calls-on_lists calls = run_calls-from calls [] (omega arith)

  object_at-within :
      (pos : ℕ) (xs : List T) (more : List (Option T))
      → ltb pos (length xs) ≡ true
      → object_at pos (map some xs ++ more) ≡ or_refused (get_elem? xs pos)
  unfolding object_at
  object_at-within pos [] more h = ground arith
  object_at-within zero (x ∷ xs) more h = refl
  object_at-within (suc pos) (x ∷ xs) more h = object_at-within pos xs more (less pos (length xs) h)
    where
      less : (a b : ℕ) → ltb (suc a) (suc b) ≡ true → ltb a b ≡ true
      less a b h = ground arith

  get_elem?_beyond : (pos : ℕ) (xs : List T) → ltb pos (length xs) ≡ false → get_elem? xs pos ≡ none
  get_elem?_beyond pos [] h = refl
  get_elem?_beyond zero (x ∷ xs) h = ground arith
  get_elem?_beyond (suc pos) (x ∷ xs) h = get_elem?_beyond pos xs (less pos (length xs) h)
    where
      less : (a b : ℕ) → ltb (suc a) (suc b) ≡ false → ltb a b ≡ false
      less a b h = ground arith

  -- The element at a position of a vector, which is refused from the size on, is that of the list.
  pub at_pos-get_elem? :
      (max_size : ℕ) (xs : List T) (pos : ℕ)
      → at_pos pos (holding max_size xs) ≡ or_refused (get_elem? xs pos)
  unfolding at_pos
  at_pos-get_elem? max_size xs pos = elim (Bool-cases (ltb pos (length xs))) [
    | inl h ↦ rw h (object_at-within pos xs (empty_slots (max_size - length xs)) h)
    | inr h ↦ rw (h, get_elem?_beyond pos xs h) refl
  ]
