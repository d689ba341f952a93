-- ===== src/Async/Storage/Handles.antt =====
-- The operations of handles on counted blocks.
use uni.Prelude.{
  ℕ, zero, suc, ◌+◌, ◌≡◌, ◌<◌, refl, sym, ◌∙◌, Bool, true, false, Option, none, some, List, [], ◌∷◌,
  ◌++◌, if◌then◌else◌, ◌==◌, get_elem?, arith, inl, inr, Bool-cases, Option-cases,
}
use uni.Async.Storage.{
  Outcome, ControlBlock, Blocks, Store, ◌>>=◌, set_slot, handle, add_ref_of, copy_construct,
  move_construct, reset, copy_assign, move_assign,
}
use uni.Async.Storage.Counts.{
  one, count, IsCounted, count-append, count-set_slot, held, Changes, add_ref-Does,
  release_ref-Does,
}

-- The outcome is no fault, and a state reached is counted.
abbrev pub Sound : {T : Type 0} → Outcome (Store T) → Type 0
Sound (Outcome.done s) = IsCounted s
Sound Outcome.refused = Unit
Sound Outcome.fault = ⊥

pub zero_of : (b : Bool) → ◌≡◌ {A = ℕ} (if b then 0 else 0) 0
zero_of true = refl
zero_of false = refl

get-set_slot :
    (i : ℕ) (hs : List (Option ℕ)) (old new : Option ℕ)
    → get_elem? hs i ≡ some old
    → get_elem? (set_slot i new hs) i ≡ some new
get-set_slot i [] old new e = cc
get-set_slot zero (h ∷ hs) old new e = refl
get-set_slot (suc i) (h ∷ hs) old new e = get-set_slot i hs old new e

get-set_slot_apart :
    (i j : ℕ) (hs : List (Option ℕ)) (new : Option ℕ)
    → (i == j) ≡ false
    → get_elem? (set_slot j new hs) i ≡ get_elem? hs i
get-set_slot_apart i j [] new e = refl
get-set_slot_apart zero zero (h ∷ hs) new e = cc
get-set_slot_apart zero (suc j) (h ∷ hs) new e = refl
get-set_slot_apart (suc i) zero (h ∷ hs) new e = refl
get-set_slot_apart (suc i) (suc j) (h ∷ hs) new e = get-set_slot_apart i j hs new (ground arith)

module _ {T : Type 0} where
  abbrev pub with_handles : Store T → Blocks T → List (Option ℕ) → Store T
  with_handles s blocks handles = record { blocks = blocks; next = s.next; handles = handles }

  pub Changes-IsCounted :
      (s : Store T) (new : Blocks T) (hs : List (Option ℕ)) (a gained lost : ℕ)
      → IsCounted s
      → Changes s.blocks new a gained lost
      → ((j : ℕ)
          → count j hs + (if j == a then lost else 0)
            ≡ count j s.handles + (if j == a then gained else 0))
      → IsCounted (with_handles s new hs)
  Changes-IsCounted s new hs a gained lost c d e = record {
    counted = λ j. omega (arith, c.counted j, d.counts j, e j);
    positive = d.stays_positive c.positive;
    fresh = λ j l. d.stays_free j (c.fresh j l);
  }

  same-IsCounted :
      (s : Store T) (hs : List (Option ℕ))
      → IsCounted s
      → ((j : ℕ) → count j hs ≡ count j s.handles)
      → IsCounted (with_handles s s.blocks hs)
  same-IsCounted s hs c e = record {
    counted = λ j. c.counted j ∙ sym (e j);
    positive = c.positive;
    fresh = c.fresh;
  }

  pub positive_of :
      (s : Store T)
      → IsCounted s
      → (a : ℕ) (block : ControlBlock T) → s.blocks a ≡ some block
      → 0 < block.strong_count
  positive_of s c a block e = rw e at (c.positive a)

  pub reset-done :
      (s : Store T) (i : ℕ) (old : Option ℕ)
      → IsCounted s
      → get_elem? s.handles i ≡ some old
      → (new : Blocks T) × (reset i s
          ≡ Outcome.done (with_handles s new (set_slot i none s.handles)))
        × IsCounted (with_handles s new (set_slot i none s.handles))
  unfolding reset handle
  reset-done s i none c h = (
    s.blocks,
    rw h refl,
    same-IsCounted s _ c (λ j. omega (arith, count-set_slot j i s.handles none none h)),
  )
  reset-done s i (some a) c h =
      let (block, b) = held s c i a h in
      let (new, e, d) = release_ref-Does s.blocks a block b (positive_of s c a block b) in
      (
        new,
        rw (h, e) refl,
        Changes-IsCounted s new _ a 0 1 c d
            (λ j. omega (arith, zero_of (j == a), count-set_slot j i s.handles (some a) none h)),
      )

  pub reset-Sound : (s : Store T) (i : ℕ) → IsCounted s → Sound (reset i s)
  reset-Sound s i c = elim (Option-cases (get_elem? s.handles i)) [
    | inl h ↦ unfold reset in unfold handle in rw h tt
    | inr (old, h) ↦ let (new, e, d) = reset-done s i old c h in rw e d
  ]

  -- The outcome of a step that ends with the reference of a handle put into other handles.
  add-Sound :
      (s : Store T) (ctrl : Option ℕ) (hs : List (Option ℕ)) (j : ℕ)
      → IsCounted s
      → get_elem? s.handles j ≡ some ctrl
      → ((a : ℕ) → count a hs ≡ count a s.handles + one a ctrl)
      → Sound (add_ref_of ctrl s.blocks >>= λ blocks. Outcome.done (with_handles s blocks hs))
  add-Sound s none hs j c h e = same-IsCounted s hs c (λ a. omega (arith, e a))
  add-Sound s (some a) hs j c h e =
      let (block, b) = held s c j a h in
      let (new, f, d) = add_ref-Does s.blocks a block b in
      rw f (Changes-IsCounted s new hs a 1 0 c d (λ j. omega (arith, zero_of (j == a), e j)))

  pub copy_construct-Sound : (s : Store T) (j : ℕ) → IsCounted s → Sound (copy_construct j s)
  unfolding copy_construct handle
  copy_construct-Sound s j c = elim (Option-cases (get_elem? s.handles j)) [
    | inl h ↦ rw h tt
    | inr (ctrl, h) ↦ rw h (
        add-Sound s ctrl (s.handles ++ ctrl ∷ []) j c h
          (λ a. omega (arith, count-append a s.handles (ctrl ∷ []))))
  ]

  pub move_construct-Sound : (s : Store T) (j : ℕ) → IsCounted s → Sound (move_construct j s)
  unfolding move_construct handle
  move_construct-Sound s j c = elim (Option-cases (get_elem? s.handles j)) [
    | inl h ↦ rw h tt
    | inr (ctrl, h) ↦ rw h (
        same-IsCounted s (set_slot j none s.handles ++ ctrl ∷ []) c (λ a. omega (
          arith,
          count-append a (set_slot j none s.handles) (ctrl ∷ []),
          count-set_slot a j s.handles ctrl none h,
        )))
  ]

  pub copy_assign-Sound : (s : Store T) (i j : ℕ) → IsCounted s → Sound (copy_assign i j s)
  unfolding copy_assign handle
  copy_assign-Sound s i j c = elim (Bool-cases (i == j)) [
    | inl q ↦ rw q c
    | inr q ↦ elim (Option-cases (get_elem? s.handles i)) [
      | inl h ↦ rw q (unfold reset in rw h tt)
      | inr (old, h) ↦
          let (new, e, d) = reset-done s i old c h in
          let hs = set_slot i none s.handles in
          rw (q, e)
            (elim (Option-cases (get_elem? hs j)) [
              | inl g ↦ rw g tt
              | inr (ctrl, g) ↦ rw g (
                  add-Sound (with_handles s new hs) ctrl (set_slot i ctrl hs) j d g (λ a.
                    omega (
                      arith,
                      count-set_slot a i hs none ctrl (get-set_slot i s.handles old none h),
                    )))
            ])
    ]
  ]

  pub move_assign-Sound : (s : Store T) (i j : ℕ) → IsCounted s → Sound (move_assign i j s)
  unfolding move_assign handle
  move_assign-Sound s i j c = elim (Bool-cases (i == j)) [
    | inl q ↦ rw q c
    | inr q ↦ elim (Option-cases (get_elem? s.handles i)) [
      | inl h ↦ rw q (unfold reset in rw h tt)
      | inr (old, h) ↦
          let (new, e, d) = reset-done s i old c h in
          let hs = set_slot i none s.handles in
          rw (q, e)
            (elim (Option-cases (get_elem? hs j)) [
              | inl g ↦ rw g tt
              | inr (ctrl, g) ↦ rw g (
                  same-IsCounted (with_handles s new hs) (set_slot i ctrl (set_slot j none hs)) d
                    (λ a. omega (
                      arith,
                      count-set_slot a j hs ctrl none g,
                      count-set_slot a i (set_slot j none hs) none ctrl
                          (get-set_slot_apart i j hs none q ∙ get-set_slot i s.handles old none h),
                    )))
            ])
    ]
  ]
