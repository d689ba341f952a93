-- ===== src/Async/Storage/Counts.antt =====
-- The reference counts of the blocks against the handles that hold their addresses.
use uni.Prelude.{
  ℕ, zero, suc, ◌+◌, ◌-◌, ◌≡◌, ◌≤◌, ◌<◌, refl, sym, ap, ◌∙◌, Option, none, some, List, [], ◌∷◌,
  ◌++◌, if◌then◌else◌, ◌==◌, ==_iff, get_elem?, arith, inl, inr, Bool-cases, Option-cases,
}
use uni.Async.Storage.{
  Outcome, ControlBlock, Blocks, Store, ◌>>=◌, write, set_slot, load, add_ref, release_ref,
  destroy_object, construct,
}

abbrev pub one : ℕ → Option ℕ → ℕ
one a none = 0
one a (some k) = if a == k then 1 else 0

abbrev pub count : ℕ → List (Option ℕ) → ℕ
count a [] = 0
count a (h ∷ hs) = one a h + count a hs

abbrev pub refs : {T : Type 0} → Option (ControlBlock T) → ℕ
refs none = 0
refs (some block) = block.strong_count

abbrev pub Positive : {T : Type 0} → Option (ControlBlock T) → Type 0
Positive none = Unit
Positive (some block) = 0 < block.strong_count

-- Every block is counted, and a block without a reference is deleted.
pub record IsCounted {T : Type 0} (s : Store T) : Type 0 where
  pub counted : (a : ℕ) → refs (s.blocks a) ≡ count a s.handles
  pub positive : (a : ℕ) → Positive (s.blocks a)
  pub fresh : (a : ℕ) → s.next ≤ a → s.blocks a ≡ none

pub count-append : (a : ℕ) (hs ks : List (Option ℕ)) → count a (hs ++ ks) ≡ count a hs + count a ks
count-append a [] ks = omega arith
count-append a (h ∷ hs) ks = omega (arith, count-append a hs ks)

pub count-set_slot :
    (a i : ℕ) (hs : List (Option ℕ)) (old new : Option ℕ)
    → get_elem? hs i ≡ some old
    → count a (set_slot i new hs) + one a old ≡ count a hs + one a new
count-set_slot a i [] old new e = cc
count-set_slot a zero (h ∷ hs) old new e = rw (some_same h old e) (omega arith)
  where
    some_same : (x y : Option ℕ) → some x ≡ some y → x ≡ y
    some_same x y e = cc
count-set_slot a (suc i) (h ∷ hs) old new e = omega (arith, count-set_slot a i hs old new e)

count-get_elem? : (a i : ℕ) (hs : List (Option ℕ)) → get_elem? hs i ≡ some (some a) → 0 < count a hs
count-get_elem? a i [] e = cc
count-get_elem? a zero (h ∷ hs) e =
    rw (some_same h (some a) e) (rw ((==_iff a a).1 refl) (omega arith))
  where
    some_same : (x y : Option ℕ) → some x ≡ some y → x ≡ y
    some_same x y e = cc
count-get_elem? a (suc i) (h ∷ hs) e = omega (arith, count-get_elem? a i hs e)

module _ {T : Type 0} where
  -- A block that a handle points to is there.
  pub held :
      (s : Store T)
      → IsCounted s
      → (i a : ℕ) → get_elem? s.handles i ≡ some (some a)
      → (block : ControlBlock T) × (s.blocks a ≡ some block)
  held s c i a e = elim (Option-cases (s.blocks a)) [
    | inl h ↦ zero_held (rw h at (c.counted a)) (count-get_elem? a i s.handles e)
    | inr (block, h) ↦ (block, h)
  ]
    where
      zero_held : {n : ℕ} {X : Type 0} → 0 ≡ n → 0 < n → X
      zero_held p q = ground arith

  -- What a step on the blocks does to the count at one address.
  pub record Changes (old new : Blocks T) (a gained lost : ℕ) : Type 0 where
    pub counts :
        (j : ℕ)
        → refs (new j) + (if j == a then lost else 0)
          ≡ refs (old j) + (if j == a then gained else 0)
    pub stays_positive : ((j : ℕ) → Positive (old j)) → (j : ℕ) → Positive (new j)
    pub stays_free : (j : ℕ) → old j ≡ none → new j ≡ none

  -- A step that goes through.
  abbrev pub Does : Outcome (Blocks T) → Blocks T → ℕ → ℕ → ℕ → Type 0
  Does step old a gained lost =
      (new : Blocks T) × (step ≡ Outcome.done new) × Changes old new a gained lost

  write-Changes :
      (old : Blocks T) (a : ℕ) (block : ControlBlock T) (new : Option (ControlBlock T))
      (gained lost : ℕ)
      → old a ≡ some block
      → refs new + lost ≡ block.strong_count + gained
      → Positive new
      → Changes old (write old a new) a gained lost
  unfolding write
  write-Changes old a block new gained lost e q p = record {
    counts = λ j. elim (Bool-cases (j == a)) [
      | inl h ↦ rw h (rw ((==_iff j a).0 h) (rw e q))
      | inr h ↦ rw h refl
    ];
    stays_positive = λ ps j. elim (Bool-cases (j == a)) [ inl h ↦ rw h p | inr h ↦ rw h (ps j) ];
    stays_free = λ j f. elim (Bool-cases (j == a)) [
      | inl h ↦ none_some (sym f ∙ ap old ((==_iff j a).0 h) ∙ e)
      | inr h ↦ rw h f
    ];
  }
    where
      none_some : {b : ControlBlock T} {X : Type 0} → none ≡ some b → X
      none_some e = cc

  pub add_ref-Does :
      (old : Blocks T) (a : ℕ) (block : ControlBlock T)
      → old a ≡ some block
      → Does (add_ref a old) old a 1 0
  unfolding add_ref load
  add_ref-Does old a block e = (
    write old a (some (record { strong_count = block.strong_count + 1; value = block.value })),
    rw e refl,
    write-Changes old a block _ 1 0 e (omega arith) (omega arith),
  )

  pub release_ref-Does :
      (old : Blocks T) (a : ℕ) (block : ControlBlock T)
      → old a ≡ some block
      → 0 < block.strong_count
      → Does (release_ref a old) old a 0 1
  unfolding release_ref load
  release_ref-Does old a block e p = elim (Bool-cases (block.strong_count == 1)) [
    | inl h ↦
        (write old a none, rw (e, h) refl, write-Changes old a block none 0 1 e (ground arith) tt)
    | inr h ↦ (
      write old a (some (record { strong_count = block.strong_count - 1; value = block.value })),
      rw (e, h) refl,
      write-Changes old a block _ 0 1 e (ground arith) (ground arith),
    )
  ]

  pub destroy_object-Does :
      (old : Blocks T) (a : ℕ) (block : ControlBlock T)
      → old a ≡ some block
      → 0 < block.strong_count
      → Does (destroy_object a old) old a 0 0
  unfolding destroy_object load
  destroy_object-Does old a block e p = (
    write old a (some (record { strong_count = block.strong_count; value = none })),
    rw e refl,
    write-Changes old a block _ 0 0 e (omega arith) p,
  )

  construct-Does :
      (old : Blocks T) (a : ℕ) (new : T) (block : ControlBlock T)
      → old a ≡ some block
      → block.value ≡ none
      → 0 < block.strong_count
      → Does (construct a new old) old a 0 0
  unfolding construct load
  construct-Does old a new block e n p = (
    write old a (some (record { strong_count = block.strong_count; value = some new })),
    rw (e, n) refl,
    write-Changes old a block _ 0 0 e (omega arith) p,
  )

  abbrev emptied : ControlBlock T → ControlBlock T
  emptied block = record { strong_count = block.strong_count; value = none }

  write_same : (old : Blocks T) (a : ℕ) (new : Option (ControlBlock T)) → write old a new a ≡ new
  unfolding write
  write_same old a new = rw ((==_iff a a).1 refl) refl

  Changes-trans :
      (old mid new : Blocks T) (a : ℕ)
      → Changes old mid a 0 0
      → Changes mid new a 0 0
      → Changes old new a 0 0
  Changes-trans old mid new a c d = record {
    counts = λ j. d.counts j ∙ c.counts j;
    stays_positive = λ p j. d.stays_positive (c.stays_positive p) j;
    stays_free = λ j f. d.stays_free j (c.stays_free j f);
  }

  -- emplace: the old value is destroyed, if there is one, and the new value made.
  pub replace-Does :
      (old : Blocks T) (a : ℕ) (new : T) (block : ControlBlock T)
      → old a ≡ some block
      → 0 < block.strong_count
      → Does (destroy_object a old >>= construct a new) old a 0 0
  unfolding destroy_object load
  replace-Does old a new block e p =
      let (final, f, c) =
        construct-Does (write old a (some (emptied block))) a new (emptied block)
          (write_same old a (some (emptied block))) refl p in
      (
        final,
        rw e f,
        Changes-trans old (write old a (some (emptied block))) final a
            (write-Changes old a block (some (emptied block)) 0 0 e (omega arith) p) c,
      )
