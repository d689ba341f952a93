-- ===== src/Async/Storage/Values.antt =====
-- The operations of handles that make, destroy and take values, and new blocks.
use uni.Prelude.{
  ℕ, ◌+◌, ◌≡◌, refl, sym, ap, ◌∙◌, Bool, true, false, Option, none, some, [], ◌∷◌, ◌++◌,
  if◌then◌else◌, ◌==◌, ==_iff, get_elem?, arith, inl, inr, Bool-cases, Option-cases,
}
use uni.Async.Storage.{
  Outcome, Blocks, Store, ◌>>=◌, write, load, handle, destroy_object, construct,
  make_unconstructed_shared_storage, make_constructed, emplace, destroy, use_count, with_blocks,
}
use uni.Async.Storage.Counts.{
  count, refs, IsCounted, count-append, held, Does, destroy_object-Does, replace-Does,
}
use uni.Async.Storage.Handles.{Sound, positive_of, Changes-IsCounted}

twice :
    {X : Type 0} (b : Bool) (x y z : X)
    → (if b then x else (if b then y else z)) ≡ (if b then x else z)
twice true x y z = refl
twice false x y z = refl

bind_assoc :
    {A B C : Type 0} (m : Outcome A) (f : A → Outcome B) (g : B → Outcome C)
    → ◌≡◌ {A = Outcome C} ((m >>= f) >>= g) (m >>= λ a. f a >>= g)
bind_assoc (Outcome.done a) f g = refl
bind_assoc Outcome.refused f g = refl
bind_assoc Outcome.fault f g = refl

module _ {T : Type 0} where
  -- A block at the next address, with one new handle.
  fresh-IsCounted :
      (s : Store T) (new : Blocks T) (v : Option T)
      → IsCounted s
      → ((j : ℕ)
          → new j
            ≡ (if j == s.next then some (record { strong_count = 1; value = v }) else s.blocks j))
      → IsCounted
          (record { blocks = new; next = s.next + 1; handles = s.handles ++ some s.next ∷ [] })
  fresh-IsCounted s new v c e = record {
    counted = λ j. elim (Bool-cases (j == s.next)) [
      | inl h ↦ rw (e j, h) (counted_new j h)
      | inr h ↦
          rw (e j, h)
            (c.counted j ∙ sym (count-append j s.handles (some s.next ∷ []) ∙ rw h (omega arith)))
    ];
    positive = λ j. elim (Bool-cases (j == s.next)) [
      | inl h ↦ rw (e j, h) (omega arith)
      | inr h ↦ rw (e j, h) (c.positive j)
    ];
    fresh = λ j l. elim (Bool-cases (j == s.next)) [
      | inl h ↦ ground arith
      | inr h ↦ rw (e j, h) (c.fresh j (omega arith))
    ];
  }
    where
      counted_new : (j : ℕ) → (j == s.next) ≡ true → 1 ≡ count j (s.handles ++ some s.next ∷ [])
      counted_new j h = sym (
          count-append j s.handles (some s.next ∷ [])
          ∙ rw h (omega (arith, c.counted j, ap refs (c.fresh j (ground arith)))))

  pub make_unconstructed-Sound :
      (s : Store T) → IsCounted s → Sound (make_unconstructed_shared_storage s)
  unfolding make_unconstructed_shared_storage write
  make_unconstructed-Sound s c = fresh-IsCounted s _ none c (λ j. refl)

  pub make_constructed-Sound : (s : Store T) (v : T) → IsCounted s → Sound (make_constructed v s)
  unfolding make_constructed construct load write
  make_constructed-Sound s v c =
      rw ((==_iff s.next s.next).1 refl)
        (fresh-IsCounted s _ (some v) c (λ j. twice (j == s.next) _ _ _))

  -- A step on the block of a handle that leaves the counts as they are.
  keep-Sound :
      (s : Store T) (step : Outcome (Blocks T)) (a : ℕ)
      → IsCounted s
      → Does step s.blocks a 0 0
      → Sound (step >>= λ blocks. Outcome.done (with_blocks s blocks))
  keep-Sound s step a c (new, e, d) = rw e (Changes-IsCounted s new s.handles a 0 0 c d (λ j. refl))

  pub destroy-Sound : (s : Store T) (i : ℕ) → IsCounted s → Sound (destroy i s)
  unfolding destroy handle
  destroy-Sound s i c = elim (Option-cases (get_elem? s.handles i)) [
    | inl h ↦ rw h tt
    | inr (none, h) ↦ rw h c
    | inr (some a, h) ↦
        let (block, b) = held s c i a h in
        rw h (
          keep-Sound s (destroy_object a s.blocks) a c
            (destroy_object-Does s.blocks a block b (positive_of s c a block b)))
  ]

  pub emplace-Sound : (s : Store T) (i : ℕ) (v : T) → IsCounted s → Sound (emplace i v s)
  unfolding emplace handle
  emplace-Sound s i v c = elim (Option-cases (get_elem? s.handles i)) [
    | inl h ↦ rw h tt
    | inr (none, h) ↦ rw h tt
    | inr (some a, h) ↦
        let (block, b) = held s c i a h in
        rw h (
          rw
            (bind_assoc (destroy_object a s.blocks) (construct a v)
              (λ blocks. Outcome.done (with_blocks s blocks)))
            at
            (keep-Sound s (destroy_object a s.blocks >>= construct a v) a c
              (replace-Does s.blocks a v block b (positive_of s c a block b))))
  ]

  -- Whatever the handle, its use_count is the number of handles with the same block.
  pub use_count-count :
      (s : Store T) (i a : ℕ)
      → IsCounted s
      → get_elem? s.handles i ≡ some (some a)
      → use_count i s ≡ Outcome.done (count a s.handles)
  unfolding use_count handle load
  use_count-count s i a c h =
      let (block, b) = held s c i a h in rw (h, b) (ap Outcome.done (rw b at (c.counted a)))
