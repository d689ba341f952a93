-- ===== src/Async/Ownership/Steps.antt =====
-- Steps that write one frame.
use uni.Prelude.{
  ℕ, ◌+◌, ◌≡◌, ◌≤◌, ◌<◌, refl, Bool, true, false, Option, none, some, List, if◌then◌else◌, ◌==◌,
  ==_iff, arith, inl, inr, Bool-cases,
}
use uni.Async.Ownership.{Promise, Frames, Owner, World, write}
use uni.Async.Ownership.Counting.{
  one, count, total, owned, refs, live, next_of, sum-write, IsHeld, below_next,
}

counts :
    (b : Bool) (x y m n before after : ℕ)
    → x + (if b then m else 0) ≡ y + (if b then n else 0)
    → y ≡ before
    → after + (if b then m else 0) ≡ before + (if b then n else 0)
    → x ≡ after
counts true x y m n before after p q r = omega arith
counts false x y m n before after p q r = omega arith

holds :
    (b : Bool) (x y m n own own' l wait wait' c d run leak o run' leak' o' : ℕ)
    → x + (if b then 1 else 0) ≡ y + (if b then l else 0)
    → own' + (if b then m else 0) ≡ own + (if b then n else 0)
    → wait' + c ≡ wait + d
    → y ≡ own + run + leak + wait + o
    → (if b then l + m else 0) + c + (run + leak + o)
      ≡ (if b then 1 + n else 0) + d + (run' + leak' + o')
    → x ≡ own' + run' + leak' + wait' + o'
holds true x y m n own own' l wait wait' c d run leak o run' leak' o' p q r s t = omega arith
holds false x y m n own own' l wait wait' c d run leak o run' leak' o' p q r s t = omega arith

module _ {E : Type 0} where
  abbrev pub world : World E → Frames E → List Owner → List ℕ → List ℕ → World E
  world w frames objects running leaked = record {
    frames = frames;
    next = w.next;
    objects = objects;
    running = running;
    leaked = leaked;
  }

  -- The frame `h` changes; what is needed at each address, where `b` tells whether it is `h`.
  abbrev pub Counts : Bool → Promise E → Option (Promise E) → ℕ → ℕ → Type 0
  Counts b old new before after =
      after + (if b then old.awaiter_count else 0) ≡ before + (if b then refs new else 0)

  abbrev pub Holds : ℕ → Bool → Promise E → Option (Promise E) → ℕ → ℕ → Type 0
  Holds a b old new before after =
      (if b then live new + owned old.awaiter_count else 0) + one a old.continuation + before
      ≡ (if b then 1 + owned (refs new) else 0) + one a (next_of new) + after

  -- What the write does to a count of the frame itself.
  write_count :
      (g : Option (Promise E) → ℕ) (f : Frames E) (h a : ℕ) (old : Promise E)
      (new : Option (Promise E))
      → f h ≡ some old
      → g (write f h new a) + (if a == h then g (some old) else 0)
        ≡ g (f a) + (if a == h then g new else 0)
  unfolding write
  write_count g f h a old new e = elim (Bool-cases (a == h)) [
    | inl q ↦ rw q (rw ((==_iff a h).0 q) (rw e (omega arith)))
    | inr q ↦ rw q refl
  ]

  pub write-IsHeld :
      (w : World E) (o o' : Option ℕ) (h : ℕ) (old : Promise E) (new : Option (Promise E))
      (objects : List Owner) (running leaked : List ℕ)
      → IsHeld w o
      → w.frames h ≡ some old
      → ((a : ℕ) → Counts (a == h) old new (total a w.objects) (total a objects))
      → ((a : ℕ)
          → Holds a
              (a == h)
              old
              new
              (count a w.running + count a w.leaked + one a o)
              (count a running + count a leaked + one a o'))
      → IsHeld (world w (write w.frames h new) objects running leaked) o'
  unfolding write
  write-IsHeld w o o' h old new objects running leaked c e p q = record {
    counted = λ a.
        counts (a == h) _ _ _ _ _ _ (write_count refs w.frames h a old new e) (c.counted a) (p a);
    held = λ a.
        holds (a == h) _ _ _ _ _ _ _ _ _ _ _ _ _ _ _ _ _ (write_count live w.frames h a old new e)
          (write_count (λ x. owned (refs x)) w.frames h a old new e)
          (sum-write (λ x. one a (next_of x)) w.frames h w.next (some old) new
            (below_next w o c h old e) e)
          (c.held a) (q a);
    fresh = λ a l. stays_free a (below_next w o c h old e) l (c.fresh a l);
  }
    where
      stays_free :
          (a : ℕ) → h < w.next → w.next ≤ a → w.frames a ≡ none → write w.frames h new a ≡ none
      stays_free a l m f = elim (Bool-cases (a == h)) [ inl b ↦ ground arith | inr b ↦ rw b f ]
