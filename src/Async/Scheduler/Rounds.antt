-- ===== src/Async/Scheduler/Rounds.antt =====
-- When run_all comes to an end.
use uni.Prelude.{
  ℕ, zero, suc, ◌≡◌, ◌≤◌, ◌<◌, refl, ap, ◌∙◌, Bool, true, false, none, some, List, [], ◌∷◌, ◌++◌,
  is_empty, if◌then◌else◌, arith, inl, inr, Bool-cases,
}
use mathlib.Core.List.{reverse, reverse_aux}
use uni.Async.Scheduler.{DebugScheduler, Effect, resume_each, run, run_until_done, run_all}

if_true : {A : Type 0} (b : Bool) (x y : A) → b ≡ true → (if b then x else y) ≡ x
if_true true x y e = refl
if_true false x y e = cc

if_false : {A : Type 0} (b : Bool) (x y : A) → b ≡ false → (if b then x else y) ≡ y
if_false false x y e = refl
if_false true x y e = cc

no_elements : {A : Type 0} (xs : List A) → is_empty xs ≡ true → xs ≡ []
no_elements [] h = refl
no_elements (x ∷ xs) h = cc

-- All tasks of a list have a rank below a bound.
abbrev pub AllBelow : {Task : Type 0} → (Task → ℕ) → ℕ → List Task → Type 0
AllBelow rank n [] = Unit
AllBelow rank n (task ∷ tasks) = (rank task < n) × AllBelow rank n tasks

module _ {Task : Type 0} (rank : Task → ℕ) where
  AllBelow-append :
      (n : ℕ) (xs ys : List Task)
      → AllBelow rank n xs
      → AllBelow rank n ys
      → AllBelow rank n (xs ++ ys)
  AllBelow-append n [] ys a b = b
  AllBelow-append n (x ∷ xs) ys a b = (a.0, AllBelow-append n xs ys a.1 b)

  AllBelow-reverse_aux :
      (n : ℕ) (xs ys : List Task)
      → AllBelow rank n xs
      → AllBelow rank n ys
      → AllBelow rank n (reverse_aux xs ys)
  AllBelow-reverse_aux n [] ys a b = b
  AllBelow-reverse_aux n (x ∷ xs) ys a b = AllBelow-reverse_aux n xs (x ∷ ys) a.1 (a.0, b)

  AllBelow-reverse : (n : ℕ) (xs : List Task) → AllBelow rank n xs → AllBelow rank n (reverse xs)
  AllBelow-reverse n xs a = AllBelow-reverse_aux n xs [] a tt

module _ {Task World : Type 0} (resume : Task → World → Effect Task World) where
  run-paused : (s : DebugScheduler Task) (w : World) → s.blocked ≡ true → run resume s w ≡ (s, w)
  unfolding run
  run-paused s w b = if_true (s.blocked) _ _ b

  run_until_done-paused :
      (fuel : ℕ) (s : DebugScheduler Task) (w : World)
      → s.blocked ≡ true
      → is_empty s.handles ≡ false
      → run_until_done resume fuel s w ≡ none
  unfolding run_until_done
  run_until_done-paused zero s w b h = refl
  run_until_done-paused (suc fuel) s w b h =
      if_false (is_empty s.handles) _ _ h
      ∙ ap (λ (p : DebugScheduler Task × World). run_until_done resume fuel p.0 p.1)
          (run-paused s w b)
      ∙ run_until_done-paused fuel s w b h

  -- When a round of a scheduler that is not paused leaves it paused with a task in the queue, then
  -- run_all does not come to an end, however many rounds it is given.
  pub run_all-paused :
      (fuel : ℕ) (s : DebugScheduler Task) (w : World)
      → s.blocked ≡ false
      → is_empty s.handles ≡ false
      → (run resume s w).0.blocked ≡ true
      → is_empty (run resume s w).0.handles ≡ false
      → run_all resume fuel s w ≡ none
  unfolding run_all
  run_all-paused zero s w b h p q = if_false (s.blocked) _ _ b ∙ (unfold run_until_done in refl)
  run_all-paused (suc fuel) s w b h p q =
      if_false (s.blocked) _ _ b
      ∙ (unfold run_until_done in if_false (is_empty s.handles) _ _ h)
      ∙ run_until_done-paused fuel (run resume s w).0 (run resume s w).1 p q

  -- Tasks that never pause the scheduler, and push only tasks of a smaller rank.
  abbrev pub Descends : (Task → ℕ) → Type 0
  Descends rank =
      (task : Task) (w : World)
      → ((resume task w).blocks false ≡ false) × AllBelow rank (rank task) (resume task w).pushed

  module _ (rank : Task → ℕ) (descends : Descends rank) where
    none_below : (xs : List Task) → AllBelow rank zero xs → is_empty xs ≡ true
    none_below [] a = refl
    none_below (x ∷ xs) a = ground (arith, a.0)

    weaken : (a b : ℕ) (xs : List Task) → a ≤ b → AllBelow rank a xs → AllBelow rank b xs
    weaken a b [] l h = tt
    weaken a b (x ∷ xs) l h = (omega (arith, h.0), weaken a b xs l h.1)

    resume_each-AllBelow :
        (n : ℕ) (tasks : List Task) (s : DebugScheduler Task) (w : World)
        → AllBelow rank (suc n) tasks
        → AllBelow rank n s.handles
        → s.blocked ≡ false
        → AllBelow rank n (resume_each resume tasks s w).0.handles
          × ((resume_each resume tasks s w).0.blocked ≡ false)
    unfolding resume_each
    resume_each-AllBelow n [] s w a h b = (h, b)
    resume_each-AllBelow n (task ∷ tasks) s w a h b =
        resume_each-AllBelow n tasks _ (resume task w).world a.1
          (AllBelow-append rank n s.handles (resume task w).pushed h
            (weaken (rank task) n (resume task w).pushed (omega (arith, a.0)) (descends task w).1))
          (rw b (descends task w).0)

    run-AllBelow :
        (n : ℕ) (s : DebugScheduler Task) (w : World)
        → s.blocked ≡ false
        → AllBelow rank (suc n) s.handles
        → AllBelow rank n (run resume s w).0.handles × ((run resume s w).0.blocked ≡ false)
    unfolding run
    run-AllBelow n s w b a =
        rw
          (if_false (s.blocked) (s, w)
            (resume_each resume (reverse s.handles) (record { blocked = s.blocked; handles = [] })
              w)
            b)
          (resume_each-AllBelow n (reverse s.handles) (record { blocked = s.blocked; handles = [] })
            w (AllBelow-reverse rank (suc n) s.handles a) tt b)

    run_until_done-ends :
        (n : ℕ) (s : DebugScheduler Task) (w : World)
        → s.blocked ≡ false
        → AllBelow rank n s.handles
        → (s' : DebugScheduler Task) × (w' : World) × (run_until_done resume (suc n) s w
            ≡ some (s', w'))
          × (s'.handles ≡ [])
    unfolding run_until_done
    run_until_done-ends zero s w b a = (
      s,
      w,
      if_true (is_empty s.handles) _ _ (none_below s.handles a),
      no_elements s.handles (none_below s.handles a),
    )
    run_until_done-ends (suc n) s w b a = elim (Bool-cases (is_empty s.handles)) [
      | inl h ↦ (s, w, if_true (is_empty s.handles) _ _ h, no_elements s.handles h)
      | inr h ↦
          let r = run-AllBelow n s w b a in
          let (s', w', e, d) =
            run_until_done-ends n (run resume s w).0 (run resume s w).1 r.1 r.0 in
          (s', w', if_false (is_empty s.handles) _ _ h ∙ e, d)
    ]

    -- For tasks that never pause the scheduler and push only tasks of a smaller rank, run_all on a
    -- scheduler that is not paused comes to an end with no task left, after at most as many rounds as
    -- the bound of the ranks.
    pub run_all-ends :
        (n : ℕ) (s : DebugScheduler Task) (w : World)
        → s.blocked ≡ false
        → AllBelow rank n s.handles
        → (s' : DebugScheduler Task) × (w' : World) × (run_all resume (suc n) s w ≡ some (s', w'))
          × (s'.handles ≡ [])
    unfolding run_all
    run_all-ends n s w b a =
        let (s', w', e, d) = run_until_done-ends n s w b a in
        (s', w', if_false (s.blocked) _ _ b ∙ e, d)
