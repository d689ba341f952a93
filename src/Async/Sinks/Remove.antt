-- ===== src/Async/Sinks/Remove.antt =====
-- The list of a promise without a node.
use uni.Prelude.{
  ℕ, ◌≡◌, refl, sym, ap, ◌∙◌, true, false, Option, none, some, List, [], ◌∷◌, if◌then◌else◌, ◌==◌,
  ==_iff, arith, inl, inr, Bool-cases,
}
use uni.Async.Sinks.{Nodes, owned_by, head_after}
use uni.Async.Sinks.Links.{
  elem, remove, first, Unique, Linked, Avoids, flip_test, same_test, not_elem_tail, Avoids-tail,
  not_head, Relinks, Linked-stays,
}

pub first_apart : (k : ℕ) (xs : List ℕ) → elem k xs ≡ false → owned_by (first xs) k ≡ false
first_apart k [] e = refl
first_apart k (x ∷ xs) e = flip_test k x (not_elem_tail k x xs e).0

-- The neighbours of a node of the list.
pub next_among :
    (nodes : Nodes) (n : ℕ) (before : Option ℕ) (xs : List ℕ) (k : ℕ)
    → Linked nodes before xs
    → elem n xs ≡ true
    → elem k xs ≡ false
    → owned_by (nodes n).next k ≡ false
next_among nodes n before [] k l e f = cc
next_among nodes n before (x ∷ xs) k l e f =
    let (a, b) = not_elem_tail k x xs f in
    elim (Bool-cases (n == x)) [
      | inl q ↦ rw ((==_iff n x).0 q, l.1) (first_apart k xs b)
      | inr q ↦ next_among nodes n (some x) xs k (l.2) (rw q at e) b
    ]

pub prev_among :
    (nodes : Nodes) (n y : ℕ) (xs : List ℕ) (k : ℕ)
    → Linked nodes (some y) xs
    → elem n xs ≡ true
    → elem k (y ∷ xs) ≡ false
    → owned_by (nodes n).prev k ≡ false
prev_among nodes n y [] k l e f = cc
prev_among nodes n y (x ∷ xs) k l e f =
    let (a, b) = not_elem_tail k y (x ∷ xs) f in
    elim (Bool-cases (n == x)) [
      | inl q ↦ rw ((==_iff n x).0 q, l.0) (flip_test k y a)
      | inr q ↦ prev_among nodes n x xs k (l.2) (rw q at e) b
    ]

pub prev_among_all :
    (nodes : Nodes) (n : ℕ) (xs : List ℕ) (k : ℕ)
    → Linked nodes none xs
    → elem n xs ≡ true
    → elem k xs ≡ false
    → owned_by (nodes n).prev k ≡ false
prev_among_all nodes n [] k l e f = cc
prev_among_all nodes n (x ∷ xs) k l e f = elim (Bool-cases (n == x)) [
  | inl q ↦ rw ((==_iff n x).0 q, l.0) refl
  | inr q ↦ prev_among nodes n x xs k (l.2) (rw q at e) f
]

-- A node is not in front of itself.
pub prev_apart :
    (nodes : Nodes) (n : ℕ) (before : Option ℕ) (xs : List ℕ)
    → Linked nodes before xs
    → Unique xs
    → Avoids before xs
    → elem n xs ≡ true
    → owned_by (nodes n).prev n ≡ false
prev_apart nodes n before [] l u a e = cc
prev_apart nodes n before (x ∷ xs) l u a e = elim (Bool-cases (n == x)) [
  | inl q ↦ rw ((==_iff n x).0 q, l.0) (not_head before x xs a)
  | inr q ↦ prev_apart nodes n (some x) xs (l.2) (u.1) (u.0) (rw q at e)
]

abbrev Unlinks : Nodes → Nodes → ℕ → Type 0
Unlinks old new n = Relinks old new n (old n).prev (old n).next (old n).next (old n).prev

removed_first :
    (old new : Nodes) (n : ℕ) (before : Option ℕ) (xs : List ℕ)
    → Unlinks old new n
    → (old n).prev ≡ before
    → (old n).next ≡ first xs
    → Linked old (some n) xs
    → Unique xs
    → elem n xs ≡ false
    → Avoids before xs
    → Linked new before xs
removed_first old new n before [] r p q l u e a = tt
removed_first old new n before (y ∷ zs) r p q l u e a =
    let (c, d) = not_elem_tail n y zs e in
    (
      r.prevs y (flip_test n y c) ∙ rw (q, same_test y) p,
      r.nexts y (flip_test n y c) ∙ rw (p, not_head before y zs a) (l.1),
      Linked-stays old new n (old n).prev (old n).next (old n).next (old n).prev (some y) zs r (l.2)
          d (rw p (Avoids-tail before y zs a)) (rw q (u.0)),
    )

next_after :
    (old new : Nodes) (n x : ℕ) (before : Option ℕ) (xs : List ℕ)
    → Unlinks old new n
    → (x == n) ≡ false
    → (old x).next ≡ first xs
    → Linked old (some x) xs
    → elem x xs ≡ false
    → elem n xs ≡ true
    → (new x).next ≡ first (remove n xs)
next_after old new n x before [] r c q l u e = cc
next_after old new n x before (y ∷ zs) r c q l u e = elim (Bool-cases (n == y)) [
  | inl t ↦
      r.nexts x c
      ∙ rw (ap (λ k. (old k).prev) ((==_iff n y).0 t) ∙ l.0, same_test x, t)
          (ap (λ k. (old k).next) ((==_iff n y).0 t) ∙ l.1)
  | inr t ↦ r.nexts x c ∙ rw (prev_among old n y zs x (l.2) (rw t at e) u, t) q
]

pub Linked-remove :
    (old new : Nodes) (n : ℕ) (before : Option ℕ) (xs : List ℕ)
    → Unlinks old new n
    → Linked old before xs
    → Unique xs
    → Avoids before xs
    → elem n xs ≡ true
    → Linked new before (remove n xs)
Linked-remove old new n before [] r l u a e = tt
Linked-remove old new n before (x ∷ xs) r l u a e = elim (Bool-cases (n == x)) [
  | inl q ↦ rw q (
      removed_first old new n before xs r (ap (λ k. (old k).prev) ((==_iff n x).0 q) ∙ l.0)
        (ap (λ k. (old k).next) ((==_iff n x).0 q) ∙ l.1) (rw ((==_iff n x).0 q) (l.2)) (u.1)
        (rw ((==_iff n x).0 q) (u.0)) (Avoids-tail before x xs a))
  | inr q ↦ rw q (
    r.prevs x (flip_test n x q) ∙ rw (next_among old n (some x) xs x (l.2) (rw q at e) (u.0)) (l.0),
    next_after old new n x before xs r (flip_test n x q) (l.1) (l.2) (u.0) (rw q at e),
    Linked-remove old new n (some x) xs r (l.2) (u.1) (u.0) (rw q at e),
  )
]

pub elem-remove :
    (k n : ℕ) (xs : List ℕ)
    → Unique xs
    → elem k (remove n xs) ≡ (if n == k then false else elem k xs)
elem-remove k n [] u = elim (Bool-cases (n == k)) [ inl q ↦ rw q refl | inr q ↦ rw q refl ]
elem-remove k n (x ∷ xs) u = elim (Bool-cases (n == x)) [
  | inl q ↦ rw q (elim (Bool-cases (n == k)) [
    | inl t ↦ rw t (ap (λ y. elem y xs) (sym ((==_iff n k).0 t) ∙ (==_iff n x).0 q) ∙ u.0)
    | inr t ↦ rw (t, other n k x q t) refl
  ])
  | inr q ↦ rw q (elim (Bool-cases (k == x)) [
    | inl t ↦ rw (t, another n k x q t) refl
    | inr t ↦ rw t (elem-remove k n xs (u.1))
  ])
]
  where
    other : (n k x : ℕ) → (n == x) ≡ true → (n == k) ≡ false → (k == x) ≡ false
    other n k x q t = ground arith

    another : (n k x : ℕ) → (n == x) ≡ false → (k == x) ≡ true → (n == k) ≡ false
    another n k x q t = ground arith

pub Unique-remove : (n : ℕ) (xs : List ℕ) → Unique xs → Unique (remove n xs)
Unique-remove n [] u = tt
Unique-remove n (x ∷ xs) u = elim (Bool-cases (n == x)) [
  | inl q ↦ rw q (u.1)
  | inr q ↦ rw q (elem-remove x n xs (u.1) ∙ rw (q, u.0) refl, Unique-remove n xs (u.1))
]

head_kept :
    (nodes : Nodes) (n y : ℕ) (xs : List ℕ) (next head : Option ℕ)
    → Linked nodes (some y) xs
    → elem n xs ≡ true
    → head_after (nodes n).prev next head ≡ head
head_kept nodes n y [] next head l e = cc
head_kept nodes n y (x ∷ xs) next head l e = elim (Bool-cases (n == x)) [
  | inl q ↦ rw ((==_iff n x).0 q, l.0) refl
  | inr q ↦ head_kept nodes n x xs next head (l.2) (rw q at e)
]

-- The new head of the list.
pub first-remove :
    (nodes : Nodes) (n : ℕ) (xs : List ℕ)
    → Linked nodes none xs
    → elem n xs ≡ true
    → head_after (nodes n).prev (nodes n).next (first xs) ≡ first (remove n xs)
first-remove nodes n [] l e = cc
first-remove nodes n (x ∷ xs) l e = elim (Bool-cases (n == x)) [
  | inl q ↦ rw (q, (==_iff n x).0 q, l.0) (l.1)
  | inr q ↦ rw q (head_kept nodes n x xs _ (some x) (l.2) (rw q at e))
]
