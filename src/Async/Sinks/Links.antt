-- ===== src/Async/Sinks/Links.antt =====
-- The list of sinks that the links of the nodes make.
use uni.Prelude.{
  ℕ, ◌≡◌, refl, ◌∙◌, Bool, true, false, Option, none, some, List, [], ◌∷◌, if◌then◌else◌, ◌==◌,
  ==_iff, arith, inl, inr, Bool-cases,
}
use uni.Async.Sinks.{Nodes, Sinks, owned_by}

abbrev pub elem : ℕ → List ℕ → Bool
elem x [] = false
elem x (y ∷ ys) = if x == y then true else elem x ys

abbrev pub remove : ℕ → List ℕ → List ℕ
remove n [] = []
remove n (x ∷ xs) = if n == x then xs else x ∷ remove n xs

abbrev pub first : List ℕ → Option ℕ
first [] = none
first (x ∷ xs) = some x

abbrev pub Unique : List ℕ → Type 0
Unique [] = Unit
Unique (x ∷ xs) = (elem x xs ≡ false) × Unique xs

-- The nodes of a list are linked both ways; `before` is in front of the first.
abbrev pub Linked : Nodes → Option ℕ → List ℕ → Type 0
Linked nodes before [] = Unit
Linked nodes before (x ∷ xs) =
    ((nodes x).prev ≡ before) × ((nodes x).next ≡ first xs) × Linked nodes (some x) xs

-- The list of each promise has exactly the nodes that it owns.
pub record IsLists (s : Sinks) (lists : ℕ → List ℕ) : Type 0 where
  pub head : (p : ℕ) → s.heads p ≡ first (lists p)
  pub linked : (p : ℕ) → Linked s.nodes none (lists p)
  pub unique : (p : ℕ) → Unique (lists p)
  pub members : (p n : ℕ) → elem n (lists p) ≡ owned_by (s.nodes n).owner p

-- No link leads into the list.
abbrev pub Avoids : Option ℕ → List ℕ → Type 0
Avoids none xs = Unit
Avoids (some k) xs = elem k xs ≡ false

pub flip_test : (n x : ℕ) → (n == x) ≡ false → (x == n) ≡ false
flip_test n x e = ground arith

pub same_test : (n : ℕ) → (n == n) ≡ true
same_test n = (==_iff n n).1 refl

pub not_elem_tail :
    (k x : ℕ) (xs : List ℕ) → elem k (x ∷ xs) ≡ false → ((k == x) ≡ false) × (elem k xs ≡ false)
not_elem_tail k x xs e = elim (Bool-cases (k == x)) [
  | inl q ↦ absurd (rw q at e)
  | inr q ↦ (q, rw q at e)
]
  where
    absurd : {X : Type 0} → true ≡ false → X
    absurd e = cc

pub elem_apart : (x k : ℕ) (xs : List ℕ) → elem x xs ≡ true → elem k xs ≡ false → (x == k) ≡ false
elem_apart x k xs e f = elim (Bool-cases (x == k)) [
  | inl q ↦ clash (rw ((==_iff x k).0 q) at e) f
  | inr q ↦ q
]
  where
    clash : {b : Bool} {X : Type 0} → b ≡ true → b ≡ false → X
    clash e f = cc

pub Avoids-tail : (o : Option ℕ) (x : ℕ) (xs : List ℕ) → Avoids o (x ∷ xs) → Avoids o xs
Avoids-tail none x xs a = tt
Avoids-tail (some k) x xs a = (not_elem_tail k x xs a).1

pub not_head : (o : Option ℕ) (x : ℕ) (xs : List ℕ) → Avoids o (x ∷ xs) → owned_by o x ≡ false
not_head none x xs a = refl
not_head (some k) x xs a = (not_elem_tail k x xs a).0

-- Nodes that change only where two links lead to.
pub record Relinks (old new : Nodes) (n : ℕ) (at_next at_prev : Option ℕ)
    (link_next link_prev : Option ℕ) : Type 0 where
  pub nexts :
      (x : ℕ)
      → (x == n) ≡ false
      → (new x).next ≡ (if owned_by at_next x then link_next else (old x).next)
  pub prevs :
      (x : ℕ)
      → (x == n) ≡ false
      → (new x).prev ≡ (if owned_by at_prev x then link_prev else (old x).prev)
  pub owners : (x : ℕ) → (x == n) ≡ false → (new x).owner ≡ (old x).owner

pub Linked-stays :
    (old new : Nodes) (n : ℕ) (p q i j : Option ℕ) (before : Option ℕ) (xs : List ℕ)
    → Relinks old new n p q i j
    → Linked old before xs
    → elem n xs ≡ false
    → Avoids p xs
    → Avoids q xs
    → Linked new before xs
Linked-stays old new n p q i j before [] r l e f g = tt
Linked-stays old new n p q i j before (x ∷ xs) r l e f g =
    let (a, b) = not_elem_tail n x xs e in
    let c = flip_test n x a in
    (
      r.prevs x c ∙ rw (not_head q x xs g) (l.0),
      r.nexts x c ∙ rw (not_head p x xs f) (l.1),
      Linked-stays old new n p q i j (some x) xs r (l.2) b (Avoids-tail p x xs f)
          (Avoids-tail q x xs g),
    )
