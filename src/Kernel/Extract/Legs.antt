-- ===== src/Kernel/Extract/Legs.antt =====
-- Which legs extract_strides is to put together, described apart from its loops, and the groups that
-- it makes of them.
use mathlib.Core.List.{map, append-nil}
use uni.Prelude.{
  ℕ, suc, ◌≡◌, refl, sym, ap, ◌∙◌, true, false, ◌⊎◌, inl, inr, List, [], ◌∷◌, ◌++◌, some, get_elem?,
  ◌==◌, arith,
}
use uni.Mdspan.Strides.{ExtentStrides}
use uni.Kernel.Extract.{
  Leg, group_dim, k_group, is_contracted, match_leg, free_group, extract_groups,
}

abbrev pub Listed : ℕ → List ℕ → Type 0
Listed i [] = ⊥
Listed i (j ∷ js) = (i ≡ j) ⊎ Listed i js

-- The legs of A and of B that the pairs name, in order, each with the extent of its partner.
pub data IsPaired (la lb : List Leg) : List (ℕ × ℕ) → List Leg → List Leg → Type 0 where
  no_pairs : IsPaired la lb [] [] []
  a_pair :
      {ai bi : ℕ} {x y : Leg} {dims : List (ℕ × ℕ)} {xs ys : List Leg}
      → get_elem? la ai ≡ some x
      → get_elem? lb bi ≡ some y
      → x.extent ≡ y.extent
      → IsPaired la lb dims xs ys
      → IsPaired la lb ((ai, bi) ∷ dims) (x ∷ xs) (y ∷ ys)

-- The legs, the first one numbered `i`, whose numbers are not listed.
pub data IsFree (js : List ℕ) : ℕ → List Leg → List Leg → Type 0 where
  no_legs : {i : ℕ} → IsFree js i [] []
  skip :
      {i : ℕ} {x : Leg} {xs fs : List Leg}
      → Listed i js
      → IsFree js (suc i) xs fs
      → IsFree js i (x ∷ xs) fs
  take :
      {i : ℕ} {x : Leg} {xs fs : List Leg}
      → ¬ Listed i js
      → IsFree js (suc i) xs fs
      → IsFree js i (x ∷ xs) (x ∷ fs)

abbrev pub SameExtents : List Leg → List Leg → Type 0
SameExtents [] [] = Unit
SameExtents [] (y ∷ ys) = ⊥
SameExtents (x ∷ xs) [] = ⊥
SameExtents (x ∷ xs) (y ∷ ys) = (x.extent ≡ y.extent) × SameExtents xs ys

abbrev pub groups : List Leg → List Leg → List (ExtentStrides 2)
groups [] ys = []
groups (x ∷ xs) [] = []
groups (x ∷ xs) (y ∷ ys) = group_dim x y ∷ groups xs ys

pub IsPaired-SameExtents :
    {la lb : List Leg} {dims : List (ℕ × ℕ)} {xs ys : List Leg}
    → IsPaired la lb dims xs ys
    → SameExtents xs ys
IsPaired-SameExtents no_pairs = tt
IsPaired-SameExtents (a_pair hx hy h r) = (h, IsPaired-SameExtents r)

==_of_eq : (a b : ℕ) → a ≡ b → (a == b) ≡ true
==_of_eq a b h = ground arith

Listed-is_contracted : (i : ℕ) (js : List ℕ) → Listed i js → is_contracted js i ≡ true
unfolding is_contracted
Listed-is_contracted i [] h = absurd h
Listed-is_contracted i (j ∷ js) (inl h) = ground arith
Listed-is_contracted i (j ∷ js) (inr h) = rw (Listed-is_contracted i js h) (ground arith)

not_Listed-is_contracted : (i : ℕ) (js : List ℕ) → ¬ Listed i js → is_contracted js i ≡ false
unfolding is_contracted
not_Listed-is_contracted i [] h = refl
not_Listed-is_contracted i (j ∷ js) h =
    let n = λ (e : i ≡ j). h (inl e) in
    rw (not_Listed-is_contracted i js (λ m. h (inr m))) (ground arith)

k_group-IsPaired :
    {la lb : List Leg} {dims : List (ℕ × ℕ)} {xs ys : List Leg}
    → IsPaired la lb dims xs ys
    → k_group la lb dims ≡ some (groups xs ys)
unfolding k_group
k_group-IsPaired no_pairs = refl
k_group-IsPaired (a_pair hx hy h r) = rw (hx, hy, ==_of_eq _ _ h, k_group-IsPaired r) refl

free_group-IsFree :
    {js : List ℕ} {i : ℕ} {la fa : List Leg}
    → IsFree js i la fa
    → (zs ws : List Leg) → SameExtents fa zs
    → free_group js i la (zs ++ ws) ≡ some (groups fa zs, ws)
unfolding free_group match_leg
free_group-IsFree no_legs [] ws e = refl
free_group-IsFree no_legs (z ∷ zs) ws e = absurd e
free_group-IsFree (skip {i = i} h f) zs ws e =
    rw (Listed-is_contracted i _ h) (free_group-IsFree f zs ws e)
free_group-IsFree (take h f) [] ws e = absurd e
free_group-IsFree (take {i = i} h f) (z ∷ zs) ws e =
    rw (not_Listed-is_contracted i _ h, ==_of_eq _ _ e.0, free_group-IsFree f zs ws e.1) refl

free_group-IsFree_all :
    {js : List ℕ} {i : ℕ} {la fa : List Leg}
    → IsFree js i la fa
    → (zs : List Leg) → SameExtents fa zs
    → free_group js i la zs ≡ some (groups fa zs, [])
free_group-IsFree_all {js = js} {i = i} {la = la} f zs e =
    ap (free_group js i la) (sym (append-nil zs)) ∙ free_group-IsFree f zs [] e

pub extract_groups-IsPaired :
    {la lb : List Leg} {dims : List (ℕ × ℕ)} {xs ys fa fb : List Leg} (zs ws : List Leg)
    → IsPaired la lb dims xs ys
    → IsFree (map (λ (d : ℕ × ℕ). d.0) dims) 0 la fa
    → IsFree (map (λ (d : ℕ × ℕ). d.1) dims) 0 lb fb
    → SameExtents fa zs
    → SameExtents fb ws
    → extract_groups la lb dims (zs ++ ws) ≡ some (groups fa zs, groups fb ws, groups xs ys)
unfolding extract_groups
extract_groups-IsPaired {fb = fb} zs ws p ha hb ea eb =
    rw (k_group-IsPaired p, free_group-IsFree ha zs ws ea, free_group-IsFree_all hb ws eb) refl
