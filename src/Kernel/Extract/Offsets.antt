-- ===== src/Kernel/Extract/Offsets.antt =====
-- The offsets of the elements of a tensor that is given by its legs, and the loops over the groups
-- of legs that are put together.
use mathlib.Core.List.{flat_map, map, map-map}
use mathlib.Core.Path.{fun_ext}
use uni.Prelude.{ℕ, ◌<◌, ◌≡◌, refl, ap, ◌∙◌, List, [], ◌∷◌, ◌++◌}
use uni.Prelude.Int.{ℤ, pos, ◌+ℤ◌, ◌*ℤ◌}
use uni.Mdspan.Vec.{nil, cons, add, scale}
use uni.Mdspan.Indices.{range, indices, offset_at, visits-indices}
use uni.Mdspan.Visits.{visits}
use uni.Kernel.Contract.{Pointers}
use uni.Kernel.Contract.Cells.{cells}
use uni.Kernel.Extract.{Leg, group_dim}
use uni.Kernel.Extract.Legs.{SameExtents, groups}

-- The indices of the elements, with the last one running fastest.
abbrev pub tuples : List Leg → List (List ℕ)
tuples [] = [] ∷ []
tuples (x ∷ xs) = flat_map (λ i. map (◌∷◌ i) (tuples xs)) (range 0 x.extent)

-- One index below the extent of each leg.
abbrev pub IsTuple : List Leg → List ℕ → Type 0
IsTuple [] [] = Unit
IsTuple [] (i ∷ is) = ⊥
IsTuple (x ∷ xs) [] = ⊥
IsTuple (x ∷ xs) (i ∷ is) = (i < x.extent) × IsTuple xs is

-- From `o` on, each index times the stride of its leg.
abbrev pub offset : List Leg → ℤ → List ℕ → ℤ
offset [] o is = o
offset (x ∷ xs) o [] = o
offset (x ∷ xs) o (i ∷ is) = offset xs (o +ℤ x.stride *ℤ pos i) is

-- The element of A, the one of B and the one of C: the legs of C are those of A, `zs`, and then
-- those of B, `ws`.
abbrev pub place : List Leg → List Leg → List Leg → List Leg → Pointers → List ℕ → List ℕ → Pointers
place fa fb zs ws p is js = record {
  a_ptr = offset fa p.a_ptr is;
  b_ptr = offset fb p.b_ptr js;
  c_ptr = offset ws (offset zs p.c_ptr is) js;
}

indices-groups : (xs ys : List Leg) → SameExtents xs ys → indices (groups xs ys) ≡ tuples xs
unfolding group_dim
indices-groups [] [] e = refl
indices-groups [] (y ∷ ys) e = absurd e
indices-groups (x ∷ xs) [] e = absurd e
indices-groups (x ∷ xs) (y ∷ ys) e =
    ap (λ t. flat_map (λ i. map (◌∷◌ i) t) (range 0 x.extent)) (indices-groups xs ys e.1)

offset_at-groups :
    (xs ys : List Leg)
    → SameExtents xs ys
    → (u v : ℤ) (is : List ℕ)
    → offset_at (groups xs ys) (cons u (cons v nil)) is
      ≡ cons (offset xs u is) (cons (offset ys v is) nil)
unfolding group_dim add scale
offset_at-groups [] [] e u v is = refl
offset_at-groups [] (y ∷ ys) e u v is = absurd e
offset_at-groups (x ∷ xs) [] e u v is = absurd e
offset_at-groups (x ∷ xs) (y ∷ ys) e u v [] = refl
offset_at-groups (x ∷ xs) (y ∷ ys) e u v (i ∷ is) =
    offset_at-groups xs ys e.1 (u +ℤ x.stride *ℤ pos i) (v +ℤ y.stride *ℤ pos i) is

pub visits-groups :
    (xs ys : List Leg)
    → SameExtents xs ys
    → (u v : ℤ)
    → visits (groups xs ys) (cons u (cons v nil))
      ≡ map (λ is. cons (offset xs u is) (cons (offset ys v is) nil)) (tuples xs)
visits-groups xs ys e u v =
    visits-indices (groups xs ys) (cons u (cons v nil))
    ∙ ap (map (offset_at (groups xs ys) (cons u (cons v nil)))) (indices-groups xs ys e)
    ∙ ap (λ f. map f (tuples xs)) (fun_ext (offset_at-groups xs ys e u v))

module _ {X Y Z : Type 0} where
  pub flat_map-map :
      (g : Y → List Z) (f : X → Y) (xs : List X)
      → flat_map g (map f xs) ≡ flat_map (λ x. g (f x)) xs
  unfolding flat_map
  flat_map-map g f [] = refl
  flat_map-map g f (x ∷ xs) = ap (◌++◌ (g (f x))) (flat_map-map g f xs)

pub cells-groups :
    (fa fb zs ws : List Leg)
    → SameExtents fa zs
    → SameExtents fb ws
    → (p : Pointers)
    → cells (groups fa zs) (groups fb ws) p
      ≡ flat_map (λ is. map (place fa fb zs ws p is) (tuples fb)) (tuples fa)
cells-groups fa fb zs ws ea eb p = rw (visits-groups fa zs ea p.a_ptr p.c_ptr) (
    flat_map-map _ _ (tuples fa)
    ∙ ap (λ f. flat_map f (tuples fa))
        (fun_ext λ is.
          ap (map _) (visits-groups fb ws eb p.b_ptr (offset zs p.c_ptr is))
          ∙ map-map _ _ (tuples fb)))
