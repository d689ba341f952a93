-- ===== src/Tensor/Layout.antt =====
-- src/uni20/tensor/layout.hpp: the strides of packed tensors whose last or first index runs fastest.
use mathlib.Core.List.{flat_map, map, map-map, map-append, reverse, reverse-cons, reverse-append}
use native.Mathlib.Nat.{
  zero-add, add-zero, suc-add, zero-mul, suc-mul, add_comm, mul_comm, mul_assoc,
}
use uni.Prelude.{ℕ, zero, suc, ◌+◌, ◌*◌, ◌≡◌, refl, sym, ap, ◌∙◌, List, [], ◌∷◌, ◌++◌, arith}
use uni.Mdspan.Indices.{range, map-flat_map}
use mathlib.Core.Path.{fun_ext}

-- The loop from the last dimension to the first, with `run`.
unfoldable pub right_strides : List ℕ → List ℕ × ℕ
right_strides [] = ([], 1)
right_strides (e ∷ es) = let (strides, run) = right_strides es in (run ∷ strides, run * e)

unfoldable pub layout_right_strides : List ℕ → List ℕ
layout_right_strides es = (right_strides es).0

-- The number of elements, the multi-indices within the extents, and the offset of one.
abbrev pub size : List ℕ → ℕ
size [] = 1
size (e ∷ es) = e * size es

abbrev pub index_lists : List ℕ → List (List ℕ)
index_lists [] = [] ∷ []
index_lists (e ∷ es) = flat_map (λ i. map (◌∷◌ i) (index_lists es)) (range 0 e)

abbrev pub offset_of : List ℕ → List ℕ → ℕ
offset_of [] is = 0
offset_of (s ∷ ss) [] = 0
offset_of (s ∷ ss) (i ∷ is) = i * s + offset_of ss is

shift : (a m : ℕ) → suc a + m ≡ a + suc m
shift a m = omega arith

range-add : (a m n : ℕ) → range a (m + n) ≡ range a m ++ range (a + m) n
range-add a zero n = rw (zero-add n, add-zero a) refl
range-add a (suc m) n =
    rw (suc-add m n)
      (ap (◌∷◌ a) (range-add (suc a) m n ∙ ap (λ t. range (suc a) m ++ range t n) (shift a m)))

map-range : (c k n : ℕ) → map (λ j. c + j) (range k n) ≡ range (c + k) n
map-range c k zero = refl
map-range c k (suc n) =
    ap (◌∷◌ (c + k)) (map-range c (suc k) n ∙ ap (λ t. range t n) (sym (shift c k) ∙ suc-add c k))

rows-range :
    (p k e : ℕ)
    → flat_map (λ i. map (λ j. i * p + j) (range 0 p)) (range k e) ≡ range (k * p) (e * p)
unfolding flat_map
rows-range p k zero = rw zero-mul refl
rows-range p k (suc e) =
    rw
      (
        map-range (k * p) 0 p,
        add-zero (k * p),
        rows-range p (suc k) e,
        suc-mul e p,
        add_comm (e * p) p,
        range-add (k * p) p (e * p),
        suc-mul k p,
      )
      refl

right_strides-size : (es : List ℕ) → (right_strides es).1 ≡ size es
unfolding right_strides
right_strides-size [] = refl
right_strides-size (e ∷ es) =
    mul_comm (right_strides es).1 e ∙ ap (λ r. e * r) (right_strides-size es)

right_strides-cons :
    (e : ℕ) (es : List ℕ) → (right_strides (e ∷ es)).0 ≡ (right_strides es).1 ∷ (right_strides es).0
unfolding right_strides
right_strides-cons e es = refl

-- The offsets of a first index, then of the others.
row-map :
    (r i : ℕ) (ss : List ℕ) (iss : List (List ℕ))
    → map (offset_of (r ∷ ss)) (map (◌∷◌ i) iss) ≡ map (λ j. i * r + j) (map (offset_of ss) iss)
row-map r i ss iss =
    map-map (offset_of (r ∷ ss)) (◌∷◌ i) iss ∙ sym (map-map (λ j. i * r + j) (offset_of ss) iss)

right_strides-range :
    (es : List ℕ) → map (offset_of (right_strides es).0) (index_lists es) ≡ range 0 (size es)
right_strides-range [] = unfold right_strides in refl
right_strides-range (e ∷ es) =
    ap (λ ss. map (offset_of ss) (index_lists (e ∷ es))) (right_strides-cons e es)
    ∙ map-flat_map _ (λ i. map (◌∷◌ i) (index_lists es)) (range 0 e)
    ∙ ap (λ f. flat_map f (range 0 e))
        (fun_ext λ i.
          row-map (right_strides es).1 i (right_strides es).0 (index_lists es)
          ∙ ap (map (λ j. i * (right_strides es).1 + j)) (right_strides-range es)
          ∙ ap (λ r. map (λ j. i * r + j) (range 0 (size es))) (right_strides-size es))
    ∙ rows-range (size es) 0 e
    ∙ ap (λ k. range k (e * size es)) (zero-mul (size es))

-- Whatever the extents, under the strides of layout_right_strides the multi-indices, taken with the
-- last index running fastest, lie at the offsets 0, 1, 2 and so on, one for each element.
pub layout_right_strides-range :
    (es : List ℕ) → map (offset_of (layout_right_strides es)) (index_lists es) ≡ range 0 (size es)
unfolding layout_right_strides
layout_right_strides-range es = right_strides-range es

-- The loop from the first dimension on, with `run`.
unfoldable pub left_strides : ℕ → List ℕ → List ℕ
left_strides run [] = []
left_strides run (e ∷ es) = run ∷ left_strides (run * e) es

unfoldable pub layout_left_strides : List ℕ → List ℕ
layout_left_strides es = left_strides 1 es

right_strides-concat :
    (es : List ℕ) (e : ℕ)
    → right_strides (es ++ e ∷ [])
      ≡ (map (λ s. e * s) (right_strides es).0 ++ 1 ∷ [], e * (right_strides es).1)
unfolding right_strides
right_strides-concat [] e = ap (λ n. (1 ∷ [], n)) (mul_comm 1 e)
right_strides-concat (x ∷ es) e =
    rw (right_strides-concat es e, mul_assoc e (right_strides es).1 x) refl

left_strides-map :
    (k run : ℕ) (es : List ℕ) → left_strides (k * run) es ≡ map (λ s. k * s) (left_strides run es)
unfolding left_strides
left_strides-map k run [] = refl
left_strides-map k run (e ∷ es) =
    ap (λ r. k * run ∷ left_strides r es) (mul_assoc k run e)
    ∙ ap (◌∷◌ (k * run)) (left_strides-map k (run * e) es)

reverse-map : (f : ℕ → ℕ) (xs : List ℕ) → reverse (map f xs) ≡ map f (reverse xs)
reverse-map f [] = refl
reverse-map f (x ∷ xs) =
    reverse-cons (f x) (map f xs)
    ∙ ap (λ q. q ++ f x ∷ []) (reverse-map f xs)
    ∙ sym (map-append f (reverse xs) (x ∷ []))
    ∙ ap (map f) (sym (reverse-cons x xs))

-- The strides of layout_left_strides are those of layout_right_strides for the extents in reverse
-- order, themselves in reverse order.
pub layout_left_strides-layout_right_strides :
    (es : List ℕ) → layout_left_strides es ≡ reverse (layout_right_strides (reverse es))
unfolding layout_left_strides layout_right_strides left_strides
layout_left_strides-layout_right_strides [] = unfold right_strides in refl
layout_left_strides-layout_right_strides (e ∷ es) =
    ap (◌∷◌ 1) (
      ap (λ r. left_strides r es) (mul_comm 1 e)
      ∙ left_strides-map e 1 es
      ∙ ap (map (λ s. e * s)) (layout_left_strides-layout_right_strides es)
      ∙ sym (reverse-map (λ s. e * s) (right_strides (reverse es)).0))
    ∙ sym (reverse-append (map (λ s. e * s) (right_strides (reverse es)).0) (1 ∷ []))
    ∙ ap (λ p. reverse p.0) (sym (right_strides-concat (reverse es) e))
    ∙ ap (λ q. reverse (right_strides q).0) (sym (reverse-cons e es))
