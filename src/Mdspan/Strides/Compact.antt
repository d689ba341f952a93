-- ===== src/Mdspan/Strides/Compact.antt =====
-- The neighbours in a merged plan (strides.hpp).
use uni.Prelude.{
  ℕ, ◌*◌, ◌≡◌, refl, sym, ap, ◌∙◌, Bool, true, false, ◌&&◌, List, [], ◌∷◌, inl, inr, Bool-cases,
}
use uni.Prelude.Int.{ℤ, pos, ◌*ℤ◌}
use uni.Mdspan.Vec.{Vec, nil, cons, scale, ◌==ℤ◌, *ℤ-mul}
use uni.Mdspan.Strides.{
  ExtentStrides, all_contiguous, can_merge_with_inner, merge_with_inner, merge_right, merge_left,
}
use uni.Mdspan.Strides.Merge.{all_contiguous-scale}

-- Each dimension cannot be merged with the next one.
abbrev pub IsCompact : {A : Type 0} → (A → A → Bool) → List A → Type 0
IsCompact merges [] = Unit
IsCompact merges (x ∷ []) = Unit
IsCompact merges (x ∷ y ∷ xs) = (merges x y ≡ false) × IsCompact merges (y ∷ xs)

scale-mul : {n : ℕ} (v : Vec ℤ n) (a b : ℕ) → scale v (a * b) ≡ scale (scale v b) a
unfolding scale
scale-mul nil a b = refl
scale-mul (cons z v) a b = cc (*ℤ-mul z a b, scale-mul v a b)

vec_eq : {n : ℕ} → Vec ℤ n → Vec ℤ n → Bool
vec_eq nil nil = true
vec_eq (cons a v) (cons b w) = ◌==ℤ◌ a b && vec_eq v w

all_contiguous-vec_eq :
    {n : ℕ} (v w : Vec ℤ n) (e : ℕ) → all_contiguous v w e ≡ vec_eq v (scale w e)
unfolding all_contiguous vec_eq scale
all_contiguous-vec_eq nil nil e = refl
all_contiguous-vec_eq (cons a v) (cons b w) e =
    ap (◌&&◌ (◌==ℤ◌ a (b *ℤ pos e))) (all_contiguous-vec_eq v w e)

module _ {n : ℕ} where
  -- What an outer dimension needs to know of the one inside it.
  can_merge_congr :
      (d e e' : ExtentStrides n)
      → scale e.strides e.extent ≡ scale e'.strides e'.extent
      → can_merge_with_inner d e ≡ can_merge_with_inner d e'
  unfolding can_merge_with_inner
  can_merge_congr d e e' p =
      all_contiguous-vec_eq d.strides e.strides e.extent
      ∙ ap (vec_eq d.strides) p
      ∙ sym (all_contiguous-vec_eq d.strides e'.strides e'.extent)

  merge_with_inner-scale :
      (outer inner : ExtentStrides n)
      → can_merge_with_inner outer inner ≡ true
      → scale (merge_with_inner outer inner).strides (merge_with_inner outer inner).extent
        ≡ scale outer.strides outer.extent
  unfolding merge_with_inner can_merge_with_inner
  merge_with_inner-scale outer inner h =
      scale-mul inner.strides outer.extent inner.extent
      ∙ ap (λ v. scale v outer.extent)
          (sym (all_contiguous-scale outer.strides inner.strides inner.extent h))

  apart_right :
      (d : ExtentStrides n) (current : ExtentStrides n) (ds : List (ExtentStrides n))
      → can_merge_with_inner d current ≡ false
      → IsCompact can_merge_with_inner (merge_right current ds)
      → IsCompact can_merge_with_inner (d ∷ merge_right current ds)
  unfolding merge_right
  apart_right d current [] h c = (h, tt)
  apart_right d current (inner ∷ ds) h c = elim (Bool-cases (can_merge_with_inner current inner)) [
    | inl m ↦ rw m (
        apart_right d (merge_with_inner current inner) ds
          (can_merge_congr d (merge_with_inner current inner) current
              (merge_with_inner-scale current inner m)
            ∙ h)
          (rw m at c))
    | inr m ↦ rw m (h, (rw m at c))
  ]

  pub merge_right-IsCompact :
      (current : ExtentStrides n) (ds : List (ExtentStrides n))
      → IsCompact can_merge_with_inner (merge_right current ds)
  unfolding merge_right
  merge_right-IsCompact current [] = tt
  merge_right-IsCompact current (inner ∷ ds) =
      elim (Bool-cases (can_merge_with_inner current inner)) [
        | inl m ↦ rw m (merge_right-IsCompact (merge_with_inner current inner) ds)
        | inr m ↦ rw m (apart_right current inner ds m (merge_right-IsCompact inner ds))
      ]

  -- In the left order the outer dimension comes second.
  abbrev pub merges_left : ExtentStrides n → ExtentStrides n → Bool
  merges_left inner outer = can_merge_with_inner outer inner

  apart_left :
      (d : ExtentStrides n) (current : ExtentStrides n) (ds : List (ExtentStrides n))
      → merges_left d current ≡ false
      → IsCompact merges_left (merge_left current ds)
      → IsCompact merges_left (d ∷ merge_left current ds)
  unfolding merge_left merge_with_inner
  apart_left d current [] h c = (h, tt)
  apart_left d current (outer ∷ ds) h c = elim (Bool-cases (can_merge_with_inner outer current)) [
    | inl m ↦ rw m (
        apart_left d (merge_with_inner outer current) ds
          (unfold can_merge_with_inner in (unfold can_merge_with_inner in h)) (rw m at c))
    | inr m ↦ rw m (h, (rw m at c))
  ]

  pub merge_left-IsCompact :
      (current : ExtentStrides n) (ds : List (ExtentStrides n))
      → IsCompact merges_left (merge_left current ds)
  unfolding merge_left
  merge_left-IsCompact current [] = tt
  merge_left-IsCompact current (outer ∷ ds) =
      elim (Bool-cases (can_merge_with_inner outer current)) [
        | inl m ↦ rw m (merge_left-IsCompact (merge_with_inner outer current) ds)
        | inr m ↦ rw m (apart_left current outer ds m (merge_left-IsCompact outer ds))
      ]
