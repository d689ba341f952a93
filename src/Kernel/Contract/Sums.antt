-- ===== src/Kernel/Contract/Sums.antt =====
-- The accumulation over the contracted dimensions as a sum, whose order does not matter when the
-- sums of the scalars are exact.
use mathlib.Core.List.{foldl, foldr, map}
use mathlib.Core.List.Perm
use mathlib.Core.List.{Perm}
use uni.Prelude.{◌≡◌, refl, sym, ap, ◌∙◌, List, [], ◌∷◌}
use uni.Prelude.Int.{ℤ}
use uni.Mdspan.Vec.{Vec, add}
use uni.Mdspan.Strides.{ExtentStrides}
use uni.Mdspan.Visits.{visits}
use uni.Kernel.Contract.{Scalar, dot_k}
use uni.Mdspan.Memory.{Memory, first, second}
use uni.Kernel.Contract.Cells.{for_each-steps}

pub record IsExact {A : Type 0} (s : Scalar A) : Type 0 where
  pub is_set : IsSet A
  pub plus_assoc : (x y z : A) → s.plus (s.plus x y) z ≡ s.plus x (s.plus y z)
  pub plus_comm : (x y : A) → s.plus x y ≡ s.plus y x

module _ {A : Type 0} ⦃s : Scalar A⦄ where
  abbrev pub sum : List A → A
  sum xs = foldr (λ x acc. s.plus acc x) s.zero xs

  -- The products at the offsets of the contracted dimensions.
  abbrev pub products : Memory A → Memory A → List (Vec ℤ 2) → List A
  products a b vs = map (λ v. s.times (a (first v)) (b (second v))) vs

  dot_k-foldl :
      (a b : Memory A) (ks : List (ExtentStrides 2)) (v : Vec ℤ 2) (acc : A)
      → dot_k a b ks v acc
        ≡ foldl (λ acc w. s.plus acc (s.times (a (first w)) (b (second w)))) acc (visits ks v)
  unfolding dot_k visits
  dot_k-foldl a b [] v acc = refl
  dot_k-foldl a b (d ∷ ks) v acc =
      for_each-steps (λ w. w) (λ q. add q d.strides) d.strides (λ w. refl) (dot_k a b ks) _
        (visits ks) (dot_k-foldl a b ks) d.extent v acc

  module _ (h : IsExact s) where
    plus_right_comm : (x y z : A) → s.plus (s.plus x y) z ≡ s.plus (s.plus x z) y
    plus_right_comm x y z =
        h.plus_assoc x y z ∙ ap (s.plus x) (h.plus_comm y z) ∙ sym (h.plus_assoc x z y)

    foldl-plus :
        {X : Type 0} (f : X → A) (acc y : A) (xs : List X)
        → foldl (λ t x. s.plus t (f x)) (s.plus acc y) xs
          ≡ s.plus (foldl (λ t x. s.plus t (f x)) acc xs) y
    foldl-plus f acc y [] = refl
    foldl-plus f acc y (x ∷ xs) =
        ap (λ t. foldl (λ t x. s.plus t (f x)) t xs) (plus_right_comm acc y (f x))
        ∙ foldl-plus f (s.plus acc (f x)) y xs

    foldl-sum :
        {X : Type 0} (f : X → A) (xs : List X)
        → foldl (λ t x. s.plus t (f x)) s.zero xs ≡ sum (map f xs)
    foldl-sum f [] = refl
    foldl-sum f (x ∷ xs) = foldl-plus f s.zero (f x) xs ∙ ap (λ t. s.plus t (f x)) (foldl-sum f xs)

    sum-perm : {xs ys : List A} → Perm xs ys → sum xs ≡ sum ys
    sum-perm p = Perm.foldr-eq h.is_set _ (λ x y t. plus_right_comm t y x) p s.zero

    -- The accumulator is the sum over the offsets of any dimensions that visit the same ones.
    pub dot_k-sum :
        (a b : Memory A) (ks ks' : List (ExtentStrides 2)) (v : Vec ℤ 2)
        → Perm (visits ks v) (visits ks' v)
        → dot_k a b ks v s.zero ≡ sum (products a b (visits ks' v))
    dot_k-sum a b ks ks' v p =
        dot_k-foldl a b ks v s.zero
        ∙ foldl-sum (λ w. s.times (a (first w)) (b (second w))) (visits ks v)
        ∙ sum-perm (Perm.map _ p)
