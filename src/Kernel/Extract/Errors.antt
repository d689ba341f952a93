-- ===== src/Kernel/Extract/Errors.antt =====
-- What contract does when the legs match, and when they do not.
use mathlib.Core.List.{flat_map, map, map-map, Nodup}
use uni.Prelude.{
  ℕ, ◌≡◌, refl, ap, ◌∙◌, Bool, true, false, List, [], ◌∷◌, ◌++◌, Option, none, some, ◌>>=◌, ◌>>◌,
  check, get_elem?, ◌==◌,
}
use uni.Prelude.Int.{ℤ}
use uni.Mdspan.Vec.{cons, nil}
use uni.Mdspan.Sort.{Sort}
use uni.Mdspan.Memory.{Memory}
use uni.Mdspan.Strides.{ExtentStrides}
use uni.Mdspan.Visits.{visits}
use uni.Kernel.Contract.{Scalar, Pointers}
use uni.Kernel.Contract.Sums.{IsExact, sum, products}
use uni.Kernel.Contract.Result.{contract_strided-sum}
use uni.Kernel.Extract.Legs.{
  IsPaired, IsFree, SameExtents, groups, IsPaired-SameExtents, extract_groups-IsPaired,
}
use uni.Kernel.Extract.Offsets.{tuples, IsTuple, offset, place, visits-groups}
use uni.Kernel.Extract.Elements.{place-cells, c_offsets-cells}
use uni.Kernel.Extract.{Leg, k_group, extract_groups, extract_strides, contract}

bind-none :
    {X Y : Type 0} (o : Option X) (f : X → Option Y) → ((x : X) → f x ≡ none) → (o >>= f) ≡ none
bind-none none f h = refl
bind-none (some x) f h = h x

check-none : {Y : Type 0} (b : Bool) (o : Option Y) → o ≡ none → (check b >> o) ≡ none
check-none true o h = h
check-none false o h = refl

k_group-mismatch :
    (la lb : List Leg) (xs ys : List (ℕ × ℕ)) (ai bi : ℕ) (x y : Leg)
    → get_elem? la ai ≡ some x
    → get_elem? lb bi ≡ some y
    → (x.extent == y.extent) ≡ false
    → k_group la lb (xs ++ (ai, bi) ∷ ys) ≡ none
unfolding k_group
k_group-mismatch la lb [] ys ai bi x y hx hy n = rw (hx, hy, n) refl
k_group-mismatch la lb ((aj, bj) ∷ xs) ys ai bi x y hx hy n =
    rw (k_group-mismatch la lb xs ys ai bi x y hx hy n) (
      bind-none (get_elem? la aj) _
        (λ v. bind-none (get_elem? lb bj) _ (λ w. check-none (v.extent == w.extent) _ refl)))

module _ {A : Type 0} ⦃s : Scalar A⦄ (by_stride : Sort (ExtentStrides 2)) (alpha beta : A)
    (la lb lc : List Leg) (a b c : Memory A) (p : Pointers) where
  products-groups :
      {dims : List (ℕ × ℕ)} (xs ys : List Leg)
      → IsPaired la lb dims xs ys
      → (u v : ℤ)
      → products a b (visits (groups xs ys) (cons u (cons v nil)))
        ≡ map (λ ks. s.times (a (offset xs u ks)) (b (offset ys v ks))) (tuples xs)
  products-groups xs ys hp u v =
      ap (products a b) (visits-groups xs ys (IsPaired-SameExtents hp) u v)
      ∙ map-map _ _ (tuples xs)

  -- Whatever pairs of legs are to be contracted, if two legs of one pair have different extents then
  -- contract fails.
  pub contract-mismatch :
      (xs ys : List (ℕ × ℕ)) (ai bi : ℕ) (x y : Leg)
      → get_elem? la ai ≡ some x
      → get_elem? lb bi ≡ some y
      → (x.extent == y.extent) ≡ false
      → contract by_stride alpha la lb (xs ++ (ai, bi) ∷ ys) beta lc a b p c ≡ none
  unfolding contract extract_strides extract_groups
  contract-mismatch xs ys ai bi x y hx hy n =
      rw (k_group-mismatch la lb xs ys ai bi x y hx hy n) refl

  -- When the pairs to be contracted name the legs `xs` of A and `ys` of B, pairwise of one extent;
  -- the other legs of A are `fa` and those of B are `fb`; the legs of C are `zs` and then `ws`, with
  -- the extents of `fa` and of `fb`; and no two elements of C that these give share an offset: then
  -- contract, for exact scalars, returns a C in which the element at the indices `is` on `zs` and
  -- `js` on `ws` is beta times the old one plus alpha times the sum, over all indices `ks` of the
  -- contracted legs, of the element of A at `is` and `ks` times the element of B at `js` and `ks`.
  pub contract-sum :
      IsExact s
      → (dims : List (ℕ × ℕ)) (xs ys fa fb zs ws : List Leg) → IsPaired la lb dims xs ys
      → IsFree (map (λ (d : ℕ × ℕ). d.0) dims) 0 la fa
      → IsFree (map (λ (d : ℕ × ℕ). d.1) dims) 0 lb fb
      → lc ≡ zs ++ ws
      → SameExtents fa zs
      → SameExtents fb ws
      → Nodup (flat_map (λ is. map (offset ws (offset zs p.c_ptr is)) (tuples fb)) (tuples fa))
      → (is js : List ℕ) → IsTuple fa is
      → IsTuple fb js
      → (contract by_stride alpha la lb dims beta lc a b p c >>= λ r.
          some (r (offset ws (offset zs p.c_ptr is) js)))
        ≡ some (
            s.plus (s.times beta (c (offset ws (offset zs p.c_ptr is) js))) (
              s.times alpha (
                sum (
                  map
                    (λ ks.
                      s.times
                        (a (offset xs (offset fa p.a_ptr is) ks))
                        (b (offset ys (offset fb p.b_ptr js) ks)))
                    (tuples xs)))))
  unfolding contract extract_strides
  contract-sum h dims xs ys fa fb zs ws hp ha hb l ea eb d is js ta tb =
      rw (l, extract_groups-IsPaired zs ws hp ha hb ea eb)
        (ap some (
          contract_strided-sum h by_stride (groups fa zs) (groups fb ws) (groups xs ys) alpha beta a
            b c p (rw (c_offsets-cells fa fb zs ws ea eb p) d) (place fa fb zs ws p is js)
            (place-cells fa fb zs ws ea eb p is js ta tb)
          ∙ ap
              (λ t.
                s.plus (s.times beta (c (offset ws (offset zs p.c_ptr is) js)))
                  (s.times alpha (sum t)))
              (products-groups xs ys hp (offset fa p.a_ptr is) (offset fb p.b_ptr js))))
