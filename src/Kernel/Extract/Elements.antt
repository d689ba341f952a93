-- ===== src/Kernel/Extract/Elements.antt =====
-- Every tuple of indices has its cell among those that the loops go through.
use mathlib.Core.List.{
  flat_map, map, map-map, Mem, mem-cons_self, mem-append_left, mem-append_right, append_assoc,
}
use mathlib.Core.Path.{fun_ext, subst}
use uni.Prelude.{ℕ, zero, suc, ◌+◌, ◌<◌, ◌≡◌, refl, sym, ap, ◌∙◌, List, [], ◌∷◌, ◌++◌, arith}
use uni.Mdspan.Indices.{range, map-flat_map}
use uni.Kernel.Contract.{Pointers}
use uni.Kernel.Contract.Cells.{cells}
use uni.Kernel.Extract.{Leg}
use uni.Kernel.Extract.Legs.{SameExtents, groups}
use uni.Kernel.Extract.Offsets.{tuples, IsTuple, offset, place, flat_map-map, cells-groups}

module _ {X Y : Type 0} where
  flat_map-append :
      (g : X → List Y) (xs ys : List X) → flat_map g (xs ++ ys) ≡ flat_map g xs ++ flat_map g ys
  unfolding flat_map
  flat_map-append g [] ys = refl
  flat_map-append g (x ∷ xs) ys =
      ap (◌++◌ (g x)) (flat_map-append g xs ys)
      ∙ sym (append_assoc (g x) (flat_map g xs) (flat_map g ys))

  flat_map-flat_map :
      {W : Type 0} (g : X → List Y) (h : W → List X) (ws : List W)
      → flat_map g (flat_map h ws) ≡ flat_map (λ w. flat_map g (h w)) ws
  unfolding flat_map
  flat_map-flat_map g h [] = refl
  flat_map-flat_map g h (w ∷ ws) =
      flat_map-append g (h w) (flat_map h ws)
      ∙ ap (◌++◌ (flat_map g (h w))) (flat_map-flat_map g h ws)

  map-flat_map_single : (f : X → Y) (xs : List X) → map f xs ≡ flat_map (λ x. f x ∷ []) xs
  unfolding flat_map
  map-flat_map_single f [] = refl
  map-flat_map_single f (x ∷ xs) = ap (λ ys. f x ∷ ys) (map-flat_map_single f xs)

add_zero_lem : (k : ℕ) → k + 0 ≡ k
add_zero_lem k = omega arith

zero_add_lem : (k : ℕ) → 0 + k ≡ k
zero_add_lem k = omega arith

add_suc_lem : (k i : ℕ) → k + suc i ≡ suc k + i
add_suc_lem k i = omega arith

mem-flat_map-range :
    {Y : Type 0} (f : ℕ → List Y) (y : Y) (e k i : ℕ)
    → i < e
    → Mem y (f (k + i))
    → Mem y (flat_map f (range k e))
unfolding flat_map
mem-flat_map-range f y zero k i l m = absurd (omega arith)
mem-flat_map-range f y (suc e) k zero l m =
    mem-append_left _ (subst (λ n. Mem y (f n)) (add_zero_lem k) m)
mem-flat_map-range f y (suc e) k (suc i) l m = mem-append_right _ (
    mem-flat_map-range f y e (suc k) i (omega arith) (subst (λ n. Mem y (f n)) (add_suc_lem k i) m))

mem-flat_map-tuples :
    {Y : Type 0} (g : List ℕ → List Y) (y : Y) (xs : List Leg) (is : List ℕ)
    → IsTuple xs is
    → Mem y (g is)
    → Mem y (flat_map g (tuples xs))
unfolding flat_map
mem-flat_map-tuples g y [] [] t m = mem-append_left [] m
mem-flat_map-tuples g y [] (i ∷ is) t m = absurd t
mem-flat_map-tuples g y (x ∷ xs) [] t m = absurd t
mem-flat_map-tuples g y (x ∷ xs) (i ∷ is) t m =
    rw (flat_map-flat_map g (λ i. map (◌∷◌ i) (tuples xs)) (range 0 x.extent)) (
      mem-flat_map-range _ y x.extent 0 i t.0 (
        rw (flat_map-map g (◌∷◌ (0 + i)) (tuples xs)) (
          mem-flat_map-tuples (λ is. g ((0 + i) ∷ is)) y xs is t.1
            (subst (λ n. Mem y (g (n ∷ is))) (sym (zero_add_lem i)) m))))

module _ (fa fb zs ws : List Leg) (ea : SameExtents fa zs) (eb : SameExtents fb ws)
    (p : Pointers) where
  pub place-cells :
      (is js : List ℕ)
      → IsTuple fa is
      → IsTuple fb js
      → Mem (place fa fb zs ws p is js) (cells (groups fa zs) (groups fb ws) p)
  place-cells is js ta tb = rw (cells-groups fa fb zs ws ea eb p) (
      mem-flat_map-tuples (λ is. map (place fa fb zs ws p is) (tuples fb)) _ fa is ta
        (rw (map-flat_map_single (place fa fb zs ws p is) (tuples fb))
          (mem-flat_map-tuples (λ js. place fa fb zs ws p is js ∷ []) _ fb js tb mem-cons_self)))

  pub c_offsets-cells :
      map (λ (q : Pointers). q.c_ptr) (cells (groups fa zs) (groups fb ws) p)
      ≡ flat_map (λ is. map (offset ws (offset zs p.c_ptr is)) (tuples fb)) (tuples fa)
  c_offsets-cells =
      ap (map (λ (q : Pointers). q.c_ptr)) (cells-groups fa fb zs ws ea eb p)
      ∙ map-flat_map (λ (q : Pointers). q.c_ptr) (λ is. map (place fa fb zs ws p is) (tuples fb))
          (tuples fa)
      ∙ ap (λ f. flat_map f (tuples fa))
          (fun_ext λ is. map-map (λ (q : Pointers). q.c_ptr) (place fa fb zs ws p is) (tuples fb))
