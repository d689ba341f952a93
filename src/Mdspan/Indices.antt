-- ===== src/Mdspan/Indices.antt =====
-- Multi-indices and the offsets that a strided mapping gives them: what the nested loops go through.
use mathlib.Core.List.{flat_map, map, map-append, map-map}
use uni.Prelude.{ℕ, zero, suc, ◌≡◌, refl, sym, ap, ◌∙◌, List, [], ◌∷◌, ◌++◌}
use uni.Prelude.Int.{ℤ}
use mathlib.Core.Path.{fun_ext}
use uni.Mdspan.Vec.{Vec, add, scale, add-scale-zero, add-scale-suc, add_right_comm}
use uni.Mdspan.Strides.{ExtentStrides}
use uni.Mdspan.Visits.{steps, visits}

-- start, start + 1, ..., start + e - 1
abbrev pub range : ℕ → ℕ → List ℕ
range start zero = []
range start (suc e) = start ∷ range (suc start) e

-- The last index runs fastest.
abbrev pub indices : {n : ℕ} → List (ExtentStrides n) → List (List ℕ)
indices [] = [] ∷ []
indices (d ∷ ds) = flat_map (λ i. map (◌∷◌ i) (indices ds)) (range 0 d.extent)

-- The start plus each index times its stride.
abbrev pub offset_at : {n : ℕ} → List (ExtentStrides n) → Vec ℤ n → List ℕ → Vec ℤ n
offset_at [] o is = o
offset_at (d ∷ ds) o [] = o
offset_at (d ∷ ds) o (i ∷ is) = offset_at ds (add o (scale d.strides i)) is

pub map-flat_map :
    {X Y Z : Type 0} (g : Y → Z) (h : X → List Y) (xs : List X)
    → map g (flat_map h xs) ≡ flat_map (λ x. map g (h x)) xs
unfolding flat_map
map-flat_map g h [] = refl
map-flat_map g h (x ∷ xs) =
    map-append g (h x) (flat_map h xs) ∙ ap (◌++◌ (map g (h x))) (map-flat_map g h xs)

module _ {n : ℕ} where
  steps-range :
      (e k : ℕ) (s : Vec ℤ n) (f : Vec ℤ n → List (Vec ℤ n)) (o : Vec ℤ n)
      → steps e s f (add o (scale s k)) ≡ flat_map (λ i. f (add o (scale s i))) (range k e)
  unfolding steps flat_map
  steps-range zero k s f o = refl
  steps-range (suc e) k s f o = ap (◌++◌ (f (add o (scale s k)))) (
      ap (steps e s f) (add_right_comm o (scale s k) s ∙ sym (add-scale-suc o s k))
      ∙ steps-range e (suc k) s f o)

  pub visits-range :
      (d : ExtentStrides n) (ds : List (ExtentStrides n)) (o : Vec ℤ n)
      → visits (d ∷ ds) o ≡ flat_map (λ i. visits ds (add o (scale d.strides i))) (range 0 d.extent)
  unfolding visits
  visits-range d ds o =
      ap (steps d.extent d.strides (visits ds)) (sym (add-scale-zero o d.strides))
      ∙ steps-range d.extent 0 d.strides (visits ds) o

  -- The nested loops visit the offset of each multi-index, with the last index running fastest.
  pub visits-indices :
      (ds : List (ExtentStrides n)) (o : Vec ℤ n) → visits ds o ≡ map (offset_at ds o) (indices ds)
  visits-indices [] o = unfold visits in refl
  visits-indices (d ∷ ds) o =
      visits-range d ds o
      ∙ ap (λ f. flat_map f (range 0 d.extent))
          (fun_ext λ i.
            visits-indices ds (add o (scale d.strides i))
            ∙ sym (map-map (offset_at (d ∷ ds) o) (◌∷◌ i) (indices ds)))
      ∙ sym (map-flat_map (offset_at (d ∷ ds) o) (λ i. map (◌∷◌ i) (indices ds)) (range 0 d.extent))
