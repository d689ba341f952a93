-- ===== src/Kernel/Extract.antt =====
-- extract_strides of src/uni20/mdspan/strides.hpp, and contract of src/uni20/kernel/contract.hpp that
-- calls it. A tensor is the list of its legs; `none` is an extent that does not match, or a leg that
-- the tensor does not have.
pub mod Legs
pub mod Offsets
pub mod Elements
pub mod Errors
use uni.Prelude.{
  ℕ, suc, Bool, true, false, ◌||◌, List, [], ◌∷◌, Option, none, some, ◌>>=◌, ◌>>◌, check, get_elem?,
  if◌then◌else◌, ◌==◌,
}
use uni.Prelude.Int.{ℤ}
use mathlib.Core.List.{map}
use uni.Mdspan.Vec.{nil, cons}
use uni.Mdspan.Sort.{Sort}
use uni.Mdspan.Memory.{Memory}
use uni.Mdspan.Strides.{ExtentStrides, sort_and_merge_right}
use uni.Kernel.Contract.{Scalar, Pointers, contract_strided}

pub record Leg : Type 0 where
  pub extent : ℕ
  pub stride : ℤ

unfoldable pub group_dim : Leg → Leg → ExtentStrides 2
group_dim x y = record { extent = x.extent; strides = cons x.stride (cons y.stride nil) }

-- The loop over the contracted pairs of legs.
unfoldable pub k_group : List Leg → List Leg → List (ℕ × ℕ) → Option (List (ExtentStrides 2))
k_group la lb [] = some []
k_group la lb ((ai, bi) ∷ dims) = do
  x ← get_elem? la ai
  y ← get_elem? lb bi
  check (x.extent == y.extent)
  rest ← k_group la lb dims
  some (group_dim x y ∷ rest)

-- AContracted and BContracted, for the legs that are listed.
unfoldable pub is_contracted : List ℕ → ℕ → Bool
is_contracted [] i = false
is_contracted (j ∷ js) i = (i == j) || is_contracted js i

-- An uncontracted leg goes with the next leg of C.
unfoldable pub match_leg :
    Leg
    → List Leg
    → (List Leg → Option (List (ExtentStrides 2) × List Leg))
    → Option (List (ExtentStrides 2) × List Leg)
match_leg x [] others = none
match_leg x (z ∷ lc) others = do
  check (x.extent == z.extent)
  (rest, lc') ← others lc
  some (group_dim x z ∷ rest, lc')

-- The loops over the uncontracted legs, from the leg `i` on and with the legs of C from `ci` on.
unfoldable pub free_group :
    List ℕ → ℕ → List Leg → List Leg → Option (List (ExtentStrides 2) × List Leg)
free_group contracted i [] lc = some ([], lc)
free_group contracted i (x ∷ xs) lc =
    let others = free_group contracted (suc i) xs in
    if is_contracted contracted i then others lc else match_leg x lc others

-- Mgroup, Ngroup and Kgroup before they are merged.
unfoldable pub extract_groups :
    List Leg
    → List Leg
    → List (ℕ × ℕ)
    → List Leg
    → Option (List (ExtentStrides 2) × List (ExtentStrides 2) × List (ExtentStrides 2))
extract_groups la lb dims lc = do
  ks ← k_group la lb dims
  (ms, lc') ← free_group (map (λ (d : ℕ × ℕ). d.0) dims) 0 la lc
  (ns, lc'') ← free_group (map (λ (d : ℕ × ℕ). d.1) dims) 0 lb lc'
  some (ms, ns, ks)

module _ (s : Sort (ExtentStrides 2)) where
  unfoldable pub extract_strides :
      List Leg
      → List Leg
      → List (ℕ × ℕ)
      → List Leg
      → Option (List (ExtentStrides 2) × List (ExtentStrides 2) × List (ExtentStrides 2))
  extract_strides la lb dims lc = do
    (ms, ns, ks) ← extract_groups la lb dims lc
    some (sort_and_merge_right s ms, sort_and_merge_right s ns, sort_and_merge_right s ks)

  -- The pointers are the data handles of the three tensors.
  unfoldable pub contract :
      {A : Type 0} ⦃r : Scalar A⦄
      → A
      → List Leg
      → List Leg
      → List (ℕ × ℕ)
      → A
      → List Leg
      → Memory A
      → Memory A
      → Pointers
      → Memory A
      → Option (Memory A)
  contract alpha la lb dims beta lc a b p c = do
    (ms, ns, ks) ← extract_strides la lb dims lc
    some (contract_strided ms ns ks alpha beta a b p c)
