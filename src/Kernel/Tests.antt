-- ===== src/Kernel/Tests.antt =====
-- The product of two 2 × 2 matrices that are packed by rows, over the natural numbers.
use mathlib.Core.List.{Mem, Nodup, mem-cons_self, mem-cons_of_mem, map, flat_map}
use native.Mathlib.Nat.{ℕ_set}
use uni.Prelude.{some, none, ◌>>=◌, inl, ℕ, suc, ◌+◌, ◌*◌, ◌≡◌, refl, List, [], ◌∷◌, arith}
use uni.Prelude.Distinct.{Apart-not_mem, Distinct-Nodup}
use uni.Prelude.Int.{ℤ, pos, pos_part, ◌+ℤ◌, ◌*ℤ◌}
use uni.Mdspan.Vec.{nil, cons, add, ◌==ℤ◌}
use uni.Mdspan.Strides.{ExtentStrides, sort_and_merge_right}
use uni.Mdspan.Visits.{steps, visits}
use uni.Mdspan.Sort.Insertion.{by_insertion}
use uni.Kernel.Extract.{
  Leg, group_dim, k_group, is_contracted, match_leg, free_group, extract_groups, contract,
}
use uni.Kernel.Extract.Legs.{IsPaired, IsFree}
use uni.Kernel.Extract.Offsets.{tuples, offset}
use uni.Kernel.Extract.Errors.{contract-sum, contract-mismatch}
use uni.Kernel.Contract.{
  Scalar, Pointers, for_each, next_m, next_n, dot_k, cell, loop_n, loop_m, contract_strided,
}
use uni.Mdspan.Memory.{Memory, store}
use uni.Kernel.Contract.Cells.{cells}
use uni.Kernel.Contract.Sums.{IsExact, sum, products}
use uni.Kernel.Contract.Result.{contract_strided-sum, contract_strided_apart}

instance abbrev of_numbers : Scalar ℕ
of_numbers = record { zero = 0; plus = λ x y. x + y; times = λ x y. x * y }

of_numbers-IsExact : IsExact of_numbers
of_numbers-IsExact = record {
  is_set = ℕ_set;
  plus_assoc = λ x y z. omega arith;
  plus_comm = λ x y. omega arith;
}

abbrev dim : ℕ → ℤ → ℤ → ExtentStrides 2
dim e x y = record { extent = e; strides = cons x (cons y nil) }

abbrev rows_of_a : List (ExtentStrides 2)
rows_of_a = dim 2 (pos 2) (pos 2) ∷ []

abbrev columns_of_b : List (ExtentStrides 2)
columns_of_b = dim 2 (pos 1) (pos 1) ∷ []

abbrev inner : List (ExtentStrides 2)
inner = dim 2 (pos 1) (pos 2) ∷ []

-- 1 2 / 3 4, for all three tensors.
abbrev numbers : Memory ℕ
numbers z = suc (pos_part z)

abbrev start : Pointers
start = record { a_ptr = pos 0; b_ptr = pos 0; c_ptr = pos 0 }

unfoldable ran {ℓ} : {A : Type ℓ} → A → A
unfolding steps visits add ◌==ℤ◌ ◌+ℤ◌ ◌*ℤ◌ store for_each next_m next_n dot_k cell loop_n loop_m
    contract_strided flat_map map
ran a = a

-- 10 · (1 2 / 3 4) + (1 2 / 3 4)²: the lower row.
products_run :
    (contract_strided rows_of_a columns_of_b inner 1 10 numbers numbers start numbers (pos 2) ≡ 45)
    × (contract_strided rows_of_a columns_of_b inner 1 10 numbers numbers start numbers (pos 3)
        ≡ 62)
unfolding ran
products_run = (refl, refl)

offsets_run :
    map (λ (q : Pointers). q.c_ptr) (cells rows_of_a columns_of_b start)
    ≡ pos 0 ∷ pos 1 ∷ pos 2 ∷ pos 3 ∷ []
unfolding ran
offsets_run = refl

offsets-Nodup : Nodup (map (λ (q : Pointers). q.c_ptr) (cells rows_of_a columns_of_b start))
offsets-Nodup = rw offsets_run (
    Distinct-Nodup (pos 0 ∷ pos 1 ∷ pos 2 ∷ pos 3 ∷ [])
      ((cc, (cc, (cc, tt))), ((cc, (cc, tt)), ((cc, tt), (tt, tt)))))

last_cell :
    Mem
      (record { a_ptr = pos 2; b_ptr = pos 1; c_ptr = pos 3 })
      (cells rows_of_a columns_of_b start)
unfolding ran
last_cell = mem-cons_of_mem _ (mem-cons_of_mem _ (mem-cons_of_mem _ mem-cons_self))

contract_strided-sum_example :
    contract_strided
      (sort_and_merge_right by_insertion rows_of_a)
      (sort_and_merge_right by_insertion columns_of_b)
      (sort_and_merge_right by_insertion inner)
      1
      10
      numbers
      numbers
      start
      numbers
      (pos 3)
    ≡ 10 * numbers (pos 3)
      + 1 * sum (products numbers numbers (visits inner (cons (pos 2) (cons (pos 1) nil))))
contract_strided-sum_example =
    contract_strided-sum of_numbers-IsExact by_insertion rows_of_a columns_of_b inner 1 10 numbers
      numbers numbers start offsets-Nodup (record { a_ptr = pos 2; b_ptr = pos 1; c_ptr = pos 3 })
      last_cell

contract_strided_apart_example :
    contract_strided
      (sort_and_merge_right by_insertion rows_of_a)
      (sort_and_merge_right by_insertion columns_of_b)
      (sort_and_merge_right by_insertion inner)
      1
      10
      numbers
      numbers
      start
      numbers
      (pos 4)
    ≡ numbers (pos 4)
contract_strided_apart_example =
    contract_strided_apart of_numbers-IsExact by_insertion rows_of_a columns_of_b inner 1 10 numbers
      numbers numbers start (pos 4)
      (rw offsets_run
        (Apart-not_mem (pos 4) (pos 0 ∷ pos 1 ∷ pos 2 ∷ pos 3 ∷ []) (cc, (cc, (cc, (cc, tt))))))

-- The same matrices with two legs each.
abbrev matrix : List Leg
matrix = record { extent = 2; stride = pos 2 } ∷ record { extent = 2; stride = pos 1 } ∷ []

abbrev column : List Leg
column = record { extent = 3; stride = pos 1 } ∷ []

unfoldable ran_extract {ℓ} : {A : Type ℓ} → A → A
unfolding ran group_dim k_group is_contracted match_leg free_group extract_groups
ran_extract a = a

groups_run :
    extract_groups matrix matrix ((1, 0) ∷ []) matrix ≡ some (rows_of_a, columns_of_b, inner)
unfolding ran_extract
groups_run = refl

abbrev row_leg : Leg
row_leg = record { extent = 2; stride = pos 2 }

abbrev column_leg : Leg
column_leg = record { extent = 2; stride = pos 1 }

element_offsets_run :
    flat_map
      (λ is.
        map
          (offset (column_leg ∷ []) (offset (row_leg ∷ []) (pos 0) is))
          (tuples (column_leg ∷ [])))
      (tuples (row_leg ∷ []))
    ≡ pos 0 ∷ pos 1 ∷ pos 2 ∷ pos 3 ∷ []
unfolding ran
element_offsets_run = refl

element_offsets-Nodup : Nodup (
    flat_map
      (λ is.
        map
          (offset (column_leg ∷ []) (offset (row_leg ∷ []) (pos 0) is))
          (tuples (column_leg ∷ [])))
      (tuples (row_leg ∷ [])))
element_offsets-Nodup = rw element_offsets_run (
    Distinct-Nodup (pos 0 ∷ pos 1 ∷ pos 2 ∷ pos 3 ∷ [])
      ((cc, (cc, (cc, tt))), ((cc, (cc, tt)), ((cc, tt), (tt, tt)))))

rows-IsFree : IsFree (1 ∷ []) 0 matrix (row_leg ∷ [])
rows-IsFree = IsFree.take (omega arith) (IsFree.skip (inl refl) IsFree.no_legs)

columns-IsFree : IsFree (0 ∷ []) 0 matrix (column_leg ∷ [])
columns-IsFree = IsFree.skip (inl refl) (IsFree.take (omega arith) IsFree.no_legs)

-- The columns of A with the rows of B.
middle-IsPaired : IsPaired matrix matrix ((1, 0) ∷ []) (column_leg ∷ []) (row_leg ∷ [])
middle-IsPaired = IsPaired.a_pair refl refl refl IsPaired.no_pairs

-- The last element of 10 · (1 2 / 3 4) + (1 2 / 3 4)².
contract-sum_example :
    (contract by_insertion 1 matrix matrix ((1, 0) ∷ []) 10 matrix numbers numbers start numbers
      >>= λ r. some (r (pos 3)))
    ≡ some 62
unfolding ran
contract-sum_example =
    contract-sum by_insertion 1 10 matrix matrix matrix numbers numbers numbers start
      of_numbers-IsExact ((1, 0) ∷ []) (column_leg ∷ []) (row_leg ∷ []) (row_leg ∷ [])
      (column_leg ∷ []) (row_leg ∷ []) (column_leg ∷ []) middle-IsPaired rows-IsFree columns-IsFree
      refl (refl, tt) (refl, tt) element_offsets-Nodup (1 ∷ []) (1 ∷ []) (omega arith, tt)
      (omega arith, tt)

contract-mismatch_example :
    contract by_insertion 1 matrix column ((1, 0) ∷ []) 10 matrix numbers numbers start numbers
    ≡ none
contract-mismatch_example =
    contract-mismatch by_insertion 1 10 matrix column matrix numbers numbers numbers start [] [] 1 0
      (record { extent = 2; stride = pos 1 }) (record { extent = 3; stride = pos 1 }) refl refl refl
