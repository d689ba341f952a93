-- ===== src/Kernel/Contract/Result.antt =====
-- What GemmLoop leaves in C.
use mathlib.Core.List.{foldl, map, Mem, Nodup}
use mathlib.Core.List.Perm
use mathlib.Core.List.{Perm}
use mathlib.Core.Path.{fun_ext}
use uni.Prelude.{◌≡◌, ap, ◌∙◌, List}
use uni.Prelude.Int.{ℤ}
use uni.Mdspan.Vec.{nil, cons}
use uni.Mdspan.Sort.{Sort}
use uni.Mdspan.Strides.{ExtentStrides, sort_and_merge_right}
use uni.Mdspan.Strides.Merge.{visits-sort_and_merge_right}
use uni.Mdspan.Visits.{visits}
use uni.Mdspan.Memory.{Memory, store, write, write_all_at, write_all_apart}
use uni.Kernel.Contract.{Scalar, Pointers, cell, contract_strided}
use uni.Kernel.Contract.Cells.{cells, cells-perm, loops-cells}
use uni.Kernel.Contract.Sums.{IsExact, sum, products, dot_k-sum}

-- Some scalars, the groups of dimensions, the factors and the tensors.
module _ {A : Type 0} ⦃s : Scalar A⦄ (h : IsExact s) (by_stride : Sort (ExtentStrides 2))
    (ms ns ks : List (ExtentStrides 2)) (alpha beta : A) (a b c : Memory A) (p : Pointers) where
  -- The groups are merged by extract_strides.
  abbrev contracted : Memory A
  contracted =
      contract_strided (sort_and_merge_right by_stride ms) (sort_and_merge_right by_stride ns)
        (sort_and_merge_right by_stride ks) alpha beta a b p c

  abbrev summed : Pointers → A → A
  summed q x =
      s.plus (s.times beta x)
        (s.times alpha (sum (products a b (visits ks (cons q.a_ptr (cons q.b_ptr nil))))))

  merged_cells-perm :
      Perm
        (cells (sort_and_merge_right by_stride ms) (sort_and_merge_right by_stride ns) p)
        (cells ms ns p)
  merged_cells-perm =
      cells-perm _ ms _ ns (visits-sort_and_merge_right by_stride ms)
        (visits-sort_and_merge_right by_stride ns) p

  contracted-cells :
      contracted
      ≡ foldl
          (write (λ (q : Pointers). q.c_ptr) summed)
          c
          (cells (sort_and_merge_right by_stride ms) (sort_and_merge_right by_stride ns) p)
  unfolding contract_strided cell
  contracted-cells =
      loops-cells (cell (sort_and_merge_right by_stride ks) alpha beta a b) _ _ p c
      ∙ ap
          (λ g.
            foldl g c
              (cells (sort_and_merge_right by_stride ms) (sort_and_merge_right by_stride ns) p))
          (fun_ext λ c. fun_ext λ q.
            ap (λ t. store c q.c_ptr (s.plus (s.times beta (c q.c_ptr)) (s.times alpha t)))
              (dot_k-sum h a b (sort_and_merge_right by_stride ks) ks _
                (visits-sort_and_merge_right by_stride ks _)))

  -- For exact scalars, when no two cells of the unmerged dimensions share an offset in C, the
  -- contraction over the merged dimensions leaves at each of the cells beta times the old value plus
  -- alpha times the sum of the products over the unmerged contracted dimensions.
  pub contract_strided-sum :
      Nodup (map (λ (q : Pointers). q.c_ptr) (cells ms ns p))
      → (q : Pointers) → Mem q (cells ms ns p)
      → contract_strided
          (sort_and_merge_right by_stride ms)
          (sort_and_merge_right by_stride ns)
          (sort_and_merge_right by_stride ks)
          alpha
          beta
          a
          b
          p
          c
          q.c_ptr
        ≡ s.plus
            (s.times beta (c q.c_ptr))
            (s.times alpha (sum (products a b (visits ks (cons q.a_ptr (cons q.b_ptr nil))))))
  contract_strided-sum d q m =
      ap (λ (r : Memory A). r q.c_ptr) contracted-cells
      ∙ write_all_at (λ (q : Pointers). q.c_ptr) summed h.is_set _ c q
          (Perm.nodup (Perm.symm (Perm.map (λ (q : Pointers). q.c_ptr) merged_cells-perm)) d)
          ((Perm.mem_iff merged_cells-perm).1 m)

  -- Where no cell of the unmerged dimensions has its offset in C, the contraction over the merged
  -- dimensions of exact scalars changes nothing.
  pub contract_strided_apart :
      (r : ℤ)
      → ¬ Mem r (map (λ (q : Pointers). q.c_ptr) (cells ms ns p))
      → contract_strided
          (sort_and_merge_right by_stride ms)
          (sort_and_merge_right by_stride ns)
          (sort_and_merge_right by_stride ks)
          alpha
          beta
          a
          b
          p
          c
          r
        ≡ c r
  contract_strided_apart r n =
      ap (λ (f : Memory A). f r) contracted-cells
      ∙ write_all_apart (λ (q : Pointers). q.c_ptr) summed _ c r
          (λ m. n ((Perm.mem_iff (Perm.map (λ (q : Pointers). q.c_ptr) merged_cells-perm)).0 m))
