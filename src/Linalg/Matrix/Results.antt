-- ===== src/Linalg/Matrix/Results.antt =====
-- The entries of sums and products of matrices.
use uni.Prelude.{
  ℕ, zero, suc, ◌+◌, ◌≡◌, ◌<◌, refl, sym, ap, ◌∙◌, true, Option, some, ◌==◌, ==_iff, arith,
}
use uni.Linalg.Matrix.{
  Memory, MatrixView, Arithmetic, each_from, assign_cells, element, inner, multiply, same_shape,
  add, subtract, scale, copy,
}
use uni.Linalg.Matrix.Loops.{HasOwnCells, IsOutside, IsApart, assign_cells-value}

-- No element of the second view lies in the first.
abbrev pub IsApartFrom : MatrixView → MatrixView → Type 0
IsApartFrom out v = (i j : ℕ) → i < v.rows → j < v.cols → IsOutside out (v.at i j)

-- `result` is done, with these elements in `out`, and no other element changed.
abbrev pub Gives : {T : Type 0} → Option (Memory T) → MatrixView → Memory T → (ℕ → ℕ → T) → Type 0
Gives {T = T} result out m value =
    (m' : Memory T) × (result ≡ some m')
    × ((i j : ℕ) → i < out.rows → j < out.cols → m' (out.at i j) ≡ value i j)
    × ((a : ℕ) → IsOutside out a → m' a ≡ m a)

plus_zero : (k : ℕ) → k ≡ k + 0
plus_zero k = omega arith

equal_test : (a b : ℕ) → a ≡ b → (a == b) ≡ true
equal_test a b e = (==_iff a b).1 e

sized :
    (v : MatrixView) (rows cols : ℕ)
    → v.rows ≡ rows
    → v.cols ≡ cols
    → record v { rows = rows; cols = cols } ≡ v
sized v rows cols r c = rw (← r, ← c) refl

abbrev pub SameShape : MatrixView → MatrixView → Type 0
SameShape v w = (v.rows ≡ w.rows) × (v.cols ≡ w.cols)

same_shape-SameShape : (v w : MatrixView) → SameShape v w → same_shape v w ≡ true
unfolding same_shape
same_shape-SameShape v w s =
    rw (equal_test (v.rows) (w.rows) s.0, equal_test (v.cols) (w.cols) s.1) refl

module _ {T : Type 0} ⦃t : Arithmetic T⦄ where
  -- The sum of the first values.
  abbrev pub total : ℕ → (ℕ → T) → T
  total zero f = t.nought
  total (suc n) f = t.plus (total n f) (f n)

  each_from-total :
      (n k : ℕ) (f : ℕ → T)
      → each_from k n (λ i value. t.plus value (f i)) (total k f) ≡ total (k + n) f
  unfolding each_from
  each_from-total zero k f = ap (λ q. total q f) (plus_zero k)
  each_from-total (suc n) k f =
      ap (λ q. each_from q n (λ i value. t.plus value (f i)) (total (suc k) f)) (next k)
      ∙ each_from-total n (suc k) f
      ∙ ap (λ q. total q f) (shift k n)
    where
      next : (k : ℕ) → k + 1 ≡ suc k
      next k = omega arith

      shift : (k n : ℕ) → suc k + n ≡ k + suc n
      shift k n = omega arith

  abbrev pub product_entry : MatrixView → MatrixView → Memory T → ℕ → ℕ → T
  product_entry lhs rhs m i j =
      total lhs.cols (λ k. t.times (element m lhs i k) (element m rhs k j))

  inner-total :
      (lhs rhs : MatrixView) (m : Memory T) (i j : ℕ)
      → inner lhs rhs i j m ≡ product_entry lhs rhs m i j
  unfolding inner
  inner-total lhs rhs m i j =
      each_from-total (lhs.cols) 0 (λ k. t.times (element m lhs i k) (element m rhs k j))
      ∙ ap (λ q. total q (λ k. t.times (element m lhs i k) (element m rhs k j)))
          (zero_plus (lhs.cols))
    where
      zero_plus : (n : ℕ) → 0 + n ≡ n
      zero_plus n = omega arith

  total-cong : (n : ℕ) (f g : ℕ → T) → ((k : ℕ) → k < n → f k ≡ g k) → total n f ≡ total n g
  total-cong zero f g e = refl
  total-cong (suc n) f g e =
      ap (λ x. t.plus x (f n)) (total-cong n f g (λ k l. e k (omega arith)))
      ∙ ap (t.plus (total n g)) (e n (omega arith))

  inner-IsApart :
      (lhs rhs out : MatrixView) (own : HasOwnCells out)
      → lhs.cols ≡ rhs.rows
      → out.rows ≡ lhs.rows
      → out.cols ≡ rhs.cols
      → IsApartFrom out lhs
      → IsApartFrom out rhs
      → IsApart {T = T} out own (inner lhs rhs)
  inner-IsApart lhs rhs out own e r c pl pr i j m m' x y g =
      inner-total lhs rhs m i j
      ∙ total-cong (lhs.cols) _ _ (λ k l.
        ap (λ q. t.times q (m (rhs.at k j))) (g (lhs.at i k) (pl i k (omega arith) l))
        ∙ ap (λ q. t.times (m' (lhs.at i k)) q)
            (g (rhs.at k j) (pr k j (omega arith) (omega arith))))
      ∙ sym (inner-total lhs rhs m' i j)

  -- When the shapes agree, `out` has its own cells and shares none with the operands, multiply
  -- leaves at each element of `out` the sum of the products along the row and the column, and
  -- changes nothing else.
  pub multiply-product_entry :
      (lhs rhs out : MatrixView) (m : Memory T)
      → lhs.cols ≡ rhs.rows
      → out.rows ≡ lhs.rows
      → out.cols ≡ rhs.cols
      → HasOwnCells out
      → IsApartFrom out lhs
      → IsApartFrom out rhs
      → Gives (multiply lhs rhs out m) out m (product_entry lhs rhs m)
  unfolding multiply
  multiply-product_entry lhs rhs out m e r c own pl pr =
      let (at, out_of) =
        assign_cells-value out own (inner lhs rhs) m (inner-IsApart lhs rhs out own e r c pl pr) in
      (
        assign_cells out (inner lhs rhs) m,
        rw
            (
              equal_test (lhs.cols) (rhs.rows) e,
              equal_test (out.rows) (lhs.rows) r,
              equal_test (out.cols) (rhs.cols) c,
            )
            (ap (λ v. some (assign_cells v (inner lhs rhs) m))
              (sized out (lhs.rows) (rhs.cols) r c)),
        λ i j x y. at i j x y ∙ inner-total lhs rhs m i j,
        out_of,
      )

  element-Agree :
      (v out : MatrixView) {m m' : Memory T} (i j : ℕ)
      → SameShape v out
      → IsApartFrom out v
      → i < out.rows
      → j < out.cols
      → ((a : ℕ) → IsOutside out a → m a ≡ m' a)
      → element m v i j ≡ element m' v i j
  element-Agree v out i j s p x y g = g (v.at i j) (p i j (omega (arith, s.0)) (omega (arith, s.1)))

  -- A value made of the elements at the same indices.
  assign_elements-Gives :
      (lhs out : MatrixView) (m : Memory T) (value : ℕ → ℕ → Memory T → T) (own : HasOwnCells out)
      → SameShape lhs out
      → IsApart out own value
      → Gives
          (some (assign_cells (record out { rows = lhs.rows; cols = lhs.cols }) value m))
          out
          m
          (λ i j. value i j m)
  assign_elements-Gives lhs out m value own s p =
      let (at, out_of) = assign_cells-value out own value m p in
      (
        assign_cells out value m,
        ap (λ v. some (assign_cells v value m))
            (sized out (lhs.rows) (lhs.cols) (sym s.0) (sym s.1)),
        at,
        out_of,
      )

  -- For views of one shape, where `out` has its own cells and shares none with the operands, add,
  -- subtract, scale and copy leave at each element of `out` the sum, the difference, the multiple or
  -- the copy of the elements of the operands at these indices, and change nothing else.
  pub elementwise-Gives :
      (lhs rhs out : MatrixView) (x : T) (m : Memory T)
      → SameShape lhs rhs
      → SameShape lhs out
      → HasOwnCells out
      → IsApartFrom out lhs
      → IsApartFrom out rhs
      → Gives (add lhs rhs out m) out m (λ i j. t.plus (element m lhs i j) (element m rhs i j))
        × Gives
            (subtract lhs rhs out m)
            out
            m
            (λ i j. t.minus (element m lhs i j) (element m rhs i j))
        × Gives (scale lhs x out m) out m (λ i j. t.times (element m lhs i j) x)
        × Gives (copy lhs out m) out m (λ i j. element m lhs i j)
  unfolding add subtract scale copy
  elementwise-Gives lhs rhs out x m s s' own pl pr =
      rw (same_shape-SameShape lhs rhs s, same_shape-SameShape lhs out s')
        (
          assign_elements-Gives lhs out m _ own s'
              (λ i j n n' y z g. rw (at_lhs i j y z g, at_rhs i j y z g) refl),
          assign_elements-Gives lhs out m _ own s'
              (λ i j n n' y z g. rw (at_lhs i j y z g, at_rhs i j y z g) refl),
          assign_elements-Gives lhs out m _ own s' (λ i j n n' y z g. rw (at_lhs i j y z g) refl),
          assign_elements-Gives lhs out m _ own s' (λ i j n n' y z g. at_lhs i j y z g),
        )
    where
      at_lhs :
          {n n' : Memory T} (i j : ℕ)
          → i < out.rows
          → j < out.cols
          → ((a : ℕ) → IsOutside out a → n a ≡ n' a)
          → element n lhs i j ≡ element n' lhs i j
      at_lhs i j y z g = element-Agree lhs out i j s' pl y z g

      at_rhs :
          {n n' : Memory T} (i j : ℕ)
          → i < out.rows
          → j < out.cols
          → ((a : ℕ) → IsOutside out a → n a ≡ n' a)
          → element n rhs i j ≡ element n' rhs i j
      at_rhs i j y z g = element-Agree rhs out i j (sym s.0 ∙ s'.0, sym s.1 ∙ s'.1) pr y z g
