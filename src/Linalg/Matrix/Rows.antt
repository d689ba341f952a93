-- ===== src/Linalg/Matrix/Rows.antt =====
-- swap_rows.
use uni.Prelude.{
  ℕ, zero, suc, ◌+◌, ◌≡◌, ◌≤◌, ◌<◌, refl, sym, ap, ◌∙◌, true, false, some, if◌then◌else◌, ◌==◌,
  ==_iff, lt→ltb, arith, inl, inr, Bool-cases,
}
use uni.Linalg.Matrix.{Memory, write, MatrixView, each_from, swap_at, swap_rows}
use uni.Linalg.Matrix.Loops.{HasOwnCells, IsOutside, write_same, write_apart}

-- The row that ends up in a place.
abbrev pub other_row : ℕ → ℕ → ℕ → ℕ
other_row lhs rhs i = if i == lhs then rhs else if i == rhs then lhs else i

other_row-rows :
    (lhs rhs i rows : ℕ) → lhs < rows → rhs < rows → i < rows → other_row lhs rhs i < rows
other_row-rows lhs rhs i rows p q r = ground arith

other_row-other_row : (lhs rhs i : ℕ) → other_row lhs rhs (other_row lhs rhs i) ≡ i
other_row-other_row lhs rhs i = ground arith

same_row : (lhs rhs i : ℕ) → (lhs == rhs) ≡ true → i ≡ other_row lhs rhs i
same_row lhs rhs i h = ground arith

apart_rows : (lhs rhs : ℕ) → (lhs == rhs) ≡ false → ¬ (lhs ≡ rhs)
apart_rows lhs rhs h e = ground arith

-- The memory that swap_rows gives: the rows are exchanged, and what is outside the view is as before.
abbrev pub Exchanges : {T : Type 0} → MatrixView → ℕ → ℕ → Memory T → Memory T → Type 0
Exchanges v lhs rhs m m' =
    ((i j : ℕ) → i < v.rows → j < v.cols → m' (v.at i j) ≡ m (v.at (other_row lhs rhs i) j))
    × ((a : ℕ) → IsOutside v a → m' a ≡ m a)

module _ {T : Type 0} (v : MatrixView) (own : HasOwnCells v) (lhs rhs : ℕ) (pl : lhs < v.rows)
    (pr : rhs < v.rows) where
  -- A column that is swapped.
  record Column (k : ℕ) (m m' : Memory T) : Type 0 where
    outside : (a : ℕ) → IsOutside v a → m' a ≡ m a
    swapped : (i : ℕ) → i < v.rows → m' (v.at i k) ≡ m (v.at (other_row lhs rhs i) k)
    others : (i j : ℕ) → i < v.rows → j < v.cols → ¬ (j ≡ k) → m' (v.at i j) ≡ m (v.at i j)

  column : ¬ (lhs ≡ rhs) → (k : ℕ) (m : Memory T) → k < v.cols → Column k m (swap_at v lhs rhs k m)
  unfolding swap_at
  column n k m c =
      let left = v.at lhs k in
      let right = v.at rhs k in
      let first = write m left (m right) in
      record {
        outside = λ a o.
            write_apart first right a (m left) (o rhs k pr c)
            ∙ write_apart m left a (m right) (o lhs k pl c);
        swapped = λ i p. elim (Bool-cases (i == lhs)) [
          | inl h ↦ rw h (
              rw ((==_iff i lhs).0 h) (
                write_apart first right left (m left) (λ e. n (sym (own rhs k lhs k pr c pl c e).0))
                ∙ write_same m left (m right)))
          | inr h ↦ elim (Bool-cases (i == rhs)) [
            | inl g ↦ rw (h, g) (rw ((==_iff i rhs).0 g) (write_same first right (m left)))
            | inr g ↦
                rw (h, g)
                  (write_apart first right (v.at i k) (m left)
                      (λ e. apart i rhs g (own rhs k i k pr c p c e).0)
                    ∙ write_apart m left (v.at i k) (m right)
                        (λ e. apart i lhs h (own lhs k i k pl c p c e).0))
          ]
        ];
        others = λ i j p q d.
            write_apart first right (v.at i j) (m left) (λ e. d (sym (own rhs k i j pr c p q e).1))
            ∙ write_apart m left (v.at i j) (m right) (λ e. d (sym (own lhs k i j pl c p q e).1));
      }
    where
      apart : (i j : ℕ) → (i == j) ≡ false → ¬ (j ≡ i)
      apart i j h e = ground arith

  -- The columns from `k` on.
  record Columns (k : ℕ) (m m' : Memory T) : Type 0 where
    outside : (a : ℕ) → IsOutside v a → m' a ≡ m a
    swapped :
        (i j : ℕ)
        → k ≤ j
        → i < v.rows
        → j < v.cols
        → m' (v.at i j) ≡ m (v.at (other_row lhs rhs i) j)
    before : (i j : ℕ) → j < k → i < v.rows → j < v.cols → m' (v.at i j) ≡ m (v.at i j)

  columns :
      ¬ (lhs ≡ rhs)
      → (k n : ℕ) (m : Memory T) → k + n ≡ v.cols
      → Columns k m (each_from k n (swap_at v lhs rhs) m)
  unfolding each_from
  columns d k zero m e = record {
    outside = λ a o. refl;
    swapped = λ i j a p q. ground arith;
    before = λ i j a p q. refl;
  }
  columns d k (suc n) m e =
      let here = below k n (v.cols) e in
      let c = column d k m here in
      let r = columns d (k + 1) n (swap_at v lhs rhs k m) (moved k n (v.cols) e) in
      record {
        outside = λ a o. r.outside a o ∙ c.outside a o;
        swapped = λ i j a p q. elim (Bool-cases (j == k)) [
          | inl h ↦ rw ((==_iff j k).0 h) (r.before i k (omega arith) p here ∙ c.swapped i p)
          | inr h ↦
              r.swapped i j (ground arith) p q
              ∙ c.others (other_row lhs rhs i) j (other_row-rows lhs rhs i (v.rows) pl pr p) q
                  (apart j k h)
        ];
        before = λ i j a p q. r.before i j (omega arith) p q ∙ c.others i j p q (less_apart j k a);
      }
    where
      below : (k n c : ℕ) → k + suc n ≡ c → k < c
      below k n c e = omega arith

      moved : (k n c : ℕ) → k + suc n ≡ c → (k + 1) + n ≡ c
      moved k n c e = omega arith

      less_apart : (j k : ℕ) → j < k → ¬ (j ≡ k)
      less_apart j k a e = ground arith

      apart : (j k : ℕ) → (j == k) ≡ false → ¬ (j ≡ k)
      apart j k h e = ground arith

  once :
      (m : Memory T)
      → (m' : Memory T) × (swap_rows v lhs rhs m ≡ some m') × Exchanges v lhs rhs m m'
  unfolding swap_rows
  once m = elim (Bool-cases (lhs == rhs)) [
    | inl h ↦
        (m, rw h refl, ((λ i j p q. ap (λ k. m (v.at k j)) (same_row lhs rhs i h)), λ a o. refl))
    | inr h ↦
        let c = columns (apart_rows lhs rhs h) 0 (v.cols) m (omega arith) in
        (
          each_from 0 v.cols (swap_at v lhs rhs) m,
          rw (h, lt→ltb lhs (v.rows) pl, lt→ltb rhs (v.rows) pr) refl,
          ((λ i j p q. c.swapped i j (omega arith) p q), c.outside),
        )
  ]

  -- For two rows of a view whose elements have their own places, also the same row twice, swap_rows
  -- exchanges the rows and changes nothing else, and a second call brings every element of the view
  -- back.
  pub swap_rows-swap_rows :
      (m : Memory T)
      → (m' : Memory T) × (m'' : Memory T) × (swap_rows v lhs rhs m ≡ some m')
        × Exchanges v lhs rhs m m'
        × (swap_rows v lhs rhs m' ≡ some m'')
        × ((i j : ℕ) → i < v.rows → j < v.cols → m'' (v.at i j) ≡ m (v.at i j))
  swap_rows-swap_rows m =
      let (m', e, x) = once m in
      let (m'', e', x') = once m' in
      (
        m',
        m'',
        e,
        x,
        e',
        λ i j p q.
            x'.0 i j p q
            ∙ x.0 (other_row lhs rhs i) j (other_row-rows lhs rhs i (v.rows) pl pr p) q
            ∙ ap (λ k. m (v.at k j)) (other_row-other_row lhs rhs i),
      )
