-- ===== src/Linalg/Matrix.antt =====
-- src/uni20/linalg/backends/cpu/matrix_ops_cpu.hpp. All views lie in one memory; the mapping of a view
-- from two indices to the place of an element is std::mdspan's.
pub mod Loops
pub mod Results
pub mod Rows
mod Tests
use uni.Prelude.{
  ℕ, zero, suc, ◌+◌, Bool, true, false, ◌&&◌, ◌||◌, not, Option, none, some, ◌>>◌, check,
  if◌then◌else◌, ◌==◌, ltb, leb,
}

abbrev pub Memory : Type 0 → Type 0
Memory T = ℕ → T

unfoldable pub write : {T : Type 0} → Memory T → ℕ → T → Memory T
write m a x b = if b == a then x else m b

-- TensorView of rank two.
pub record MatrixView : Type 0 where
  pub rows : ℕ
  pub cols : ℕ
  pub at : ℕ → ℕ → ℕ

-- The arithmetic of the elements.
pub record Arithmetic (T : Type 0) : Type 0 where
  pub nought : T
  pub unit : T
  pub plus : T → T → T
  pub minus : T → T → T
  pub times : T → T → T

-- `for (i = start; i < start + count; ++i)`.
unfoldable pub each_from : {S : Type 0} → ℕ → ℕ → (ℕ → S → S) → S → S
each_from start zero body s = s
each_from start (suc count) body s = each_from (start + 1) count body (body start s)

unfoldable pub each_cell : {S : Type 0} → ℕ → ℕ → (ℕ → ℕ → S → S) → S → S
each_cell rows cols body s = each_from 0 rows (λ i s'. each_from 0 cols (body i) s') s

unfoldable pub same_shape : MatrixView → MatrixView → Bool
same_shape lhs rhs = lhs.rows == rhs.rows && lhs.cols == rhs.cols

module _ {T : Type 0} where
  abbrev pub element : Memory T → MatrixView → ℕ → ℕ → T
  element m v i j = m (v.at i j)

  -- An assignment to each element of `out`.
  unfoldable pub assign_cells : MatrixView → (ℕ → ℕ → Memory T → T) → Memory T → Memory T
  unfolding each_cell
  assign_cells out value m =
      each_cell out.rows out.cols (λ i j m'. write m' (out.at i j) (value i j m')) m

  unfoldable pub swap_at : MatrixView → ℕ → ℕ → ℕ → Memory T → Memory T
  unfolding write
  swap_at mat lhs rhs j m =
      write (write m (mat.at lhs j) (m (mat.at rhs j))) (mat.at rhs j) (m (mat.at lhs j))

  unfoldable pub swap_rows : MatrixView → ℕ → ℕ → Memory T → Option (Memory T)
  unfolding swap_at each_from
  swap_rows mat lhs rhs m =
      let swapped = (do
        check (ltb lhs mat.rows && ltb rhs mat.rows)
        some (each_from 0 mat.cols (swap_at mat lhs rhs) m)) in
      if lhs == rhs then some m else swapped

module _ {T : Type 0} ⦃t : Arithmetic T⦄ where
  -- `value += lhs[i, k] * rhs[k, j]`.
  unfoldable pub inner : MatrixView → MatrixView → ℕ → ℕ → Memory T → T
  inner lhs rhs i j m =
      each_from 0 lhs.cols
        (λ k value. t.plus value (t.times (element m lhs i k) (element m rhs k j))) t.nought

  unfoldable pub copy : MatrixView → MatrixView → Memory T → Option (Memory T)
  unfolding assign_cells
  copy src dst m = do
    check (same_shape src dst)
    some (
        assign_cells (record dst { rows = src.rows; cols = src.cols })
          (λ i j m'. element m' src i j) m)

  unfoldable pub fill_identity : MatrixView → Memory T → Option (Memory T)
  unfolding assign_cells
  fill_identity out m = do
    check (out.rows == out.cols)
    some (assign_cells out (λ i j m'. if i == j then t.unit else t.nought) m)

  unfoldable pub multiply : MatrixView → MatrixView → MatrixView → Memory T → Option (Memory T)
  unfolding assign_cells inner
  multiply lhs rhs out m = do
    check (lhs.cols == rhs.rows)
    check (out.rows == lhs.rows && out.cols == rhs.cols)
    some (assign_cells (record out { rows = lhs.rows; cols = rhs.cols }) (inner lhs rhs) m)

  unfoldable pub add : MatrixView → MatrixView → MatrixView → Memory T → Option (Memory T)
  unfolding assign_cells
  add lhs rhs out m = do
    check (same_shape lhs rhs)
    check (same_shape lhs out)
    some (
        assign_cells (record out { rows = lhs.rows; cols = lhs.cols })
          (λ i j m'. t.plus (element m' lhs i j) (element m' rhs i j)) m)

  unfoldable pub subtract : MatrixView → MatrixView → MatrixView → Memory T → Option (Memory T)
  unfolding assign_cells
  subtract lhs rhs out m = do
    check (same_shape lhs rhs)
    check (same_shape lhs out)
    some (
        assign_cells (record out { rows = lhs.rows; cols = lhs.cols })
          (λ i j m'. t.minus (element m' lhs i j) (element m' rhs i j)) m)

  unfoldable pub scale : MatrixView → T → MatrixView → Memory T → Option (Memory T)
  unfolding assign_cells
  scale mat scalar out m = do
    check (same_shape mat out)
    some (
        assign_cells (record out { rows = mat.rows; cols = mat.cols })
          (λ i j m'. t.times (element m' mat i j) scalar) m)
