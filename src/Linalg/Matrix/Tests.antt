-- ===== src/Linalg/Matrix/Tests.antt =====
-- Three 2 × 2 matrices by rows, one after another in memory, over the natural numbers.
use uni.Prelude.{ℕ, suc, ◌+◌, ◌*◌, ◌-◌, ◌≡◌, ◌<◌, refl, arith, some}
use uni.Linalg.Matrix.{
  Memory, MatrixView, Arithmetic, multiply, add, subtract, scale, copy, element, swap_rows,
}
use uni.Linalg.Matrix.Loops.{HasOwnCells}
use uni.Linalg.Matrix.Rows.{Exchanges, swap_rows-swap_rows}
use uni.Linalg.Matrix.Results.{
  IsApartFrom, Gives, product_entry, multiply-product_entry, elementwise-Gives,
}

instance abbrev of_numbers : Arithmetic ℕ
of_numbers = record {
  nought = 0;
  unit = 1;
  plus = λ x y. x + y;
  minus = λ x y. x - y;
  times = λ x y. x * y;
}

abbrev square_at : ℕ → MatrixView
square_at base = record { rows = 2; cols = 2; at = λ i j. base + (2 * i + j) }

abbrev numbered : Memory ℕ
numbered a = a + 1

square-HasOwnCells : (base : ℕ) → HasOwnCells (square_at base)
square-HasOwnCells base i j i' j' p q p' q' e = (omega arith, omega arith)

squares-IsApartFrom : (b c : ℕ) → c + 4 < suc b → IsApartFrom (square_at b) (square_at c)
squares-IsApartFrom b c l i j p q i' j' p' q' e = omega arith

multiply-product_entry_example :
    Gives
      (multiply (square_at 0) (square_at 4) (square_at 8) numbered)
      (square_at 8)
      numbered
      (product_entry (square_at 0) (square_at 4) numbered)
multiply-product_entry_example =
    multiply-product_entry (square_at 0) (square_at 4) (square_at 8) numbered refl refl refl
      (square-HasOwnCells 8) (squares-IsApartFrom 8 0 (omega arith))
      (squares-IsApartFrom 8 4 (omega arith))

corner : product_entry (square_at 0) (square_at 4) numbered 1 1 ≡ 50
corner = refl

elementwise-Gives_example :
    Gives
      (add (square_at 0) (square_at 4) (square_at 8) numbered)
      (square_at 8)
      numbered
      (λ i j. element numbered (square_at 0) i j + element numbered (square_at 4) i j)
    × Gives
        (subtract (square_at 0) (square_at 4) (square_at 8) numbered)
        (square_at 8)
        numbered
        (λ i j. element numbered (square_at 0) i j - element numbered (square_at 4) i j)
    × Gives
        (scale (square_at 0) 3 (square_at 8) numbered)
        (square_at 8)
        numbered
        (λ i j. element numbered (square_at 0) i j * 3)
    × Gives
        (copy (square_at 0) (square_at 8) numbered)
        (square_at 8)
        numbered
        (λ i j. element numbered (square_at 0) i j)
elementwise-Gives_example =
    elementwise-Gives (square_at 0) (square_at 4) (square_at 8) 3 numbered (refl, refl) (refl, refl)
      (square-HasOwnCells 8) (squares-IsApartFrom 8 0 (omega arith))
      (squares-IsApartFrom 8 4 (omega arith))

swap_rows-swap_rows_example :
    (m' : Memory ℕ) × (m'' : Memory ℕ) × (swap_rows (square_at 0) 0 1 numbered ≡ some m')
    × Exchanges (square_at 0) 0 1 numbered m'
    × (swap_rows (square_at 0) 0 1 m' ≡ some m'')
    × ((i j : ℕ)
        → i < (square_at 0).rows
        → j < (square_at 0).cols
        → m'' ((square_at 0).at i j) ≡ numbered ((square_at 0).at i j))
swap_rows-swap_rows_example =
    swap_rows-swap_rows (square_at 0) (square-HasOwnCells 0) 0 1 (omega arith) (omega arith)
      numbered
