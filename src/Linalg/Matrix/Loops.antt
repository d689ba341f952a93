-- ===== src/Linalg/Matrix/Loops.antt =====
-- The loops that assign to each element of a view.
use uni.Prelude.{
  ℕ, zero, suc, ◌+◌, ◌≡◌, ◌≤◌, ◌<◌, refl, sym, ◌∙◌, ◌==◌, ==_iff, arith, inl, inr, Bool-cases,
}
use uni.Linalg.Matrix.{Memory, write, MatrixView, each_from, each_cell, assign_cells}

-- Within the bounds of a view, different indices are different places.
abbrev pub HasOwnCells : MatrixView → Type 0
HasOwnCells v =
    (i j i' j' : ℕ)
    → i < v.rows
    → j < v.cols
    → i' < v.rows
    → j' < v.cols
    → v.at i j ≡ v.at i' j'
    → (i ≡ i') × (j ≡ j')

abbrev pub IsOutside : MatrixView → ℕ → Type 0
IsOutside v a = (i j : ℕ) → i < v.rows → j < v.cols → ¬ (v.at i j ≡ a)

pub write_same : {T : Type 0} (m : Memory T) (a : ℕ) (x : T) → write m a x a ≡ x
unfolding write
write_same m a x = rw ((==_iff a a).1 refl) refl

pub write_apart : {T : Type 0} (m : Memory T) (a b : ℕ) (x : T) → ¬ (a ≡ b) → write m a x b ≡ m b
unfolding write
write_apart m a b x n = elim (Bool-cases (b == a)) [
  | inl h ↦ absurd (n (sym ((==_iff b a).0 h)))
  | inr h ↦ rw h refl
]

module _ {T : Type 0} (v : MatrixView) (own : HasOwnCells v) where
  -- Two memories with the same elements outside the view.
  abbrev Agree : Memory T → Memory T → Type 0
  Agree m m' = (a : ℕ) → IsOutside v a → m a ≡ m' a

  -- A value that does not depend on the elements of the view.
  abbrev pub IsApart : (ℕ → ℕ → Memory T → T) → Type 0
  IsApart value =
      (i j : ℕ) (m m' : Memory T)
      → i < v.rows
      → j < v.cols
      → Agree m m'
      → value i j m ≡ value i j m'

  module _ (value : ℕ → ℕ → Memory T → T) (apart : IsApart value) (first : Memory T) where
    abbrev put : ℕ → ℕ → Memory T → Memory T
    put i j m = write m (v.at i j) (value i j m)

    put-Agree :
        (i j : ℕ) (m : Memory T) → i < v.rows → j < v.cols → Agree m first → Agree (put i j m) first
    put-Agree i j m p q g a o = write_apart m (v.at i j) a (value i j m) (o i j p q) ∙ g a o

    -- A row from `k` on, when the columns before it are done.
    record Row (i k : ℕ) (m m' : Memory T) : Type 0 where
      outside : Agree m' first
      assigned : (j : ℕ) → k ≤ j → j < v.cols → m' (v.at i j) ≡ value i j first
      before : (j : ℕ) → j < k → j < v.cols → m' (v.at i j) ≡ m (v.at i j)
      others : (i' j : ℕ) → i' < v.rows → j < v.cols → ¬ (i' ≡ i) → m' (v.at i' j) ≡ m (v.at i' j)

    row :
        (i k n : ℕ) (m : Memory T)
        → i < v.rows
        → k + n ≡ v.cols
        → Agree m first
        → Row i k m (each_from k n (put i) m)
    unfolding each_from
    row i k zero m p e g = record {
      outside = g;
      assigned = λ j a b. ground arith;
      before = λ j a b. refl;
      others = λ i' j a b c. refl;
    }
    row i k (suc n) m p e g =
        let here = (below k n (v.cols) e) in
        let r = row i (k + 1) n (put i k m) p (moved k n (v.cols) e) (put-Agree i k m p here g) in
        record {
          outside = r.outside;
          assigned = λ j a b. elim (Bool-cases (j == k)) [
            | inl h ↦ rw ((==_iff j k).0 h) (
                r.before k (omega arith) here
                ∙ write_same m (v.at i k) (value i k m)
                ∙ apart i k m first p here g)
            | inr h ↦ r.assigned j (ground arith) b
          ];
          before = λ j a b.
              r.before j (omega arith) b
              ∙ write_apart m (v.at i k) (v.at i j) (value i k m)
                  (λ q. less_apart j k a (sym (own i k i j p here p b q).1));
          others = λ i' j a b c.
              r.others i' j a b c
              ∙ write_apart m (v.at i k) (v.at i' j) (value i k m)
                  (λ q. c (sym (own i k i' j p here a b q).0));
        }
      where
        below : (k n c : ℕ) → k + suc n ≡ c → k < c
        below k n c e = omega arith

        moved : (k n c : ℕ) → k + suc n ≡ c → (k + 1) + n ≡ c
        moved k n c e = omega arith

        less_apart : (j k : ℕ) → j < k → ¬ (j ≡ k)
        less_apart j k a e = ground arith

    -- The rows from `k` on.
    record Block (k : ℕ) (m m' : Memory T) : Type 0 where
      outside : Agree m' first
      assigned : (i j : ℕ) → k ≤ i → i < v.rows → j < v.cols → m' (v.at i j) ≡ value i j first
      before : (i j : ℕ) → i < k → i < v.rows → j < v.cols → m' (v.at i j) ≡ m (v.at i j)

    block :
        (k n : ℕ) (m : Memory T)
        → k + n ≡ v.rows
        → Agree m first
        → Block k m (each_from k n (λ i m'. each_from 0 v.cols (put i) m') m)
    unfolding each_from
    block k zero m e g = record {
      outside = g;
      assigned = λ i j a b c. ground arith;
      before = λ i j a b c. refl;
    }
    block k (suc n) m e g =
        let here = below k n (v.rows) e in
        let r = row k 0 (v.cols) m here (omega arith) g in
        let b = block (k + 1) n (each_from 0 v.cols (put k) m) (moved k n (v.rows) e) r.outside in
        record {
          outside = b.outside;
          assigned = λ i j x y z. elim (Bool-cases (i == k)) [
            | inl h ↦
                rw ((==_iff i k).0 h)
                  (b.before k j (omega arith) here z ∙ r.assigned j (omega arith) z)
            | inr h ↦ b.assigned i j (ground arith) y z
          ];
          before =
              λ i j x y z. b.before i j (omega arith) y z ∙ r.others i j y z (less_apart i k x);
        }
      where
        below : (k n c : ℕ) → k + suc n ≡ c → k < c
        below k n c e = omega arith

        moved : (k n c : ℕ) → k + suc n ≡ c → (k + 1) + n ≡ c
        moved k n c e = omega arith

        less_apart : (j k : ℕ) → j < k → ¬ (j ≡ k)
        less_apart j k a e = ground arith

  -- For a value that does not depend on the elements of the view.
  pub assign_cells-value :
      (value : ℕ → ℕ → Memory T → T) (m : Memory T)
      → IsApart value
      → ((i j : ℕ) → i < v.rows → j < v.cols → assign_cells v value m (v.at i j) ≡ value i j m)
        × ((a : ℕ) → IsOutside v a → assign_cells v value m a ≡ m a)
  unfolding assign_cells each_cell
  assign_cells-value value m apart =
      let b = block value apart m 0 (v.rows) m (omega arith) (λ a o. refl) in
      (λ i j x y. b.assigned i j (omega arith) x y, b.outside)
