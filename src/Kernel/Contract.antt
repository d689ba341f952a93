-- ===== src/Kernel/Contract.antt =====
-- src/uni20/kernel/cpu/contract.hpp: GemmLoop, over scalars whose operations are a parameter. The
-- tensors lie in three separate memories.
pub mod Cells
pub mod Sums
pub mod Result
use uni.Prelude.{ℕ, zero, suc, List, [], ◌∷◌, if◌then◌else◌}
use uni.Prelude.Int.{ℤ, ◌+ℤ◌}
use uni.Mdspan.Vec.{Vec, nil, cons, add, ◌==ℤ◌}
use uni.Mdspan.Strides.{ExtentStrides}
use uni.Mdspan.Memory.{Memory, store, first, second}

-- The template parameter T.
pub record Scalar (A : Type 0) : Type 0 where
  pub zero : A
  pub plus : A → A → A
  pub times : A → A → A

pub record Pointers : Type 0 where
  pub a_ptr : ℤ
  pub b_ptr : ℤ
  pub c_ptr : ℤ

-- `for (i = 0; i < e; ++i) { body; next }` on what `body` changes.
unfoldable pub for_each : {P S : Type 0} → ℕ → (P → P) → (P → S → S) → P → S → S
for_each zero next body p s = s
for_each (suc e) next body p s = for_each e next body (next p) (body p s)

unfoldable pub next_m : ExtentStrides 2 → Pointers → Pointers
next_m d p = record p { a_ptr = p.a_ptr +ℤ first d.strides; c_ptr = p.c_ptr +ℤ second d.strides }

unfoldable pub next_n : ExtentStrides 2 → Pointers → Pointers
next_n d p = record p { b_ptr = p.b_ptr +ℤ first d.strides; c_ptr = p.c_ptr +ℤ second d.strides }

module _ {A : Type 0} ⦃s : Scalar A⦄ where
  -- The pair is a_ptr and b_ptr.
  unfoldable pub dot_k : Memory A → Memory A → List (ExtentStrides 2) → Vec ℤ 2 → A → A
  dot_k a b [] p acc = s.plus acc (s.times (a (first p)) (b (second p)))
  dot_k a b (d ∷ ds) p acc = for_each d.extent (λ q. add q d.strides) (dot_k a b ds) p acc

  -- The body at one cell of C.
  unfoldable pub cell :
      List (ExtentStrides 2) → A → A → Memory A → Memory A → Pointers → Memory A → Memory A
  cell ks alpha beta a b p c =
      let acc = dot_k a b ks (cons p.a_ptr (cons p.b_ptr nil)) s.zero in
      store c p.c_ptr (s.plus (s.times beta (c p.c_ptr)) (s.times alpha acc))

module _ {S : Type 0} (body : Pointers → S → S) where
  unfoldable pub loop_n : List (ExtentStrides 2) → Pointers → S → S
  loop_n [] p c = body p c
  loop_n (d ∷ ds) p c = for_each d.extent (next_n d) (loop_n ds) p c

  unfoldable pub loop_m : List (ExtentStrides 2) → List (ExtentStrides 2) → Pointers → S → S
  loop_m ns [] p c = loop_n ns p c
  loop_m ns (d ∷ ds) p c = for_each d.extent (next_m d) (loop_m ns ds) p c

module _ {A : Type 0} ⦃s : Scalar A⦄ where
  unfoldable pub contract_strided :
      List (ExtentStrides 2)
      → List (ExtentStrides 2)
      → List (ExtentStrides 2)
      → A
      → A
      → Memory A
      → Memory A
      → Pointers
      → Memory A
      → Memory A
  contract_strided ms ns ks alpha beta a b p c = loop_m (cell ks alpha beta a b) ns ms p c
