-- ===== src/Mdspan/Vec.antt =====
-- std::array<std::ptrdiff_t, N>: one stride or offset for each of N tensors. The sums are taken not
-- to overflow, which the language leaves undefined.
use uni.Prelude.{ℕ, suc, ◌*◌, ◌≡◌, refl, ap, Bool, true, false, ◌==◌, arith}
use uni.Prelude.Int.{
  ℤ, pos, negsuc, pos_part, neg_part, ◌+ℤ◌, ◌-ℤ◌, ◌*ℤ◌, eq_of_parts, int_laws, +ℤ_assoc,
}

pub data Vec (A : Type 0) : ℕ → Type 0 where
  nil : Vec A 0
  cons : {n : ℕ} → A → Vec A n → Vec A (suc n)

unfoldable pub neg_ℤ : ℤ → ℤ
neg_ℤ a = pos 0 -ℤ a

unfoldable pub ◌==ℤ◌ : ℤ → ℤ → Bool
◌==ℤ◌ (pos a) (pos b) = a == b
◌==ℤ◌ (negsuc a) (negsuc b) = a == b
◌==ℤ◌ _ _ = false

pub ==ℤ→≡ : (a b : ℤ) → ◌==ℤ◌ a b ≡ true → a ≡ b
unfolding ◌==ℤ◌
==ℤ→≡ (pos a) (pos b) h = ground arith
==ℤ→≡ (negsuc a) (negsuc b) h = ground arith
==ℤ→≡ (pos a) (negsuc b) h = cc
==ℤ→≡ (negsuc a) (pos b) h = cc

pub ==ℤ_refl : (a : ℤ) → ◌==ℤ◌ a a ≡ true
unfolding ◌==ℤ◌
==ℤ_refl (pos a) = ground arith
==ℤ_refl (negsuc a) = ground arith

pub *ℤ-suc : (a : ℤ) (n : ℕ) → a *ℤ pos (suc n) ≡ a +ℤ a *ℤ pos n
unfolding ◌*ℤ◌ ◌+ℤ◌
*ℤ-suc a n = ground arith

pub +ℤ-*ℤ-zero : (a b : ℤ) → a +ℤ b *ℤ pos 0 ≡ a
unfolding ◌*ℤ◌ ◌+ℤ◌
+ℤ-*ℤ-zero a b = ground arith

-- A product with an extent, through the two parts of an integer.
pub pos_part-*ℤ : (z : ℤ) (e : ℕ) → pos_part (z *ℤ pos e) ≡ pos_part z * e
unfolding ◌*ℤ◌
pos_part-*ℤ (pos k) e = ground arith
pos_part-*ℤ (negsuc k) e = ground arith

pub neg_part-*ℤ : (z : ℤ) (e : ℕ) → neg_part (z *ℤ pos e) ≡ neg_part z * e
unfolding ◌*ℤ◌
neg_part-*ℤ (pos k) e = ground arith
neg_part-*ℤ (negsuc k) e = ground arith

pub *ℤ-mul : (z : ℤ) (a b : ℕ) → z *ℤ pos (a * b) ≡ z *ℤ pos b *ℤ pos a
*ℤ-mul z a b = eq_of_parts _ _ (
    omega (
      arith,
      pos_part-*ℤ z (a * b),
      neg_part-*ℤ z (a * b),
      pos_part-*ℤ z b,
      neg_part-*ℤ z b,
      pos_part-*ℤ (z *ℤ pos b) a,
      neg_part-*ℤ (z *ℤ pos b) a,
      ap (λ (k : ℕ). k * a) (pos_part-*ℤ z b),
      ap (λ (k : ℕ). k * a) (neg_part-*ℤ z b),
    ))

unfoldable pub add : {n : ℕ} → Vec ℤ n → Vec ℤ n → Vec ℤ n
add nil nil = nil
add (cons a v) (cons b w) = cons (a +ℤ b) (add v w)

-- Each stride times an extent.
unfoldable pub scale : {n : ℕ} → Vec ℤ n → ℕ → Vec ℤ n
scale nil e = nil
scale (cons a v) e = cons (a *ℤ pos e) (scale v e)

unfoldable pub negate : {n : ℕ} → Vec ℤ n → Vec ℤ n
negate nil = nil
negate (cons a v) = cons (neg_ℤ a) (negate v)

unfoldable pub zeros : (n : ℕ) → Vec ℤ n
zeros ℕ.zero = nil
zeros (suc n) = cons (pos 0) (zeros n)

pub add_assoc : {n : ℕ} (u v w : Vec ℤ n) → add (add u v) w ≡ add u (add v w)
unfolding add
add_assoc nil nil nil = refl
add_assoc (cons a u) (cons b v) (cons c w) = cc (+ℤ_assoc a b c, add_assoc u v w)

pub add_right_comm : {n : ℕ} (u v w : Vec ℤ n) → add (add u v) w ≡ add (add u w) v
unfolding add
add_right_comm nil nil nil = refl
add_right_comm (cons a u) (cons b v) (cons c w) = cc (+ℤ_right_comm a b c, add_right_comm u v w)
  where
    +ℤ_right_comm : (a b c : ℤ) → a +ℤ b +ℤ c ≡ a +ℤ c +ℤ b
    +ℤ_right_comm a b c = omega int_laws

pub add-scale-suc :
    {n : ℕ} (o v : Vec ℤ n) (e : ℕ) → add o (scale v (suc e)) ≡ add (add o v) (scale v e)
unfolding add scale
add-scale-suc nil nil e = refl
add-scale-suc (cons a o) (cons b v) e = cc (step a b e, add-scale-suc o v e)
  where
    step : (a b : ℤ) (e : ℕ) → a +ℤ b *ℤ pos (suc e) ≡ a +ℤ b +ℤ b *ℤ pos e
    step a b e = rw (*ℤ-suc b e) (omega int_laws)

pub add-scale-zero : {n : ℕ} (o v : Vec ℤ n) → add o (scale v 0) ≡ o
unfolding add scale
add-scale-zero nil nil = refl
add-scale-zero (cons a o) (cons b v) = cc (+ℤ-*ℤ-zero a b, add-scale-zero o v)

-- The last offset of a dimension, one step back.
pub add-scale-negate :
    {n : ℕ} (o v : Vec ℤ n) (e : ℕ) → add (add o (scale v (suc e))) (negate v) ≡ add o (scale v e)
unfolding add scale negate neg_ℤ
add-scale-negate nil nil e = refl
add-scale-negate (cons a o) (cons b v) e = cc (back a b e, add-scale-negate o v e)
  where
    back : (a b : ℤ) (e : ℕ) → a +ℤ b *ℤ pos (suc e) +ℤ (pos 0 -ℤ b) ≡ a +ℤ b *ℤ pos e
    back a b e = rw (*ℤ-suc b e) (omega int_laws)
