-- ===== src/Common/Terminal/Tests/Decimal.antt =====
-- A formatting of the integers from 0 to 255 in decimal.
use uni.Prelude.{
  ℕ, zero, suc, ◌+◌, ◌-◌, ◌≡◌, refl, ap, Bool, true, false, ◌&&◌, Option, none, some, [], ◌∷◌,
  if◌then◌else◌, ◌==◌, ==_iff, ltb, leb, arith, inl, inr, Bool-cases,
}
use uni.Prelude.Int.{ℤ, pos, negsuc}
use uni.Common.Text.{Bytes}
use uni.Common.Terminal.Rgb.{
  stoi, digit, is_digit, scan, starts_digit, skip_space, skip_base, read_number, read_sign,
}
use uni.Common.Terminal.Rgb.RoundTrip.{AllDigits, IsDecimal}

-- Quotient and remainder, up to 25.
abbrev blocks : ℕ → ℕ → ℕ → ℕ × ℕ
blocks zero d n = (0, n)
blocks (suc fuel) d n =
    let rest = blocks fuel d (n - d) in if ltb n d then (0, n) else (suc rest.0, rest.1)

abbrev tens : ℕ → ℕ × ℕ
tens n = blocks 25 10 n

unfoldable pub decimal : ℤ → Bytes
decimal (pos n) =
    if ltb n 10
    then (48 + n) ∷ []
    else if ltb n 100
    then (48 + (tens n).0) ∷ (48 + (tens n).1) ∷ []
    else (48 + (tens (tens n).0).0) ∷ (48 + (tens (tens n).0).1) ∷ (48 + (tens n).1) ∷ []
decimal (negsuc n) = b'-' ∷ []

abbrev all_digits : Bytes → Bool
all_digits [] = true
all_digits (c ∷ s) = is_digit 10 c && all_digits s

abbrev same : Option ℤ → ℕ → Bool
same (some (pos m)) n = m == n
same _ n = false

unfoldable is_good : ℕ → Bool
unfolding stoi digit is_digit scan starts_digit skip_space skip_base read_number read_sign decimal
is_good n = same (stoi 10 (decimal (pos n))) n && all_digits (decimal (pos n))

abbrev all_below : ℕ → (ℕ → Bool) → Bool
all_below zero test = true
all_below (suc k) test = test k && all_below k test

all_below-leb :
    (k : ℕ) (test : ℕ → Bool) → all_below k test ≡ true → (n : ℕ) → ltb n k ≡ true → test n ≡ true
all_below-leb zero test a n l = ground arith
all_below-leb (suc k) test a n l = elim (Bool-cases (n == k)) [
  | inl h ↦ rw ((==_iff n k).0 h) (ground arith)
  | inr h ↦ all_below-leb k test (ground arith) n (ground arith)
]

all_good : all_below 256 is_good ≡ true
unfolding is_good stoi digit is_digit scan starts_digit skip_space skip_base read_number read_sign
    decimal
all_good = refl

same-some : (o : Option ℤ) (n : ℕ) → same o n ≡ true → o ≡ some (pos n)
same-some (some (pos m)) n h = ap (λ k. some (pos k)) ((==_iff m n).0 h)
same-some (some (negsuc m)) n h = cc
same-some none n h = cc

all_digits-AllDigits : (s : Bytes) → all_digits s ≡ true → AllDigits s
all_digits-AllDigits [] h = tt
all_digits-AllDigits (c ∷ s) h = (ground arith, all_digits-AllDigits s (ground arith))

good_below : (n : ℕ) → leb n 255 ≡ true → is_good n ≡ true
good_below n h = all_below-leb 256 is_good all_good n (ground arith)

and_left : (a b : Bool) → (a && b) ≡ true → a ≡ true
and_left true b h = refl
and_left false b h = cc

and_right : (a b : Bool) → (a && b) ≡ true → b ≡ true
and_right true b h = h
and_right false b h = cc

pub decimal-IsDecimal : IsDecimal decimal
unfolding is_good
decimal-IsDecimal = record {
  reads = λ n h. same-some (stoi 10 (decimal (pos n))) n (and_left _ _ (good_below n h));
  digits = λ n h. all_digits-AllDigits (decimal (pos n)) (and_right _ _ (good_below n h));
}
