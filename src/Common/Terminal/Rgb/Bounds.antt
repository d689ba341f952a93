-- ===== src/Common/Terminal/Rgb/Bounds.antt =====
-- The ranges of the components that the two parsers return.
use uni.Prelude.{
  leb→le, ◌≤◌, ℕ, ◌+◌, ◌*◌, ◌≡◌, refl, ap, Bool, true, false, ◌&&◌, Option, none, some, ◌>>=◌, List,
  [], ◌∷◌, leb, arith, inl, inr, Bool-cases,
}
use uni.Prelude.Int.{ℤ, pos, negsuc}
use uni.Common.Text.{Bytes, codes}
use uni.Common.Terminal.Split.{split_string}
use uni.Common.Terminal.Rgb.{
  RgbColor, skip_space, read_sign, read_number, skip_base, starts_digit, scan, parse_rgb_color,
  after_prefix, before_close, read_parts, of_values, in_byte, stoi, parse_hex_color,
  parse_hex_digits, hex_parts, digit, is_digit, minus,
}

abbrev pub Returns : Option RgbColor → (RgbColor → Type 0) → Type 0
Returns none P = Unit
Returns (some c) P = P c

abbrev pub IsByte : ℤ → Type 0
IsByte v = (n : ℕ) × (v ≡ pos n) × (n ≤ 255)

abbrev pub AllBytes : RgbColor → Type 0
AllBytes c = IsByte c.r × IsByte c.g × IsByte c.b

in_byte-IsByte : (v : ℤ) → in_byte v ≡ true → IsByte v
in_byte-IsByte (pos n) h = (n, refl, leb→le n 255 h)
in_byte-IsByte (negsuc n) h = cc

pub IsByte-in_byte : (v : ℤ) → IsByte v → in_byte v ≡ true
IsByte-in_byte v (n, e, l) = rw e (below n l)
  where
    below : (n : ℕ) → n ≤ 255 → leb n 255 ≡ true
    below n l = ground arith

both : (x y z : Bool) → (x && y && z) ≡ true → (x ≡ true) × (y ≡ true) × (z ≡ true)
both true true true h = (refl, refl, refl)
both true true false h = cc
both true false z h = cc
both false y z h = cc

of_values-AllBytes : (vs : List ℤ) → Returns (of_values vs) AllBytes
unfolding of_values
of_values-AllBytes (r ∷ g ∷ b ∷ []) = elim (Bool-cases (in_byte r && in_byte g && in_byte b)) [
  | inl h ↦
      let (x, y, z) = both (in_byte r) (in_byte g) (in_byte b) h in
      rw h (in_byte-IsByte r x, in_byte-IsByte g y, in_byte-IsByte b z)
  | inr h ↦ rw h tt
]
of_values-AllBytes [] = tt
of_values-AllBytes (_ ∷ []) = tt
of_values-AllBytes (_ ∷ _ ∷ []) = tt
of_values-AllBytes (_ ∷ _ ∷ _ ∷ _ ∷ _) = tt

Returns-bind :
    {X : Type 0} (o : Option X) (f : X → Option RgbColor) (P : RgbColor → Type 0)
    → ((x : X) → Returns (f x) P)
    → Returns (o >>= f) P
Returns-bind none f P h = tt
Returns-bind (some x) f P h = h x

-- Whatever the token, if parseRGBColor returns a colour then each of its components lies between 0
-- and 255.
pub parse_rgb_color-AllBytes : (token : Bytes) → Returns (parse_rgb_color token) AllBytes
unfolding parse_rgb_color
parse_rgb_color-AllBytes token = Returns-bind (after_prefix (codes "rgb(") token) _ AllBytes λ rest.
    Returns-bind (before_close rest) _ AllBytes
      λ inner. Returns-bind (read_parts (split_string b',' inner)) _ AllBytes of_values-AllBytes

digit-leb : (d : ℕ) → is_digit 16 d ≡ true → leb (0 * 16 + digit 16 d) 2147483648 ≡ true
unfolding is_digit
digit-leb d h = ground arith

plus_zero : (n : ℕ) → 0 + n ≡ n
plus_zero n = omega arith

minus-digit : (d : ℕ) → is_digit 16 d ≡ true → stoi 16 (b'-' ∷ d ∷ []) ≡ some (minus (digit 16 d))
unfolding stoi skip_space read_sign read_number skip_base starts_digit scan
minus-digit d h = rw (h, digit-leb d h) (ap (λ n. some (minus n)) (plus_zero (digit 16 d)))

-- A colour "#-a-b-c" with three hexadecimal digits is accepted by parseHexColor, and its components
-- are the digits with the sign changed.
pub parse_hex_color-minus :
    (a b c : ℕ)
    → is_digit 16 a ≡ true
    → is_digit 16 b ≡ true
    → is_digit 16 c ≡ true
    → parse_hex_color (b'#' ∷ b'-' ∷ a ∷ b'-' ∷ b ∷ b'-' ∷ c ∷ [])
      ≡ some (record { r = minus (digit 16 a); g = minus (digit 16 b); b = minus (digit 16 c) })
unfolding parse_hex_color parse_hex_digits hex_parts
parse_hex_color-minus a b c ha hb hc =
    rw (minus-digit a ha, minus-digit b hb, minus-digit c hc) refl
