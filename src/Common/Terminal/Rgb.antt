-- ===== src/Common/Terminal/Rgb.antt =====
-- parseRGBColor and parseHexColor of terminal.cpp. std::stoi reads a sign and the longest run of
-- digits after white space, and throws when there is no digit or the number is no int.
pub mod Bounds
pub mod RoundTrip
use uni.Prelude.{
  ℕ, zero, suc, ◌+◌, ◌*◌, ◌-◌, Bool, true, false, ◌&&◌, ◌||◌, Option, none, some, ◌>>=◌, ◌>>◌,
  check, List, [], ◌∷◌, ◌++◌, is_empty, length, if◌then◌else◌, ◌==◌, leb, ltb,
}
use uni.Prelude.Int.{ℤ, pos, negsuc}
use uni.Common.Text.{Bytes, codes, equals}
use uni.Common.Terminal.Trim.{trim}
use uni.Common.Terminal.Split.{split_string}

-- The value of a digit, or the base for what is no digit of it.
unfoldable pub digit : ℕ → ℕ → ℕ
digit base c =
    let v =
      if leb b'0' c && leb c b'9'
      then c - 48
      else if leb b'a' c && leb c b'z'
      then c - 87
      else if leb b'A' c && leb c b'Z'
      then c - 55
      else base in
    if ltb v base then v else base

unfoldable pub is_digit : ℕ → ℕ → Bool
is_digit base c = ltb (digit base c) base

unfoldable pub scan : ℕ → ℕ → Bytes → ℕ
scan base acc [] = acc
scan base acc (c ∷ s) =
    let more = scan base (acc * base + digit base c) s in if is_digit base c then more else acc

unfoldable pub starts_digit : ℕ → Bytes → Bool
starts_digit base [] = false
starts_digit base (c ∷ s) = is_digit base c

-- isspace of the "C" locale.
unfoldable pub skip_space : Bytes → Bytes
skip_space [] = []
skip_space (c ∷ s) =
    let rest = skip_space s in if c == b' ' || leb 9 c && leb c 13 then rest else c ∷ s

-- "0x" before a hexadecimal digit.
unfoldable pub skip_base : ℕ → Bytes → Bytes
skip_base base (z ∷ x ∷ s) =
    if base == 16 && z == b'0' && (x == b'x' || x == b'X') && starts_digit base s
    then s
    else z ∷ x ∷ s
skip_base base s = s

abbrev int_limit : ℕ
int_limit = 2147483648

-- -n, for n > 0.
abbrev pub minus : ℕ → ℤ
minus zero = pos 0
minus (suc n) = negsuc n

unfoldable pub read_number : ℕ → Bool → Bytes → Option ℤ
read_number base negative s = do
  check (starts_digit base (skip_base base s))
  let n = scan base 0 (skip_base base s)
  check (if negative then leb n int_limit else ltb n int_limit)
  some (if negative then minus n else pos n)

unfoldable pub read_sign : ℕ → Bytes → Option ℤ
read_sign base [] = none
read_sign base (c ∷ s) =
    if c == b'-'
    then read_number base true s
    else if c == b'+'
    then read_number base false s
    else read_number base false (c ∷ s)

unfoldable pub stoi : ℕ → Bytes → Option ℤ
unfolding digit is_digit scan starts_digit skip_space skip_base read_number read_sign
stoi base s = read_sign base (skip_space s)

pub record RgbColor : Type 0 where
  pub r : ℤ
  pub g : ℤ
  pub b : ℤ

-- The loop over the parts between commas; an empty one gives no value.
unfoldable pub read_parts : List Bytes → Option (List ℤ)
read_parts [] = some []
read_parts (part ∷ parts) =
    let others = read_parts parts in
    if is_empty (trim part)
    then others
    else (do v ← stoi 10 (trim part); vs ← others; some (v ∷ vs))

abbrev pub in_byte : ℤ → Bool
in_byte (pos n) = leb n 255
in_byte (negsuc n) = false

unfoldable pub of_values : List ℤ → Option RgbColor
of_values (r ∷ g ∷ b ∷ []) = do
  check (in_byte r && in_byte g && in_byte b)
  some (record { r = r; g = g; b = b })
of_values _ = none

-- What stands before the last character, if that is `)`.
unfoldable pub before_close : Bytes → Option Bytes
before_close [] = none
before_close (c ∷ []) = if c == b')' then some [] else none
before_close (c ∷ d ∷ s) = do rest ← before_close (d ∷ s); some (c ∷ rest)

unfoldable pub after_prefix : Bytes → Bytes → Option Bytes
after_prefix [] s = some s
after_prefix (c ∷ prefix) [] = none
after_prefix (c ∷ prefix) (d ∷ s) =
    let rest = after_prefix prefix s in if c == d then rest else none

unfoldable pub parse_rgb_color : Bytes → Option RgbColor
parse_rgb_color token = do
  rest ← after_prefix (codes "rgb(") token
  inner ← before_close rest
  values ← read_parts (split_string b',' inner)
  of_values values

unfoldable pub hex_parts : Bytes → Bytes → Bytes → Option RgbColor
hex_parts r_str g_str b_str = do
  r ← stoi 16 r_str
  g ← stoi 16 g_str
  b ← stoi 16 b_str
  some (record { r = r; g = g; b = b })

unfoldable pub parse_hex_digits : Bytes → Option RgbColor
parse_hex_digits (r ∷ g ∷ b ∷ []) = hex_parts (r ∷ r ∷ []) (g ∷ g ∷ []) (b ∷ b ∷ [])
parse_hex_digits (r ∷ r' ∷ g ∷ g' ∷ b ∷ b' ∷ []) =
    hex_parts (r ∷ r' ∷ []) (g ∷ g' ∷ []) (b ∷ b' ∷ [])
parse_hex_digits _ = none

unfoldable pub parse_hex_color : Bytes → Option RgbColor
parse_hex_color [] = none
parse_hex_color (c ∷ hex) = if c == b'#' then parse_hex_digits hex else none
