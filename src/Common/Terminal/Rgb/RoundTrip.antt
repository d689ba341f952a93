-- ===== src/Common/Terminal/Rgb/RoundTrip.antt =====
-- Colours printed with integers in decimal, and read back by parseRGBColor.
use uni.Prelude.{
  ℕ, ◌≡◌, refl, sym, ap, ◌∙◌, true, false, some, List, [], ◌∷◌, ◌++◌, is_empty, ◌==◌, leb, arith,
}
use uni.Prelude.Int.{ℤ, pos}
use mathlib.Core.List.{append-nil}
use uni.Common.Text.{Bytes, codes}
use uni.Common.Terminal.Split.{join, Without, split_string-join}
use uni.Common.Terminal.Trim.{trim, is_space, trim-spaces, StartsDark, EndsDark}
use uni.Common.Terminal.Rgb.{
  digit, is_digit, stoi, skip_space, read_sign, read_parts, of_values, before_close, after_prefix,
  parse_rgb_color,
}

abbrev pub AllDigits : Bytes → Type 0
AllDigits [] = Unit
AllDigits (c ∷ s) = (is_digit 10 c ≡ true) × AllDigits s

-- A formatting of integers whose digits std::stoi reads back, for 0 to 255.
pub record IsDecimal (format : ℤ → Bytes) : Type 0 where
  pub reads : (n : ℕ) → leb n 255 ≡ true → stoi 10 (format (pos n)) ≡ some (pos n)
  pub digits : (n : ℕ) → leb n 255 ≡ true → AllDigits (format (pos n))

digit-apart :
    (c : ℕ)
    → is_digit 10 c ≡ true
    → (is_space c ≡ false) × ((c == b',') ≡ false) × ((c == b';') ≡ false)
unfolding is_digit digit
digit-apart c h = (ground arith, ground arith, ground arith)

pub AllDigits-Without_comma : (s : Bytes) → AllDigits s → Without b',' s
AllDigits-Without_comma [] a = tt
AllDigits-Without_comma (c ∷ s) a = ((digit-apart c a.0).1, AllDigits-Without_comma s a.1)

pub AllDigits-Without_semicolon : (s : Bytes) → AllDigits s → Without b';' s
AllDigits-Without_semicolon [] a = tt
AllDigits-Without_semicolon (c ∷ s) a = ((digit-apart c a.0).2, AllDigits-Without_semicolon s a.1)

AllDigits-StartsDark : (s : Bytes) → AllDigits s → StartsDark s
AllDigits-StartsDark [] a = tt
AllDigits-StartsDark (c ∷ s) a = (digit-apart c a.0).0

AllDigits-EndsDark : (s : Bytes) → AllDigits s → EndsDark s
AllDigits-EndsDark [] a = tt
AllDigits-EndsDark (c ∷ []) a = (digit-apart c a.0).0
AllDigits-EndsDark (c ∷ d ∷ s) a = AllDigits-EndsDark (d ∷ s) a.1

trim-AllDigits : (s : Bytes) → AllDigits s → trim s ≡ s
trim-AllDigits s a =
    ap trim (sym (append-nil s))
    ∙ trim-spaces [] s [] tt tt (AllDigits-StartsDark s a) (AllDigits-EndsDark s a)

before_close-concat : (s : Bytes) → before_close (s ++ b')' ∷ []) ≡ some s
unfolding before_close
before_close-concat [] = refl
before_close-concat (c ∷ []) = refl
before_close-concat (c ∷ d ∷ s) = rw (before_close-concat (d ∷ s)) refl

stoi-full : (s : Bytes) (v : ℤ) → stoi 10 s ≡ some v → is_empty s ≡ false
unfolding stoi skip_space read_sign
stoi-full [] v e = cc
stoi-full (c ∷ s) v e = refl

read_parts-digits :
    (s : Bytes) (parts : List Bytes) (n : ℕ) (vs : List ℤ)
    → AllDigits s
    → stoi 10 s ≡ some (pos n)
    → read_parts parts ≡ some vs
    → read_parts (s ∷ parts) ≡ some (pos n ∷ vs)
unfolding read_parts
read_parts-digits s parts n vs a e h = rw (trim-AllDigits s a, stoi-full s (pos n) e, e, h) refl

module _ (format : ℤ → Bytes) (d : IsDecimal format) where
  -- Three integers from 0 to 255, printed in decimal between "rgb(" and ")" with commas between
  -- them, are read by parseRGBColor as the colour of these components.
  pub parse_rgb_color-join :
      (r g b : ℕ)
      → leb r 255 ≡ true
      → leb g 255 ≡ true
      → leb b 255 ≡ true
      → parse_rgb_color (
          codes "rgb("
          ++ (join b',' (format (pos r) ∷ format (pos g) ∷ format (pos b) ∷ []) ++ b')' ∷ []))
        ≡ some (record { r = pos r; g = pos g; b = pos b })
  unfolding parse_rgb_color after_prefix of_values
  parse_rgb_color-join r g b hr hg hb =
      rw
        (
          before_close-concat (join b',' (format (pos r) ∷ format (pos g) ∷ format (pos b) ∷ [])),
          split_string-join b',' (format (pos r)) (format (pos g) ∷ format (pos b) ∷ []) (
            AllDigits-Without_comma (format (pos r)) (d.digits r hr),
            (
              AllDigits-Without_comma (format (pos g)) (d.digits g hg),
              (AllDigits-Without_comma (format (pos b)) (d.digits b hb), tt),
            ),
          ),
          read_parts-digits (format (pos r)) (format (pos g) ∷ format (pos b) ∷ []) r
              (pos g ∷ pos b ∷ []) (d.digits r hr) (d.reads r hr)
              (read_parts-digits (format (pos g)) (format (pos b) ∷ []) g (pos b ∷ [])
                (d.digits g hg) (d.reads g hg)
                (read_parts-digits (format (pos b)) [] b [] (d.digits b hb) (d.reads b hb)
                  (unfold read_parts in refl))),
          hr,
          hg,
          hb,
        )
        refl
