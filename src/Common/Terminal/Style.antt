-- ===== src/Common/Terminal/Style.antt =====
-- TerminalStyle of terminal.hpp and terminal.cpp. The mask `attrs` is its three bits.
pub mod Sequence
pub mod Combine
pub mod Groups
pub mod Displayed
use uni.Prelude.{
  ℕ, ◌+◌, Bool, true, false, ◌||◌, Option, none, some, List, [], ◌∷◌, ◌++◌, if◌then◌else◌,
}
use uni.Prelude.Int.{ℤ, pos, negsuc}
use uni.Common.Text.{Bytes, codes}
use uni.Common.Terminal.Split.{join}
use uni.Common.Terminal.Colors.{
  ForegroundColor, BackgroundColor, ColorAttribute, foreground_code, background_code,
}
use uni.Common.Terminal.Rgb.{RgbColor}

pub record Attributes : Type 0 where
  pub bold : Bool
  pub dim : Bool
  pub underline : Bool

abbrev pub no_attributes : Attributes
no_attributes = record { bold = false; dim = false; underline = false }

-- The bit of one enumerator.
unfoldable pub of_attribute : ColorAttribute → Attributes
of_attribute ColorAttribute.bold = record { bold = true; dim = false; underline = false }
of_attribute ColorAttribute.dim = record { bold = false; dim = true; underline = false }
of_attribute ColorAttribute.underline = record { bold = false; dim = false; underline = true }

unfoldable pub join_attributes : Attributes → Attributes → Attributes
join_attributes a b = record {
  bold = a.bold || b.bold;
  dim = a.dim || b.dim;
  underline = a.underline || b.underline;
}

-- std::variant<ForegroundColor, RGBColor>.
pub data FgColor : Type 0 where
  named : ForegroundColor → FgColor
  rgb : RgbColor → FgColor

pub data BgColor : Type 0 where
  named : BackgroundColor → BgColor
  rgb : RgbColor → BgColor

pub record TerminalStyle : Type 0 where
  pub fg : Option FgColor
  pub bg : Option BgColor
  pub attrs : Attributes

abbrev pub plain : TerminalStyle
plain = record { fg = none; bg = none; attrs = no_attributes }

abbrev pub of_foreground : FgColor → TerminalStyle
of_foreground c = record { fg = some c; bg = none; attrs = no_attributes }

abbrev pub of_background : BgColor → TerminalStyle
of_background c = record { fg = none; bg = some c; attrs = no_attributes }

abbrev pub of_attributes : Attributes → TerminalStyle
of_attributes a = record { fg = none; bg = none; attrs = a }

abbrev pub or_else {ℓ} : {A : Type ℓ} → Option A → Option A → Option A
or_else (some a) old = some a
or_else none old = old

-- `operator|`: what the second style sets wins, and the attributes are put together.
unfoldable pub combine : TerminalStyle → TerminalStyle → TerminalStyle
unfolding join_attributes
combine s t = record {
  fg = or_else t.fg s.fg;
  bg = or_else t.bg s.bg;
  attrs = join_attributes s.attrs t.attrs;
}

abbrev pub when : Bool → Bytes → List Bytes
when true s = s ∷ []
when false s = []

unfoldable pub attribute_codes : Attributes → List Bytes
attribute_codes a =
    when a.bold (codes "1") ++ (when a.dim (codes "2") ++ when a.underline (codes "4"))

-- `format` is fmt::format("{}", n) for an int.
module _ (format : ℤ → Bytes) where
  unfoldable pub rgb_code : Bytes → RgbColor → Bytes
  rgb_code start c = start ++ (format c.r ++ (b';' ∷ (format c.g ++ (b';' ∷ format c.b))))

  unfoldable pub foreground_codes : Option FgColor → List Bytes
  unfolding rgb_code
  foreground_codes none = []
  foreground_codes (some (FgColor.named c)) = format (pos (foreground_code c)) ∷ []
  foreground_codes (some (FgColor.rgb c)) = rgb_code (codes "38;2;") c ∷ []

  unfoldable pub background_codes : Option BgColor → List Bytes
  unfolding rgb_code
  background_codes none = []
  background_codes (some (BgColor.named c)) = format (pos (background_code c)) ∷ []
  background_codes (some (BgColor.rgb c)) = rgb_code (codes "48;2;") c ∷ []

  unfoldable pub style_codes : TerminalStyle → List Bytes
  unfolding attribute_codes foreground_codes background_codes
  style_codes s = attribute_codes s.attrs ++ (foreground_codes s.fg ++ background_codes s.bg)

  -- The escape character, `[`, the codes and `m`.
  unfoldable pub to_string : TerminalStyle → Bytes
  unfolding style_codes
  to_string s = 27 ∷ (b'[' ∷ (join b';' (style_codes s) ++ (b'm' ∷ [])))
