-- ===== src/Common/Terminal/Style/Displayed.antt =====
-- What a terminal makes of the escape sequence of a style.
use uni.Prelude.{ℕ, Option, none, some, List, [], ◌∷◌, ◌++◌, if◌then◌else◌, ◌==◌}
use uni.Prelude.Int.{ℤ, pos}
use uni.Common.Text.{Bytes, codes}
use uni.Common.Terminal.Colors.{foreground_code, background_code}
use uni.Common.Terminal.Rgb.{RgbColor}
use uni.Common.Terminal.Rgb.Bounds.{AllBytes}
use uni.Common.Terminal.Style.{TerminalStyle, FgColor, BgColor}
use uni.Common.Terminal.Style.Sequence.{Group}
use uni.Common.Terminal.Style.Groups.{attribute_groups}

-- The components of the colours of a style are bytes.
abbrev pub FgBytes : Option FgColor → Type 0
FgBytes (some (FgColor.rgb c)) = AllBytes c
FgBytes _ = Unit

abbrev pub BgBytes : Option BgColor → Type 0
BgBytes (some (BgColor.rgb c)) = AllBytes c
BgBytes _ = Unit

module _ (format : ℤ → Bytes) where
  abbrev rgb_group : ℕ → RgbColor → Group
  rgb_group kind c = (
    (kind ∷ b'8' ∷ [], (if kind == b'3' then pos 38 else pos 48)),
    (codes "2", pos 2) ∷ (format c.r, c.r) ∷ (format c.g, c.g) ∷ (format c.b, c.b) ∷ [],
  )

  abbrev foreground_groups : Option FgColor → List Group
  foreground_groups none = []
  foreground_groups (some (FgColor.named c)) =
      ((format (pos (foreground_code c)), pos (foreground_code c)), []) ∷ []
  foreground_groups (some (FgColor.rgb c)) = rgb_group b'3' c ∷ []

  abbrev background_groups : Option BgColor → List Group
  background_groups none = []
  background_groups (some (BgColor.named c)) =
      ((format (pos (background_code c)), pos (background_code c)), []) ∷ []
  background_groups (some (BgColor.rgb c)) = rgb_group b'4' c ∷ []

  abbrev groups : TerminalStyle → List Group
  groups s = attribute_groups s.attrs ++ (foreground_groups s.fg ++ background_groups s.bg)
