-- ===== src/Common/Terminal/Parse.antt =====
-- parseTerminalStyle of terminal.cpp.
pub mod Parts
use uni.Prelude.{
  ℕ, Bool, true, false, Option, none, some, ◌>>=◌, ◌>>◌, List, [], ◌∷◌, is_empty, if◌then◌else◌,
  ◌==◌,
}
use mathlib.Core.List.{foldl}
use uni.Common.Text.{Bytes, codes, equals, to_lower}
use uni.Common.Terminal.Split.{split_string}
use uni.Common.Terminal.TopLevel.{split_top_level}
use uni.Common.Terminal.Trim.{trim}
use uni.Common.Terminal.Colors.{
  parse_foreground_color, parse_background_color, parse_color_attribute,
}
use uni.Common.Terminal.Rgb.{RgbColor, after_prefix, parse_rgb_color, parse_hex_color}
use uni.Common.Terminal.Style.{
  TerminalStyle, FgColor, BgColor, plain, of_foreground, of_background, of_attributes, of_attribute,
  combine,
}

-- What stands before and after the first colon.
unfoldable pub find_colon : Bytes → Option (Bytes × Bytes)
find_colon [] = none
find_colon (c ∷ s) =
    let rest = find_colon s in
    if c == b':' then some ([], s) else (do (before, after) ← rest; some (c ∷ before, after))

abbrev starts_with_hash : Bytes → Bool
starts_with_hash [] = false
starts_with_hash (c ∷ s) = c == b'#'

-- rfind("rgb(", 0) == 0.
unfoldable pub starts_with_rgb : Bytes → Bool
starts_with_rgb token = elim (after_prefix (codes "rgb(") token) [ none ↦ false | some _ ↦ true ]

unfoldable pub foreground_of : Bytes → Option FgColor
foreground_of token =
    if starts_with_rgb token
    then (do c ← parse_rgb_color token; some (FgColor.rgb c))
    else if starts_with_hash token
    then (do c ← parse_hex_color token; some (FgColor.rgb c))
    else (do c ← parse_foreground_color token; some (FgColor.named c))

unfoldable pub background_of : Bytes → Option BgColor
background_of token =
    if starts_with_rgb token
    then (do c ← parse_rgb_color token; some (BgColor.rgb c))
    else if starts_with_hash token
    then (do c ← parse_hex_color token; some (BgColor.rgb c))
    else (do c ← parse_background_color token; some (BgColor.named c))

-- The colour that a token is for a target; for any target but "fg" and "bg" it is none.
unfoldable pub color_of : Bytes → Bytes → Option TerminalStyle
color_of target token =
    if equals target (codes "fg")
    then (do c ← foreground_of token; some (of_foreground c))
    else if equals target (codes "bg")
    then (do c ← background_of token; some (of_background c))
    else none

unfoldable pub add_attribute : TerminalStyle → Bytes → TerminalStyle
add_attribute result token = elim (parse_color_attribute token) [
  | none ↦ result
  | some a ↦ combine result (of_attributes (of_attribute a))
]

-- A token once its target is known.
unfoldable pub add_targeted : TerminalStyle → Bytes → Bytes → TerminalStyle
add_targeted result target token = elim (color_of target token) [
  | none ↦ add_attribute result token
  | some style ↦ combine result style
]

-- The body of the inner loop.
unfoldable pub add_token : Bytes → TerminalStyle → Bytes → TerminalStyle
add_token target result token = elim (find_colon (trim token)) [
  | none ↦ if is_empty (trim token) then result else add_targeted result target (trim token)
  | some (before, after) ↦
      if is_empty (trim after)
      then result
      else add_targeted result (to_lower (trim before)) (trim after)
]

-- The body of the outer loop.
unfoldable pub add_part : TerminalStyle → Bytes → TerminalStyle
add_part result part = elim (find_colon (trim part)) [
  | none ↦
      if is_empty (trim part)
      then result
      else foldl (add_token (codes "fg")) result (split_string b';' (trim part))
  | some (before, after) ↦
      foldl (add_token (to_lower (trim before))) result (split_string b';' after)
]

unfoldable pub parse_terminal_style : Bytes → TerminalStyle
parse_terminal_style s = foldl add_part plain (split_top_level b',' s)
