-- ===== src/Common/Terminal/Tests/Styles.antt =====
-- Runs of the parsers of colours and styles, and of to_string.
use uni.Prelude.{◌≡◌, refl, true, false, some, [], ◌∷◌, ◌++◌}
use uni.Prelude.Int.{pos}
use uni.Common.Text.{codes}
use uni.Common.Terminal.Split.{join}
use uni.Common.Terminal.TopLevel.{nest}
use uni.Common.Terminal.Colors.{ForegroundColor}
use uni.Common.Terminal.Rgb.{parse_rgb_color, parse_hex_color, minus, digit, is_digit}
use uni.Common.Terminal.Rgb.Bounds.{
  Returns, AllBytes, parse_rgb_color-AllBytes, parse_hex_color-minus,
}
use uni.Common.Terminal.Rgb.RoundTrip.{parse_rgb_color-join}
use uni.Common.Terminal.Style.{TerminalStyle, FgColor, BgColor, combine}
use uni.Common.Terminal.Parse.{parse_terminal_style}
use uni.Common.Terminal.Parse.Parts.{parse_terminal_style-comma}
use uni.Common.Terminal.Tests.Decimal.{decimal, decimal-IsDecimal}

abbrev warning : TerminalStyle
warning = record {
  fg = some (FgColor.named ForegroundColor.red);
  bg = some (BgColor.rgb (record { r = pos 10; g = pos 0; b = pos 255 }));
  attrs = record { bold = true; dim = false; underline = false };
}

parse_rgb_color-AllBytes_example : Returns (parse_rgb_color (codes "rgb(1,2,300)")) AllBytes
parse_rgb_color-AllBytes_example = parse_rgb_color-AllBytes (codes "rgb(1,2,300)")

parse_rgb_color-join_example :
    parse_rgb_color (
      codes "rgb("
      ++ (join b',' (decimal (pos 7) ∷ decimal (pos 42) ∷ decimal (pos 255) ∷ []) ++ b')' ∷ []))
    ≡ some (record { r = pos 7; g = pos 42; b = pos 255 })
parse_rgb_color-join_example =
    parse_rgb_color-join decimal decimal-IsDecimal 7 42 255 refl refl refl

parse_hex_color-minus_example :
    parse_hex_color (b'#' ∷ b'-' ∷ b'1' ∷ b'-' ∷ b'a' ∷ b'-' ∷ b'F' ∷ [])
    ≡ some
        (record { r = minus (digit 16 b'1'); g = minus (digit 16 b'a'); b = minus (digit 16 b'F') })
unfolding is_digit digit
parse_hex_color-minus_example = parse_hex_color-minus b'1' b'a' b'F' refl refl refl

parse_terminal_style-comma_example :
    parse_terminal_style (codes "fg:rgb(1,2,3);Bold" ++ b',' ∷ codes "bg:red")
    ≡ combine
        (parse_terminal_style (codes "fg:rgb(1,2,3);Bold"))
        (parse_terminal_style (codes "bg:red"))
parse_terminal_style-comma_example =
    parse_terminal_style-comma (codes "fg:rgb(1,2,3);Bold") (codes "bg:red") (unfold nest in refl)
