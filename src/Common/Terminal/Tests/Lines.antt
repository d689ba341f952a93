-- ===== src/Common/Terminal/Tests/Lines.antt =====
-- Runs of splitString, splitTopLevel, trim, cmdline and expand_environment.
use uni.Prelude.{◌≡◌, refl, true, false, Option, none, some, [], ◌∷◌, if◌then◌else◌}
use uni.Common.Text.{Bytes, codes, equals, iequals, to_lower, iequals-to_lower}
use uni.Common.Terminal.Split.{split_string, join, AllWithout, join-split_string}
use uni.Common.Terminal.TopLevel.{split_top_level, split_from, nest}
use uni.Common.Terminal.TopLevel.Depth.{depth_step, AreTopLevel, split_top_level-AreTopLevel}
use uni.Common.Terminal.Trim.{trim, trim_start, trim_end}
use uni.Common.Terminal.Shell.{quote_shell, toggle}
use uni.Common.Terminal.Environment.{
  find, after_brace, replacement, expand_environment, expand, advance,
}
use uni.Common.Terminal.Environment.Expansion.{Expands, expand_environment_total}

abbrev home : Bytes → Option Bytes
home name = if equals name (codes "HOME") then some (codes "/root") else none

split_comma : split_string b',' (codes "a,,b") ≡ codes "a" ∷ [] ∷ codes "b" ∷ []
unfolding split_string
split_comma = refl

top_level_comma : split_top_level b',' (codes "a(b,c),d,") ≡ codes "a(b,c)" ∷ codes "d" ∷ []
unfolding split_top_level split_from nest
top_level_comma = refl

trim_blanks : trim (codes " a b ") ≡ codes "a b"
unfolding trim trim_start trim_end
trim_blanks = refl

quote_blank : quote_shell (codes "a b") ≡ codes "\"a b\""
unfolding quote_shell uni.Common.Terminal.Shell.needs_quote uni.Common.Terminal.Shell.escape
quote_blank = refl

join-split_string_example :
    (join b',' (split_string b',' (codes "a,,b")) ≡ codes "a,,b")
    × AllWithout b',' (split_string b',' (codes "a,,b"))
join-split_string_example = join-split_string b',' (codes "a,,b")

split_top_level-AreTopLevel_example :
    AreTopLevel depth_step b',' (codes "a(b,c),d") (split_top_level b',' (codes "a(b,c),d"))
split_top_level-AreTopLevel_example = split_top_level-AreTopLevel b',' (codes "a(b,c),d")

toggle_off : toggle (codes "FALSE") true ≡ false
unfolding toggle iequals uni.Common.Text.lower
toggle_off = refl

expand_home : expand_environment home (codes "$${HOME}/${X}") ≡ some (codes "$/root/${X}")
unfolding expand_environment expand advance replacement after_brace find equals
expand_home = refl

expand_environment_total_example :
    (t : Bytes) × Expands home (codes "${HOME}/a") t
    × (expand_environment home (codes "${HOME}/a") ≡ some t)
expand_environment_total_example = expand_environment_total home (codes "${HOME}/a")
