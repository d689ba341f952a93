-- ===== src/Common/Terminal/Parse/Parts.antt =====
-- The loops of parseTerminalStyle, one part and one token at a time.
use uni.Prelude.{
  ◌≡◌, refl, sym, ap, ◌∙◌, Bool, true, false, List, [], ◌∷◌, ◌++◌, is_empty, if◌then◌else◌, inl,
  inr, Option-cases,
}
use mathlib.Core.List.{foldl}
use uni.Common.Text.{Bytes, codes, to_lower}
use uni.Common.Terminal.Split.{split_string}
use uni.Common.Terminal.TopLevel.{split_top_level, split_from, nest, level_after, foldl-split_from}
use uni.Common.Terminal.Trim.{trim, trim_start, trim_end}
use uni.Common.Terminal.Colors.{parse_color_attribute}
use uni.Common.Terminal.Style.{TerminalStyle, plain, combine, of_attributes, of_attribute}
use uni.Common.Terminal.Style.Combine.{combine_assoc}
use uni.Common.Terminal.Parse.{
  add_attribute, add_targeted, add_token, add_part, color_of, find_colon, parse_terminal_style,
}

-- A step that only puts something onto the result.
abbrev Adds : (TerminalStyle → Bytes → TerminalStyle) → Type 0
Adds f = (r : TerminalStyle) (t : Bytes) → f r t ≡ combine r (f plain t)

plain_left : (s : TerminalStyle) → combine plain s ≡ s
plain_left s = (combine_assoc s s s).1

plain_right : (s : TerminalStyle) → s ≡ combine s plain
plain_right s = sym (combine_assoc s s s).2

assoc : (s t u : TerminalStyle) → combine (combine s t) u ≡ combine s (combine t u)
assoc s t u = (combine_assoc s t u).0

foldl-Adds :
    (f : TerminalStyle → Bytes → TerminalStyle) (a : Adds f) (r s : TerminalStyle) (ts : List Bytes)
    → foldl f (combine r s) ts ≡ combine r (foldl f s ts)
foldl-Adds f a r s [] = refl
foldl-Adds f a r s (t ∷ ts) =
    ap (λ q. foldl f q ts)
      (a (combine r s) t ∙ assoc r s (f plain t) ∙ ap (combine r) (sym (a s t)))
    ∙ foldl-Adds f a r (f s t) ts

foldl-plain :
    (f : TerminalStyle → Bytes → TerminalStyle) (a : Adds f) (r : TerminalStyle) (ts : List Bytes)
    → foldl f r ts ≡ combine r (foldl f plain ts)
foldl-plain f a r ts = ap (λ q. foldl f q ts) (plain_right r) ∙ foldl-Adds f a r plain ts

add_attribute-Adds : Adds add_attribute
unfolding add_attribute
add_attribute-Adds r t = elim (Option-cases (parse_color_attribute t)) [
  | inl h ↦ rw (add_attribute, h) (plain_right r)
  | inr (a, h) ↦
      rw (add_attribute, h) (ap (combine r) (sym (plain_left (of_attributes (of_attribute a)))))
]

add_targeted-Adds : (target : Bytes) → Adds (λ r t. add_targeted r target t)
unfolding add_targeted
add_targeted-Adds target r t = elim (Option-cases (color_of target t)) [
  | inl h ↦ rw (add_targeted, h) (add_attribute-Adds r t)
  | inr (s, h) ↦ rw (add_targeted, h) (ap (combine r) (sym (plain_left s)))
]

unless-Adds :
    (b : Bool) (f : TerminalStyle → TerminalStyle) (r : TerminalStyle)
    → f r ≡ combine r (f plain)
    → (if b then r else f r) ≡ combine r (if b then plain else f plain)
unless-Adds true f r e = plain_right r
unless-Adds false f r e = e

add_token-Adds : (target : Bytes) → Adds (add_token target)
unfolding add_token
add_token-Adds target r t = elim (Option-cases (find_colon (trim t))) [
  | inl h ↦
      rw (add_token, h)
        (unless-Adds (is_empty (trim t)) (λ q. add_targeted q target (trim t)) r
          (add_targeted-Adds target r (trim t)))
  | inr ((b, a), h) ↦
      rw (add_token, h)
        (unless-Adds (is_empty (trim a)) (λ q. add_targeted q (to_lower (trim b)) (trim a)) r
          (add_targeted-Adds (to_lower (trim b)) r (trim a)))
]

tokens-Adds :
    (target : Bytes) (r : TerminalStyle) (ts : List Bytes)
    → foldl (add_token target) r ts ≡ combine r (foldl (add_token target) plain ts)
tokens-Adds target r ts = foldl-plain (add_token target) (add_token-Adds target) r ts

add_part-Adds : Adds add_part
unfolding add_part
add_part-Adds r p = elim (Option-cases (find_colon (trim p))) [
  | inl h ↦
      rw (add_part, h)
        (unless-Adds (is_empty (trim p))
          (λ q. foldl (add_token (codes "fg")) q (split_string b';' (trim p))) r
          (tokens-Adds (codes "fg") r (split_string b';' (trim p))))
  | inr ((b, a), h) ↦ rw (add_part, h) (tokens-Adds (to_lower (trim b)) r (split_string b';' a))
]

add_part-nil : (r : TerminalStyle) → add_part r [] ≡ r
unfolding add_part find_colon trim trim_start trim_end
add_part-nil r = refl

-- When the brackets of the first text are closed at its end, the style of two texts with a comma
-- between them is the style of the first put together with that of the second.
pub parse_terminal_style-comma :
    (s t : Bytes)
    → level_after 0 s ≡ 0
    → parse_terminal_style (s ++ b',' ∷ t)
      ≡ combine (parse_terminal_style s) (parse_terminal_style t)
unfolding parse_terminal_style split_top_level nest
parse_terminal_style-comma s t e =
    foldl-split_from b',' add_part add_part-nil refl 0 [] s t plain e
    ∙ foldl-plain add_part add_part-Adds (foldl add_part plain (split_from b',' 0 [] s))
        (split_from b',' 0 [] t)
