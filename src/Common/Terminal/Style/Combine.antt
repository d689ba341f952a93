-- ===== src/Common/Terminal/Style/Combine.antt =====
-- How styles are put together.
use uni.Prelude.{◌≡◌, refl, Bool, true, false, ◌||◌, Option, none, some}
use uni.Common.Terminal.Style.{
  TerminalStyle, FgColor, BgColor, plain, of_foreground, of_background, combine, or_else,
  join_attributes,
}

or_assoc : (a b c : Bool) → ((a || b) || c) ≡ (a || (b || c))
or_assoc true b c = refl
or_assoc false b c = refl

or_false : (a : Bool) → (a || false) ≡ a
or_false true = refl
or_false false = refl

or_else_assoc {ℓ} :
    {A : Type ℓ} (a b c : Option A) → or_else c (or_else b a) ≡ or_else (or_else c b) a
or_else_assoc a b (some c) = refl
or_else_assoc a b none = refl

pub or_else-none {ℓ} : {A : Type ℓ} (a : Option A) → or_else a none ≡ a
or_else-none none = refl
or_else-none (some a) = refl

-- Putting styles together is associative, and the default style changes nothing on either side.
pub combine_assoc :
    (s t u : TerminalStyle)
    → (combine (combine s t) u ≡ combine s (combine t u))
      × (combine plain s ≡ s)
      × (combine s plain ≡ s)
unfolding combine join_attributes
combine_assoc s t u = (
  rw
      (
        or_else_assoc s.fg t.fg u.fg,
        or_else_assoc s.bg t.bg u.bg,
        or_assoc s.attrs.bold t.attrs.bold u.attrs.bold,
        or_assoc s.attrs.dim t.attrs.dim u.attrs.dim,
        or_assoc s.attrs.underline t.attrs.underline u.attrs.underline,
      )
      refl,
  rw (or_else-none s.fg, or_else-none s.bg) refl,
  rw (or_false s.attrs.bold, or_false s.attrs.dim, or_false s.attrs.underline) refl,
)

pub combine-foreground :
    (s : TerminalStyle) (c : FgColor)
    → combine s (of_foreground c) ≡ record { fg = some c; bg = s.bg; attrs = s.attrs }
unfolding combine join_attributes
combine-foreground s c =
    rw (or_false s.attrs.bold, or_false s.attrs.dim, or_false s.attrs.underline) refl

pub combine-background :
    (s : TerminalStyle) (c : BgColor)
    → combine s (of_background c) ≡ record { fg = s.fg; bg = some c; attrs = s.attrs }
unfolding combine join_attributes
combine-background s c =
    rw (or_false s.attrs.bold, or_false s.attrs.dim, or_false s.attrs.underline) refl
