-- ===== src/Common/Terminal/Style/Sequence.antt =====
-- The escape sequence of TerminalStyle::to_string, and a terminal that reads its codes: 0 resets,
-- 1, 2 and 4 are the attributes, 38;2 and 48;2 start a colour of three components, and the other
-- codes are those of the enumerators.
use uni.Prelude.{
  ℕ, ◌≡◌, refl, sym, ap, ◌∙◌, true, false, ◌&&◌, ◌||◌, Option, none, some, ◌>>=◌, List, map, [],
  ◌∷◌, ◌++◌, if◌then◌else◌, ◌==◌,
}
use uni.Prelude.Int.{ℤ, pos, negsuc}
use mathlib.Core.List.{append_assoc, append-nil, foldl}
use uni.Common.Text.{Bytes}
use uni.Common.Terminal.Split.{split_string, join, Without, AllWithout, split_string-join}
use uni.Common.Terminal.Colors.{ForegroundColor, BackgroundColor, foreground_code, background_code}
use uni.Common.Terminal.Rgb.{RgbColor, stoi}
use uni.Common.Terminal.Style.{
  TerminalStyle, FgColor, BgColor, plain, of_foreground, of_background, of_attributes, combine,
}

-- The numbers between the semicolons; nothing between them is 0.
abbrev pub number : Bytes → Option ℤ
number [] = some (pos 0)
number (c ∷ s) = stoi 10 (c ∷ s)

abbrev numbers : List Bytes → Option (List ℤ)
numbers [] = some []
numbers (part ∷ parts) = do n ← number part; ns ← numbers parts; some (n ∷ ns)

abbrev pub foregrounds : List ForegroundColor
foregrounds =
    ForegroundColor.default ∷ ForegroundColor.black ∷ ForegroundColor.red ∷ ForegroundColor.green
    ∷ ForegroundColor.yellow ∷ ForegroundColor.blue ∷ ForegroundColor.magenta ∷ ForegroundColor.cyan
    ∷ ForegroundColor.light_gray ∷ ForegroundColor.dark_gray ∷ ForegroundColor.light_red
    ∷ ForegroundColor.light_green ∷ ForegroundColor.light_yellow ∷ ForegroundColor.light_blue
    ∷ ForegroundColor.light_magenta ∷ ForegroundColor.light_cyan ∷ ForegroundColor.white ∷ []

abbrev pub backgrounds : List BackgroundColor
backgrounds =
    BackgroundColor.default ∷ BackgroundColor.black ∷ BackgroundColor.red ∷ BackgroundColor.green
    ∷ BackgroundColor.yellow ∷ BackgroundColor.blue ∷ BackgroundColor.magenta ∷ BackgroundColor.cyan
    ∷ BackgroundColor.light_gray ∷ BackgroundColor.dark_gray ∷ BackgroundColor.light_red
    ∷ BackgroundColor.light_green ∷ BackgroundColor.light_yellow ∷ BackgroundColor.light_blue
    ∷ BackgroundColor.light_magenta ∷ BackgroundColor.light_cyan ∷ BackgroundColor.white ∷ []

abbrev pub with_code {ℓ} : {A : Type ℓ} → (A → ℕ) → ℕ → List A → Option A
with_code value n [] = none
with_code value n (a ∷ rest) =
    let found = with_code value n rest in if value a == n then some a else found

-- What the terminal knows: the style, and the codes of a colour that is not complete.
abbrev pub Reader : Type 0
Reader = TerminalStyle × List ℤ

abbrev pub set_color : ℤ → RgbColor → TerminalStyle → TerminalStyle
set_color (pos n) c s =
    if n == 38
    then combine s (of_foreground (FgColor.rgb c))
    else combine s (of_background (BgColor.rgb c))
set_color (negsuc n) c s = s

abbrev pub set_code : ℕ → TerminalStyle → TerminalStyle
set_code n s =
    if n == 0
    then plain
    else if n == 1
    then combine s (of_attributes (record { bold = true; dim = false; underline = false }))
    else if n == 2
    then combine s (of_attributes (record { bold = false; dim = true; underline = false }))
    else if n == 4
    then combine s (of_attributes (record { bold = false; dim = false; underline = true }))
    else elim (with_code foreground_code n foregrounds) [
      | some c ↦ combine s (of_foreground (FgColor.named c))
      | none ↦ elim (with_code background_code n backgrounds) [
        | some c ↦ combine s (of_background (BgColor.named c))
        | none ↦ s
      ]
    ]

unfoldable pub read_code : Reader → ℤ → Reader
read_code (s, []) (pos n) = if n == 38 || n == 48 then (s, pos n ∷ []) else (set_code n s, [])
read_code (s, []) (negsuc n) = (s, [])
read_code (s, k ∷ []) n = (s, k ∷ n ∷ [])
read_code (s, k ∷ m ∷ []) n = (s, k ∷ m ∷ n ∷ [])
read_code (s, k ∷ m ∷ r ∷ []) n = (s, k ∷ m ∷ r ∷ n ∷ [])
read_code (s, k ∷ m ∷ r ∷ g ∷ _) n = (set_color k (record { r = r; g = g; b = n }) s, [])

unfoldable before_m : Bytes → Option Bytes
before_m [] = none
before_m (c ∷ []) = if c == b'm' then some [] else none
before_m (c ∷ d ∷ s) = do rest ← before_m (d ∷ s); some (c ∷ rest)

-- What stands between the escape character with `[` and the last `m`.
abbrev body : Bytes → Option Bytes
body (e ∷ b ∷ rest) = if e == 27 && b == b'[' then before_m rest else none
body _ = none

-- What the terminal does with a sequence.
unfoldable pub displayed : Bytes → Option Reader
unfolding before_m
displayed s = do
  inner ← body s
  ns ← numbers (split_string b';' inner)
  some (foldl read_code (plain, []) ns)

-- A text between semicolons and its number; a code is one of them or several.
abbrev pub Atom : Type 0
Atom = Bytes × ℤ

abbrev pub Group : Type 0
Group = Atom × List Atom

abbrev pub texts : List Atom → List Bytes
texts [] = []
texts ((t, v) ∷ more) = t ∷ texts more

abbrev pub values : List Atom → List ℤ
values [] = []
values ((t, v) ∷ more) = v ∷ values more

abbrev pub text : Group → Bytes
text (a, more) = join b';' (texts (a ∷ more))

abbrev pub flatten : List Group → List Atom
flatten [] = []
flatten ((a, more) ∷ gs) = a ∷ (more ++ flatten gs)

abbrev pub Good : Atom → Type 0
Good (t, v) = Without b';' t × (number t ≡ some v)

abbrev pub AllGood : List Atom → Type 0
AllGood [] = Unit
AllGood (a ∷ more) = Good a × AllGood more

abbrev pub GoodGroups : List Group → Type 0
GoodGroups [] = Unit
GoodGroups ((a, more) ∷ gs) = AllGood (a ∷ more) × GoodGroups gs

before_m-concat : (s : Bytes) → before_m (s ++ b'm' ∷ []) ≡ some s
unfolding before_m
before_m-concat [] = refl
before_m-concat (c ∷ []) = refl
before_m-concat (c ∷ d ∷ s) = rw (before_m-concat (d ∷ s)) refl

AllGood-append : (more bs : List Atom) → AllGood more → AllGood bs → AllGood (more ++ bs)
AllGood-append [] bs g h = h
AllGood-append (a ∷ more) bs g h = (g.0, AllGood-append more bs g.1 h)

pub AllGood-flatten : (gs : List Group) → GoodGroups gs → AllGood (flatten gs)
AllGood-flatten [] g = tt
AllGood-flatten ((a, more) ∷ gs) g =
    (g.0.0, AllGood-append more (flatten gs) g.0.1 (AllGood-flatten gs g.1))

AllWithout-texts : (more : List Atom) → AllGood more → AllWithout b';' (texts more)
AllWithout-texts [] g = tt
AllWithout-texts (a ∷ more) g = (g.0.0, AllWithout-texts more g.1)

numbers-texts : (more : List Atom) → AllGood more → numbers (texts more) ≡ some (values more)
numbers-texts [] g = refl
numbers-texts ((t, v) ∷ more) g = rw (g.0.1, numbers-texts more g.1) refl

join-append :
    (a : Atom) (more : List Atom) (b : Atom) (bs : List Atom)
    → join b';' (texts (a ∷ more)) ++ b';' ∷ join b';' (texts (b ∷ bs))
      ≡ join b';' (texts (a ∷ (more ++ b ∷ bs)))
join-append a [] b bs = refl
join-append (t, v) (c ∷ more) b bs =
    append_assoc t (b';' ∷ join b';' (texts (c ∷ more))) (b';' ∷ join b';' (texts (b ∷ bs)))
    ∙ ap (λ s. t ++ b';' ∷ s) (join-append c more b bs)

pub join-flatten : (gs : List Group) → join b';' (map text gs) ≡ join b';' (texts (flatten gs))
join-flatten [] = refl
join-flatten ((a, more) ∷ []) = ap (λ q. join b';' (texts (a ∷ q))) (sym (append-nil more))
join-flatten ((a, more) ∷ (b, bs) ∷ gs) =
    ap (λ s. join b';' (texts (a ∷ more)) ++ b';' ∷ s) (join-flatten ((b, bs) ∷ gs))
    ∙ join-append a more b (bs ++ flatten gs)

pub atoms-displayed :
    (more : List Atom)
    → AllGood more
    → displayed (27 ∷ (b'[' ∷ (join b';' (texts more) ++ (b'm' ∷ []))))
      ≡ some (foldl read_code (plain, []) (values more))
unfolding displayed split_string read_code before_m
atoms-displayed [] g = refl
atoms-displayed (a ∷ more) g =
    rw
      (
        before_m-concat (join b';' (texts (a ∷ more))),
        split_string-join b';' a.0 (texts more) (AllWithout-texts (a ∷ more) g),
        numbers-texts (a ∷ more) g,
      )
      refl
