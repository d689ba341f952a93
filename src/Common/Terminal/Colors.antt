-- ===== src/Common/Terminal/Colors.antt =====
-- The colours of terminal.hpp, and their names in terminal.cpp.
use uni.Prelude.{
  ℕ, ◌+◌, ◌≡◌, refl, sym, ap, ◌∙◌, Option, none, some, List, [], ◌∷◌, ◌++◌, map, inl, inr,
  if◌then◌else◌, arith, Bool-cases,
}
use uni.Common.Text.{Bytes, codes, to_lower, lower, equals}
use uni.Common.Terminal.Trim.{trim, trim-spaces, AllSpace, StartsDark, EndsDark, is_space}

pub data ForegroundColor : Type 0 where
  default black red green yellow blue magenta cyan light_gray : ForegroundColor
  dark_gray light_red light_green light_yellow light_blue light_magenta light_cyan white :
      ForegroundColor

pub data BackgroundColor : Type 0 where
  default black red green yellow blue magenta cyan light_gray : BackgroundColor
  dark_gray light_red light_green light_yellow light_blue light_magenta light_cyan white :
      BackgroundColor

-- The values of the enumerators, which are ANSI codes.
unfoldable pub foreground_code : ForegroundColor → ℕ
foreground_code ForegroundColor.default = 39
foreground_code ForegroundColor.black = 30
foreground_code ForegroundColor.red = 31
foreground_code ForegroundColor.green = 32
foreground_code ForegroundColor.yellow = 33
foreground_code ForegroundColor.blue = 34
foreground_code ForegroundColor.magenta = 35
foreground_code ForegroundColor.cyan = 36
foreground_code ForegroundColor.light_gray = 37
foreground_code ForegroundColor.dark_gray = 90
foreground_code ForegroundColor.light_red = 91
foreground_code ForegroundColor.light_green = 92
foreground_code ForegroundColor.light_yellow = 93
foreground_code ForegroundColor.light_blue = 94
foreground_code ForegroundColor.light_magenta = 95
foreground_code ForegroundColor.light_cyan = 96
foreground_code ForegroundColor.white = 97

unfoldable pub background_code : BackgroundColor → ℕ
background_code BackgroundColor.default = 49
background_code BackgroundColor.black = 40
background_code BackgroundColor.red = 41
background_code BackgroundColor.green = 42
background_code BackgroundColor.yellow = 43
background_code BackgroundColor.blue = 44
background_code BackgroundColor.magenta = 45
background_code BackgroundColor.cyan = 46
background_code BackgroundColor.light_gray = 47
background_code BackgroundColor.dark_gray = 100
background_code BackgroundColor.light_red = 101
background_code BackgroundColor.light_green = 102
background_code BackgroundColor.light_yellow = 103
background_code BackgroundColor.light_blue = 104
background_code BackgroundColor.light_magenta = 105
background_code BackgroundColor.light_cyan = 106
background_code BackgroundColor.white = 107

-- The names in the order in which they are tried.
abbrev pub foreground_names : List (Bytes × ForegroundColor)
foreground_names =
    (codes "default", ForegroundColor.default)
    ∷ (codes "black", ForegroundColor.black)
    ∷ (codes "red", ForegroundColor.red)
    ∷ (codes "green", ForegroundColor.green)
    ∷ (codes "yellow", ForegroundColor.yellow)
    ∷ (codes "blue", ForegroundColor.blue)
    ∷ (codes "magenta", ForegroundColor.magenta)
    ∷ (codes "cyan", ForegroundColor.cyan)
    ∷ (codes "lightgray", ForegroundColor.light_gray)
    ∷ (codes "darkgray", ForegroundColor.dark_gray)
    ∷ (codes "lightred", ForegroundColor.light_red)
    ∷ (codes "lightgreen", ForegroundColor.light_green)
    ∷ (codes "lightyellow", ForegroundColor.light_yellow)
    ∷ (codes "lightblue", ForegroundColor.light_blue)
    ∷ (codes "lightmagenta", ForegroundColor.light_magenta)
    ∷ (codes "lightcyan", ForegroundColor.light_cyan)
    ∷ (codes "white", ForegroundColor.white)
    ∷ []

abbrev pub background_names : List (Bytes × BackgroundColor)
background_names =
    (codes "default", BackgroundColor.default)
    ∷ (codes "black", BackgroundColor.black)
    ∷ (codes "red", BackgroundColor.red)
    ∷ (codes "green", BackgroundColor.green)
    ∷ (codes "yellow", BackgroundColor.yellow)
    ∷ (codes "blue", BackgroundColor.blue)
    ∷ (codes "magenta", BackgroundColor.magenta)
    ∷ (codes "cyan", BackgroundColor.cyan)
    ∷ (codes "lightgray", BackgroundColor.light_gray)
    ∷ (codes "darkgray", BackgroundColor.dark_gray)
    ∷ (codes "lightred", BackgroundColor.light_red)
    ∷ (codes "lightgreen", BackgroundColor.light_green)
    ∷ (codes "lightyellow", BackgroundColor.light_yellow)
    ∷ (codes "lightblue", BackgroundColor.light_blue)
    ∷ (codes "lightmagenta", BackgroundColor.light_magenta)
    ∷ (codes "lightcyan", BackgroundColor.light_cyan)
    ∷ (codes "white", BackgroundColor.white)
    ∷ []

-- The chain of `if (t == name) return value;`.
unfoldable pub first_match {ℓ} : {A : Type ℓ} → Bytes → List (Bytes × A) → Option A
first_match t [] = none
first_match t ((name, value) ∷ names) = if equals t name then some value else first_match t names

unfoldable pub parse_foreground_color : Bytes → Option ForegroundColor
parse_foreground_color token = first_match (to_lower (trim token)) foreground_names

unfoldable pub parse_background_color : Bytes → Option BackgroundColor
parse_background_color token = first_match (to_lower (trim token)) background_names

pub data ColorAttribute : Type 0 where
  bold dim underline : ColorAttribute

abbrev pub attribute_names : List (Bytes × ColorAttribute)
attribute_names =
    (codes "bold", ColorAttribute.bold)
    ∷ (codes "dim", ColorAttribute.dim)
    ∷ (codes "underline", ColorAttribute.underline)
    ∷ []

unfoldable pub parse_color_attribute : Bytes → Option ColorAttribute
parse_color_attribute token = first_match (to_lower (trim token)) attribute_names

abbrev mapped {ℓ κ} : {A : Type ℓ} {B : Type κ} → (A → B) → Option A → Option B
mapped f none = none
mapped f (some a) = some (f a)

first_match-map {ℓ κ} :
    {A : Type ℓ} {B : Type κ} (f : A → B) (t : Bytes) (names : List (Bytes × A))
    → first_match t (map (λ (n : Bytes × A). (n.0, f n.1)) names) ≡ mapped f (first_match t names)
unfolding first_match
first_match-map f t [] = refl
first_match-map f t ((name, value) ∷ names) = elim (Bool-cases (equals t name)) [
  | inl h ↦ rw h refl
  | inr h ↦ rw h (first_match-map f t names)
]

-- A token names a background colour exactly when it names a foreground colour, whose code is ten
-- less.
pub parse_background_color-code :
    (token : Bytes)
    → mapped background_code (parse_background_color token)
      ≡ mapped (λ c. foreground_code c + 10) (parse_foreground_color token)
unfolding parse_background_color parse_foreground_color foreground_code background_code
parse_background_color-code token =
    sym (first_match-map background_code (to_lower (trim token)) background_names)
    ∙ first_match-map (λ c. foreground_code c + 10) (to_lower (trim token)) foreground_names

-- Whether a letter is an upper-case one makes no difference to white space.
lower-is_space : (c : ℕ) → is_space (lower c) ≡ is_space c
unfolding lower
lower-is_space c = ground arith

StartsDark-to_lower : (s : Bytes) → StartsDark (to_lower s) → StartsDark s
unfolding to_lower
StartsDark-to_lower [] d = tt
StartsDark-to_lower (c ∷ s) d = rw (← lower-is_space c) d

EndsDark-to_lower : (s : Bytes) → EndsDark (to_lower s) → EndsDark s
unfolding to_lower
EndsDark-to_lower [] d = tt
EndsDark-to_lower (c ∷ []) d = rw (← lower-is_space c) d
EndsDark-to_lower (c ∷ e ∷ s) d = EndsDark-to_lower (e ∷ s) d

-- The name of a colour.
abbrev pub foreground_name : ForegroundColor → Bytes
foreground_name ForegroundColor.default = codes "default"
foreground_name ForegroundColor.black = codes "black"
foreground_name ForegroundColor.red = codes "red"
foreground_name ForegroundColor.green = codes "green"
foreground_name ForegroundColor.yellow = codes "yellow"
foreground_name ForegroundColor.blue = codes "blue"
foreground_name ForegroundColor.magenta = codes "magenta"
foreground_name ForegroundColor.cyan = codes "cyan"
foreground_name ForegroundColor.light_gray = codes "lightgray"
foreground_name ForegroundColor.dark_gray = codes "darkgray"
foreground_name ForegroundColor.light_red = codes "lightred"
foreground_name ForegroundColor.light_green = codes "lightgreen"
foreground_name ForegroundColor.light_yellow = codes "lightyellow"
foreground_name ForegroundColor.light_blue = codes "lightblue"
foreground_name ForegroundColor.light_magenta = codes "lightmagenta"
foreground_name ForegroundColor.light_cyan = codes "lightcyan"
foreground_name ForegroundColor.white = codes "white"

named-StartsDark : (c : ForegroundColor) → StartsDark (foreground_name c)
named-StartsDark ForegroundColor.default = refl
named-StartsDark _ = refl

named-EndsDark : (c : ForegroundColor) → EndsDark (foreground_name c)
named-EndsDark ForegroundColor.default = refl
named-EndsDark _ = refl

named-first_match :
    (c : ForegroundColor) → first_match (foreground_name c) foreground_names ≡ some c
unfolding first_match equals
named-first_match ForegroundColor.default = refl
named-first_match _ = refl

-- The name of any foreground colour, in letters of either case and with any white space around it,
-- is read as that colour.
pub parse_foreground_color-name :
    (c : ForegroundColor) (ws s ws' : Bytes)
    → AllSpace ws
    → AllSpace ws'
    → to_lower s ≡ foreground_name c
    → parse_foreground_color (ws ++ (s ++ ws')) ≡ some c
unfolding parse_foreground_color
parse_foreground_color-name c ws s ws' a a' e =
    ap (λ t. first_match (to_lower t) foreground_names)
      (trim-spaces ws s ws' a a' (StartsDark-to_lower s (rw e (named-StartsDark c)))
        (EndsDark-to_lower s (rw e (named-EndsDark c))))
    ∙ ap (λ t. first_match t foreground_names) e
    ∙ named-first_match c
