-- ===== src/Common/Terminal/Shell/Words.antt =====
-- The words of a command line: blanks separate them, double quotes keep blanks, and a backslash
-- between double quotes keeps a double quote or a backslash.
use uni.Prelude.{
  ℕ, ◌≡◌, refl, sym, ap, ◌∙◌, Bool, false, ◌||◌, Option, none, some, List, [], ◌∷◌, ◌++◌, is_empty,
  if◌then◌else◌, ◌==◌, ==_iff, arith, inl, inr, Bool-cases,
}
use mathlib.Core.List.{append_assoc, append-nil}
use uni.Common.Text.{Bytes, codes, iequals, iequals-to_lower, to_lower, lower, equals}
use uni.Common.Terminal.Shell.{needs_quote, escape, quote_shell, cmdline, cmdline_from, toggle}

pub data Mode : Type 0 where
  blank bare quoted escaped : Mode

abbrev pub word_and : Bytes → Option (List Bytes) → Option (List Bytes)
word_and word none = none
word_and word (some others) = some (word ∷ others)

-- Reading on with the word begun.
unfoldable pub read : Mode → Bytes → Bytes → Option (List Bytes)
read Mode.blank word [] = some []
read Mode.bare word [] = some (word ∷ [])
read Mode.quoted word [] = none
read Mode.escaped word [] = none
read Mode.blank word (c ∷ s) =
    let on = read Mode.blank [] s in
    let quote = read Mode.quoted [] s in
    let begin = read Mode.bare (c ∷ []) s in
    if c == b' ' || c == b'\t' then on else if c == b'"' then quote else begin
read Mode.bare word (c ∷ s) =
    let on = read Mode.blank [] s in
    let quote = read Mode.quoted word s in
    let add = read Mode.bare (word ++ c ∷ []) s in
    if c == b' ' || c == b'\t' then word_and word on else if c == b'"' then quote else add
read Mode.quoted word (c ∷ s) =
    let close = read Mode.bare word s in
    let escape_next = read Mode.escaped word s in
    let add = read Mode.quoted (word ++ c ∷ []) s in
    if c == b'"' then close else if c == b'\\' then escape_next else add
read Mode.escaped word (c ∷ s) =
    let add = read Mode.quoted (word ++ c ∷ []) s in
    let keep = read Mode.quoted (word ++ b'\\' ∷ c ∷ []) s in
    if c == b'"' || c == b'\\' then add else keep

abbrev pub words : Bytes → Option (List Bytes)
words s = read Mode.blank [] s

abbrev pub AllFilled : List Bytes → Type 0
AllFilled [] = Unit
AllFilled (argument ∷ others) = (is_empty argument ≡ false) × AllFilled others

needs_quote-cons :
    (c : ℕ) (s : Bytes)
    → needs_quote (c ∷ s) ≡ false
    → ((c == b' ' || c == b'\t') ≡ false) × ((c == b'"') ≡ false) × (needs_quote s ≡ false)
unfolding needs_quote
needs_quote-cons c s h = (ground arith, ground arith, ground arith)

read-bare :
    (word s t : Bytes)
    → needs_quote s ≡ false
    → read Mode.bare word (s ++ t) ≡ read Mode.bare (word ++ s) t
unfolding read
read-bare word [] t h = ap (λ w. read Mode.bare w t) (sym (append-nil word))
read-bare word (c ∷ s) t h =
    let (a, b, n) = needs_quote-cons c s h in
    rw (a, b)
      (read-bare (word ++ c ∷ []) s t n
        ∙ ap (λ w. read Mode.bare w t) (append_assoc word (c ∷ []) s))

read-quoted :
    (word s t : Bytes) → read Mode.quoted word (escape s ++ b'"' ∷ t) ≡ read Mode.bare (word ++ s) t
unfolding read escape
read-quoted word [] t = ap (λ w. read Mode.bare w t) (sym (append-nil word))
read-quoted word (c ∷ s) t = elim (Bool-cases (c == b'\\')) [
  | inl h ↦ rw ((==_iff c b'\\').0 h) (
      read-quoted (word ++ b'\\' ∷ []) s t
      ∙ ap (λ w. read Mode.bare w t) (append_assoc word (b'\\' ∷ []) s))
  | inr h ↦ elim (Bool-cases (c == b'"')) [
    | inl g ↦ rw ((==_iff c b'"').0 g) (
        read-quoted (word ++ b'"' ∷ []) s t
        ∙ ap (λ w. read Mode.bare w t) (append_assoc word (b'"' ∷ []) s))
    | inr g ↦
        rw (h, g)
          (rw (g, h)
            (read-quoted (word ++ c ∷ []) s t
              ∙ ap (λ w. read Mode.bare w t) (append_assoc word (c ∷ []) s)))
  ]
]

read-quote_shell :
    (s t : Bytes)
    → is_empty s ≡ false
    → read Mode.blank [] (quote_shell s ++ t) ≡ read Mode.bare s t
unfolding quote_shell
read-quote_shell [] t e = cc
read-quote_shell (c ∷ s) t e = elim (Bool-cases (needs_quote (c ∷ s))) [
  | inl h ↦ rw h (
      ap (λ q. read Mode.blank [] (b'"' ∷ q)) (append_assoc (escape (c ∷ s)) (b'"' ∷ []) t)
      ∙ (unfold read in read-quoted [] (c ∷ s) t))
  | inr h ↦
      let (a, b, n) = needs_quote-cons c s h in
      rw h (unfold read in rw (a, b) (read-bare (c ∷ []) s t n))
]

-- The command line from its end.
abbrev spaced : List Bytes → Bytes
spaced [] = []
spaced (argument ∷ others) = b' ' ∷ (quote_shell argument ++ spaced others)

-- An empty argument is not found again: an argument followed by an empty one has the words of the
-- argument alone.
words-cmdline_empty :
    (argument : Bytes)
    → is_empty argument ≡ false
    → words (cmdline (argument ∷ [] ∷ [])) ≡ some (argument ∷ [])
unfolding cmdline cmdline_from quote_shell needs_quote
words-cmdline_empty a e =
    ap words (append-nil (quote_shell a ++ b' ' ∷ []))
    ∙ read-quote_shell a (b' ' ∷ []) e
    ∙ unfold read in refl

lower-lower : (c : ℕ) → lower (lower c) ≡ lower c
unfolding lower
lower-lower c = ground arith

to_lower-to_lower : (s : Bytes) → to_lower (to_lower s) ≡ to_lower s
unfolding to_lower
to_lower-to_lower [] = refl
to_lower-to_lower (c ∷ s) = rw (lower-lower c, to_lower-to_lower s) refl

is_empty-to_lower : (s : Bytes) → is_empty (to_lower s) ≡ is_empty s
unfolding to_lower
is_empty-to_lower [] = refl
is_empty-to_lower (c ∷ s) = refl

to_lower-iequals : (s t : Bytes) → iequals (to_lower s) t ≡ iequals s t
to_lower-iequals s t =
    iequals-to_lower (to_lower s) t
    ∙ ap (λ q. equals q (to_lower t)) (to_lower-to_lower s)
    ∙ sym (iequals-to_lower s t)

-- The case of its letters makes no difference to the value of a toggle.
pub toggle-to_lower :
    (str : Bytes) (default_value : Bool)
    → toggle (to_lower str) default_value ≡ toggle str default_value
unfolding toggle
toggle-to_lower s d =
    rw
      (
        is_empty-to_lower s,
        to_lower-iequals s (codes "no"),
        to_lower-iequals s (codes "false"),
        to_lower-iequals s (codes "0"),
        to_lower-iequals s (codes "yes"),
        to_lower-iequals s (codes "true"),
        to_lower-iequals s (codes "1"),
      )
      refl
