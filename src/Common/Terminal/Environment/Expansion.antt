-- ===== src/Common/Terminal/Environment/Expansion.antt =====
-- The expansion of ${name}, described apart from the loop.
use uni.Prelude.{
  ℕ, zero, suc, ◌≡◌, ◌<◌, refl, sym, ap, ◌∙◌, false, Option, none, some, [], ◌∷◌, ◌++◌, length,
  ◌==◌, ==_iff, arith, inl, inr, Bool-cases, Option-cases,
}
use mathlib.Core.List.{append_assoc, append-nil}
use uni.Common.Text.{Bytes}
use uni.Common.Terminal.Split.{Without}
use uni.Common.Terminal.Environment.{find, after_brace, expand, advance, expand_environment}
use uni.Common.Terminal.Environment.Variables.{
  IsVariable, variable, none_some, IsVariable-variable, variable-IsVariable, no_variable,
  variable-inner, variable-length, after_brace-some,
}

module _ (getenv : Bytes → Option Bytes) where
  -- A character is kept, unless it is the `$` of a variable that is set; the value takes the place of
  -- the `$`, the braces and the name.
  pub data Expands : Bytes → Bytes → Type 0 where
    done : Expands [] []
    keep : {c : ℕ} {s t : Bytes} → (c == b'$') ≡ false → Expands s t → Expands (c ∷ s) (c ∷ t)
    dollar :
        {s t : Bytes}
        → ((name value rest : Bytes) → ¬ IsVariable getenv s name value rest)
        → Expands s t
        → Expands (b'$' ∷ s) (b'$' ∷ t)
    replace :
        {name value rest t : Bytes}
        → Without b'}' name
        → getenv name ≡ some value
        → Expands rest t
        → Expands (b'$' ∷ b'{' ∷ (name ++ b'}' ∷ rest)) (value ++ t)

  go_on :
      (fuel : ℕ) (after : Bytes) {x y : Bytes}
      → x ≡ y
      → (let (r, m, rest) = advance getenv x after in expand getenv fuel r m rest)
        ≡ (let (r, m, rest) = advance getenv y after in expand getenv fuel r m rest)
  go_on fuel after e = rw e refl

  find-keep :
      (c : ℕ) (s : Bytes)
      → (c == b'$') ≡ false
      → (fuel : ℕ) (result marked : Bytes)
      → expand getenv fuel result marked (c ∷ s) ≡ expand getenv fuel result (marked ++ c ∷ []) s
  unfolding expand find
  find-keep c s h zero result marked = refl
  find-keep c s h (suc fuel) result marked = elim (Option-cases (find b'$' s)) [
    | inl e ↦
        rw (expand, h, e) (ap (λ q. some (result ++ q)) (sym (append_assoc marked (c ∷ []) s)))
    | inr ((before, after), e) ↦
        rw (expand, h, e)
          (go_on fuel after (ap (◌++◌ result) (sym (append_assoc marked (c ∷ []) before))))
  ]

  replace_dollar :
      (fuel : ℕ) (result marked s value rest : Bytes)
      → variable getenv s ≡ some (value, rest)
      → expand getenv (suc fuel) result marked (b'$' ∷ s)
        ≡ expand getenv fuel ((result ++ (marked ++ [])) ++ value) [] rest
  unfolding expand find advance
  replace_dollar fuel result marked s value rest e =
      let (inner, h, g) = variable-inner getenv s value rest e in rw (expand, advance, h, g) refl

  keep_dollar :
      (fuel : ℕ) (result marked s : Bytes)
      → variable getenv s ≡ none
      → expand getenv (suc fuel) result marked (b'$' ∷ s)
        ≡ expand getenv fuel (result ++ (marked ++ [])) (b'$' ∷ []) s
  unfolding expand find advance
  keep_dollar fuel result marked s e = elim (Option-cases (after_brace s)) [
    | inl h ↦ rw (expand, advance, h) refl
    | inr (inner, h) ↦
        rw (expand, advance, h, (rw h at e))
          (sym (find-keep b'{' inner refl fuel (result ++ (marked ++ [])) (b'$' ∷ []))
            ∙ ap (expand getenv fuel (result ++ (marked ++ [])) (b'$' ∷ []))
                (sym (after_brace-some s inner h)))
  ]

  Expands-expand :
      {s t : Bytes}
      → Expands s t
      → (fuel : ℕ) (result marked : Bytes) → length s < fuel
      → expand getenv fuel result marked s ≡ some (result ++ (marked ++ t))
  Expands-expand Expands.done zero result marked l = ground arith
  Expands-expand Expands.done (suc fuel) result marked l = unfold expand in unfold find in refl
  Expands-expand (Expands.keep {c} {s} {t} h x) fuel result marked l =
      find-keep c s h fuel result marked
      ∙ Expands-expand x fuel result (marked ++ c ∷ []) (omega arith)
      ∙ ap (λ q. some (result ++ q)) (append_assoc marked (c ∷ []) t)
  Expands-expand (Expands.dollar h x) zero result marked l = ground arith
  Expands-expand (Expands.dollar {s} {t} h x) (suc fuel) result marked l =
      keep_dollar fuel result marked s (no_variable getenv s h)
      ∙ Expands-expand x fuel (result ++ (marked ++ [])) (b'$' ∷ []) (omega arith)
      ∙ ap some (
          ap (λ q. (result ++ q) ++ b'$' ∷ t) (append-nil marked)
          ∙ append_assoc result marked (b'$' ∷ t))
  Expands-expand (Expands.replace w h x) zero result marked l = ground arith
  Expands-expand (Expands.replace {name} {value} {rest} {t} w h x) (suc fuel) result marked l =
      let s = b'{' ∷ (name ++ b'}' ∷ rest) in
      let v : variable getenv s ≡ some (value, rest) =
        IsVariable-variable getenv s name value rest
          (record { reads = refl; first_brace = w; is_set = h }) in
      replace_dollar fuel result marked s value rest v
      ∙ Expands-expand x fuel ((result ++ (marked ++ [])) ++ value) []
          (shorter (variable-length getenv s value rest v) l)
      ∙ ap some (
          ap (λ q. ((result ++ q) ++ value) ++ t) (append-nil marked)
          ∙ append_assoc (result ++ marked) value t
          ∙ append_assoc result marked (value ++ t))
    where
      shorter : {a b c : ℕ} → a < b → suc b < suc c → a < c
      shorter p q = omega arith

  Expands-some : (fuel : ℕ) (s : Bytes) → length s < fuel → (t : Bytes) × Expands s t
  Expands-some zero s l = ground arith
  Expands-some (suc fuel) [] l = ([], Expands.done)
  Expands-some (suc fuel) (c ∷ s) l = elim (Bool-cases (c == b'$')) [
    | inr h ↦ let (t, x) = Expands-some fuel s (omega arith) in (c ∷ t, Expands.keep h x)
    | inl h ↦ elim (Option-cases (variable getenv s)) [
      | inl n ↦
          let (t, x) = Expands-some fuel s (omega arith) in
          (
            b'$' ∷ t,
            rw ((==_iff c b'$').0 h) (
                Expands.dollar
                  (λ name value rest v.
                    none_some (sym n ∙ IsVariable-variable getenv s name value rest v))
                  x),
          )
      | inr ((value, rest), n) ↦
          let (t, x) =
            Expands-some fuel rest (omega (arith, variable-length getenv s value rest n)) in
          let (name, v) = variable-IsVariable getenv s value rest n in
          (value ++ t, rw ((==_iff c b'$').0 h, v.reads) (Expands.replace v.first_brace v.is_set x))
    ]
  ]

  -- Any text that the description gives for `s` is what expand_environment returns for `s`.
  pub expand_environment-Expands :
      {s t : Bytes} → Expands s t → expand_environment getenv s ≡ some t
  unfolding expand_environment
  expand_environment-Expands {s} x = Expands-expand x (suc (length s)) [] [] (omega arith)

  -- Whatever the environment, expand_environment comes to an end on every text, and it returns the
  -- text in which each `$` of a variable that is set, with the braces and the name, is replaced by
  -- the value and every other character is kept, values not being expanded again.
  pub expand_environment_total :
      (s : Bytes) → (t : Bytes) × Expands s t × (expand_environment getenv s ≡ some t)
  expand_environment_total s =
      let (t, x) = Expands-some (suc (length s)) s (omega arith) in
      (t, x, expand_environment-Expands x)
