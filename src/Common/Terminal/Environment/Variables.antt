-- ===== src/Common/Terminal/Environment/Variables.antt =====
-- What ${name} is, described apart from the search for it.
use uni.Prelude.{
  ℕ, ◌≡◌, ◌<◌, refl, ap, ◌∙◌, Option, none, some, ◌>>=◌, [], ◌∷◌, ◌++◌, length, ◌==◌, ==_iff, arith,
  inl, inr, Bool-cases, Option-cases,
}
use uni.Common.Text.{Bytes}
use uni.Common.Terminal.Split.{Without}
use uni.Common.Terminal.Environment.{find, after_brace, replacement}

-- At a `$`: the value and the rest, if `{`, the name of a variable that is set and `}` follow.
abbrev pub variable : (Bytes → Option Bytes) → Bytes → Option (Bytes × Bytes)
variable getenv s = do inner ← after_brace s; replacement getenv inner

pub none_some {ℓ κ} : {A : Type ℓ} {B : Type κ} {a : A} → none ≡ some a → B
none_some e = cc

some_bytes : {a b : Bytes} → some a ≡ some b → a ≡ b
some_bytes e = cc

some_rest {ℓ} : {A : Type ℓ} (p q : A × Bytes) → some p ≡ some q → p.1 ≡ q.1
some_rest {A = A} p q e = ap (λ r. rest_of r) e
  where
    rest_of : Option (A × Bytes) → Bytes
    rest_of none = p.1
    rest_of (some r) = r.1

pub after_brace-some : (s inner : Bytes) → after_brace s ≡ some inner → s ≡ b'{' ∷ inner
unfolding after_brace
after_brace-some [] inner e = none_some e
after_brace-some (c ∷ s) inner e = elim (Bool-cases (c == b'{')) [
  | inl h ↦ rw ((==_iff c b'{').0 h) (ap (λ q. b'{' ∷ q) (some_bytes (rw h at e)))
  | inr h ↦ none_some (rw h at e)
]

find-length :
    (d : ℕ) (s before after : Bytes) → find d s ≡ some (before, after) → length after < length s
unfolding find
find-length d [] before after e = none_some e
find-length d (c ∷ s) before after e = elim (Bool-cases (c == d)) [
  | inl h ↦ rw (← some_rest _ _ (rw h at e)) (omega arith)
  | inr h ↦ elim (Option-cases (find d s)) [
    | inl k ↦ none_some (rw (h, k) at e)
    | inr ((b, a), k) ↦ rw (← some_rest _ _ (rw (h, k) at e)) (omega (arith, find-length d s b a k))
  ]
]

some_pair :
    (a b c d : Bytes)
    → ◌≡◌ {A = Option (Bytes × Bytes)} (some (a, b)) (some (c, d))
    → (a ≡ c) × (b ≡ d)
some_pair a b c d e = (cc, cc)

find-concat :
    (d : ℕ) (name rest : Bytes) → Without d name → find d (name ++ d ∷ rest) ≡ some (name, rest)
unfolding find
find-concat d [] rest w = rw ((==_iff d d).1 refl) refl
find-concat d (c ∷ name) rest w = rw (w.0, find-concat d name rest w.1) refl

-- The first occurrence, with no other before it.
find-Without :
    (d : ℕ) (s before after : Bytes)
    → find d s ≡ some (before, after)
    → (s ≡ before ++ d ∷ after) × Without d before
unfolding find
find-Without d [] before after e = none_some e
find-Without d (c ∷ s) before after e = elim (Bool-cases (c == d)) [
  | inl h ↦
      let (b, a) = some_pair [] s before after (rw h at e) in
      (rw ((==_iff c d).0 h, ← b, ← a) refl, rw (← b) tt)
  | inr h ↦ elim (Option-cases (find d s)) [
    | inl k ↦ none_some (rw (h, k) at e)
    | inr ((x, y), k) ↦
        let (q, w) = find-Without d s x y k in
        let (b, a) = some_pair (c ∷ x) y before after (rw (h, k) at e) in
        (rw (← b, ← a) (ap (λ r. c ∷ r) q), rw (← b) (h, w))
  ]
]

module _ (getenv : Bytes → Option Bytes) where
  -- The text after a `$` begins with `{`, the name of a variable that is set, and `}`.
  pub record IsVariable (s name value rest : Bytes) : Type 0 where
    pub reads : s ≡ b'{' ∷ (name ++ b'}' ∷ rest)
    pub first_brace : Without b'}' name
    pub is_set : getenv name ≡ some value

  pub IsVariable-variable :
      (s name value rest : Bytes)
      → IsVariable s name value rest
      → variable getenv s ≡ some (value, rest)
  unfolding after_brace replacement
  IsVariable-variable s name value rest v =
      rw v.reads (rw (find-concat b'}' name rest v.first_brace, v.is_set) refl)

  -- A variable that the loop finds.
  pub variable-IsVariable :
      (s value rest : Bytes)
      → variable getenv s ≡ some (value, rest)
      → (name : Bytes) × IsVariable s name value rest
  unfolding replacement
  variable-IsVariable s value rest e = elim (Option-cases (after_brace s)) [
    | inl h ↦ none_some (rw h at e)
    | inr (inner, h) ↦ elim (Option-cases (find b'}' inner)) [
      | inl k ↦ none_some (rw (h, k) at e)
      | inr ((name, after), k) ↦ elim (Option-cases (getenv name)) [
        | inl m ↦ none_some (rw (h, k, m) at e)
        | inr (v, m) ↦
            let (a, b) = some_pair v after value rest (rw (h, k, m) at e) in
            let (q, w) = find-Without b'}' inner name after k in
            (
              name,
              record {
                reads =
                    after_brace-some s inner h
                    ∙ ap (λ r. b'{' ∷ r) (q ∙ ap (λ r. name ++ b'}' ∷ r) b);
                first_brace = w;
                is_set = m ∙ ap some a;
              },
            )
      ]
    ]
  ]

  pub no_variable :
      (s : Bytes)
      → ((name value rest : Bytes) → ¬ IsVariable s name value rest)
      → variable getenv s ≡ none
  no_variable s n = elim (Option-cases (variable getenv s)) [
    | inl e ↦ e
    | inr ((value, rest), e) ↦
        let (name, v) = variable-IsVariable s value rest e in elim (n name value rest v) [ ]
  ]

  -- The text after the brace of a variable that is set.
  pub variable-inner :
      (s value rest : Bytes)
      → variable getenv s ≡ some (value, rest)
      → (inner : Bytes) × (after_brace s ≡ some inner)
        × (replacement getenv inner ≡ some (value, rest))
  variable-inner s value rest e = elim (Option-cases (after_brace s)) [
    | inl h ↦ none_some (rw h at e)
    | inr (inner, h) ↦ (inner, h, (rw h at e))
  ]

  pub variable-length :
      (s value rest : Bytes) → variable getenv s ≡ some (value, rest) → length rest < length s
  unfolding replacement
  variable-length s value rest e =
      let (inner, h, g) = variable-inner s value rest e in
      elim (Option-cases (find b'}' inner)) [
        | inl k ↦ none_some (rw k at g)
        | inr ((name, after), k) ↦ elim (Option-cases (getenv name)) [
          | inl m ↦ none_some (rw (k, m) at g)
          | inr (v, m) ↦
              rw (← some_rest _ _ (rw (k, m) at g), after_brace-some s inner h)
                (omega (arith, find-length b'}' inner name after k))
        ]
      ]
