-- ===== src/Common/Terminal/Environment.antt =====
-- expand_environment of terminal.cpp.
pub mod Variables
pub mod Expansion
use uni.Prelude.{
  ℕ, zero, suc, Bool, true, false, Option, none, some, ◌>>=◌, List, [], ◌∷◌, ◌++◌, length,
  if◌then◌else◌, ◌==◌,
}
use uni.Common.Text.{Bytes}

-- What stands before and after the first occurrence of a character.
unfoldable pub find : ℕ → Bytes → Option (Bytes × Bytes)
find d [] = none
find d (c ∷ s) =
    let rest = find d s in
    if c == d then some ([], s) else (do (before, after) ← rest; some (c ∷ before, after))

-- What stands after an opening brace.
unfoldable pub after_brace : Bytes → Option Bytes
after_brace [] = none
after_brace (c ∷ s) = if c == b'{' then some s else none

-- `getenv` is what the environment knows.
module _ (getenv : Bytes → Option Bytes) where
  -- The value and the rest after the closing brace, when an environment string is closed and set.
  unfoldable pub replacement : Bytes → Option (Bytes × Bytes)
  replacement s = do (name, after) ← find b'}' s; value ← getenv name; some (value, after)

  -- The body of the loop once a `$` is found: from `result` and what follows the `$` to `result`,
  -- the text from `marker` on to where the search goes on, and the rest.
  unfoldable pub advance : Bytes → Bytes → Bytes × Bytes × Bytes
  advance result after = elim (after_brace after) [
    | none ↦ (result, b'$' ∷ [], after)
    | some inner ↦ elim (replacement inner) [
      | none ↦ (result, b'$' ∷ b'{' ∷ [], inner)
      | some (value, rest) ↦ (result ++ value, [], rest)
    ]
  ]

  unfoldable pub expand : ℕ → Bytes → Bytes → Bytes → Option Bytes
  expand zero result marked s = none
  expand (suc fuel) result marked s = elim (find b'$' s) [
    | none ↦ some (result ++ (marked ++ s))
    | some (before, after) ↦
        let (result', marked', rest) = advance (result ++ (marked ++ before)) after in
        expand fuel result' marked' rest
  ]

  unfoldable pub expand_environment : Bytes → Option Bytes
  expand_environment s = expand (suc (length s)) [] [] s
