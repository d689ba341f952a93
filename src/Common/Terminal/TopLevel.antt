-- ===== src/Common/Terminal/TopLevel.antt =====
-- splitTopLevel of terminal.cpp.
pub mod Depth
use uni.Prelude.{
  ℕ, ◌+◌, ◌-◌, ◌≡◌, ◌⊎◌, inl, inr, refl, sym, ap, ◌∙◌, Bool, true, false, ◌&&◌, ◌||◌, List, [], ◌∷◌,
  ◌++◌, is_empty, if◌then◌else◌, ◌==◌, ltb, arith, Bool-cases,
}
use mathlib.Core.List.{append_assoc, append-nil, foldl}
use uni.Common.Text.{Bytes}

abbrev pub opens : ℕ → Bool
opens c = c == b'(' || c == b'[' || c == b'{'

abbrev pub closes : ℕ → Bool
closes c = c == b')' || c == b']' || c == b'}'

-- `nestingLevel` after a character; a bracket that closes nothing leaves it at 0.
unfoldable pub nest : ℕ → ℕ → ℕ
nest level c =
    if opens c
    then level + 1
    else if closes c
    then (if ltb 0 level then level - 1 else level)
    else level

-- The loop, with `nestingLevel` and `current`; the list is what is still pushed to `result`.
unfoldable pub split_from : ℕ → ℕ → Bytes → Bytes → List Bytes
split_from delim level current [] = if is_empty current then [] else current ∷ []
split_from delim level current (c ∷ s) =
    let cut = current ∷ split_from delim (nest level c) [] s in
    let on = split_from delim (nest level c) (current ++ c ∷ []) s in
    if c == delim && nest level c == 0 then cut else on

unfoldable pub split_top_level : ℕ → Bytes → List Bytes
split_top_level delim s = split_from delim 0 [] s

-- The level at the end of a text.
abbrev pub level_after : ℕ → Bytes → ℕ
level_after level [] = level
level_after level (c ∷ s) = level_after (nest level c) s

module _ (delim : ℕ) where
  pub split_from-cut :
      (level : ℕ) (current : Bytes) (c : ℕ) (s : Bytes)
      → (c == delim && nest level c == 0) ≡ true
      → split_from delim level current (c ∷ s) ≡ current ∷ split_from delim (nest level c) [] s
  unfolding split_from
  split_from-cut level current c s h = rw h refl

  pub split_from-on :
      (level : ℕ) (current : Bytes) (c : ℕ) (s : Bytes)
      → (c == delim && nest level c == 0) ≡ false
      → split_from delim level current (c ∷ s)
        ≡ split_from delim (nest level c) (current ++ c ∷ []) s
  unfolding split_from
  split_from-on level current c s h = rw h refl

  -- Folding over the parts of two texts with a delimiter between them, where an empty part does
  -- nothing and the first text closes its brackets.
  module _ {S : Type 0} (f : S → Bytes → S) (skip : (r : S) → f r [] ≡ r)
      (apart : nest 0 delim ≡ 0) where
    pub foldl-split_from :
        (level : ℕ) (current s t : Bytes) (r : S)
        → level_after level s ≡ 0
        → foldl f r (split_from delim level current (s ++ delim ∷ t))
          ≡ foldl f (foldl f r (split_from delim level current s)) (split_from delim 0 [] t)
    foldl-split_from level current [] t r e =
        rw (e, split_from-cut 0 current delim t (ground (arith, apart)), apart) (last current)
      where
        last :
            (current : Bytes)
            → foldl f (f r current) (split_from delim 0 [] t)
              ≡ foldl f (foldl f r (split_from delim 0 current [])) (split_from delim 0 [] t)
        last [] = unfold split_from in ap (λ q. foldl f q (split_from delim 0 [] t)) (skip r)
        last (x ∷ current) = unfold split_from in refl
    foldl-split_from level current (c ∷ s) t r e =
        elim (Bool-cases (c == delim && nest level c == 0)) [
          | inl h ↦
              rw
                (
                  split_from-cut level current c (s ++ delim ∷ t) h,
                  split_from-cut level current c s h,
                )
                (foldl-split_from (nest level c) [] s t (f r current) e)
          | inr h ↦
              rw
                (
                  split_from-on level current c (s ++ delim ∷ t) h,
                  split_from-on level current c s h,
                )
                (foldl-split_from (nest level c) (current ++ c ∷ []) s t r e)
        ]
