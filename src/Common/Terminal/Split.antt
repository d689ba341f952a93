-- ===== src/Common/Terminal/Split.antt =====
-- splitString, split_string and splitTopLevel of terminal.cpp.
use uni.Prelude.{
  ℕ, ◌≡◌, inl, inr, refl, sym, ap, ◌∙◌, false, List, [], ◌∷◌, ◌++◌, if◌then◌else◌, ◌==◌, ==_iff,
  Bool-cases,
}
use uni.Common.Text.{Bytes}

-- `c` in front of the first part.
abbrev onto_first : ℕ → List Bytes → List Bytes
onto_first c [] = (c ∷ []) ∷ []
onto_first c (part ∷ parts) = (c ∷ part) ∷ parts

unfoldable pub split_string : ℕ → Bytes → List Bytes
split_string delim [] = [] ∷ []
split_string delim (c ∷ s) =
    let parts = split_string delim s in if c == delim then [] ∷ parts else onto_first c parts

-- A printer for the parts.
abbrev pub join : ℕ → List Bytes → Bytes
join delim [] = []
join delim (part ∷ []) = part
join delim (part ∷ part' ∷ parts) = part ++ delim ∷ join delim (part' ∷ parts)

abbrev pub Without : ℕ → Bytes → Type 0
Without delim [] = Unit
Without delim (c ∷ s) = ((c == delim) ≡ false) × Without delim s

abbrev pub AllWithout : ℕ → List Bytes → Type 0
AllWithout delim [] = Unit
AllWithout delim (part ∷ parts) = Without delim part × AllWithout delim parts

split_string-cons :
    (delim : ℕ) (s : Bytes) → (p : Bytes) × (ps : List Bytes) × (split_string delim s ≡ p ∷ ps)
unfolding split_string
split_string-cons delim [] = ([], [], refl)
split_string-cons delim (c ∷ s) =
    let (p, ps, e) = split_string-cons delim s in
    elim (Bool-cases (c == delim)) [
      | inl h ↦ ([], split_string delim s, rw h refl)
      | inr h ↦ (c ∷ p, ps, rw (h, e) refl)
    ]

join-nil_first :
    (delim : ℕ) (s : Bytes)
    → join delim ([] ∷ split_string delim s) ≡ delim ∷ join delim (split_string delim s)
join-nil_first delim s = let (p, ps, e) = split_string-cons delim s in rw e refl

join-onto_first : (delim c : ℕ) (ps : List Bytes) → join delim (onto_first c ps) ≡ c ∷ join delim ps
join-onto_first delim c [] = refl
join-onto_first delim c (p ∷ []) = refl
join-onto_first delim c (p ∷ p' ∷ ps) = refl

AllWithout-onto_first :
    (delim c : ℕ) (ps : List Bytes)
    → (c == delim) ≡ false
    → AllWithout delim ps
    → AllWithout delim (onto_first c ps)
AllWithout-onto_first delim c [] h a = ((h, tt), tt)
AllWithout-onto_first delim c (p ∷ ps) h a = ((h, a.0), a.1)

-- For every text, the parts of splitString joined by the delimiter are the text, and no part holds
-- the delimiter.
pub join-split_string :
    (delim : ℕ) (s : Bytes)
    → (join delim (split_string delim s) ≡ s) × AllWithout delim (split_string delim s)
unfolding split_string
join-split_string delim [] = (refl, (tt, tt))
join-split_string delim (c ∷ s) = elim (Bool-cases (c == delim)) [
  | inl h ↦ rw h (
    join-nil_first delim s
        ∙ ap (λ t. delim ∷ t) (join-split_string delim s).0
        ∙ ap (λ d. d ∷ s) (sym ((==_iff c delim).0 h)),
    (tt, (join-split_string delim s).1),
  )
  | inr h ↦ rw h (
    join-onto_first delim c (split_string delim s) ∙ ap (◌∷◌ c) (join-split_string delim s).0,
    AllWithout-onto_first delim c (split_string delim s) h (join-split_string delim s).1,
  )
]

split_string-part :
    (delim : ℕ) (p : Bytes) (s : Bytes)
    → Without delim p
    → split_string delim (p ++ delim ∷ s) ≡ p ∷ split_string delim s
unfolding split_string
split_string-part delim [] s w = rw ((==_iff delim delim).1 refl) refl
split_string-part delim (c ∷ p) s w = rw (w.0, split_string-part delim p s w.1) refl

split_string-last : (delim : ℕ) (p : Bytes) → Without delim p → split_string delim p ≡ p ∷ []
unfolding split_string
split_string-last delim [] w = refl
split_string-last delim (c ∷ p) w = rw (w.0, split_string-last delim p w.1) refl

-- Any parts without the delimiter, at least one, are read back by splitString from their join.
pub split_string-join :
    (delim : ℕ) (part : Bytes) (parts : List Bytes)
    → AllWithout delim (part ∷ parts)
    → split_string delim (join delim (part ∷ parts)) ≡ part ∷ parts
split_string-join delim p [] a = split_string-last delim p a.0
split_string-join delim p (p' ∷ ps) a =
    split_string-part delim p (join delim (p' ∷ ps)) a.0
    ∙ ap (◌∷◌ p) (split_string-join delim p' ps a.1)
