-- ===== src/Common/Terminal/Trim.antt =====
-- trim of terminal.cpp.
use uni.Prelude.{
  ℕ, ◌≡◌, refl, ap, ◌∙◌, Bool, true, false, ◌&&◌, ◌||◌, inl, inr, [], ◌∷◌, ◌++◌, is_empty,
  if◌then◌else◌, ◌==◌, arith, Bool-cases,
}
use uni.Common.Text.{Bytes}

abbrev pub is_space : ℕ → Bool
is_space c = c == b' ' || c == b'\t' || c == b'\n' || c == b'\r'

-- From find_first_not_of on.
unfoldable pub trim_start : Bytes → Bytes
trim_start [] = []
trim_start (c ∷ s) = let rest = trim_start s in if is_space c then rest else c ∷ s

-- Up to find_last_not_of.
unfoldable pub trim_end : Bytes → Bytes
trim_end [] = []
trim_end (c ∷ s) = let rest = trim_end s in if is_space c && is_empty rest then [] else c ∷ rest

unfoldable pub trim : Bytes → Bytes
trim s = trim_end (trim_start s)

abbrev pub AllSpace : Bytes → Type 0
AllSpace [] = Unit
AllSpace (c ∷ s) = (is_space c ≡ true) × AllSpace s

-- A text that neither starts nor ends with white space.
abbrev pub StartsDark : Bytes → Type 0
StartsDark [] = Unit
StartsDark (c ∷ s) = is_space c ≡ false

abbrev pub EndsDark : Bytes → Type 0
EndsDark [] = Unit
EndsDark (c ∷ []) = is_space c ≡ false
EndsDark (c ∷ d ∷ s) = EndsDark (d ∷ s)

trim_start-split :
    (s : Bytes) → (ws : Bytes) × AllSpace ws × (ws ++ trim_start s ≡ s) × StartsDark (trim_start s)
unfolding trim_start
trim_start-split [] = ([], tt, refl, tt)
trim_start-split (c ∷ s) = elim (Bool-cases (is_space c)) [
  | inl h ↦
      let (ws, a, e, d) = trim_start-split s in (c ∷ ws, (h, a), rw h (ap (λ t. c ∷ t) e), rw h d)
  | inr h ↦ ([], tt, rw h refl, rw h h)
]

trim_end-keep :
    (c : ℕ) (s : Bytes)
    → (is_space c && is_empty (trim_end s)) ≡ false
    → trim_end (c ∷ s) ≡ c ∷ trim_end s
unfolding trim_end
trim_end-keep c s h = rw h refl

EndsDark-cons :
    (c : ℕ) (s : Bytes) → (is_space c && is_empty s) ≡ false → EndsDark s → EndsDark (c ∷ s)
EndsDark-cons c [] h e = ground arith
EndsDark-cons c (d ∷ s) h e = e

is_empty→≡ : (s : Bytes) → is_empty s ≡ true → s ≡ []
is_empty→≡ [] h = refl
is_empty→≡ (c ∷ s) h = cc

trim_end-split :
    (s : Bytes) → (ws : Bytes) × AllSpace ws × (trim_end s ++ ws ≡ s) × EndsDark (trim_end s)
trim_end-split [] = ([], tt, unfold trim_end in refl, unfold trim_end in tt)
trim_end-split (c ∷ s) =
    let (ws, a, e, d) = trim_end-split s in
    elim (Bool-cases (is_space c && is_empty (trim_end s))) [
      | inl h ↦ (
        c ∷ s,
        (ground arith, rw (← e) (rw (is_empty→≡ (trim_end s) (ground arith)) a)),
        unfold trim_end in rw h refl,
        unfold trim_end in rw h tt,
      )
      | inr h ↦
          rw (trim_end-keep c s h) (ws, a, ap (λ t. c ∷ t) e, EndsDark-cons c (trim_end s) h d)
    ]

trim_end-StartsDark : (s : Bytes) → StartsDark s → StartsDark (trim_end s)
trim_end-StartsDark [] d = unfold trim_end in tt
trim_end-StartsDark (c ∷ s) d = rw (trim_end-keep c s (ground arith)) d

-- Every text is white space, then its trimmed text, then white space; and the trimmed text neither
-- starts nor ends with white space.
pub trim-split :
    (s : Bytes)
    → (ws : Bytes) × (ws' : Bytes) × AllSpace ws
      × AllSpace ws'
      × (ws ++ (trim s ++ ws') ≡ s)
      × StartsDark (trim s)
      × EndsDark (trim s)
unfolding trim
trim-split s =
    let (ws, a, e, d) = trim_start-split s in
    let (ws', a', e', d') = trim_end-split (trim_start s) in
    (ws, ws', a, a', ap (λ t. ws ++ t) e' ∙ e, trim_end-StartsDark (trim_start s) d, d')

trim_start-spaces : (ws s : Bytes) → AllSpace ws → trim_start (ws ++ s) ≡ trim_start s
unfolding trim_start
trim_start-spaces [] s a = refl
trim_start-spaces (c ∷ ws) s a = rw a.0 (trim_start-spaces ws s a.1)

trim_start-all : (ws : Bytes) → AllSpace ws → trim_start ws ≡ []
unfolding trim_start
trim_start-all [] a = refl
trim_start-all (c ∷ ws) a = rw a.0 (trim_start-all ws a.1)

trim_start-dark : (c : ℕ) (s : Bytes) → is_space c ≡ false → trim_start (c ∷ s) ≡ c ∷ s
unfolding trim_start
trim_start-dark c s h = rw h refl

trim_end-spaces : (ws : Bytes) → AllSpace ws → trim_end ws ≡ []
unfolding trim_end
trim_end-spaces [] a = refl
trim_end-spaces (c ∷ ws) a = rw (a.0, trim_end-spaces ws a.1) refl

trim_end-dark : (s ws : Bytes) → EndsDark s → AllSpace ws → trim_end (s ++ ws) ≡ s
trim_end-dark [] ws d a = trim_end-spaces ws a
trim_end-dark (c ∷ []) ws d a =
    trim_end-keep c ws (rw d refl) ∙ ap (λ t. c ∷ t) (trim_end-spaces ws a)
trim_end-dark (c ∷ e ∷ s) ws d a =
    let ih = trim_end-dark (e ∷ s) ws d a in
    trim_end-keep c (e ∷ (s ++ ws)) (rw ih (ground arith)) ∙ ap (λ t. c ∷ t) ih

-- Any text that neither starts nor ends with white space is what trim makes of it, whatever white
-- space stands around it.
pub trim-spaces :
    (ws s ws' : Bytes)
    → AllSpace ws
    → AllSpace ws'
    → StartsDark s
    → EndsDark s
    → trim (ws ++ (s ++ ws')) ≡ s
unfolding trim
trim-spaces ws [] ws' a a' d e =
    ap trim_end (trim_start-spaces ws ws' a)
    ∙ ap trim_end (trim_start-all ws' a')
    ∙ trim_end-spaces [] tt
trim-spaces ws (c ∷ s) ws' a a' d e =
    ap trim_end (trim_start-spaces ws (c ∷ (s ++ ws')) a ∙ trim_start-dark c (s ++ ws') d)
    ∙ trim_end-dark (c ∷ s) ws' e a'
