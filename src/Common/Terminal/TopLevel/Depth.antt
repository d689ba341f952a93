-- ===== src/Common/Terminal/TopLevel/Depth.antt =====
-- What splitTopLevel cuts, by a count of the open brackets that is described apart from the loop.
use uni.Prelude.{
  ℕ, suc, ◌-◌, ◌≡◌, ◌⊎◌, inl, inr, refl, sym, ap, ◌∙◌, Bool, true, false, ◌&&◌, List, [], ◌∷◌, ◌++◌,
  if◌then◌else◌, ◌==◌, arith, Bool-cases,
}
use mathlib.Core.List.{append_assoc, append-nil}
use mathlib.Core.Path.{fun_ext}
use uni.Common.Text.{Bytes, codes}
use uni.Common.Terminal.TopLevel.{nest, split_from, split_top_level, split_from-cut, split_from-on}

abbrev pub among : ℕ → Bytes → Bool
among c [] = false
among c (d ∷ ds) = if c == d then true else among c ds

-- How many brackets are open after a character; one that closes nothing does not count.
abbrev pub depth_step : ℕ → ℕ → ℕ
depth_step depth c =
    if among c (codes "([{") then suc depth else if among c (codes ")]}") then depth - 1 else depth

nest-depth_step : (level c : ℕ) → nest level c ≡ depth_step level c
unfolding nest
nest-depth_step level c = ground arith

-- The depth after a text, for a way to count.
abbrev pub after : (ℕ → ℕ → ℕ) → ℕ → Bytes → ℕ
after step depth [] = depth
after step depth (c ∷ s) = after step (step depth c) s

-- The parts, each with the delimiter after it.
abbrev pub ended : ℕ → List Bytes → Bytes
ended delim [] = []
ended delim (part ∷ parts) = part ++ delim ∷ ended delim parts

module _ (step : ℕ → ℕ → ℕ) (delim : ℕ) where
  -- No delimiter in the text stands outside all brackets.
  abbrev pub Uncut : ℕ → Bytes → Type 0
  Uncut depth [] = Unit
  Uncut depth (c ∷ s) = ((c == delim && step depth c == 0) ≡ false) × Uncut (step depth c) s

  abbrev pub AllUncut : List Bytes → Type 0
  AllUncut [] = Unit
  AllUncut (part ∷ parts) = Uncut 0 part × AllUncut parts

  -- The delimiter after the part stands outside all brackets.
  abbrev pub Closed : Bytes → Type 0
  Closed part = after step 0 (part ++ delim ∷ []) ≡ 0

  abbrev pub AllClosed : List Bytes → Type 0
  AllClosed [] = Unit
  AllClosed (part ∷ parts) = Closed part × AllClosed parts

  -- The same for each part but the last.
  abbrev pub AllClosedButLast : List Bytes → Type 0
  AllClosedButLast [] = Unit
  AllClosedButLast (part ∷ []) = Unit
  AllClosedButLast (part ∷ next ∷ parts) = Closed part × AllClosedButLast (next ∷ parts)

  -- The parts of `s`, of which the last may be without a delimiter.
  abbrev pub Parts : Bytes → List Bytes → Type 0
  Parts s parts =
      ((ended delim parts ≡ s) × AllClosed parts)
      ⊎ ((ended delim parts ≡ s ++ delim ∷ []) × AllClosedButLast parts)

  abbrev pub AreTopLevel : Bytes → List Bytes → Type 0
  AreTopLevel s parts = Parts s parts × AllUncut parts

  AllClosedButLast-cons :
      (part : Bytes) (parts : List Bytes)
      → Closed part
      → AllClosedButLast parts
      → AllClosedButLast (part ∷ parts)
  AllClosedButLast-cons part [] c a = tt
  AllClosedButLast-cons part (next ∷ parts) c a = (c, a)

  after-concat :
      (depth : ℕ) (s : Bytes) (c : ℕ) → after step depth (s ++ c ∷ []) ≡ step (after step depth s) c
  after-concat depth [] c = refl
  after-concat depth (x ∷ s) c = after-concat (step depth x) s c

  Uncut-concat :
      (depth : ℕ) (s : Bytes) (c : ℕ)
      → Uncut depth s
      → (c == delim && step (after step depth s) c == 0) ≡ false
      → Uncut depth (s ++ c ∷ [])
  Uncut-concat depth [] c u h = (h, tt)
  Uncut-concat depth (x ∷ s) c u h = (u.0, Uncut-concat (step depth x) s c u.1 h)

module _ (delim : ℕ) where
  cut-delim :
      (level c : ℕ) → (c == delim && nest level c == 0) ≡ true → (c ≡ delim) × (nest level c ≡ 0)
  cut-delim level c h = (ground arith, ground arith)

  rejoin :
      (current : Bytes) (c : ℕ) (s : Bytes) (rest : List Bytes)
      → c ≡ delim
      → Closed nest delim current
      → Parts nest delim s rest
      → Parts nest delim (current ++ c ∷ s) (current ∷ rest)
  rejoin current c s rest q k (inl (e, a)) = inl (cc, (k, a))
  rejoin current c s rest q k (inr (e, a)) = inr (
    rw (append_assoc current (c ∷ s) (delim ∷ [])) (cc),
    AllClosedButLast-cons nest delim current rest k a,
  )

  split_from-Parts :
      (level : ℕ) (current s : Bytes)
      → level ≡ after nest 0 current
      → Parts nest delim (current ++ s) (split_from delim level current s)
  split_from-Parts level [] [] e = unfold split_from in inl (refl, tt)
  split_from-Parts level (x ∷ current) [] e =
      unfold split_from in inr (rw (append-nil current) refl, tt)
  split_from-Parts level current (c ∷ s) e = elim (Bool-cases (c == delim && nest level c == 0)) [
    | inl h ↦
        let (q, z) = cut-delim level c h in
        rw (split_from-cut delim level current c s h) (
          rejoin current c s _ q
            (after-concat nest delim 0 current delim
              ∙ ap (λ l. nest l delim) (sym e)
              ∙ ap (nest level) (sym q)
              ∙ z)
            (split_from-Parts (nest level c) [] s z))
    | inr h ↦
        rw (split_from-on delim level current c s h, ← append_assoc current (c ∷ []) s)
          (split_from-Parts (nest level c) (current ++ c ∷ []) s
            (ap (λ l. nest l c) e ∙ sym (after-concat nest delim 0 current c)))
  ]

  split_from-AllUncut :
      (level : ℕ) (current s : Bytes)
      → level ≡ after nest 0 current
      → Uncut nest delim 0 current
      → AllUncut nest delim (split_from delim level current s)
  split_from-AllUncut level [] [] e u = unfold split_from in tt
  split_from-AllUncut level (x ∷ current) [] e u = unfold split_from in (u, tt)
  split_from-AllUncut level current (c ∷ s) e u =
      elim (Bool-cases (c == delim && nest level c == 0)) [
        | inl h ↦
            rw (split_from-cut delim level current c s h)
              (u, split_from-AllUncut (nest level c) [] s (cut-delim level c h).1 tt)
        | inr h ↦ rw (split_from-on delim level current c s h) (
            split_from-AllUncut (nest level c) (current ++ c ∷ []) s
              (ap (λ l. nest l c) e ∙ sym (after-concat nest delim 0 current c))
              (Uncut-concat nest delim 0 current c u (rw e at h)))
      ]

  AreTopLevel-path :
      (step : ℕ → ℕ → ℕ) (s : Bytes) (parts : List Bytes)
      → nest ≡ step
      → AreTopLevel nest delim s parts
      → AreTopLevel step delim s parts
  AreTopLevel-path step s parts e a = rw (← e) a

  -- For every text and delimiter, the parts of splitTopLevel, each with the delimiter after it, are
  -- the text or the text with one more delimiter at its end. Each of these delimiters, but for the
  -- one more at the end, stands outside all the brackets opened in its part, so that none in brackets
  -- is cut at; and no part holds another delimiter that stands outside all brackets.
  pub split_top_level-AreTopLevel :
      (s : Bytes) → AreTopLevel depth_step delim s (split_top_level delim s)
  unfolding split_top_level
  split_top_level-AreTopLevel s =
      AreTopLevel-path depth_step s (split_from delim 0 [] s)
        (fun_ext λ level. fun_ext λ c. nest-depth_step level c)
        (split_from-Parts 0 [] s refl, split_from-AllUncut 0 [] s refl tt)
