-- ===== src/Common/Text.antt =====
-- Texts as lists of bytes, and what string_util.hpp and the standard library do with them. Letters
-- are those of the "C" locale.
use Prim.Native.Char.{code}
use Prim.Native.String.{String}
use uni.Prelude.{
  ℕ, ◌+◌, ◌≡◌, refl, Bool, true, false, ◌&&◌, List, [], ◌∷◌, if◌then◌else◌, ◌==◌, leb, arith,
}
use mathlib.Core.List.{map}

abbrev pub Bytes : Type 0
Bytes = List ℕ

abbrev pub codes : String → Bytes
codes String.[] = []
codes (String.◌∷◌ c s) = code c ∷ codes s

-- std::tolower.
unfoldable pub lower : ℕ → ℕ
lower c = if leb b'A' c && leb c b'Z' then c + 32 else c

unfoldable pub to_lower : Bytes → Bytes
to_lower s = map lower s

-- `==` of std::string.
unfoldable pub equals : Bytes → Bytes → Bool
equals [] [] = true
equals (c ∷ s) (d ∷ t) = c == d && equals s t
equals _ _ = false

pub equals→≡ : (s t : Bytes) → equals s t ≡ true → s ≡ t
unfolding equals
equals→≡ [] [] h = refl
equals→≡ (c ∷ s) (d ∷ t) h = ground (arith, equals→≡ s t)
equals→≡ [] (d ∷ t) h = cc
equals→≡ (c ∷ s) [] h = cc

pub equals_refl : (s : Bytes) → equals s s ≡ true
unfolding equals
equals_refl [] = refl
equals_refl (c ∷ s) = ground (arith, equals_refl s)

-- iequals of string_util.hpp.
unfoldable pub iequals : Bytes → Bytes → Bool
iequals [] [] = true
iequals (c ∷ s) (d ∷ t) = lower c == lower d && iequals s t
iequals _ _ = false

-- Two texts are equal up to case exactly when their lower-case forms are the same.
pub iequals-to_lower : (s t : Bytes) → iequals s t ≡ equals (to_lower s) (to_lower t)
unfolding iequals to_lower equals
iequals-to_lower [] [] = refl
iequals-to_lower (c ∷ s) (d ∷ t) = rw (iequals-to_lower s t) refl
iequals-to_lower [] (d ∷ t) = refl
iequals-to_lower (c ∷ s) [] = refl
