-- ===== src/Common/Terminal/Style/Groups.antt =====
-- The codes of the attributes of a style, and codes one group after another.
use uni.Prelude.{ℕ, ◌≡◌, refl, sym, ap, ◌∙◌, Bool, true, false, some, List, [], ◌∷◌, ◌++◌, map, leb}
use uni.Prelude.Int.{ℤ, pos, negsuc}
use mathlib.Core.List.{foldl, map-append}
use uni.Common.Text.{Bytes, codes}
use uni.Common.Terminal.Rgb.{
  stoi, in_byte, digit, is_digit, scan, starts_digit, skip_space, skip_base, read_number, read_sign,
}
use uni.Common.Terminal.Style.{
  Attributes, plain, of_attributes, combine, join_attributes, attribute_codes, when,
}
use uni.Common.Terminal.Style.Sequence.{
  Reader, Atom, Group, text, flatten, values, Good, GoodGroups, read_code, number,
}

abbrev pub attribute_group : Bool → Atom → List Group
attribute_group true a = (a, []) ∷ []
attribute_group false a = []

group-when : (b : Bool) (a : Atom) → map text (attribute_group b a) ≡ when b a.0
group-when true a = refl
group-when false a = refl

abbrev pub attribute_groups : Attributes → List Group
attribute_groups a =
    attribute_group a.bold (codes "1", pos 1)
    ++ (attribute_group a.dim (codes "2", pos 2) ++ attribute_group a.underline (codes "4", pos 4))

pub text-attribute_groups : (a : Attributes) → map text (attribute_groups a) ≡ attribute_codes a
unfolding attribute_codes
text-attribute_groups a =
    map-append text (attribute_group a.bold (codes "1", pos 1)) _
    ∙ ap (λ q. map text (attribute_group a.bold (codes "1", pos 1)) ++ q)
        (map-append text (attribute_group a.dim (codes "2", pos 2)) _)
    ∙ rw
        (
          group-when a.bold (codes "1", pos 1),
          group-when a.dim (codes "2", pos 2),
          group-when a.underline (codes "4", pos 4),
        )
        refl

pub read-attributes :
    (a : Attributes)
    → foldl read_code (plain, []) (values (flatten (attribute_groups a))) ≡ (of_attributes a, [])
unfolding read_code combine join_attributes
read-attributes a = read-bits a.bold a.dim a.underline
  where
    read-bits :
        (x y z : Bool)
        → foldl read_code
            (plain, [])
            (values (flatten (attribute_groups (record { bold = x; dim = y; underline = z }))))
          ≡ (of_attributes (record { bold = x; dim = y; underline = z }), [])
    read-bits true true true = refl
    read-bits true true false = refl
    read-bits true false true = refl
    read-bits true false false = refl
    read-bits false true true = refl
    read-bits false true false = refl
    read-bits false false true = refl
    read-bits false false false = refl

fold-append :
    (r : Reader) (more others : List Atom)
    → foldl read_code r (values (more ++ others))
      ≡ foldl read_code (foldl read_code r (values more)) (values others)
fold-append r [] others = refl
fold-append r ((t, v) ∷ more) others = fold-append (read_code r v) more others

pub fold-groups :
    (r : Reader) (gs hs : List Group)
    → foldl read_code r (values (flatten (gs ++ hs)))
      ≡ foldl read_code (foldl read_code r (values (flatten gs))) (values (flatten hs))
fold-groups r [] hs = refl
fold-groups r (((t, v), more) ∷ gs) hs =
    fold-append (read_code r v) more (flatten (gs ++ hs))
    ∙ fold-groups (foldl read_code (read_code r v) (values more)) gs hs
    ∙ ap (λ q. foldl read_code q (values (flatten hs)))
        (sym (fold-append (read_code r v) more (flatten gs)))

pub GoodGroups-append : (gs hs : List Group) → GoodGroups gs → GoodGroups hs → GoodGroups (gs ++ hs)
GoodGroups-append [] hs g h = h
GoodGroups-append (a ∷ gs) hs g h = (g.0, GoodGroups-append gs hs g.1 h)

attribute_group-Good : (b : Bool) (a : Atom) → Good a → GoodGroups (attribute_group b a)
attribute_group-Good true a g = ((g, tt), tt)
attribute_group-Good false a g = tt

pub attribute_groups-Good : (a : Attributes) → GoodGroups (attribute_groups a)
unfolding stoi skip_space read_sign read_number skip_base starts_digit is_digit digit scan
attribute_groups-Good a =
    GoodGroups-append _ _ (attribute_group-Good a.bold (codes "1", pos 1) ((refl, tt), refl)) (
      GoodGroups-append _ _ (attribute_group-Good a.dim (codes "2", pos 2) ((refl, tt), refl))
        (attribute_group-Good a.underline (codes "4", pos 4) ((refl, tt), refl)))

pub number-stoi : (s : Bytes) (v : ℤ) → stoi 10 s ≡ some v → number s ≡ some v
unfolding stoi skip_space read_sign
number-stoi [] v e = cc
number-stoi (c ∷ s) v e = e

pub in_byte-leb : (z : ℤ) → in_byte z ≡ true → (n : ℕ) × (z ≡ pos n) × (leb n 255 ≡ true)
in_byte-leb (pos n) h = (n, refl, h)
in_byte-leb (negsuc n) h = cc
