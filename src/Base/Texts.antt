-- ===== src/Base/Texts.antt =====
-- A Go string is its list of bytes. Here are its equality, sets of strings, and strings.TrimSpace.
use Prim.Native.Char.{code}
use Prim.Native.Nat.{ℕ}
use Prim.Native.String.{String}
use mathlib.Core.Path.{◌≡◌, refl}
use mathlib.Core.Logic.{◌↔◌}
use mathlib.Core.Bool.{Bool, true, false, ◌&&◌, ◌||◌}
use mathlib.Core.List.{List, [], ◌∷◌, ◌++◌, reverse}
use native.Mathlib.Omega.{arith}
use oneops.Base.Tests.{ltb, leb, ◌==◌, if◌then◌else◌}

abbrev pub Text : Type 0
Text = List ℕ

-- The bytes of a literal, which is ASCII everywhere in the program.
abbrev pub codes : String → Text
codes String.[] = []
codes (String.◌∷◌ c s) = code c ∷ codes s

unfoldable pub text_eq : Text → Text → Bool
text_eq [] [] = true
text_eq (a ∷ s) (b ∷ t) = (a == b) && text_eq s t
text_eq _ _ = false

pub text_eq_iff : (s t : Text) → (text_eq s t ≡ true) ↔ (s ≡ t)
unfolding text_eq
text_eq_iff [] [] = ground arith
text_eq_iff [] (b ∷ t) = ground arith
text_eq_iff (a ∷ s) [] = ground arith
text_eq_iff (a ∷ s) (b ∷ t) = ground (arith, text_eq_iff s t)

pub text_eq_refl : (s : Text) → text_eq s s ≡ true
text_eq_refl s = (text_eq_iff s s).1 refl

-- Membership in a slice, or in a map used as a set.
unfoldable pub mem : Text → List Text → Bool
mem x [] = false
mem x (y ∷ ys) = text_eq y x || mem x ys

pub mem-append : (x : Text) (xs ys : List Text) → mem x (xs ++ ys) ≡ (mem x xs || mem x ys)
unfolding mem
mem-append x [] ys = refl
mem-append x (y ∷ xs) ys = ground (arith, mem-append x xs ys)

-- Go compares strings by their bytes.
unfoldable pub text_le : Text → Text → Bool
text_le [] t = true
text_le (a ∷ s) [] = false
text_le (a ∷ s) (b ∷ t) = ltb a b || ((a == b) && text_le s t)

-- White space of Unicode, in UTF-8: runes of one byte, of two and of three.
abbrev space_one : ℕ → Bool
space_one a = (leb 9 a && leb a 13) || (a == 32)

abbrev space_two : ℕ → ℕ → Bool
space_two a b = (a == 0xc2) && ((b == 0x85) || (b == 0xa0))

abbrev space_three : ℕ → ℕ → ℕ → Bool
space_three a b c =
    ((a == 0xe1) && (b == 0x9a) && (c == 0x80))
    || ((a == 0xe2)
        && (b == 0x80)
        && ((leb 0x80 c && leb c 0x8a) || (c == 0xa8) || (c == 0xa9) || (c == 0xaf)))
    || ((a == 0xe2) && (b == 0x81) && (c == 0x9f))
    || ((a == 0xe3) && (b == 0x80) && (c == 0x80))

-- Drops the runes at the head that the tests take for white space.
drop_spaces : (ℕ → ℕ → Bool) → (ℕ → ℕ → ℕ → Bool) → Text → Text
drop_spaces two three [] = []
drop_spaces two three (a ∷ []) = if space_one a then [] else a ∷ []
drop_spaces two three (a ∷ b ∷ []) =
    let rest = drop_spaces two three (b ∷ []) in
    if space_one a then rest else if two a b then [] else a ∷ b ∷ []
drop_spaces two three (a ∷ b ∷ c ∷ s) =
    let rest_one = drop_spaces two three (b ∷ c ∷ s) in
    let rest_two = drop_spaces two three (c ∷ s) in
    let rest_three = drop_spaces two three s in
    if space_one a
    then rest_one
    else if two a b
    then rest_two
    else if three a b c
    then rest_three
    else a ∷ b ∷ c ∷ s

-- strings.TrimSpace: the tail is trimmed on the reversed text, with the bytes of a rune reversed.
unfoldable pub trim_space : Text → Text
unfolding drop_spaces
trim_space s = reverse (
    drop_spaces (λ b a. space_two a b) (λ c b a. space_three a b c)
      (reverse (drop_spaces space_two space_three s)))

trim_space_test : trim_space (codes "  a b ") ≡ codes "a b"
unfolding trim_space
trim_space_test = refl

-- `strings.TrimSpace(s) == ""`
abbrev pub is_blank : Text → Bool
is_blank s = elim (trim_space s) [ [] ↦ true | _ ∷ _ ↦ false ]

-- A map of strings: the first pair of a key counts.
abbrev pub StringMap : Type 0
StringMap = List (Text × Text)

-- `m[k]`, which is "" where the key is missing.
unfoldable pub get_or_empty : Text → StringMap → Text
get_or_empty k [] = []
get_or_empty k ((key, value) ∷ m) = if text_eq key k then value else get_or_empty k m
