-- ===== src/Base/Text.antt =====
-- Texts as lists of code points, with the functions of Go's `strings` and `unicode` that the
-- services call. White space is exact; the case mappings are exact below U+0180 and for the letters of
-- Greek from U+0386 to U+03CE and of Cyrillic from U+0400 to U+045F, and leave other letters as they
-- are.
pub mod Trim
pub mod Lower
use Prim.Native.Char.{code}
use Prim.Native.String.{String}
use ninerlog_api.Base.{
  ℕ, ◌+◌, ◌-◌, ◌%◌, ◌≡◌, refl, Bool, true, false, not, ◌&&◌, ◌||◌, List, [], ◌∷◌, map, arith, leb,
  ◌==◌, if◌then◌else◌,
}

abbrev pub Text : Type 0
Text = List ℕ

-- The code points of a literal.
abbrev pub codes : String → Text
codes String.[] = []
codes (String.◌∷◌ c s) = code c ∷ codes s

unfoldable pub text_eq : Text → Text → Bool
text_eq [] [] = true
text_eq (a ∷ s) (b ∷ t) = a == b && text_eq s t
text_eq _ _ = false

pub text_eq-eq : (s t : Text) → text_eq s t ≡ true → s ≡ t
unfolding text_eq
text_eq-eq [] [] h = refl
text_eq-eq (a ∷ s) (b ∷ t) h = ground (arith, text_eq-eq s t)
text_eq-eq [] (b ∷ t) h = ground arith
text_eq-eq (a ∷ s) [] h = ground arith

pub text_eq_refl : (s : Text) → text_eq s s ≡ true
unfolding text_eq
text_eq_refl [] = refl
text_eq_refl (a ∷ s) = ground (arith, text_eq_refl s)

-- unicode.IsSpace
unfoldable pub is_space : ℕ → Bool
is_space c =
    (leb 9 c && leb c 13)
    || c == 32
    || c == 0x85
    || c == 0xA0
    || c == 0x1680
    || (leb 0x2000 c && leb c 0x200A)
    || c == 0x2028
    || c == 0x2029
    || c == 0x202F
    || c == 0x205F
    || c == 0x3000

-- The blocks in which an upper-case letter stands just before its lower-case one: from an even code
-- point in the first case, from an odd one in the second.
abbrev even_pairs : ℕ → Bool
even_pairs c =
    (leb 0x100 c && leb c 0x12F) || (leb 0x132 c && leb c 0x137) || (leb 0x14A c && leb c 0x177)

abbrev odd_pairs : ℕ → Bool
odd_pairs c = (leb 0x139 c && leb c 0x148) || (leb 0x179 c && leb c 0x17E)

-- unicode.ToUpper, by block: Latin-1, Latin Extended-A, Greek and Cyrillic.
unfoldable pub to_upper_rune : ℕ → ℕ
to_upper_rune c =
    if leb b'a' c && leb c b'z'
    then c - 32
    else if leb 0xE0 c && leb c 0xFE && not (c == 0xF7)
    then c - 32
    else if c == 0xFF
    then 0x178
    else if c == 0xB5
    then 0x39C
    else if even_pairs c
    then c - c % 2
    else if odd_pairs c
    then c - (c + 1) % 2
    else if c == 0x131
    then b'I'
    else if c == 0x17F
    then b'S'
    else if c == 0x3AC
    then 0x386
    else if leb 0x3AD c && leb c 0x3AF
    then c - 37
    else if (leb 0x3B1 c && leb c 0x3C1) || (leb 0x3C3 c && leb c 0x3CB)
    then c - 32
    else if c == 0x3C2
    then 0x3A3
    else if c == 0x3CC
    then 0x38C
    else if leb 0x3CD c && leb c 0x3CE
    then c - 63
    else if leb 0x430 c && leb c 0x44F
    then c - 32
    else if leb 0x450 c && leb c 0x45F
    then c - 80
    else c

-- unicode.ToLower, by the same blocks.
unfoldable pub latin_lower : ℕ → ℕ
latin_lower c =
    if leb b'A' c && leb c b'Z'
    then c + 32
    else if leb 0xC0 c && leb c 0xDE && not (c == 0xD7)
    then c + 32
    else c

unfoldable pub extended_lower : ℕ → ℕ
extended_lower c =
    if c == 0x130
    then b'i'
    else if c == 0x178
    then 0xFF
    else if even_pairs c
    then c + (c + 1) % 2
    else if odd_pairs c
    then c + c % 2
    else c

unfoldable pub greek_lower : ℕ → ℕ
greek_lower c =
    if c == 0x386
    then 0x3AC
    else if leb 0x388 c && leb c 0x38A
    then c + 37
    else if c == 0x38C
    then 0x3CC
    else if leb 0x38E c && leb c 0x38F
    then c + 63
    else if (leb 0x391 c && leb c 0x3A1) || (leb 0x3A3 c && leb c 0x3AB)
    then c + 32
    else c

unfoldable pub cyrillic_lower : ℕ → ℕ
cyrillic_lower c =
    if leb 0x400 c && leb c 0x40F then c + 80 else if leb 0x410 c && leb c 0x42F then c + 32 else c

unfoldable pub to_lower_rune : ℕ → ℕ
unfolding latin_lower extended_lower greek_lower cyrillic_lower
to_lower_rune c =
    if leb c 0xFF
    then latin_lower c
    else if leb c 0x17F
    then extended_lower c
    else if leb c 0x3FF
    then greek_lower c
    else cyrillic_lower c

-- strings.ToUpper
unfoldable pub to_upper : Text → Text
unfolding to_upper_rune
to_upper s = map to_upper_rune s

-- strings.TrimSpace, as the two trims at its ends.
unfoldable pub trim_left : Text → Text
unfolding is_space
trim_left [] = []
trim_left (c ∷ s) = let rest = trim_left s in if is_space c then rest else c ∷ s

-- A character before an already trimmed rest.
keep_unless_blank : ℕ → Text → Text
keep_unless_blank c [] = if is_space c then [] else c ∷ []
keep_unless_blank c (d ∷ rest) = c ∷ d ∷ rest

unfoldable pub trim_right : Text → Text
unfolding keep_unless_blank is_space
trim_right [] = []
trim_right (c ∷ s) = keep_unless_blank c (trim_right s)

unfoldable pub trim_space : Text → Text
unfolding trim_left trim_right
trim_space s = trim_right (trim_left s)

-- strings.HasPrefix, on texts.
unfoldable pub has_prefix : Text → Text → Bool
has_prefix s [] = true
has_prefix [] (p ∷ ps) = false
has_prefix (c ∷ s) (p ∷ ps) = c == p && has_prefix s ps

-- strings.Contains, on texts.
unfoldable pub contains : Text → Text → Bool
unfolding has_prefix
contains [] t = has_prefix [] t
contains (c ∷ s) t = has_prefix (c ∷ s) t || contains s t

-- strings.ToLower and strings.EqualFold
unfoldable pub to_lower : Text → Text
unfolding to_lower_rune
to_lower s = map to_lower_rune s

unfoldable pub equal_fold : Text → Text → Bool
unfolding to_lower text_eq
equal_fold s t = text_eq (to_lower s) (to_lower t)
