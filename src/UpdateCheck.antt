-- ===== src/UpdateCheck.antt =====
-- internal/updatecheck/semver.go: semantic versions and their order. The numbers of a version, which
-- are not negative, are natural numbers; -1, 0 and 1 are the signs.
pub mod Antisymmetry
use ninerlog_api.Base.{
  ℕ, Bool, true, false, not, ◌&&◌, ◌||◌, ltb, leb, ◌==◌, Option, none, some, List, [], ◌∷◌,
  is_empty, length, if◌then◌else◌,
}
use ninerlog_api.Base.Int.{ℤ, pos_part, ◌-ℤ◌, eqb_ℤ, is_negative, is_positive}
use ninerlog_api.Base.Text.{Text, text_eq, trim_space}
use ninerlog_api.Duration.{atoi, wrap_ℤ}

pub record Version : Type 0 where
  pub major : ℕ
  pub minor : ℕ
  pub patch : ℕ
  pub prerelease : Text

-- strings.TrimPrefix(s, "v"); the text before the first `c`, and the text after it.
trim_v : Text → Text
trim_v [] = []
trim_v (c ∷ s) = if c == b'v' then s else c ∷ s

before_first : ℕ → Text → Text
before_first c [] = []
before_first c (d ∷ s) = let rest = before_first c s in if d == c then [] else d ∷ rest

after_first : ℕ → Text → Text
after_first c [] = []
after_first c (d ∷ s) = let rest = after_first c s in if d == c then s else rest

cons_part : ℕ → List Text → List Text
cons_part c [] = (c ∷ []) ∷ []
cons_part c (t ∷ ts) = (c ∷ t) ∷ ts

-- strings.Split(s, ".")
unfoldable pub split_dots : Text → List Text
unfolding cons_part
split_dots [] = [] ∷ []
split_dots (c ∷ s) = let rest = split_dots s in if c == b'.' then [] ∷ rest else cons_part c rest

has_leading_zero : Text → Bool
has_leading_zero [] = false
has_leading_zero (c ∷ s) = c == b'0' && not (is_empty s)

version_number : Text → Option ℕ
unfolding atoi has_leading_zero
version_number p = elim (atoi p) [
  | none ↦ none
  | some n ↦ if is_negative n || has_leading_zero p then none else some (pos_part n)
]

version_of : Option ℕ → Option ℕ → Option ℕ → Text → Option Version
version_of (some a) (some b) (some c) pre =
    some (record { major = a; minor = b; patch = c; prerelease = pre })
version_of _ _ _ pre = none

three_parts : List Text → Text → Option Version
unfolding version_number version_of
three_parts (a ∷ b ∷ c ∷ []) pre =
    version_of (version_number a) (version_number b) (version_number c) pre
three_parts _ pre = none

unfoldable pub parse_version : Text → Option Version
unfolding trim_space trim_v before_first after_first split_dots three_parts
parse_version s =
    let t = trim_v (trim_space s) in
    let u = before_first b'+' t in
    if is_empty t then none else three_parts (split_dots (before_first b'-' u)) (after_first b'-' u)

pub data Sign : Type 0 where
  below same above : Sign

unfoldable pub sign : ℤ → Sign
sign n = if is_negative n then below else if is_positive n then above else same

-- strings.Compare
unfoldable pub text_compare : Text → Text → Sign
text_compare [] [] = same
text_compare [] (d ∷ t) = below
text_compare (c ∷ s) [] = above
text_compare (c ∷ s) (d ∷ t) =
    let rest = text_compare s t in if ltb c d then below else if ltb d c then above else rest

-- The switch on the two identifiers; `same` goes on with the next.
unfoldable pub ident_sign : Option ℤ → Option ℤ → Text → Text → Sign
unfolding sign wrap_ℤ text_compare
ident_sign (some m) (some n) a b = if eqb_ℤ m n then same else sign (wrap_ℤ (m -ℤ n))
ident_sign (some m) none a b = below
ident_sign none (some n) a b = above
ident_sign none none a b = text_compare a b

abbrev pub or_next : Sign → Sign → Sign
or_next same r = r
or_next below r = below
or_next above r = above

-- The loop over the identifiers, and the sign of the difference of their numbers at its end.
unfoldable pub compare_idents : List Text → List Text → Sign
unfolding ident_sign atoi
compare_idents [] [] = same
compare_idents [] (b ∷ bs) = below
compare_idents (a ∷ as') [] = above
compare_idents (a ∷ as') (b ∷ bs) =
    or_next (ident_sign (atoi a) (atoi b) a b) (compare_idents as' bs)

unfoldable pub compare_prerelease : Text → Text → Sign
unfolding text_eq compare_idents split_dots
compare_prerelease a b =
    if text_eq a b
    then same
    else if is_empty a
    then above
    else if is_empty b
    then below
    else compare_idents (split_dots a) (split_dots b)

-- One of the three numbers.
abbrev pub number_sign : ℕ → ℕ → Sign
number_sign m n = if ltb m n then below else if ltb n m then above else same

unfoldable pub compare_versions : Version → Version → Sign
unfolding compare_prerelease
compare_versions v w = or_next (number_sign v.major w.major) (
    or_next (number_sign v.minor w.minor)
      (or_next (number_sign v.patch w.patch) (compare_prerelease v.prerelease w.prerelease)))

abbrev pub is_above : Sign → Bool
is_above above = true
is_above _ = false

-- The two results of newer, where both versions parse; `none` where one does not.
unfoldable pub newer : Text → Text → Option Bool
unfolding parse_version compare_versions
newer current latest = elim (parse_version current) [
  | none ↦ none
  | some c ↦ elim (parse_version latest) [
    | none ↦ none
    | some l ↦ some (is_above (compare_versions l c))
  ]
]
