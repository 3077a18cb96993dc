-- ===== src/FlightRules/Names.antt =====
-- flightrules/names.go: names are compared without regard to case, white space and the order of
-- "Last, First".
pub mod Normal
pub mod Matching
use ninerlog_api.Base.{
  ℕ, Bool, true, false, not, ◌&&◌, ◌||◌, List, [], ◌∷◌, ◌++◌, ◌==◌, is_empty, if◌then◌else◌,
}
use ninerlog_api.Base.Text.{Text, is_space, to_lower_rune, text_eq, trim_space}

-- The loop of NormalizeName over the runes; `prev_space` is its flag.
unfoldable pub fold_runes : Bool → Text → Text
unfolding is_space to_lower_rune
fold_runes prev_space [] = []
fold_runes prev_space (r ∷ s) =
    let blank = fold_runes true s in
    let word = fold_runes false s in
    if is_space r then (if prev_space then blank else 32 ∷ blank) else to_lower_rune r ∷ word

-- strings.TrimRight(s, " ")
keep_unless_space : ℕ → Text → Text
keep_unless_space c [] = if c == 32 then [] else c ∷ []
keep_unless_space c (d ∷ rest) = c ∷ d ∷ rest

unfoldable pub trim_right_spaces : Text → Text
unfolding keep_unless_space
trim_right_spaces [] = []
trim_right_spaces (c ∷ s) = keep_unless_space c (trim_right_spaces s)

unfoldable pub normalize_name : Text → Text
unfolding fold_runes trim_right_spaces
normalize_name s = trim_right_spaces (fold_runes true s)

-- The text before the first comma, the text after it, and whether it is the only one.
unfoldable pub before_comma : Text → Text
before_comma [] = []
before_comma (c ∷ s) = let rest = before_comma s in if c == b',' then [] else c ∷ rest

unfoldable pub after_comma : Text → Text
after_comma [] = []
after_comma (c ∷ s) = let rest = after_comma s in if c == b',' then s else rest

unfoldable pub has_comma : Text → Bool
has_comma [] = false
has_comma (c ∷ s) = c == b',' || has_comma s

-- The empty text where `s` is not of the form "last, first" with one comma.
unfoldable pub reverse_comma_form : Text → Text
unfolding before_comma after_comma has_comma trim_space
reverse_comma_form s =
    let last = before_comma s in
    let first = after_comma s in
    if not (has_comma s) || is_empty last || is_empty first
    then []
    else if has_comma first
    then []
    else if is_empty (trim_space last) || is_empty (trim_space first)
    then []
    else trim_space first ++ 32 ∷ trim_space last

unfoldable pub matches_user : Text → Text → Bool
unfolding normalize_name reverse_comma_form
matches_user candidate user_name =
    let c = normalize_name candidate in
    let u = normalize_name user_name in
    if is_empty c || is_empty u
    then false
    else if text_eq c u
    then true
    else if not (is_empty (reverse_comma_form c)) && text_eq (reverse_comma_form c) u
    then true
    else not (is_empty (reverse_comma_form u)) && text_eq (reverse_comma_form u) c
