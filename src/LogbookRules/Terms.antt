-- ===== src/LogbookRules/Terms.antt =====
-- The licence types of rules.go: terms that are runs of whole tokens. unicode.IsLetter is exact on
-- Latin-1; the licence types come from a form with such letters.
use ninerlog_api.Base.{
  ℕ, Bool, true, false, not, ◌&&◌, ◌||◌, leb, ◌==◌, List, [], ◌∷◌, map, any, if◌then◌else◌,
}
use ninerlog_api.Base.Text.{
  Text, codes, text_eq, to_upper, trim_space, has_prefix, contains, is_space,
}

unfoldable pub looks_like_ul : Text → Bool
unfolding to_upper trim_space has_prefix contains text_eq
looks_like_ul license_type =
    let t = to_upper (trim_space license_type) in
    text_eq t (codes "UL")
    || has_prefix t (codes "UL ")
    || has_prefix t (codes "UL-")
    || contains t (codes "ULTRALIGHT")
    || contains t (codes "ULTRALEICHT")

-- unicode.IsLetter
unfoldable pub is_letter : ℕ → Bool
is_letter c =
    (leb b'a' c && leb c b'z')
    || (leb b'A' c && leb c b'Z')
    || c == 0xAA
    || c == 0xB5
    || c == 0xBA
    || (leb 0xC0 c && leb c 0xFF && not (c == 0xD7) && not (c == 0xF7))

-- A character in front of the tokens, the first of which it continues.
cons_token : ℕ → List Text → List Text
cons_token c [] = (c ∷ []) ∷ []
cons_token c (t ∷ ts) = (c ∷ t) ∷ ts

drop_empty : List Text → List Text
drop_empty [] = []
drop_empty ([] ∷ ts) = drop_empty ts
drop_empty ((c ∷ t) ∷ ts) = (c ∷ t) ∷ drop_empty ts

-- The parts between the separators, the empty ones included.
split_on : (ℕ → Bool) → Text → List Text
unfolding cons_token
split_on sep [] = [] ∷ []
split_on sep (c ∷ s) = let rest = split_on sep s in if sep c then [] ∷ rest else cons_token c rest

-- strings.FieldsFunc
unfoldable pub fields_func : (ℕ → Bool) → Text → List Text
unfolding split_on drop_empty
fields_func sep s = drop_empty (split_on sep s)

unfoldable pub tokens_of : Text → List Text
unfolding fields_func is_letter to_upper
tokens_of s = map to_upper (fields_func (λ c. not (is_letter c)) s)

starts_with : List Text → List Text → Bool
unfolding text_eq
starts_with ts [] = true
starts_with [] (r ∷ rs) = false
starts_with (t ∷ ts) (r ∷ rs) = text_eq t r && starts_with ts rs

-- The loop over the places at which the run still fits.
unfoldable pub contains_run : List Text → List Text → Bool
unfolding starts_with
contains_run [] run = starts_with [] run
contains_run (t ∷ ts) run = starts_with (t ∷ ts) run || contains_run ts run

unfoldable pub has_term : Text → List Text → Bool
unfolding tokens_of contains_run fields_func is_space
has_term text terms =
    let tokens = tokens_of text in
    any (λ term. contains_run tokens (fields_func is_space term)) terms

abbrev pub at_national_terms : List Text
at_national_terms =
    codes "UL"
    ∷ codes "HG"
    ∷ codes "PG"
    ∷ codes "HÄNGEGLEITER"
    ∷ codes "HAENGEGLEITER"
    ∷ codes "HANGGLIDER"
    ∷ codes "HANG GLIDER"
    ∷ codes "PARAGLIDER"
    ∷ codes "PARAGLEITER"
    ∷ codes "GLEITSCHIRM"
    ∷ codes "DRACHEN"
    ∷ codes "MOTORSCHIRM"
    ∷ codes "NATIONAL GLIDER"
    ∷ []

abbrev pub de_ul_terms : List Text
de_ul_terms =
    codes "GLEITSCHIRM"
    ∷ codes "MOTORSCHIRM"
    ∷ codes "TRIKE"
    ∷ codes "HÄNGEGLEITER"
    ∷ codes "HAENGEGLEITER"
    ∷ codes "DRACHEN"
    ∷ codes "TRAGSCHRAUBER"
    ∷ codes "SPORTPILOTENLIZENZ"
    ∷ []

abbrev pub de_ul_authorities : List Text
de_ul_authorities = codes "DULV" ∷ codes "DAEC" ∷ []

unfoldable pub is_at_national : Text → Bool
unfolding looks_like_ul has_term
is_at_national license_type = looks_like_ul license_type || has_term license_type at_national_terms

-- isDEUL, on the fields of the licence that it reads.
unfoldable pub is_de_ul : Text → Text → Bool
unfolding looks_like_ul has_term to_upper trim_space text_eq
is_de_ul regulatory_authority license_type =
    let authority = to_upper (trim_space regulatory_authority) in
    if any (λ a. text_eq authority a) de_ul_authorities
    then true
    else looks_like_ul license_type || has_term license_type de_ul_terms
