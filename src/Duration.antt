-- ===== src/Duration.antt =====
-- pkg/duration/duration.go: minutes as text, and text as minutes. Floating-point hours are the
-- parameter Floats. Go's int is 64 bits wide: Atoi stops at the largest where its error is ignored,
-- and sums wrap around.
pub mod Digits
pub mod RoundTrip
use ninerlog_api.Base.{
  ℕ, zero, suc, ◌+◌, ◌-◌, ◌*◌, ◌/◌, ◌%◌, ◌^◌, min, Bool, true, false, not, ◌&&◌, ◌||◌, ltb, leb,
  ◌==◌, Option, none, some, List, [], ◌∷◌, ◌++◌, any, is_empty, length, if◌then◌else◌,
}
use ninerlog_api.Base.Int.{ℤ, pos, negsuc, neg_ℕ, ◌+ℤ◌, is_negative}
use ninerlog_api.Base.Text.{Text, codes, trim_space, to_lower}

abbrev pub max_int : ℕ
max_int = 2 ^ 63 - 1

abbrev pub is_digit : ℕ → Bool
is_digit c = leb b'0' c && leb c b'9'

-- The decimal digits of a number, in front of a text; the fuel is above the number of digits.
unfoldable pub digits_onto : ℕ → ℕ → Text → Text
digits_onto zero n out = out
digits_onto (suc fuel) n out =
    let shown = (b'0' + n % 10) ∷ out in
    let rest = digits_onto fuel (n / 10) shown in if ltb n 10 then shown else rest

-- %d and %02d, of a number that is not negative.
unfoldable pub decimal : ℕ → Text
unfolding digits_onto
decimal n = digits_onto (suc n) n []

unfoldable pub padded : ℕ → Text
unfolding decimal
padded n = if ltb n 10 then b'0' ∷ decimal n else decimal n

-- %d, of the negative of a number.
unfoldable pub minus : ℕ → Text
unfolding decimal
minus n = if n == 0 then decimal 0 else b'-' ∷ decimal n

unfoldable pub format_colon_hm : ℤ → Text
unfolding decimal padded minus
format_colon_hm (pos n) = decimal (n / 60) ++ b':' ∷ padded (n % 60)
format_colon_hm (negsuc k) =
    let n = suc k in minus (n / 60) ++ b':' ∷ (if n % 60 == 0 then padded 0 else minus (n % 60))

unfoldable pub format_hm : ℤ → Text
unfolding decimal minus
format_hm (pos n) = decimal (n / 60) ++ codes "h " ++ decimal (n % 60) ++ codes "m"
format_hm (negsuc k) = let n = suc k in minus (n / 60) ++ codes "h " ++ minus (n % 60) ++ codes "m"

-- float64 with its zero; strconv.ParseFloat, with its error and without; the test against 0; and
-- DecimalHoursToMinutes.
pub record Floats : Type 1 where
  pub Float : Type 0
  pub zero_hours : Float
  pub parse_float : Text → Option Float
  pub parse_float_anyway : Text → Float
  pub is_below_zero : Float → Bool
  pub decimal_hours_to_minutes : Float → ℤ

-- The digits at the start, and what is left.
unfoldable pub digits_of : Text → Text
digits_of [] = []
digits_of (c ∷ s) = let rest = digits_of s in if is_digit c then c ∷ rest else []

unfoldable pub after_digits : Text → Text
after_digits [] = []
after_digits (c ∷ s) = let rest = after_digits s in if is_digit c then rest else c ∷ s

-- The number that digits write, read from the left.
unfoldable pub value : ℕ → Text → ℕ
value n [] = n
value n (c ∷ s) = value (n * 10 + (c - b'0')) s

-- strconv.Atoi on digits, its error ignored.
unfoldable pub atoi_or_max : Text → ℕ
unfolding value
atoi_or_max s = min max_int (value 0 s)

-- An int of 64 bits.
unfoldable pub wrap : ℕ → ℤ
wrap n = let r = n % 2 ^ 64 in if leb r max_int then pos r else neg_ℕ (2 ^ 64 - r)

unfoldable pub wrap_ℤ : ℤ → ℤ
unfolding wrap
wrap_ℤ (pos n) = wrap n
wrap_ℤ (negsuc k) = wrap (2 ^ 64 - 1 - k % 2 ^ 64)

starts_with_colon : Text → Bool
starts_with_colon [] = false
starts_with_colon (c ∷ s) = c == b':'

tail_of : Text → Text
tail_of [] = []
tail_of (c ∷ s) = s

-- colonRe: digits, a colon, and one or two digits.
unfoldable pub match_colon : Text → Option (Text × Text)
unfolding digits_of after_digits starts_with_colon tail_of
match_colon s =
    let hours = digits_of s in
    let rest = after_digits s in
    let mins = digits_of (tail_of rest) in
    if not (is_empty hours)
      && starts_with_colon rest
      && not (is_empty mins)
      && leb (length mins) 2
      && is_empty (after_digits (tail_of rest))
    then some (hours, mins)
    else none

-- A white space of Go's regular expressions.
is_re_space : ℕ → Bool
is_re_space c = c == 9 || c == 10 || c == 12 || c == 13 || c == 32

skip_spaces : Text → Text
unfolding is_re_space
skip_spaces [] = []
skip_spaces (c ∷ s) = let rest = skip_spaces s in if is_re_space c then rest else c ∷ s

-- The fraction of the hours: a point with digits, or nothing.
fraction_of : Text → Text
unfolding digits_of
fraction_of [] = []
fraction_of (c ∷ s) = let d = digits_of s in if c == b'.' && not (is_empty d) then c ∷ d else []

after_fraction : Text → Text
unfolding digits_of after_digits
after_fraction [] = []
after_fraction (c ∷ s) =
    let d = digits_of s in if c == b'.' && not (is_empty d) then after_digits s else c ∷ s

-- A unit at the start, with the white space before it; and what comes after it.
has_unit : ℕ → Text → Bool
has_unit u [] = false
has_unit u (c ∷ s) = c == u

-- The hours of hmRe, the empty text where there are none, and what is left of the text.
hours_of : Text → Text × Text
unfolding digits_of after_digits fraction_of after_fraction skip_spaces has_unit tail_of
hours_of s =
    let number = digits_of s ++ fraction_of (after_digits s) in
    let rest = skip_spaces (after_fraction (after_digits s)) in
    if not (is_empty (digits_of s)) && has_unit b'h' rest then (number, tail_of rest) else ([], s)

-- The minutes of hmRe after the hours; `none` where the text does not match.
minutes_of : Text → Option Text
unfolding digits_of after_digits skip_spaces has_unit tail_of
minutes_of s =
    let mins = digits_of s in
    let rest = skip_spaces (after_digits s) in
    if is_empty s
    then some []
    else if not (is_empty mins) && has_unit b'm' rest && is_empty (tail_of rest)
    then some mins
    else none

unfoldable pub match_hm : Text → Option (Text × Text)
unfolding hours_of minutes_of skip_spaces
match_hm s =
    let h = hours_of s in
    elim (minutes_of (skip_spaces h.1)) [ none ↦ none | some m ↦ some (h.0, m) ]

-- The errors of ParseDuration.
pub data DurationError : Type 0 where
  empty_duration minutes_part invalid_hm invalid_decimal negative_duration invalid_duration :
      DurationError

pub data Parsed : Type 0 where
  minutes : ℤ → Parsed
  failed : DurationError → Parsed

-- strings.Count(s, ","), and strings.Replace(s, ",", ".", 1).
unfoldable pub count_of : ℕ → Text → ℕ
count_of c [] = 0
count_of c (d ∷ s) = let rest = count_of c s in if d == c then suc rest else rest

replace_comma : Text → Text
replace_comma [] = []
replace_comma (c ∷ s) = let rest = replace_comma s in if c == b',' then b'.' ∷ s else c ∷ rest

unfoldable pub dotted : Text → Text
unfolding count_of replace_comma
dotted s = if count_of b',' s == 1 && count_of b'.' s == 0 then replace_comma s else s

is_hm : ℕ → Bool
is_hm c = c == b'h' || c == b'H' || c == b'm' || c == b'M'

-- strconv.Atoi: an optional sign, digits, and the range of int.
in_range : Bool → ℕ → Option ℤ
in_range true n = if leb n (suc max_int) then some (neg_ℕ n) else none
in_range false n = if leb n max_int then some (pos n) else none

atoi_digits : Bool → Text → Option ℤ
unfolding digits_of after_digits value in_range
atoi_digits negative s =
    if is_empty s || not (is_empty (after_digits s)) then none else in_range negative (value 0 s)

unfoldable pub atoi : Text → Option ℤ
unfolding atoi_digits
atoi [] = none
atoi (c ∷ s) =
    if c == b'-'
    then atoi_digits true s
    else if c == b'+'
    then atoi_digits false s
    else atoi_digits false (c ∷ s)

not_negative : Option ℤ → Parsed
not_negative none = failed invalid_duration
not_negative (some n) = if is_negative n then failed negative_duration else minutes n

colon_minutes : Text → Text → Parsed
unfolding atoi_or_max wrap
colon_minutes hours mins =
    if leb 60 (atoi_or_max mins)
    then failed minutes_part
    else minutes (wrap (atoi_or_max hours * 60 + atoi_or_max mins))

module _ (fl : Floats) where
  hm_minutes : Text → Text → ℤ
  unfolding atoi_or_max wrap_ℤ
  hm_minutes hours mins =
      let h = if is_empty hours then fl.zero_hours else fl.parse_float_anyway hours in
      wrap_ℤ (fl.decimal_hours_to_minutes h +ℤ pos (if is_empty mins then 0 else atoi_or_max mins))

  parse_hm : Text → Parsed
  unfolding hm_minutes match_hm
  parse_hm s = elim (match_hm (to_lower s)) [
    | none ↦ failed invalid_hm
    | some p ↦
        if is_empty p.0 && is_empty p.1 then failed invalid_hm else minutes (hm_minutes p.0 p.1)
  ]

  parse_decimal : Text → Parsed
  parse_decimal s = elim (fl.parse_float s) [
    | none ↦ failed invalid_decimal
    | some x ↦
        if fl.is_below_zero x
        then failed negative_duration
        else minutes (fl.decimal_hours_to_minutes x)
  ]

  -- What is tried where the colon format does not match.
  parse_other : Text → Parsed
  unfolding is_hm parse_hm parse_decimal not_negative atoi count_of
  parse_other s =
      if any is_hm s
      then parse_hm s
      else if not (count_of b'.' s == 0)
      then parse_decimal s
      else not_negative (atoi s)

  unfoldable pub parse_duration : Text → Parsed
  unfolding trim_space dotted match_colon colon_minutes parse_other
  parse_duration input =
      let s = trim_space input in
      if is_empty s then failed empty_duration else elim (match_colon (dotted s)) [
        | none ↦ parse_other (dotted s)
        | some p ↦ colon_minutes p.0 p.1
      ]
