-- ===== src/FlightCalc/Times.antt =====
-- The times of day of flightcalc.go, and the instants that they stand for. A zero time.Time, which
-- marks a time that is absent or unparseable, is the instant 0; the dates of flights lie after it.
pub mod Parsed
pub mod Windows
use ninerlog_api.Base.{
  ℕ, ◌+◌, ◌-◌, ◌*◌, ◌/◌, Bool, true, false, not, ◌&&◌, ◌||◌, ltb, leb, ◌==◌, if◌then◌else◌, Option,
  none, some, List, [], ◌∷◌,
}
use ninerlog_api.Base.Int.{ℤ, pos}
use ninerlog_api.Base.Text.{Text}
use ninerlog_api.Clock.{Instant, day_ns, midnight, day_of, before, after}
use ninerlog_api.Flight.{Flight}

abbrev pub second_ns : ℕ
second_ns = 1000000000

abbrev pub minute_ns : ℕ
minute_ns = 60000000000

abbrev pub is_digit : ℕ → Bool
is_digit c = leb b'0' c && leb c b'9'

-- getnum of Go's package time: one or two digits, or two when `fixed`; and what is left.
one_digit : Bool → ℕ → Text → Option (ℕ × Text)
one_digit fixed a s = if fixed then none else some (a, s)

unfoldable pub getnum : Bool → Text → Option (ℕ × Text)
unfolding one_digit
getnum fixed [] = none
getnum fixed (c ∷ []) = if is_digit c then one_digit fixed (c - b'0') [] else none
getnum fixed (c ∷ d ∷ s) =
    if is_digit c
    then (if is_digit d
        then some ((c - b'0') * 10 + (d - b'0'), s)
        else one_digit fixed (c - b'0') (d ∷ s))
    else none

-- A number below `bound`, then what is left.
below : ℕ → Option (ℕ × Text) → Option (ℕ × Text)
below bound none = none
below bound (some (n, s)) = if ltb n bound then some (n, s) else none

-- The literal ":" of the layout.
colon : Option (ℕ × Text) → Option (ℕ × Text)
colon none = none
colon (some (n, [])) = none
colon (some (n, c ∷ s)) = if c == b':' then some (n, s) else none

drop_digits : Text → Text
drop_digits [] = []
drop_digits (c ∷ s) = let rest = drop_digits s in if is_digit c then rest else c ∷ s

-- A fraction of the second is read over, after a period or a comma.
drop_fraction : Text → Text
unfolding drop_digits
drop_fraction [] = []
drop_fraction (p ∷ []) = p ∷ []
drop_fraction (p ∷ c ∷ s) =
    if (p == b'.' || p == b',') && is_digit c then drop_digits s else p ∷ c ∷ s

-- The seconds of the day, where nothing is left of the text.
close : ℕ → Text → Option ℕ
close n [] = some n
close n (c ∷ s) = none

-- time.Parse("15:04:05", s) and time.Parse("15:04", s), without the fraction of the second.
parse_second : ℕ → ℕ → Option (ℕ × Text) → Option ℕ
unfolding close drop_fraction
parse_second h m none = none
parse_second h m (some (s, rest)) = close (h * 3600 + m * 60 + s) (drop_fraction rest)

parse_colon_second : ℕ → Option (ℕ × Text) → Option ℕ
unfolding getnum below parse_second
parse_colon_second h none = none
parse_colon_second h (some (m, rest)) = parse_second h m (below 60 (getnum true rest))

parse_minute : Bool → ℕ → Option (ℕ × Text) → Option ℕ
unfolding colon parse_colon_second close
parse_minute true h o = parse_colon_second h (colon o)
parse_minute false h none = none
parse_minute false h (some (m, rest)) = close (h * 3600 + m * 60) rest

parse_hour : Bool → Option (ℕ × Text) → Option ℕ
unfolding getnum below parse_minute
parse_hour seconds none = none
parse_hour seconds (some (h, rest)) = parse_minute seconds h (below 60 (getnum true rest))

unfoldable pub parse_layout : Bool → Text → Option ℕ
unfolding getnum below colon parse_hour
parse_layout seconds s = parse_hour seconds (colon (below 24 (getnum false s)))

-- The second layout is tried when the first one fails.
unfoldable pub parse_clock : Text → Option ℕ
unfolding parse_layout
parse_clock s = elim (parse_layout true s) [ some n ↦ some n | none ↦ parse_layout false s ]

unfoldable pub parse_time_of_day : Instant → Text → Option Instant
unfolding parse_clock
parse_time_of_day date s = elim (parse_clock s) [
  | none ↦ none
  | some n ↦ some (midnight (day_of date) + n * second_ns)
]

-- The zero time where parsing fails.
abbrev pub or_zero : Option Instant → Instant
or_zero none = 0
or_zero (some t) = t

unfoldable pub instant_on : Instant → Option Text → Instant
unfolding parse_time_of_day
instant_on date none = 0
instant_on date (some s) = or_zero (parse_time_of_day date s)

pub record FlightInstants : Type 0 where
  pub off_block : Instant
  pub takeoff : Instant
  pub landing : Instant
  pub on_block : Instant

-- The body of the loop of instantsOf.
unfoldable pub roll : Instant → Instant → Instant
roll anchor t = if not (t == 0) && before t anchor then t + day_ns else t

abbrev pub anchor_of : Instant → Instant → Instant
anchor_of off_block takeoff = if off_block == 0 then takeoff else off_block

unfoldable pub instants_of : Flight → FlightInstants
unfolding instant_on roll
instants_of f =
    let off_block = instant_on f.date f.off_block_time in
    let takeoff = instant_on f.date f.departure_time in
    let landing = instant_on f.date f.arrival_time in
    let on_block = instant_on f.date f.on_block_time in
    let anchor = anchor_of off_block takeoff in
    if anchor == 0
    then record { off_block = off_block; takeoff = takeoff; landing = landing; on_block = on_block }
    else record {
      off_block = off_block;
      takeoff = roll anchor takeoff;
      landing = roll anchor landing;
      on_block = roll anchor on_block;
    }

unfoldable pub in_block_window : Instant → Instant → Instant → Instant → Instant
in_block_window t from to fallback =
    if t == 0 || (not (from == 0) && before t from) || (not (to == 0) && after t to)
    then fallback
    else t

unfoldable pub takeoff_at : FlightInstants → Instant
unfolding in_block_window
takeoff_at i = in_block_window i.takeoff i.off_block i.on_block i.off_block

unfoldable pub landing_at : FlightInstants → Instant
unfolding in_block_window
landing_at i = in_block_window i.landing i.off_block i.on_block i.on_block

-- The second component is `ok`.
unfoldable pub on_block_instant : Flight → Instant × Bool
unfolding instants_of
on_block_instant f = let t = (instants_of f).on_block in (t, not (t == 0))

-- The end of blockMinutes, on the two instants.
unfoldable pub minutes_between : Instant → Instant → ℤ
minutes_between off on =
    let rolled = if after on off then on else on + day_ns in pos ((rolled - off) / minute_ns)

unfoldable pub parsed_minutes : Option Instant → Option Instant → ℤ
unfolding minutes_between
parsed_minutes (some off) (some on) = minutes_between off on
parsed_minutes _ _ = pos 0

-- The two block times of a flight with both.
given_minutes : Instant → Option Text → Option Text → ℤ
unfolding parse_time_of_day parsed_minutes
given_minutes date (some off) (some on) =
    parsed_minutes (parse_time_of_day date off) (parse_time_of_day date on)
given_minutes date _ _ = pos 0

unfoldable pub block_minutes : Flight → ℤ
unfolding given_minutes
block_minutes f = given_minutes f.date f.off_block_time f.on_block_time
