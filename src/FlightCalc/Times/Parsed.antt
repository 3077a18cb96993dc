-- ===== src/FlightCalc/Times/Parsed.antt =====
-- A text that parses is a time of its date (parseTimeOfDay and instantOn of
-- internal/service/flightcalc/flightcalc.go).
use ninerlog_api.Base.{
  ℕ, ◌+◌, ◌*◌, ◌≤◌, ◌<◌, ◌≡◌, ◌⊎◌, refl, Bool, true, false, inl, inr, Option, some, none, [], ◌∷◌,
  arith,
}
use ninerlog_api.Base.Text.{Text}
use ninerlog_api.Clock.{Instant, Day, midnight, day_of, day_ns}
use ninerlog_api.FlightCalc.Times.{
  second_ns, getnum, below, colon, close, drop_fraction, parse_second, parse_colon_second,
  parse_minute, parse_hour, parse_layout, parse_clock, parse_time_of_day, or_zero, instant_on,
}

-- A parsed time is a second of the day.
Below : ℕ → Option ℕ → Type 0
Below b none = Unit
Below b (some n) = n < b

BelowFirst : ℕ → Option (ℕ × Text) → Type 0
BelowFirst b none = Unit
BelowFirst b (some r) = r.0 < b

below-BelowFirst : (b : ℕ) (o : Option (ℕ × Text)) → BelowFirst b (below b o)
unfolding BelowFirst below
below-BelowFirst b none = tt
below-BelowFirst b (some (n, s)) = ground arith

colon-BelowFirst : (b : ℕ) (o : Option (ℕ × Text)) → BelowFirst b o → BelowFirst b (colon o)
unfolding BelowFirst colon
colon-BelowFirst b none h = tt
colon-BelowFirst b (some (n, [])) h = tt
colon-BelowFirst b (some (n, c ∷ s)) h = ground arith

close-Below : (b n : ℕ) (s : Text) → n < b → Below b (close n s)
unfolding Below close
close-Below b n [] h = h
close-Below b n (c ∷ s) h = tt

parse_second-Below :
    (h m : ℕ) (o : Option (ℕ × Text))
    → h < 24
    → m < 60
    → BelowFirst 60 o
    → Below 86400 (parse_second h m o)
unfolding parse_second BelowFirst Below
parse_second-Below h m none a b c = tt
parse_second-Below h m (some (s, rest)) a b c =
    close-Below 86400 (h * 3600 + m * 60 + s) (drop_fraction rest) (omega arith)

parse_colon_second-Below :
    (h : ℕ) (o : Option (ℕ × Text))
    → h < 24
    → BelowFirst 60 o
    → Below 86400 (parse_colon_second h o)
unfolding parse_colon_second BelowFirst Below
parse_colon_second-Below h none a b = tt
parse_colon_second-Below h (some (m, rest)) a b =
    parse_second-Below h m (below 60 (getnum true rest)) a b
      (below-BelowFirst 60 (getnum true rest))

parse_minute-Below :
    (seconds : Bool) (h : ℕ) (o : Option (ℕ × Text))
    → h < 24
    → BelowFirst 60 o
    → Below 86400 (parse_minute seconds h o)
unfolding parse_minute BelowFirst Below
parse_minute-Below true h o a b = parse_colon_second-Below h (colon o) a (colon-BelowFirst 60 o b)
parse_minute-Below false h none a b = tt
parse_minute-Below false h (some (m, rest)) a b =
    close-Below 86400 (h * 3600 + m * 60) rest (omega arith)

parse_hour-Below :
    (seconds : Bool) (o : Option (ℕ × Text)) → BelowFirst 24 o → Below 86400 (parse_hour seconds o)
unfolding parse_hour BelowFirst Below
parse_hour-Below seconds none a = tt
parse_hour-Below seconds (some (h, rest)) a =
    parse_minute-Below seconds h (below 60 (getnum true rest)) a
      (below-BelowFirst 60 (getnum true rest))

parse_layout-Below : (seconds : Bool) (s : Text) → Below 86400 (parse_layout seconds s)
unfolding parse_layout
parse_layout-Below seconds s =
    parse_hour-Below seconds (colon (below 24 (getnum false s)))
      (colon-BelowFirst 24 (below 24 (getnum false s)) (below-BelowFirst 24 (getnum false s)))

or_else-Below :
    (b : ℕ) (o p : Option ℕ)
    → Below b o
    → Below b p
    → Below b (elim o [ some n ↦ some n | none ↦ p ])
or_else-Below b none p h k = k
or_else-Below b (some n) p h k = h

parse_clock-Below : (s : Text) → Below 86400 (parse_clock s)
unfolding parse_clock
parse_clock-Below s =
    or_else-Below 86400 (parse_layout true s) (parse_layout false s) (parse_layout-Below true s)
      (parse_layout-Below false s)

-- An instant, where there is one, lies on the day.
abbrev pub OnDay : Day → Instant → Type 0
OnDay d t = (midnight d ≤ t) × (t < midnight d + day_ns)

at_second-OnDay :
    (d : Day) (o : Option ℕ) (t : Instant)
    → Below 86400 o
    → elim o [ none ↦ none | some n ↦ some (midnight d + n * second_ns) ] ≡ some t
    → OnDay d t
unfolding Below
at_second-OnDay d none t b h = absurd (cc h)
at_second-OnDay d (some n) t b h =
    let e : midnight d + n * second_ns ≡ t = cc h in (omega arith, omega arith)

pub parse_time_of_day-OnDay :
    (date : Instant) (s : Text) (t : Instant)
    → parse_time_of_day date s ≡ some t
    → OnDay (day_of date) t
unfolding parse_time_of_day
parse_time_of_day-OnDay date s t h =
    at_second-OnDay (day_of date) (parse_clock s) t (parse_clock-Below s) h

or_zero-OnDay :
    (d : Day) (o : Option Instant)
    → ((t : Instant) → o ≡ some t → OnDay d t)
    → (or_zero o ≡ 0) ⊎ OnDay d (or_zero o)
or_zero-OnDay d none h = inl refl
or_zero-OnDay d (some t) h = inr (h t refl)

pub instant_on-OnDay :
    (date : Instant) (o : Option Text)
    → (instant_on date o ≡ 0) ⊎ OnDay (day_of date) (instant_on date o)
unfolding instant_on
instant_on-OnDay date none = inl refl
instant_on-OnDay date (some s) =
    or_zero-OnDay (day_of date) (parse_time_of_day date s) (parse_time_of_day-OnDay date s)

pub set_OnDay : (d : Day) (t : Instant) → (t ≡ 0) ⊎ OnDay d t → 0 < t → OnDay d t
set_OnDay d t (inl e) h = absurd (omega (arith, e))
set_OnDay d t (inr k) h = k
