-- ===== src/Currency/Pax/Lapse.antt =====
-- paxLapseDate of lapse.go: its test is monotone as lastCurrentDay asks, so its date is the day
-- after the last current one.
use ninerlog_api.Base.{
  ℕ, suc, ◌+◌, ◌-◌, ◌≤◌, ◌<◌, ◌≡◌, ◌⊎◌, refl, Bool, true, false, ◌||◌, ◌&&◌, Option, none, some,
  List, [], ◌∷◌, All, arith, leb, ◌==◌, if◌then◌else◌,
}
use mathlib.Core.Path.{subst}
use native.Mathlib.Decide.{dec_lt}
use ninerlog_api.Base.{sym}
use ninerlog_api.Clock.{Instant, Day, day_of, midnight}
use ninerlog_api.Currency.Provider.{LandingDay}
use ninerlog_api.Currency.Lapse.{lapse_search_floor, max_lapse_search_rounds, lapse_after}
use ninerlog_api.Currency.Lapse.Rounds.{IsMonotone, NoneCurrent, Answers, last_current_day-Answers}
use ninerlog_api.Currency.Pax.{window_total, pax_met_at, pax_lapse_date, waived}
use ninerlog_api.Currency.Pax.Expiry.{NewestFirst}

module _ (count : LandingDay → ℕ) where
  -- The landings from `start` on and up to `until`, in any order.
  sum_within : Instant → Instant → List LandingDay → ℕ
  sum_within start until [] = 0
  sum_within start until (d ∷ days) =
      let rest = sum_within start until days in
      if leb start d.date && leb d.date until then count d + rest else rest

  sum_within_old :
      (start until : Instant) (d : LandingDay) (days : List LandingDay)
      → All (λ (e : LandingDay). e.date ≤ d.date) days
      → d.date < start
      → sum_within start until days ≡ 0
  unfolding sum_within
  sum_within_old start until d [] h lt = refl
  sum_within_old start until d (e ∷ days) h lt =
      ground (arith, h.0, sum_within_old start until d days h.1 lt)

  -- With days newest first, the loop that breaks off counts the same.
  window_total-sum_within :
      (start until : Instant) (days : List LandingDay)
      → NewestFirst days
      → window_total count start until days ≡ sum_within start until days
  unfolding sum_within window_total
  window_total-sum_within start until [] n = refl
  window_total-sum_within start until (d ∷ days) n =
      ground
        (arith, window_total-sum_within start until days n.1, sum_within_old start until d days n.0)

  sum_within_mono :
      (start start' until until' : Instant) (days : List LandingDay)
      → start' ≤ start
      → until ≤ until'
      → sum_within start until days ≤ sum_within start' until' days
  unfolding sum_within
  sum_within_mono start start' until until' [] a b = omega arith
  sum_within_mono start start' until until' (d ∷ days) a b =
      ground (arith, sum_within_mono start start' until until' days a b)

-- The number of landing days up to an instant.
unfoldable pub days_until : Instant → List LandingDay → ℕ
days_until until [] = 0
days_until until (d ∷ days) =
    let rest = days_until until days in if leb d.date until then suc rest else rest

days_until_mono :
    (until until' : Instant) (days : List LandingDay)
    → until ≤ until'
    → days_until until days ≤ days_until until' days
unfolding days_until
days_until_mono until until' [] h = omega arith
days_until_mono until until' (d ∷ days) h = ground (arith, days_until_mono until until' days h)

-- A later instant up to which no more days lie counts no more landings.
sum_within_same :
    (count : LandingDay → ℕ) (start until until' : Instant) (days : List LandingDay)
    → until ≤ until'
    → days_until until' days ≤ days_until until days
    → sum_within count start until' days ≤ sum_within count start until days
unfolding sum_within days_until
sum_within_same count start until until' [] h k = omega arith
sum_within_same count start until until' (d ∷ days) h k =
    ground
      (arith, days_until_mono until until' days h, sum_within_same count start until until' days h)

or_mono :
    (a a' b b' : Bool)
    → (a ≡ true → a' ≡ true)
    → (b ≡ true → b' ≡ true)
    → a || b ≡ true
    → a' || b' ≡ true
or_mono a a' b b' f g h = grind (arith, f, g, h)

leb_mono : (r a b : ℕ) → a ≤ b → leb r a ≡ true → leb r b ≡ true
leb_mono r a b h k = ground arith

waived_earlier :
    (waiver : Option Instant) (d e : Day) → d ≤ e → waived waiver e ≡ true → waived waiver d ≡ true
waived_earlier none d e h k = k
waived_earlier (some w) d e h k = ground arith

module _ (history : List LandingDay) (required : ℕ) (count : LandingDay → ℕ)
    (waiver : Option Instant) (n : NewestFirst history) where
  counted : Day → Day → ℕ
  counted day until = sum_within count (midnight (day - 90)) (midnight until) history

  -- The test of paxLapseDate, by the landings in the window in any order.
  pax_met_at-sum_within :
      (day until : Day)
      → pax_met_at history required count waiver day until
        ≡ (waived waiver day || leb required (counted day until))
  unfolding pax_met_at counted
  pax_met_at-sum_within day until =
      rw (window_total-sum_within count (midnight (day - 90)) (midnight until) history n) refl

  met_mono :
      (d e u v : Day)
      → d ≤ e
      → u ≤ v
      → pax_met_at history required count waiver e u ≡ true
      → pax_met_at history required count waiver d v ≡ true
  unfolding counted
  met_mono d e u v h k =
      rw (pax_met_at-sum_within e u, pax_met_at-sum_within d v)
        (or_mono (waived waiver e) (waived waiver d) (leb required (counted e u))
          (leb required (counted d v)) (waived_earlier waiver d e h)
          (leb_mono required (counted e u) (counted d v) (
            sum_within_mono count (midnight (e - 90)) (midnight (d - 90)) (midnight u) (midnight v)
              history (omega arith) (omega arith))))

  -- A day on which only later flights help has such a flight after it.
  met_passes :
      (d u : Day)
      → d ≤ u
      → 0 < d
      → pax_met_at history required count waiver d u ≡ true
      → pax_met_at history required count waiver d d ≡ false
      → days_until (midnight (d - 1)) history < days_until (midnight u) history
  unfolding counted
  met_passes d u h pos_d on off =
      elim (dec_lt (days_until (midnight (d - 1)) history) (days_until (midnight u) history)) [
        | yes p ↦ p
        | no p ↦
            let same : counted d u ≤ counted d d =
              sum_within_same count (midnight (d - 90)) (midnight d) (midnight u) history
                (omega arith)
                (omega (
                  arith,
                  p,
                  days_until_mono (midnight (d - 1)) (midnight d) history (omega arith),
                )) in
            absurd (
              cc (
                off,
                subst (λ b. b ≡ true) (sym (pax_met_at-sum_within d d))
                    (or_mono (waived waiver d) (waived waiver d) (leb required (counted d u))
                      (leb required (counted d d)) (λ k. k)
                      (leb_mono required (counted d u) (counted d d) same)
                      (subst (λ b. b ≡ true) (pax_met_at-sum_within d u) on)),
              ))
      ]

  pub pax_met_at-IsMonotone :
      IsMonotone
        (pax_met_at history required count waiver)
        (λ until. days_until (midnight until) history)
        lapse_search_floor
  pax_met_at-IsMonotone = record {
    earlier = λ d e u h k. met_mono d e u u h (omega arith);
    later = λ d u h. met_mono d d d u (omega arith) h;
    passes = λ d u f h. met_passes d u h (omega arith);
    floor_pos = omega arith;
  }

-- What paxLapseDate answers for a positive requirement: a date is the day after the last day on
-- which the landings up to that day met the requirement; no date means that no day before today
-- from 1900 on met it, or that there are at least 64 landing days.
abbrev pub LapseAnswers :
    List LandingDay → ℕ → (LandingDay → ℕ) → Option Instant → (today : Day) → Option Day → Type 0
LapseAnswers history required count waiver today none =
    (max_lapse_search_rounds ≤ days_until (midnight (today - 1)) history)
    ⊎ NoneCurrent (pax_met_at history required count waiver) lapse_search_floor (today - 1)
LapseAnswers history required count waiver today (some e) =
    (lapse_search_floor < e)
    × (e ≤ today)
    × (pax_met_at history required count waiver (e - 1) (e - 1) ≡ true)
    × NoneCurrent (pax_met_at history required count waiver) e (today - 1)

-- A right answer of the search is a right lapse date.
lapse_of :
    (history : List LandingDay) (required : ℕ) (count : LandingDay → ℕ) (waiver : Option Instant)
    (today : Day) (r : Option (Option Day))
    → Answers
        (pax_met_at history required count waiver)
        (λ until. days_until (midnight until) history)
        lapse_search_floor
        max_lapse_search_rounds
        (today - 1)
        r
    → LapseAnswers history required count waiver today
        (elim r [ none ↦ none | some last ↦ lapse_after last ])
lapse_of history required count waiver today none h = absurd h
lapse_of history required count waiver today (some none) h = h
lapse_of history required count waiver today (some (some d)) (h₀, h₁, h₂, h₃) =
    let back : d + 1 - 1 ≡ d = omega arith in
    (omega arith, omega arith, rw back h₂, λ e a b. h₃ e (omega arith) b)

-- paxLapseDate of landing days newest first, for a positive requirement: a date is the day after the
-- last day before today on which the landings of the 90 days up to it, or the waiver, met the
-- requirement; without a date there is no such day from 1900 on, unless there are 64 landing days or
-- more before today.
pub pax_lapse_date-LapseAnswers :
    (history : List LandingDay) (required : ℕ) (count : LandingDay → ℕ) (waiver : Option Instant)
    (today : Instant)
    → NewestFirst history
    → 0 < required
    → LapseAnswers history required count waiver
        (day_of today)
        (pax_lapse_date history required count waiver today)
unfolding pax_lapse_date
pax_lapse_date-LapseAnswers history required count waiver today n pos_required =
    let some_required : (required == 0) ≡ false = ground arith in
    rw (some_required) (
      lapse_of history required count waiver (day_of today) _ (
        last_current_day-Answers (pax_met_at-IsMonotone history required count waiver n)
          (day_of today)))
