-- ===== src/Currency/Evaluate.antt =====
-- The entry of the engine, evalRatingRuleWithPeers of engine.go, with recencyLapseDate, and the
-- re-evaluation at past days of lapse.go (ratingLapseDate). `requested` is lapseDatesRequested, and
-- `as_of` is the provider's AsOf, none where it is no AsOfProvider.
pub mod Dates
use ninerlog_api.Base.{ℕ, ◌+◌, Bool, true, false, ◌&&◌, Option, none, some, List, if◌then◌else◌}
use ninerlog_api.Base.Int.{pos_part}
use ninerlog_api.Clock.{Instant, Day, day_of, midnight, day_text, midnight_of, add_date, sub_days}
use ninerlog_api.Models.{ClassRating, License}
use ninerlog_api.Currency.Types.{Status, current, expiring, expired, ClassRatingCurrency}
use ninerlog_api.Currency.Provider.{FlightDataProvider}
use ninerlog_api.Currency.Engine.{WindowSpec, RatingRule, is_rolling, eval_rating_rule_at}
use ninerlog_api.Currency.Lapse.{
  lapse_search_floor, last_current_day, lapse_after, last_current_offset,
}

abbrev pub is_current : Option Status → Bool
is_current (some current) = true
is_current _ = false

-- Lapsed as evalRatingRuleWithPeers reads it: expiring or expired.
abbrev pub is_lapsed : Option Status → Bool
is_lapsed (some expiring) = true
is_lapsed (some expired) = true
is_lapsed _ = false

-- The days of a whole window ahead of a day.
unfoldable pub window_span : WindowSpec → Day → ℕ
unfolding add_date sub_days
window_span w today =
    pos_part (sub_days (add_date (midnight today) w.years w.months w.days) (midnight today))

module _ (wall : Instant) (rule : RatingRule) (rating : ClassRating) (license : License)
    (peers : List ClassRating) where
  -- Whether the rule is current at midnight of the n-th day from today.
  unfoldable pub current_on : FlightDataProvider → Day → ℕ → Bool
  unfolding eval_rating_rule_at
  current_on dp today n =
      is_current
        (eval_rating_rule_at wall rule rating license peers dp (midnight (today + n))).status

  unfoldable pub recency_lapse_date : FlightDataProvider → Instant → Option Instant
  unfolding current_on last_current_offset window_span
  recency_lapse_date dp now =
      let today = day_of now in
      elim (last_current_offset (current_on dp today) (window_span rule.spec.window today)) [
        | none ↦ none
        | some n ↦ some (midnight (today + n))
      ]

  -- Whether the rule was current at noon of a day, reading flights up to another.
  unfoldable pub current_as_of : (Instant → FlightDataProvider) → Day → Day → Bool
  unfolding eval_rating_rule_at
  current_as_of as_of day until =
      is_current
        (eval_rating_rule_at wall rule rating license peers (as_of (midnight until))
          (midnight day + 43200000000000)).status

  unfoldable pub rating_lapse_date : Option (Instant → FlightDataProvider) → Instant → Option Day
  unfolding current_as_of last_current_day
  rating_lapse_date none now = none
  rating_lapse_date (some as_of) now =
      elim (last_current_day (day_of now) lapse_search_floor
        (λ day until. some (current_as_of as_of day until))) [
          | none ↦ none
          | some last ↦ lapse_after last
        ]

  -- time.Now() is read once for `now`.
  unfoldable pub eval_rating_rule_with_peers :
      (requested : Bool)
      → FlightDataProvider
      → Option (Instant → FlightDataProvider)
      → ClassRatingCurrency
  unfolding eval_rating_rule_at is_rolling recency_lapse_date rating_lapse_date
  eval_rating_rule_with_peers requested dp as_of =
      let result = eval_rating_rule_at wall rule rating license peers dp wall in
      let rolling = is_rolling rule.spec.window in
      let dated =
        if rolling && is_current result.status
        then record result { recency_expires_on = day_text (recency_lapse_date dp wall) }
        else result in
      if rolling && is_lapsed result.status && requested
      then record dated { lapsed_on = midnight_of (rating_lapse_date as_of wall) }
      else dated
