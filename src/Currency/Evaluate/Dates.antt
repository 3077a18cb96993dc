-- ===== src/Currency/Evaluate/Dates.antt =====
-- The date until which evalRatingRuleWithPeers says that a rule stays current.
use mathlib.Core.Path.{subst}
use ninerlog_api.Base.{
  ℕ, ◌+◌, ◌≤◌, ◌≡◌, sym, ap, ◌∙◌, Bool, true, false, ◌&&◌, Option, none, some, List, arith,
  if◌then◌else◌,
}
use ninerlog_api.Clock.{Instant, Day, day_of, midnight, day_text}
use ninerlog_api.Models.{ClassRating, License}
use ninerlog_api.Currency.Types.{Status, current, ClassRatingCurrency}
use ninerlog_api.Currency.Provider.{FlightDataProvider}
use ninerlog_api.Currency.Engine.{RatingRule, is_rolling, eval_rating_rule_at}
use ninerlog_api.Currency.Lapse.Forward.{OffsetAnswers, last_current_offset-OffsetAnswers}
use ninerlog_api.Currency.Evaluate.{
  is_current, window_span, current_on, recency_lapse_date, eval_rating_rule_with_peers,
}

-- A day is the last one, not before today nor more than a window ahead, at whose midnight the rule
-- evaluates to current, so far as the next day does not.
pub record IsLastCurrent (status_at : Instant → Option Status) (today span d : Day) : Type 0 where
  pub from_today : today ≤ d
  pub within : d ≤ today + span
  pub current_there : is_current (status_at (midnight d)) ≡ true
  pub next_not : is_current (status_at (midnight (d + 1))) ≡ false

lapsed_keeps :
    (b : Bool) (r : ClassRatingCurrency) (x : Option Instant)
    → (if b then record r { lapsed_on = x } else r).recency_expires_on ≡ r.recency_expires_on
lapsed_keeps b r x = ground arith

branch_true :
    (b : Bool) (r s : ClassRatingCurrency)
    → b ≡ true
    → (if b then r else s).recency_expires_on ≡ r.recency_expires_on
branch_true b r s h = ground arith

module _ (wall : Instant) (rule : RatingRule) (rating : ClassRating) (license : License)
    (peers : List ClassRating) (dp : FlightDataProvider) where
  abbrev pub status_at : Instant → Option Status
  status_at now = (eval_rating_rule_at wall rule rating license peers dp now).status

  DateAnswers : Day → Option Instant → Type 0
  DateAnswers today none = Unit
  DateAnswers today (some t) =
      IsLastCurrent status_at today (window_span rule.spec.window today) (day_of t)

  offset_date :
      (today : Day) (o : Option ℕ)
      → OffsetAnswers
          (current_on wall rule rating license peers dp today)
          (window_span rule.spec.window today)
          o
      → DateAnswers today (elim o [ none ↦ none | some n ↦ some (midnight (today + n)) ])
  unfolding current_on DateAnswers
  offset_date today none h = tt
  offset_date today (some n) h =
      let e : today + n ≡ day_of (midnight (today + n)) = omega arith in
      subst (IsLastCurrent status_at today (window_span rule.spec.window today)) e (record {
        from_today = omega arith;
        within = omega (arith, h.below_hi);
        current_there = h.is_current;
        next_not =
            subst (λ k. is_current (status_at (midnight k)) ≡ false) (omega arith) h.next_not;
      })

  recency_lapse_date-DateAnswers :
      (now : Instant)
      → DateAnswers (day_of now) (recency_lapse_date wall rule rating license peers dp now)
  unfolding recency_lapse_date
  recency_lapse_date-DateAnswers now = offset_date (day_of now) _ (
      last_current_offset-OffsetAnswers (current_on wall rule rating license peers dp (day_of now))
        (window_span rule.spec.window (day_of now)))

  dated :
      (o : Option Instant) (d : Day)
      → DateAnswers (day_of wall) o
      → day_text o ≡ some d
      → IsLastCurrent status_at (day_of wall) (window_span rule.spec.window (day_of wall)) d
  unfolding DateAnswers
  dated none d h e = absurd cc
  dated (some t) d h e =
      let same : day_of t ≡ d = cc in
      subst (IsLastCurrent status_at (day_of wall) (window_span rule.spec.window (day_of wall)))
        same h

  -- For a rule with a rolling window that is current now, the date reported as recencyExpiresOn is a
  -- day from today on, at most a window ahead, at whose midnight the rule still evaluates to current
  -- for the same flights, while at the next midnight it does not.
  pub recency_expires_on-IsLastCurrent :
      (requested : Bool) (as_of : Option (Instant → FlightDataProvider)) (d : Day)
      → is_rolling rule.spec.window ≡ true
      → status_at wall ≡ some current
      → (eval_rating_rule_with_peers wall rule rating license peers requested dp
          as_of).recency_expires_on
        ≡ some d
      → IsLastCurrent status_at (day_of wall) (window_span rule.spec.window (day_of wall)) d
  unfolding eval_rating_rule_with_peers
  recency_expires_on-IsLastCurrent requested as_of d r c e =
      dated (recency_lapse_date wall rule rating license peers dp wall) d
        (recency_lapse_date-DateAnswers wall)
        (sym (
            lapsed_keeps _ _ _
            ∙ branch_true _ _ _ (ap (λ x. x && is_current (status_at wall)) r ∙ ap is_current c))
          ∙ e)
