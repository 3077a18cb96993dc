-- ===== src/Currency/Faa/Decisions.antt =====
-- What the FAA rules of faa.go decide, by the flights read. The window of the instrument rule starts
-- on the day 6 months before now, while the rule's own comment and text, and T3 in docs/PERSONAS.md,
-- have 6 calendar months: approaches flown in the sixth calendar month before, but earlier than that
-- day, count by the text and not by the code.
use mathlib.Core.Path.{subst}
use ninerlog_api.Base.{◌⊎◌, ◌∙◌}
use ninerlog_api.Base.{
  ◌≤◌, ◌<◌, ◌≡◌, sym, ap, ◌↔◌, Bool, true, false, ◌&&◌, leb, Option, none, some, List, arith,
  if◌then◌else◌,
}
use ninerlog_api.Clock.{Instant, sub_date}
use ninerlog_api.Models.{ClassRating, License}
use ninerlog_api.Models.Expiry.{is_expired_at}
use ninerlog_api.Currency.Types.{Status, current, expiring, expired, Progress}
use ninerlog_api.Currency.Provider.{FlightDataProvider}
use ninerlog_api.Currency.Engine.{
  build_req, RatingRuntime, RatingRule, fetch_progress, since_rolling, start_runtime,
  eval_rating_rule_at,
}
use ninerlog_api.Currency.Faa.{
  decide_now, from_now, grace_met, faa_instrument_decide, faa_instrument_rule, faa_glider_decide,
  faa_glider_rule,
}

-- A status among current, expiring and expired, each exactly under its condition.
abbrev pub Splits : Option Status → Type 0 → Type 0 → Type 0 → Type 0
Splits status Current Expiring Expired =
    ((status ≡ some current) ↔ Current)
    × ((status ≡ some expiring) ↔ Expiring)
    × ((status ≡ some expired) ↔ Expired)

faa_glider_decide-Splits :
    (rt : RatingRuntime) (p : Progress)
    → Splits (faa_glider_decide rt p).status (3 ≤ p.landings) ⊥ (p.landings < 3)
unfolding faa_glider_decide build_req
faa_glider_decide-Splits rt p = ground arith

-- The experience of 14 CFR 61.57(c), if it could be read.
abbrev pub InstrumentExperience : Progress → Type 0
InstrumentExperience p = (6 ≤ p.approaches) × (1 ≤ p.holds)

abbrev pub GraceExperience : Option Progress → Type 0
GraceExperience none = ⊥
GraceExperience (some p) = InstrumentExperience p

abbrev instrument_status : Bool → Bool → Progress → Option Status
instrument_status gone grace p =
    if gone
    then some expired
    else if leb 6 p.approaches && leb 1 p.holds
    then some current
    else if grace
    then some expiring
    else some expired

-- The branches of the instrument rule, by its tests.
instrument_branches :
    (gone : Bool) (year : Option Progress) (p : Progress)
    → Splits
        (instrument_status gone (grace_met year) p)
        ((gone ≡ false) × InstrumentExperience p)
        ((gone ≡ false) × ¬ InstrumentExperience p × GraceExperience year)
        ((gone ≡ true) ⊎ (¬ InstrumentExperience p × ¬ GraceExperience year))
unfolding grace_met
instrument_branches gone none p = ground arith
instrument_branches gone (some q) p = ground arith

faa_instrument_decide-status :
    (rt : RatingRuntime) (p : Progress)
    → (faa_instrument_decide rt p).status
      ≡ instrument_status
          (is_expired_at rt.rating rt.wall)
          (grace_met (rt.dp.get_progress_all rt.license.user_id (sub_date rt.now 1 0 0)))
          p
unfolding faa_instrument_decide build_req
faa_instrument_decide-status rt p = ground arith

module _ (wall : Instant) (rating : ClassRating) (license : License) (peers : List ClassRating)
    (dp : FlightDataProvider) (now : Instant) (p : Progress) where
  -- The flights that a rule counts are read.
  abbrev pub Fetched : RatingRule → Type 0
  Fetched rule =
      fetch_progress (since_rolling (start_runtime wall rule.spec rating license peers dp now))
      ≡ some p

  abbrev pub faa_status : RatingRule → Option Status
  faa_status rule = (eval_rating_rule_at wall rule rating license peers dp now).status

  -- FAA glider category, with the flights of the window read: current exactly with 3 landings, else
  -- expired, never expiring.
  pub faa_glider-Splits :
      Fetched faa_glider_rule
      → Splits (faa_status faa_glider_rule) (3 ≤ p.landings) ⊥ (p.landings < 3)
  unfolding eval_rating_rule_at faa_glider_rule from_now decide_now
  faa_glider-Splits h =
      let rt : RatingRuntime =
        since_rolling (start_runtime wall faa_glider_rule.spec rating license peers dp now) in
      subst
        (λ o. Splits (decide_now faa_glider_decide rt o).status (3 ≤ p.landings) ⊥ (p.landings < 3))
        (sym h) (faa_glider_decide-Splits rt p)

  -- FAA 14 CFR 61.57(c)/(d): with the flights read since 6 months before now, not since the first
  -- of a calendar month, the instrument rating is current exactly if it is not past an expiry date
  -- and has 6 approaches and a hold in them. It is
  -- expiring exactly if it is not past the date, lacks these, and the flights of the last year could
  -- be read and have them; it is expired exactly if it is past the date or lacks both.
  pub faa_instrument-Splits :
      Fetched faa_instrument_rule
      → Splits
          (faa_status faa_instrument_rule)
          ((is_expired_at rating wall ≡ false) × InstrumentExperience p)
          ((is_expired_at rating wall ≡ false)
            × ¬ InstrumentExperience p
            × GraceExperience (dp.get_progress_all license.user_id (sub_date now 1 0 0)))
          ((is_expired_at rating wall ≡ true)
            ⊎ (¬ InstrumentExperience p
                × ¬ GraceExperience (dp.get_progress_all license.user_id (sub_date now 1 0 0))))
  unfolding eval_rating_rule_at faa_instrument_rule from_now decide_now
  faa_instrument-Splits h =
      let rt : RatingRuntime =
        since_rolling (start_runtime wall faa_instrument_rule.spec rating license peers dp now) in
      let year : Option Progress = dp.get_progress_all license.user_id (sub_date now 1 0 0) in
      let e : faa_status faa_instrument_rule
          ≡ instrument_status (is_expired_at rating wall) (grace_met year) p =
        ap (λ o. (decide_now faa_instrument_decide rt o).status) h
        ∙ faa_instrument_decide-status rt p in
      subst
        (λ s.
          Splits s ((is_expired_at rating wall ≡ false) × InstrumentExperience p)
            ((is_expired_at rating wall ≡ false) × ¬ InstrumentExperience p × GraceExperience year)
            ((is_expired_at rating wall ≡ true)
              ⊎ (¬ InstrumentExperience p × ¬ GraceExperience year)))
        (sym e) (instrument_branches (is_expired_at rating wall) year p)
