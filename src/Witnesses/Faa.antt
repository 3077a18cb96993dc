-- ===== src/Witnesses/Faa.antt =====
-- The theorems on the FAA rules and the flight review, applied to concrete data.
use ninerlog_api.Base.{◌+◌, ◌-◌, ◌≤◌, ◌≡◌, refl, ◌↔◌, ◌⊎◌, true, some, []}
use ninerlog_api.Clock.{midnight}
use ninerlog_api.Models.{ir}
use ninerlog_api.Currency.Types.{current}
use ninerlog_api.Currency.Engine.{fetch_progress, start_runtime, since_rolling}
use ninerlog_api.Currency.Engine.{add_progress}
use ninerlog_api.Base.{false, ◌<◌, ◌*◌}
use ninerlog_api.Clock.{day_ns}
use ninerlog_api.Models.{glider}
use ninerlog_api.Models.Expiry.{is_expired_at}
use ninerlog_api.Currency.Types.{expiring, expired}
use ninerlog_api.Currency.Faa.{faa_instrument_rule, faa_glider_rule}
use ninerlog_api.Currency.Faa.Decisions.{
  Splits, InstrumentExperience, faa_status, faa_glider-Splits, faa_instrument-Splits,
}
use ninerlog_api.Currency.FlightReview.{
  review_expires_on, evaluate_flight_review, faa_flight_review_status_lem,
}
use ninerlog_api.Witnesses.{today, pilot, rated, flown, logbook}

faa_glider-Splits_example :
    Splits
      (faa_status
        (midnight today)
        (rated glider)
        pilot
        []
        (logbook flown)
        (midnight today)
        flown
        faa_glider_rule)
      (3 ≤ 20)
      ⊥
      (20 < 3)
unfolding fetch_progress start_runtime faa_glider_rule add_progress since_rolling
faa_glider-Splits_example =
    faa_glider-Splits (midnight today) (rated glider) pilot [] (logbook flown) (midnight today)
      flown refl

faa_instrument-Splits_example :
    Splits
      (faa_status
        (midnight today)
        (rated ir)
        pilot
        []
        (logbook flown)
        (midnight today)
        flown
        faa_instrument_rule)
      ((is_expired_at (rated ir) (midnight today) ≡ false) × InstrumentExperience flown)
      ((is_expired_at (rated ir) (midnight today) ≡ false)
        × ¬ InstrumentExperience flown
        × InstrumentExperience flown)
      ((is_expired_at (rated ir) (midnight today) ≡ true)
        ⊎ (¬ InstrumentExperience flown × ¬ InstrumentExperience flown))
unfolding fetch_progress start_runtime faa_instrument_rule since_rolling
faa_instrument-Splits_example =
    faa_instrument-Splits (midnight today) (rated ir) pilot [] (logbook flown) (midnight today)
      flown refl

-- The review of 2025-10-07 expires on 2027-10-31.
faa_flight_review_status_lem_example :
    let r = evaluate_flight_review (midnight today) 7 (logbook flown) in
    let end_of_validity = midnight (review_expires_on (midnight (today - 100)) + 1) in
    (r.expires_on ≡ some (review_expires_on (midnight (today - 100))))
    × ((r.status ≡ expired) ↔ (end_of_validity ≤ midnight today))
    × ((r.status ≡ expiring)
        ↔ ((midnight today < end_of_validity) × (end_of_validity < midnight today + 91 * day_ns)))
    × ((r.status ≡ current) ↔ (midnight today + 91 * day_ns ≤ end_of_validity))
faa_flight_review_status_lem_example =
    faa_flight_review_status_lem (midnight today) (midnight (today - 100)) 7 (logbook flown) refl
