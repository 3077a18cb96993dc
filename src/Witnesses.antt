-- ===== src/Witnesses.antt =====
-- Concrete licences, ratings and flights, to which the theorems are applied below.
mod Easa
mod Engine
mod Pax
mod Faa
mod Service
mod Flight
mod Rules
mod Versions
use ninerlog_api.Base.{
  ◌+◌, ◌-◌, ◌≤◌, ◌≡◌, refl, ◌↔◌, ◌≢◌, ◌⊎◌, true, Option, none, some, List, [], ◌∷◌, arith, leb,
}
use ninerlog_api.Clock.{Instant, Day, midnight, sub_date}
use ninerlog_api.Models.{sep_land, mep_land, ir, ClassType, ClassRating, License}
use ninerlog_api.Models.Expiry.{days_until_expiry}
use ninerlog_api.Currency.Types.{current, Progress, no_progress, LaunchMethod}
use ninerlog_api.Currency.Provider.{LandingDay, FlightDataProvider}
use ninerlog_api.Currency.Engine.{
  RatingRuntime, RatingRule, fetch_progress, last_proficiency_check, start_runtime, since_rolling,
  eval_rating_rule_at, recency_finalize,
}
use ninerlog_api.Currency.Types.{Status}
use ninerlog_api.Currency.Engine.{
  add_progress, base_result, Metric, metric_val, m_total_minutes, m_pic_minutes, m_ifr_minutes,
  m_instructor_minutes, m_landings, m_night_landings, m_flights, m_approaches, m_holds,
  m_pic_or_dual_minutes, m_launches, m_training_flights, m_longest_training_flight,
}
use ninerlog_api.Currency.Easa.Windows.{result_of, ReportsNoWindow, open_window_lost}
use ninerlog_api.Currency.Easa.Revalidation.{apply_closed_window}
use ninerlog_api.Currency.Easa.Recency.{easa_lapl_rule}
use ninerlog_api.Currency.Pax.{pax_lapse_date}
use ninerlog_api.Currency.Pax.Lapse.{
  LapseAnswers, days_until, pax_met_at-IsMonotone, pax_lapse_date-LapseAnswers,
}
use ninerlog_api.Currency.Lapse.Rounds.{Answers, last_current_day-Answers}
use ninerlog_api.Currency.Lapse.{
  last_current_offset, last_current_day, lapse_search_floor, max_lapse_search_rounds,
}
use ninerlog_api.Base.{false, ◌<◌, ◌*◌}
use ninerlog_api.Clock.{day_ns}
use ninerlog_api.Models.{glider}
use ninerlog_api.Models.Expiry.{is_expired_at}
use ninerlog_api.Currency.Types.{expiring, expired}
use ninerlog_api.Base.{if◌then◌else◌}
use ninerlog_api.Currency.Engine.{is_rolling}
use ninerlog_api.Currency.Evaluate.{window_span, recency_lapse_date, eval_rating_rule_with_peers}
use ninerlog_api.Currency.Evaluate.Dates.{
  IsLastCurrent, status_at, recency_expires_on-IsLastCurrent,
}
use ninerlog_api.Base.{ℕ, ◌==◌}
use ninerlog_api.Base.Text.{codes}
use ninerlog_api.Currency.Service.{
  Evaluation, default_registry, start, holds_part_fcl_tmg, eval_licenses, evaluate_all,
}
use ninerlog_api.Currency.Service.Loops.{all_results, evaluate_all-all_results}
use ninerlog_api.Currency.Service.Passengers.{OncePerKey, evaluate_all-OncePerKey}
use ninerlog_api.Currency.Faa.{faa_passenger_rating_rule, faa_instrument_rule, faa_glider_rule}
use ninerlog_api.Currency.Faa.Decisions.{
  Splits, InstrumentExperience, faa_status, faa_glider-Splits, faa_instrument-Splits,
}
use ninerlog_api.Currency.FlightReview.{
  review_expires_on, evaluate_flight_review, faa_flight_review_status_lem,
}
use ninerlog_api.Currency.Pax.{pax_totals}
use ninerlog_api.Currency.Pax.Easa.{
  easa_night_privilege, has_valid_ir_rating, gpl_shortfall, has_night_privilege,
}
use ninerlog_api.Currency.Pax.Statuses.{DaySays, NightSays, easa_pax, easa_pax_lem}
use ninerlog_api.Currency.Pax.FaaStatuses.{faa_pax}
use ninerlog_api.Currency.Lapse.Forward.{OffsetAnswers, last_current_offset-OffsetAnswers}
use ninerlog_api.Currency.Pax.{all_landings, pax_met_at, pax_expiry_date}
use ninerlog_api.Currency.Pax.Expiry.{pax_expiry_date-pax_met_at}
use ninerlog_api.Currency.Easa.Revalidation.{easa_sep_tmg_rule, easa_mep_set_rule, easa_ir_rule}
use ninerlog_api.Currency.Easa.Decisions.{
  Decides, SepTmgExperience, sep_tmg-Decides, mep_set-Decides, ir-Decides,
}

-- 2026-01-15
abbrev pub today : Day
today = 739630

abbrev pub pilot : License
pilot = record {
  id = 1;
  user_id = 7;
  regulatory_authority = [];
  license_type = [];
  issue_date = midnight 735000;
}

abbrev pub rated : ClassType → ClassRating
rated ct = record {
  id = 1;
  license_id = 1;
  class_type = ct;
  ul_kind = none;
  issue_date = midnight 735000;
  expiry_date = some (midnight (today + 200));
}

abbrev pub flown : Progress
flown = record no_progress {
  total_minutes = 900;
  pic_minutes = 500;
  ifr_minutes = 700;
  instructor_minutes = 90;
  landings = 20;
  flights = 15;
}

abbrev pub flown_more : Progress
flown_more = record flown { landings = 30 }

abbrev pub landed : List LandingDay
landed =
    record { date = midnight (today - 5); day_landings = 2; night_landings = 0 }
    ∷ record { date = midnight (today - 40); day_landings = 1; night_landings = 1 }
    ∷ []

-- A provider that returns the same flights whatever the window is.
abbrev pub logbook : Progress → FlightDataProvider
logbook p = record {
  get_progress_by_aircraft_class = λ user classes towed since. some p;
  get_progress_all = λ user since. some p;
  get_last_flight_review = λ user. some (some (midnight (today - 100)));
  get_last_proficiency_check = λ user classes since. some (some (midnight (today - 30)));
  get_launch_counts = λ user ct since. some (λ (m : LaunchMethod). 0);
  get_landing_days_by_aircraft_class = λ user ct towed pic since. some landed;
  get_progress_by_ul_kind = λ user sel towed since. some no_progress;
  get_last_proficiency_check_by_ul_kind = λ user sel since. some none;
  get_landing_days_by_ul_kind = λ user sel pic since. some [];
}

abbrev pub expiry : Instant
expiry = midnight (today + 200)
