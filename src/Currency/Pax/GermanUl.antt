-- ===== src/Currency/Pax/GermanUl.antt =====
-- EvaluateRatingPassengerCurrency of german_ul.go (LuftPersV §45a). `wall` is time.Now(), and
-- `requested` is lapseDatesRequested.
use ninerlog_api.Base.{◌-◌, Bool, true, false, Option, none, some, List, leb, if◌then◌else◌}
use ninerlog_api.Base.Int.{pos}
use ninerlog_api.Clock.{Instant, day_text}
use ninerlog_api.Models.{ul, class_eq, UlKind, sailplane, kind_eq, ClassRating, License}
use ninerlog_api.Models.Ultralight.{aircraft_kinds_for_rating}
use ninerlog_api.Currency.Types.{
  current, expired, unknown, no_message, pax_not_current, pax_current_privilege_separat, ul_pax,
  msg_needed, PassengerCurrency, set_pax_msg,
}
use ninerlog_api.Currency.Provider.{LandingDay, UlSelector, FlightDataProvider}
use ninerlog_api.Currency.GermanUl.{rating_ul_kind}
use ninerlog_api.Currency.Pax.{
  pax_window_start, all_landings, pax_totals, pax_expiry_date, fill_pax_lapse_dates,
}
use ninerlog_api.Currency.Pax.Easa.{pax_failed, easa_evaluate_passenger_currency}

unfoldable pub ul_pax_base : UlKind → License → PassengerCurrency
ul_pax_base kind license = record {
  class_type = ul;
  ul_kind = some kind;
  regulatory_authority = license.regulatory_authority;
  day_status = none;
  night_status = none;
  day_landings = 0;
  night_landings = 0;
  day_required = 3;
  night_required = 0;
  night_privilege = false;
  day_expires_on = none;
  night_expires_on = none;
  day_lapsed_on = none;
  night_lapsed_on = none;
  lapse_unknown = false;
  message_key = no_message;
  message_params = none;
  rule_description = ul_pax;
}

unfoldable pub ul_pax_statuses : PassengerCurrency → List LandingDay → PassengerCurrency
unfolding pax_totals pax_expiry_date
ul_pax_statuses r days =
    let landings = (pax_totals days).0 in
    let counted = record r {
      day_landings = landings;
      night_status = some unknown;
      day_expires_on = day_text (pax_expiry_date days r.day_required all_landings);
    } in
    if leb 3 landings
    then set_pax_msg (record counted { day_status = some current }) pax_current_privilege_separat
        none
    else set_pax_msg (record counted { day_status = some expired }) pax_not_current
        (msg_needed (pos (3 - landings)))

unfoldable pub ul_evaluate_rating_passenger_currency :
    (requested : Bool) (wall : Instant)
    → ClassRating
    → License
    → List ClassRating
    → FlightDataProvider
    → PassengerCurrency
unfolding easa_evaluate_passenger_currency rating_ul_kind pax_window_start ul_pax_base
    aircraft_kinds_for_rating ul_pax_statuses fill_pax_lapse_dates
ul_evaluate_rating_passenger_currency requested wall rating license peers dp =
    if class_eq rating.class_type ul
    then (let kind = rating_ul_kind rating in
        let sel : UlSelector = record {
          kinds = aircraft_kinds_for_rating kind;
          include_unspecified = true;
          min_mtom_kg = 0;
        } in
        let fetch : Instant → Option (List LandingDay) =
          dp.get_landing_days_by_ul_kind license.user_id sel (kind_eq kind sailplane) in
        elim (fetch (pax_window_start wall)) [
          | none ↦ pax_failed (ul_pax_base kind license)
          | some days ↦
              fill_pax_lapse_dates requested (ul_pax_statuses (ul_pax_base kind license) days) fetch
                none wall
        ])
    else easa_evaluate_passenger_currency requested wall rating.class_type license peers dp
