-- ===== src/Currency/Pax/Faa.antt =====
-- EvaluatePassengerCurrency of faa.go. `wall` is time.Now(), and `requested` is
-- lapseDatesRequested. strings.EqualFold is the equality of the upper-case texts.
use ninerlog_api.Base.{
  ◌-◌, Bool, false, not, ◌&&◌, Option, none, some, List, leb, ltb, if◌then◌else◌,
}
use ninerlog_api.Base.Int.{pos}
use ninerlog_api.Base.Text.{codes, text_eq, to_upper}
use ninerlog_api.Clock.{Instant, day_text}
use ninerlog_api.Models.{ClassType, License}
use ninerlog_api.Currency.Types.{
  current, expired, unknown, no_message, pax_not_current, pax_current_day_no_night,
  pax_current_day_night, pax_day_current_night_not, faa_pax_day_night, faa_pax_day_only, msg_needed,
  PassengerCurrency, set_pax_msg,
}
use ninerlog_api.Currency.Provider.{LandingDay, FlightDataProvider}
use ninerlog_api.Currency.Engine.{include_towed_flights}
use ninerlog_api.Currency.Evaluate.{is_current}
use ninerlog_api.Currency.Pax.{
  pax_window_start, all_landings, night_count, pax_totals, pax_expiry_date, fill_pax_lapse_dates,
}
use ninerlog_api.Currency.Pax.Easa.{has_night_privilege, pax_failed}

-- The result before the flights are read.
unfoldable pub faa_pax_base : (has_night : Bool) → ClassType → PassengerCurrency
faa_pax_base has_night ct = record {
  class_type = ct;
  ul_kind = none;
  regulatory_authority = codes "FAA";
  day_status = none;
  night_status = none;
  day_landings = 0;
  night_landings = 0;
  day_required = 3;
  night_required = if has_night then 3 else 0;
  night_privilege = has_night;
  day_expires_on = none;
  night_expires_on = none;
  day_lapsed_on = none;
  night_lapsed_on = none;
  lapse_unknown = false;
  message_key = no_message;
  message_params = none;
  rule_description = if has_night then faa_pax_day_night else faa_pax_day_only;
}

-- The statuses and expiry dates, before the lapse dates are filled.
unfoldable pub faa_pax_statuses :
    (has_night : Bool) → PassengerCurrency → List LandingDay → PassengerCurrency
unfolding pax_totals pax_expiry_date
faa_pax_statuses has_night r days =
    let (landings, nights) = pax_totals days in
    record r {
      day_landings = landings;
      night_landings = nights;
      day_expires_on = day_text (pax_expiry_date days r.day_required all_landings);
      night_expires_on = day_text (pax_expiry_date days r.night_required night_count);
      day_status = some (if leb 3 landings then current else expired);
      night_status = if has_night && ltb nights 3 then some expired else none;
    }

-- The night status and the message, which the code sets last.
unfoldable pub faa_pax_summary : (has_night : Bool) → PassengerCurrency → PassengerCurrency
faa_pax_summary has_night r =
    if not has_night
    then (let n = record r { night_status = some unknown } in
        if is_current r.day_status
        then set_pax_msg n pax_current_day_no_night none
        else set_pax_msg n pax_not_current (msg_needed (pos (3 - r.day_landings))))
    else (let n = record r {
      night_status = some (if leb 3 r.night_landings then current else expired);
    } in
        if is_current n.day_status && is_current n.night_status
        then set_pax_msg n pax_current_day_night none
        else if is_current n.day_status
        then set_pax_msg n pax_day_current_night_not (msg_needed (pos (3 - r.night_landings)))
        else set_pax_msg n pax_not_current (msg_needed (pos (3 - r.day_landings))))

unfoldable pub faa_evaluate_passenger_currency :
    (requested : Bool) (wall : Instant)
    → ClassType
    → License
    → FlightDataProvider
    → PassengerCurrency
unfolding pax_window_start has_night_privilege faa_pax_base include_towed_flights text_eq to_upper
    faa_pax_statuses fill_pax_lapse_dates faa_pax_summary
faa_evaluate_passenger_currency requested wall ct license dp =
    let has_night = has_night_privilege license.license_type license.regulatory_authority in
    let base = faa_pax_base has_night ct in
    let fetch : Instant → Option (List LandingDay) =
      dp.get_landing_days_by_aircraft_class license.user_id ct
        (include_towed_flights ct (text_eq (to_upper license.license_type) (codes "GLIDER")))
        false in
    elim (fetch (pax_window_start wall)) [
      | none ↦ pax_failed base
      | some days ↦
          faa_pax_summary has_night
            (fill_pax_lapse_dates requested (faa_pax_statuses has_night base days) fetch none wall)
    ]
