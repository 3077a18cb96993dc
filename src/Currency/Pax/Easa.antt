-- ===== src/Currency/Pax/Easa.antt =====
-- EvaluatePassengerCurrency of easa.go, with HasNightPrivilege of faa.go. `wall` is time.Now(), and
-- `requested` is lapseDatesRequested.
use ninerlog_api.Base.{
  ℕ, ◌-◌, Bool, false, not, ◌&&◌, ◌||◌, Option, none, some, List, [], ◌∷◌, any, leb, ltb,
  if◌then◌else◌,
}
use ninerlog_api.Base.Int.{pos}
use ninerlog_api.Base.Text.{Text, codes, text_eq, to_upper, trim_space, has_prefix, contains}
use ninerlog_api.Clock.{Instant, day_text}
use ninerlog_api.Models.{ClassType, tmg, ir, glider, gyro, class_eq, ClassRating, License}
use ninerlog_api.Models.Expiry.{is_expired_at}
use ninerlog_api.Currency.Types.{
  current, expired, unknown, no_message, pax_evaluation_failed, pax_not_current,
  pax_current_day_no_night, pax_current_day_night_ir_waived, pax_current_day_night,
  pax_day_current_night_not, pax_gpl_experience_not_met, RuleText, easa_pax, easa_spl_pax,
  easa_spl_tmg_pax, msg_needed, PassengerCurrency, set_pax_msg,
}
use ninerlog_api.Currency.Provider.{LandingDay, FlightDataProvider}
use ninerlog_api.Currency.Engine.{include_towed_flights}
use ninerlog_api.Currency.Evaluate.{is_current}
use ninerlog_api.Currency.Easa.Select.{is_easa_lapl_a, is_easa_sailplane, is_gpl}
use ninerlog_api.Currency.Pax.{
  pax_window_start, all_landings, night_count, pax_totals, pax_expiry_date, fill_pax_lapse_dates,
  latest_ir_expiry,
}

unfoldable pub is_ul_licence_type : Text → Bool
unfolding text_eq to_upper trim_space has_prefix contains
is_ul_licence_type license_type =
    let lt = to_upper (trim_space license_type) in
    text_eq lt (codes "UL")
    || has_prefix lt (codes "UL ")
    || has_prefix lt (codes "UL-")
    || contains lt (codes "ULTRALIGHT")
    || contains lt (codes "ULTRALEICHT")

unfoldable pub has_night_privilege : Text → Text → Bool
unfolding text_eq to_upper is_easa_sailplane is_easa_lapl_a is_ul_licence_type
has_night_privilege license_type authority =
    let lt = to_upper license_type in
    let auth = to_upper authority in
    not (
      (text_eq auth (codes "FAA")
        && (text_eq lt (codes "SPORT")
            || text_eq lt (codes "RECREATIONAL")
            || text_eq lt (codes "GLIDER")))
      || (text_eq auth (codes "EASA") && is_easa_sailplane lt)
      || (text_eq auth (codes "EASA") && is_easa_lapl_a lt)
      || (text_eq auth (codes "DULV")
          || text_eq auth (codes "DAEC")
          || (text_eq auth (codes "LBA") && is_ul_licence_type lt))
      || text_eq lt (codes "GPL"))

-- A current IR: its expiry date is set, and it is not expired.
unfoldable pub is_valid_ir : Instant → ClassRating → Bool
unfolding is_expired_at
is_valid_ir wall r =
    class_eq r.class_type ir
    && elim r.expiry_date [ none ↦ false | some t ↦ not (is_expired_at r wall) ]

unfoldable pub has_valid_ir_rating : List ClassRating → Instant → Bool
unfolding is_valid_ir
has_valid_ir_rating ratings wall = any (is_valid_ir wall) ratings

-- Only flights as PIC count (SFCL.160(e)).
unfoldable pub pic_only : ClassType → License → Bool
unfolding is_easa_sailplane
pic_only ct license =
    class_eq ct glider || (class_eq ct tmg && is_easa_sailplane license.license_type)

unfoldable pub easa_pax_text : ClassType → License → RuleText
unfolding is_easa_sailplane
easa_pax_text ct license =
    if class_eq ct glider
    then easa_spl_pax
    else if class_eq ct tmg && is_easa_sailplane license.license_type
    then easa_spl_tmg_pax
    else easa_pax

unfoldable pub easa_night_privilege : ClassType → License → Bool
unfolding has_night_privilege
easa_night_privilege ct license =
    has_night_privilege license.license_type license.regulatory_authority
    && not (class_eq ct glider)

-- The result before the flights are read.
unfoldable pub easa_pax_base :
    (night_privilege valid_ir : Bool) → ClassType → License → PassengerCurrency
unfolding easa_pax_text
easa_pax_base night_privilege valid_ir ct license = record {
  class_type = ct;
  ul_kind = none;
  regulatory_authority = license.regulatory_authority;
  day_status = none;
  night_status = none;
  day_landings = 0;
  night_landings = 0;
  day_required = 3;
  night_required = if valid_ir then 0 else 1;
  night_privilege = night_privilege;
  day_expires_on = none;
  night_expires_on = none;
  day_lapsed_on = none;
  night_lapsed_on = none;
  lapse_unknown = false;
  message_key = no_message;
  message_params = none;
  rule_description = easa_pax_text ct license;
}

abbrev pub pax_failed : PassengerCurrency → PassengerCurrency
pax_failed r =
    set_pax_msg (record r { day_status = some unknown; night_status = some unknown })
      pax_evaluation_failed none

-- The statuses and expiry dates, from the landings in the window.
unfoldable pub easa_pax_statuses :
    (night_privilege valid_ir : Bool) → PassengerCurrency → List LandingDay → PassengerCurrency
unfolding pax_totals pax_expiry_date
easa_pax_statuses night_privilege valid_ir r days =
    let (landings, nights) = pax_totals days in
    record r {
      day_landings = landings;
      night_landings = nights;
      day_expires_on = day_text (pax_expiry_date days r.day_required all_landings);
      night_expires_on =
          if night_privilege
          then day_text (pax_expiry_date days r.night_required night_count)
          else r.night_expires_on;
      day_status = some (if leb 3 landings then current else expired);
      night_status = some (
          if not night_privilege
          then unknown
          else if valid_ir
          then current
          else if leb 1 nights
          then current
          else expired);
    }

abbrev gpl_passenger_pic_minutes : ℕ
gpl_passenger_pic_minutes = 600

-- The PIC minutes that a GPL holder lacks; none where they cannot be read.
unfoldable pub gpl_shortfall : FlightDataProvider → ClassType → License → Option ℕ
unfolding is_gpl
gpl_shortfall dp ct license =
    if class_eq ct gyro && is_gpl license.license_type
    then elim (dp.get_progress_by_aircraft_class license.user_id (gyro ∷ []) false
        license.issue_date) [
          | none ↦ none
          | some p ↦ some (
              if ltb p.pic_minutes gpl_passenger_pic_minutes
              then gpl_passenger_pic_minutes - p.pic_minutes
              else 0)
        ]
    else some 0

unfoldable pub apply_shortfall : ℕ → PassengerCurrency → PassengerCurrency
apply_shortfall shortfall r =
    if ltb 0 shortfall then record r { day_status = some expired; day_expires_on = none } else r

-- The summary message. `3 - landings` is 0 only with a shortfall, whose message comes first.
unfoldable pub easa_pax_summary :
    (night_privilege valid_ir : Bool) → (shortfall : ℕ) → PassengerCurrency → PassengerCurrency
easa_pax_summary night_privilege valid_ir shortfall r =
    if ltb 0 shortfall
    then set_pax_msg r pax_gpl_experience_not_met (msg_needed (pos shortfall))
    else if not (is_current r.day_status)
    then set_pax_msg r pax_not_current (msg_needed (pos (3 - r.day_landings)))
    else if not night_privilege
    then set_pax_msg r pax_current_day_no_night none
    else if valid_ir
    then set_pax_msg r pax_current_day_night_ir_waived none
    else if is_current r.night_status
    then set_pax_msg r pax_current_day_night none
    else set_pax_msg r pax_day_current_night_not (msg_needed (pos 1))

unfoldable pub easa_evaluate_passenger_currency :
    (requested : Bool) (wall : Instant)
    → ClassType
    → License
    → List ClassRating
    → FlightDataProvider
    → PassengerCurrency
unfolding pax_window_start easa_night_privilege has_valid_ir_rating easa_pax_base
    include_towed_flights pic_only is_easa_sailplane easa_pax_statuses gpl_shortfall apply_shortfall
    fill_pax_lapse_dates latest_ir_expiry easa_pax_summary
easa_evaluate_passenger_currency requested wall ct license peers dp =
    let night = easa_night_privilege ct license in
    let valid_ir = has_valid_ir_rating peers wall in
    let base = easa_pax_base night valid_ir ct license in
    let fetch : Instant → Option (List LandingDay) =
      dp.get_landing_days_by_aircraft_class license.user_id ct
        (include_towed_flights ct (is_easa_sailplane license.license_type)) (pic_only ct license) in
    elim (fetch (pax_window_start wall)) [
      | none ↦ pax_failed base
      | some days ↦
          let counted = easa_pax_statuses night valid_ir base days in
          elim (gpl_shortfall dp ct license) [
            | none ↦ pax_failed counted
            | some shortfall ↦
                let filled =
                  fill_pax_lapse_dates requested (apply_shortfall shortfall counted) fetch
                    (latest_ir_expiry peers) wall in
                easa_pax_summary night valid_ir shortfall
                  (if ltb 0 shortfall then record filled { day_lapsed_on = none } else filled)
          ]
    ]
