-- ===== src/FlightCalc/Apply.antt =====
-- ApplyAutoCalculations of flightcalc.go, with the branches for FSTD sessions and for passengers.
pub mod Sessions
pub mod Passengers
pub mod Trace
pub mod Calculated
pub mod Pilots
use ninerlog_api.Base.{◌||◌, ◌&&◌, not, Bool, true, false, if◌then◌else◌, Option, none, []}
use ninerlog_api.Base.Int.{ℤ, pos, ltb_ℤ, ◌+ℤ◌, is_zero}
use ninerlog_api.Base.Text.{Text}
use ninerlog_api.Flight.{Flight}
use ninerlog_api.FlightRules.Fstd.{effective_ifr_time}
use ninerlog_api.FlightRules.Roles.{AircraftFacts, Role, role_passenger, determine_role}
use ninerlog_api.FlightCalc.Times.{block_minutes}
use ninerlog_api.FlightCalc.Steps.{
  World, calculate_pic_dual, calculate_night_time, calculate_landing_split, calculate_solo_time,
  calculate_cross_country_time, calculate_distance, calculate_takeoff_split, calculate_sic_time,
  calculate_dual_given_time, calculate_multi_pilot_time,
}

-- The fields that both a session and a passenger's flight clear.
clear_times : Flight → Flight
clear_times f = record f {
  total_time = pos 0;
  is_pic = false;
  is_dual = false;
  pic_time = pos 0;
  dual_time = pos 0;
  sic_time = pos 0;
  dual_given_time = pos 0;
  multi_pilot_time = pos 0;
  picus_time = pos 0;
  spic_time = pos 0;
  examiner_time = pos 0;
  relief_time = pos 0;
  solo_time = pos 0;
  cross_country_time = pos 0;
  night_time = pos 0;
  ifr_time = pos 0;
  landings_day = pos 0;
  landings_night = pos 0;
  all_landings = pos 0;
  takeoffs_day = pos 0;
  takeoffs_night = pos 0;
  actual_instrument_time = pos 0;
}

unfoldable pub apply_session_calculations : Flight → Flight
unfolding clear_times
apply_session_calculations f = record (clear_times f) {
  distance = 0;
  aircraft_reg = [];
  departure_icao = none;
  arrival_icao = none;
  off_block_time = none;
  on_block_time = none;
  departure_time = none;
  arrival_time = none;
  route = none;
  launch_method = none;
  simulated_instrument_time =
      if ltb_ℤ f.simulated_flight_time f.simulated_instrument_time
      then f.simulated_flight_time
      else f.simulated_instrument_time;
}

cleared_work : Flight → Flight
unfolding clear_times
cleared_work f = record (clear_times f) {
  simulated_instrument_time = pos 0;
  simulated_flight_time = pos 0;
  holds = pos 0;
  approaches = [];
  approaches_count = pos 0;
}

unfoldable pub apply_passenger_calculations : World → Flight → Flight
unfolding cleared_work
apply_passenger_calculations w f = calculate_distance w (cleared_work f)

abbrev pub is_role_passenger : Role → Bool
is_role_passenger role_passenger = true
is_role_passenger _ = false

-- A zero total is recovered from the block times.
unfoldable pub recover_total : Flight → Flight
recover_total f = record f {
  total_time = if is_zero f.total_time then block_minutes f else f.total_time;
}

unfoldable pub all_landings_of : Flight → Flight
all_landings_of f = record f { all_landings = f.landings_day +ℤ f.landings_night }

-- The steps for a pilot's flight, in their order; `unless` leaves out a step that is overridden.
abbrev pub unless : Bool → (Flight → Flight) → Flight → Flight
unless b step f = if b then f else step f

unfoldable pub apply_pilot_calculations :
    World → Text → Option AircraftFacts → Role → Flight → Flight
apply_pilot_calculations w user_name aircraft role f₀ =
    let f₁ = calculate_pic_dual role f₀ in
    let f₂ = unless f₁.night_time_override (calculate_night_time w) f₁ in
    let f₃ =
      unless (f₂.landings_day_override || f₂.landings_night_override) (calculate_landing_split w)
        f₂ in
    let f₄ = calculate_solo_time user_name (all_landings_of f₃) in
    let f₅ = unless f₄.cross_country_time_override calculate_cross_country_time f₄ in
    let f₆ = calculate_distance w f₅ in
    let f₇ =
      unless (f₆.takeoffs_day_override || f₆.takeoffs_night_override) (calculate_takeoff_split w)
        f₆ in
    let f₈ = calculate_dual_given_time role (calculate_sic_time role f₇) in
    let f₉ = calculate_multi_pilot_time role aircraft f₈ in
    record f₉ { ifr_time = effective_ifr_time f₉ }

unfoldable pub apply_auto_calculations : World → Text → Option AircraftFacts → Flight → Flight
unfolding recover_total
apply_auto_calculations w user_name aircraft f =
    let recovered = recover_total f in
    let role = determine_role recovered user_name aircraft in
    let assigned = record recovered { is_passenger = is_role_passenger role } in
    if f.is_simulator
    then apply_session_calculations f
    else if is_role_passenger role
    then apply_passenger_calculations w assigned
    else apply_pilot_calculations w user_name aircraft role assigned
