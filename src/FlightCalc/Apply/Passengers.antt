-- ===== src/FlightCalc/Apply/Passengers.antt =====
-- What ApplyAutoCalculations (internal/service/flightcalc/flightcalc.go) makes of a flight on which
-- the user is carried.
use mathlib.Core.Path.{subst}
use ninerlog_api.Base.{
  ℕ, ◌≡◌, ◌∙◌, sym, refl, All, not, ◌&&◌, true, false, none, Option, arith, Bool, if◌then◌else◌,
}
use ninerlog_api.Base.Int.{ℤ, pos, ◌+ℤ◌}
use ninerlog_api.Base.Text.{Text}
use ninerlog_api.Flight.{Flight, validate_time_distribution, logged}
use ninerlog_api.Flight.Validate.{PassesTests, validate_time_distribution-PassesTests}
use ninerlog_api.FlightRules.Roles.{AircraftFacts, role_passenger, determine_role}
use ninerlog_api.FlightRules.Fstd.{counts_as_flight_time, renders_logbook_row}
use ninerlog_api.FlightCalc.Steps.{World, calculate_distance}
use ninerlog_api.FlightCalc.Apply.{
  clear_times, cleared_work, recover_total, apply_passenger_calculations, apply_auto_calculations,
}

pub if_false : {A : Type 0} {b : Bool} (x y : A) → b ≡ false → (if b then x else y) ≡ y
if_false x y h = rw h refl

-- Distance aside, the fields are kept.
distance_only :
    (w : World) (f : Flight)
    → calculate_distance w f ≡ record f { distance = (calculate_distance w f).distance }
unfolding calculate_distance
distance_only w f = ground arith

apply-passenger :
    (w : World) (user_name : Text) (aircraft : Option AircraftFacts) (f : Flight)
    → f.is_simulator ≡ false
    → determine_role (recover_total f) user_name aircraft ≡ role_passenger
    → apply_auto_calculations w user_name aircraft f
      ≡ apply_passenger_calculations w (record (recover_total f) { is_passenger = true })
unfolding apply_auto_calculations
apply-passenger w user_name aircraft f h k = if_false _ _ h ∙ rw k refl

PassesTests-distance :
    (f : Flight) (d : ℕ) → PassesTests f → PassesTests (record f { distance = d })
PassesTests-distance f d h = record {
  exclusive = h.exclusive;
  nonnegative = h.nonnegative;
  night = h.night;
  ifr = h.ifr;
  cross_country = h.cross_country;
  decomposed = h.decomposed;
  dual_given = h.dual_given;
  examined = h.examined;
  carried = h.carried;
  landed = h.landed;
}

-- The instrument work that a passenger's flight clears too is of no matter to coherence.
PassesTests-cleared_work : (f : Flight) → PassesTests (clear_times f) → PassesTests (cleared_work f)
unfolding clear_times cleared_work
PassesTests-cleared_work f h = record {
  exclusive = h.exclusive;
  nonnegative = h.nonnegative;
  night = h.night;
  ifr = h.ifr;
  cross_country = h.cross_country;
  decomposed = h.decomposed;
  dual_given = h.dual_given;
  examined = h.examined;
  carried = h.carried;
  landed = h.landed;
}

PassesTests-cleared : (f : Flight) → PassesTests (clear_times f)
unfolding clear_times ◌+ℤ◌
PassesTests-cleared f = record {
  exclusive = refl;
  nonnegative = ground arith;
  night = ground arith;
  ifr = ground arith;
  cross_country = ground arith;
  decomposed = ground arith;
  dual_given = ground arith;
  examined = ground arith;
  carried = λ h. ground arith;
  landed = ground arith;
}

PassesTests-carried : (w : World) (f : Flight) → PassesTests (apply_passenger_calculations w f)
unfolding apply_passenger_calculations
PassesTests-carried w f =
    subst (λ g. PassesTests g) (sym (distance_only w (cleared_work f)))
      (PassesTests-distance (cleared_work f) (calculate_distance w (cleared_work f)).distance
        (PassesTests-cleared_work f (PassesTests-cleared f)))

carried_flags :
    (w : World) (f : Flight)
    → ((apply_passenger_calculations w f).is_simulator ≡ f.is_simulator)
      × ((apply_passenger_calculations w f).is_passenger ≡ f.is_passenger)
      × ((apply_passenger_calculations w f).total_time ≡ pos 0)
unfolding apply_passenger_calculations calculate_distance clear_times cleared_work
carried_flags w f = (ground arith, ground arith, ground arith)

and_false : (b : Bool) → (b && false) ≡ false
and_false b = ground arith

kept : (f : Flight) → f.is_simulator ≡ false → (recover_total f).is_simulator ≡ false
unfolding recover_total
kept f h = h

pub record LogsNothing (f : Flight) : Type 0 where
  pub accepted : validate_time_distribution f ≡ none
  pub no_times : All (λ (t : ℤ). t ≡ pos 0) (logged f)
  pub uncounted : counts_as_flight_time f ≡ false
  pub unprinted : renders_logbook_row f ≡ false

LogsNothing-of :
    (f : Flight)
    → PassesTests f
    → f.is_simulator ≡ false
    → f.is_passenger ≡ true
    → f.total_time ≡ pos 0
    → LogsNothing f
unfolding counts_as_flight_time renders_logbook_row
LogsNothing-of f h a b c = record {
  accepted = (validate_time_distribution-PassesTests f a).1 h;
  no_times = h.carried b;
  uncounted = rw b (and_false (not f.is_simulator));
  unprinted = rw (a, c) refl;
}

-- A user whose role is that of a passenger logs nothing: the calculated flight is accepted by
-- ValidateTimeDistribution, its logged times are 0, it counts as no flight time and it prints no row,
-- whatever was entered. The flight is no FSTD session.
pub passenger_lem :
    (w : World) (user_name : Text) (aircraft : Option AircraftFacts) (f : Flight)
    → f.is_simulator ≡ false
    → determine_role (recover_total f) user_name aircraft ≡ role_passenger
    → LogsNothing (apply_auto_calculations w user_name aircraft f)
passenger_lem w user_name aircraft f h k =
    let g = record (recover_total f) { is_passenger = true } in
    let (a, b, c) = carried_flags w g in
    rw (apply-passenger w user_name aircraft f h k) (
      LogsNothing-of (apply_passenger_calculations w g) (PassesTests-carried w g) (a ∙ kept f h) b
        c)
