-- ===== src/FlightCalc/Apply/Sessions.antt =====
-- What ApplyAutoCalculations (internal/service/flightcalc/flightcalc.go) makes of an FSTD session.
use ninerlog_api.Base.{◌≡◌, ◌↔◌, refl, true, none, Option, arith}
use ninerlog_api.Base.Int.{pos, ◌≤ℤ◌}
use ninerlog_api.Base.Text.{Text}
use ninerlog_api.Flight.{Flight, is_given, validate_session_times, validate_time_distribution}
use ninerlog_api.Flight.Validate.{PassesSessionTests, validate_session_times-PassesSessionTests}
use ninerlog_api.FlightRules.Roles.{AircraftFacts}
use ninerlog_api.FlightCalc.Steps.{World}
use ninerlog_api.FlightCalc.Apply.{clear_times, apply_session_calculations, apply_auto_calculations}

validate-session :
    (f : Flight) → f.is_simulator ≡ true → validate_time_distribution f ≡ validate_session_times f
unfolding validate_time_distribution
validate-session f h = rw h refl

apply-session :
    (w : World) (user_name : Text) (aircraft : Option AircraftFacts) (f : Flight)
    → f.is_simulator ≡ true
    → apply_auto_calculations w user_name aircraft f ≡ apply_session_calculations f
unfolding apply_auto_calculations
apply-session w user_name aircraft f h = rw h refl

is_simulator_kept :
    (f : Flight) → f.is_simulator ≡ true → (apply_session_calculations f).is_simulator ≡ true
unfolding apply_session_calculations clear_times
is_simulator_kept f h = h

PassesSessionTests-applied :
    (f : Flight)
    → is_given f.fstd_type ≡ true
    → pos 1 ≤ℤ f.simulated_flight_time
    → PassesSessionTests (apply_session_calculations f)
unfolding apply_session_calculations clear_times
PassesSessionTests-applied f a b = record {
  device = a;
  lasting = b;
  blank = ground arith;
  instrument = ground arith;
}

PassesSessionTests-given :
    (f : Flight)
    → PassesSessionTests (apply_session_calculations f)
    → (is_given f.fstd_type ≡ true) × (pos 1 ≤ℤ f.simulated_flight_time)
unfolding apply_session_calculations clear_times
PassesSessionTests-given f h = (h.device, h.lasting)

-- After the calculations, an FSTD session is accepted by ValidateTimeDistribution exactly when its
-- device is given and its session time is positive, whatever else the flight held.
pub session_lem :
    (w : World) (user_name : Text) (aircraft : Option AircraftFacts) (f : Flight)
    → f.is_simulator ≡ true
    → (validate_time_distribution (apply_auto_calculations w user_name aircraft f) ≡ none)
      ↔ ((is_given f.fstd_type ≡ true) × (pos 1 ≤ℤ f.simulated_flight_time))
session_lem w user_name aircraft f h =
    let g = apply_session_calculations f in
    let accepts = validate_session_times-PassesSessionTests g in
    rw (apply-session w user_name aircraft f h, validate-session g (is_simulator_kept f h))
      (
        λ valid. PassesSessionTests-given f (accepts.0 valid),
        λ given. accepts.1 (PassesSessionTests-applied f given.0 given.1),
      )
