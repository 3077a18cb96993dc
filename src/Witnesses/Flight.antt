-- ===== src/Witnesses/Flight.antt =====
-- The theorems on flights and their calculation, applied to concrete flights.
use mathlib.Core.List.{Permᴰ}
use ninerlog_api.Base.{
  ℕ, ◌≡◌, ◌↔◌, ◌⊎◌, ◌≤◌, ◌-◌, ◌/◌, ◌==◌, refl, true, false, none, some, List, [], ◌∷◌, arith,
  if◌then◌else◌,
}
use ninerlog_api.Base.Int.{pos, ◌≤ℤ◌, ◌+ℤ◌}
use ninerlog_api.Base.Text.{Text, codes, text_eq}
use ninerlog_api.Clock.{midnight}
use ninerlog_api.Flight.{
  CrewMember, pic, passenger, Flight, validate_time_distribution, function_time, is_given,
}
use ninerlog_api.Flight.Coherence.{Coherent, CoherentSession, validate_time_distribution-Coherent}
use ninerlog_api.FlightRules.Names.{normalize_name, matches_user}
use ninerlog_api.FlightRules.Names.Matching.{matches_user_lem}
use ninerlog_api.FlightRules.Roles.{
  role_sic, classify_crew, may_log_co_pilot_time, has_declared_function_time, determine_role,
  is_multi_pilot_operation,
}
use ninerlog_api.FlightRules.Roles.Decisions
use ninerlog_api.FlightRules.Roles.Order.{determine_role-Perm}
use ninerlog_api.FlightRules.Fstd.{effective_ifr_time}
use ninerlog_api.FlightRules.Fstd.Ifr.{effective_ifr_time_lem}
use ninerlog_api.FlightRules.Fstd.Columns.{easa_columns, faa_columns, columns_lem}
use ninerlog_api.FlightCalc.Times.{
  minute_ns, parse_clock, parse_time_of_day, instant_on, instants_of, block_minutes,
}
use ninerlog_api.FlightCalc.Times.Windows.{Ordered, instants_of-Ordered, block_minutes-instants_of}
use ninerlog_api.FlightCalc.Steps.{World, count_night, night_fuel, declared_function_time}
use ninerlog_api.FlightCalc.Steps.Night.{nights, minutes_begun, count_night_lem}
use ninerlog_api.FlightCalc.Apply.{recover_total, apply_auto_calculations}
use ninerlog_api.FlightCalc.Apply.Sessions.{session_lem}
use ninerlog_api.FlightCalc.Apply.Passengers.{LogsNothing, passenger_lem}
use ninerlog_api.FlightCalc.Apply.Pilots.{pilot_valid, pilot_decomposes}

-- Every airport is known; it is night before 06:00.
abbrev world : World
world = record {
  Airport = ℕ;
  lookup = λ icao. some 1;
  is_night = λ t ap. false;
  is_night_between = λ dep arr ap t. true;
  haversine_nm = λ a b. 1234;
}

abbrev pub user : Text
user = codes "Amelia Earhart"

-- A flight from 22:30 to 00:15, its total yet to be recovered.
abbrev overnight : Flight
overnight = record {
  user_id = 7;
  date = midnight 739000;
  aircraft_reg = codes "D-EABC";
  aircraft_type = codes "C172";
  departure_icao = some (codes "EDDF");
  arrival_icao = some (codes "eddm");
  off_block_time = some (codes "22:30");
  on_block_time = some (codes "00:15:30");
  departure_time = some (codes "22:40");
  arrival_time = some (codes "0:05");
  total_time = pos 0;
  is_pic = false;
  is_dual = false;
  pic_time = pos 0;
  dual_time = pos 0;
  night_time = pos 0;
  ifr_time = pos 0;
  landings_day = pos 1;
  landings_night = pos 0;
  all_landings = pos 1;
  takeoffs_day = pos 0;
  takeoffs_night = pos 0;
  route = none;
  solo_time = pos 0;
  cross_country_time = pos 0;
  distance = 0;
  takeoffs_day_override = false;
  takeoffs_night_override = false;
  landings_day_override = false;
  landings_night_override = false;
  sic_time_override = false;
  multi_pilot_time_override = false;
  night_time_override = false;
  cross_country_time_override = false;
  instructor_name = none;
  pic_name = none;
  sic_time = pos 0;
  dual_given_time = pos 0;
  simulated_flight_time = pos 0;
  multi_pilot_time = pos 0;
  picus_time = pos 0;
  spic_time = pos 0;
  examiner_time = pos 0;
  relief_time = pos 0;
  fstd_type = none;
  is_simulator = false;
  is_passenger = false;
  actual_instrument_time = pos 20;
  simulated_instrument_time = pos 0;
  holds = pos 0;
  approaches_count = pos 0;
  approaches = [];
  launch_method = none;
  crew_members = [];
  is_ipc = true;
  is_flight_review = false;
  is_proficiency_check = false;
  endorsements = none;
  remarks = some (codes "VFR");
}

abbrev pub with_crew : List CrewMember → Flight
with_crew ms = record overnight { crew_members = ms }

abbrev pub other_pic : CrewMember
other_pic = record { name = codes "Bessie Coleman"; role = pic }

abbrev guest : CrewMember
guest = record { name = codes "Guest"; role = passenger }

-- An FSTD session that still holds values of a flight.
abbrev session : Flight
session = record overnight {
  is_simulator = true;
  fstd_type = some (codes "FNPT II");
  simulated_flight_time = pos 60;
  pic_time = pos 90;
}

pilot_valid_example :
    validate_time_distribution (apply_auto_calculations world user none overnight) ≡ none
unfolding determine_role classify_crew may_log_co_pilot_time has_declared_function_time
    recover_total declared_function_time ◌+ℤ◌ block_minutes
pilot_valid_example = pilot_valid world user none overnight refl refl (record {
  fits = record { room = omega arith; co_pilot = omega arith; co_pilot_room = omega arith };
  total = omega arith;
  picus = omega arith;
  spic = omega arith;
  relief = omega arith;
  examiner = (omega arith, omega arith);
  night = (omega arith, omega arith);
  cross_country = (omega arith, omega arith);
  dual_given = (omega arith, omega arith);
  landings_day = omega arith;
  landings_night = omega arith;
  all_landings = omega arith;
})

pilot_decomposes_example :
    (function_time (apply_auto_calculations world user none overnight)
      ≡ (apply_auto_calculations world user none overnight).total_time)
    × ((apply_auto_calculations world user none overnight).total_time
        ≡ (recover_total overnight).total_time)
unfolding determine_role classify_crew may_log_co_pilot_time has_declared_function_time
    recover_total declared_function_time ◌+ℤ◌ block_minutes
pilot_decomposes_example = pilot_decomposes world user none overnight refl refl refl (omega arith)

passenger_lem_example :
    LogsNothing (apply_auto_calculations world user none (with_crew (other_pic ∷ guest ∷ [])))
unfolding determine_role classify_crew matches_user may_log_co_pilot_time has_declared_function_time
    recover_total text_eq
passenger_lem_example = passenger_lem world user none (with_crew (other_pic ∷ guest ∷ [])) refl refl

session_lem_example :
    (validate_time_distribution (apply_auto_calculations world user none session) ≡ none)
    ↔ ((is_given session.fstd_type ≡ true) × (pos 1 ≤ℤ session.simulated_flight_time))
session_lem_example = session_lem world user none session refl

validate_time_distribution-Coherent_example : (validate_time_distribution overnight ≡ none) ↔ (
    ((overnight.is_simulator ≡ false) × Coherent overnight)
    ⊎ ((overnight.is_simulator ≡ true) × CoherentSession overnight))
validate_time_distribution-Coherent_example = validate_time_distribution-Coherent overnight

count_night_lem_example :
    (count_night
        (λ t. true)
        (midnight 739001)
        (night_fuel (midnight 739000) (midnight 739001))
        (midnight 739000)
        0
      ≡ some (
          nights (λ t. true) (minutes_begun (midnight 739000) (midnight 739001)) (midnight 739000)))
    × (nights (λ t. true) (minutes_begun (midnight 739000) (midnight 739001)) (midnight 739000)
        ≤ minutes_begun (midnight 739000) (midnight 739001))
count_night_lem_example = count_night_lem (λ t. true) (midnight 739000) (midnight 739001)

instants_of-Ordered_example : Ordered (instants_of overnight)
unfolding instants_of parse_clock parse_time_of_day instant_on
instants_of-Ordered_example = instants_of-Ordered overnight (omega arith) (omega arith)

block_minutes-instants_of_example : block_minutes overnight ≡ (
    if (instants_of overnight).on_block == (instants_of overnight).off_block
    then pos 1440
    else pos (((instants_of overnight).on_block - (instants_of overnight).off_block) / minute_ns))
unfolding instants_of parse_clock parse_time_of_day instant_on
block_minutes-instants_of_example = block_minutes-instants_of overnight (omega arith) (omega arith)

determine_role-Fits_example :
    Decisions.Fits
      (with_crew (other_pic ∷ []))
      user
      none
      (determine_role (with_crew (other_pic ∷ [])) user none)
determine_role-Fits_example = Decisions.determine_role-Fits (with_crew (other_pic ∷ [])) user none

determine_role-Perm_example :
    (determine_role (with_crew (guest ∷ other_pic ∷ [])) user none
      ≡ determine_role (with_crew (other_pic ∷ guest ∷ [])) user none)
    × (is_multi_pilot_operation (with_crew (guest ∷ other_pic ∷ [])) role_sic none
        ≡ is_multi_pilot_operation (with_crew (other_pic ∷ guest ∷ [])) role_sic none)
determine_role-Perm_example =
    determine_role-Perm (with_crew (other_pic ∷ guest ∷ [])) user none role_sic
      (guest ∷ other_pic ∷ []) ∣ Permᴰ.swap refl refl ∣₁

columns_lem_example :
    (easa_columns overnight ≡ faa_columns overnight)
    × (easa_columns overnight ≤ℤ overnight.total_time)
unfolding validate_time_distribution ◌+ℤ◌
columns_lem_example = columns_lem overnight refl refl

effective_ifr_time_lem_example :
    (pos 0 ≤ℤ effective_ifr_time overnight)
    × (effective_ifr_time overnight ≤ℤ overnight.total_time)
    × (effective_ifr_time (record overnight { ifr_time = effective_ifr_time overnight })
        ≡ effective_ifr_time overnight)
effective_ifr_time_lem_example = effective_ifr_time_lem overnight (omega arith)

matches_user_lem_example :
    (matches_user (codes " earhart,  AMELIA") user ≡ matches_user user (codes " earhart,  AMELIA"))
    × (matches_user (normalize_name (codes " earhart,  AMELIA")) (normalize_name user)
        ≡ matches_user (codes " earhart,  AMELIA") user)
matches_user_lem_example = matches_user_lem (codes " earhart,  AMELIA") user
