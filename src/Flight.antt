-- ===== src/Flight.antt =====
-- internal/models/flight.go, and the crew of contact.go: the flight record, its validation, and what counts. Go's int is
-- an integer without its 64-bit bounds: minutes and landings stay far below them. Fields that no
-- modelled function reads or writes (identifiers, comments, stamps) are left out. A float64 distance
-- is the number of tenths of a nautical mile, to which the code rounds it.
pub mod Validate
pub mod Coherence
use ninerlog_api.Base.{
  ◌==◌, ℕ, Bool, true, false, not, ◌&&◌, ◌||◌, Option, none, some, List, [], ◌∷◌, any, is_empty,
  if◌then◌else◌,
}
use ninerlog_api.Base.Int.{ℤ, pos, ltb_ℤ, ◌+ℤ◌, is_zero, is_positive, is_negative}
use ninerlog_api.Base.Text.{Text}
use ninerlog_api.Clock.{Instant}

pub data CrewRole : Type 0 where
  pic sic instructor student passenger safety_pilot examiner : CrewRole

pub record CrewMember : Type 0 where
  pub name : Text
  pub role : CrewRole

pub record Flight : Type 0 where
  pub user_id : ℕ
  pub date : Instant
  pub aircraft_reg : Text
  pub aircraft_type : Text
  pub departure_icao : Option Text
  pub arrival_icao : Option Text
  pub off_block_time : Option Text
  pub on_block_time : Option Text
  pub departure_time : Option Text
  pub arrival_time : Option Text
  pub total_time : ℤ
  pub is_pic : Bool
  pub is_dual : Bool
  pub pic_time : ℤ
  pub dual_time : ℤ
  pub night_time : ℤ
  pub ifr_time : ℤ
  pub landings_day : ℤ
  pub landings_night : ℤ
  pub all_landings : ℤ
  pub takeoffs_day : ℤ
  pub takeoffs_night : ℤ
  pub route : Option Text
  pub solo_time : ℤ
  pub cross_country_time : ℤ
  pub distance : ℕ
  pub takeoffs_day_override : Bool
  pub takeoffs_night_override : Bool
  pub landings_day_override : Bool
  pub landings_night_override : Bool
  pub sic_time_override : Bool
  pub multi_pilot_time_override : Bool
  pub night_time_override : Bool
  pub cross_country_time_override : Bool
  pub instructor_name : Option Text
  pub pic_name : Option Text
  pub sic_time : ℤ
  pub dual_given_time : ℤ
  pub simulated_flight_time : ℤ
  pub multi_pilot_time : ℤ
  pub picus_time : ℤ
  pub spic_time : ℤ
  pub examiner_time : ℤ
  pub relief_time : ℤ
  pub fstd_type : Option Text
  pub is_simulator : Bool
  pub is_passenger : Bool
  pub actual_instrument_time : ℤ
  pub simulated_instrument_time : ℤ
  pub holds : ℤ
  pub approaches_count : ℤ
  pub approaches : List Text
  pub launch_method : Option Text
  pub crew_members : List CrewMember
  pub is_ipc : Bool
  pub is_flight_review : Bool
  pub is_proficiency_check : Bool
  pub endorsements : Option Text
  pub remarks : Option Text

-- Neither nil nor a pointer to "".
abbrev pub is_given : Option Text → Bool
is_given none = false
is_given (some s) = not (is_empty s)

pub data TimeError : Type 0 where
  invalid_time_distribution negative_time invalid_night_time invalid_ifr_time : TimeError
  invalid_cross_country_time invalid_function_time invalid_dual_given_time : TimeError
  invalid_examiner_time passenger_function_time negative_landings : TimeError
  fstd_type_required fstd_session_time fstd_flight_time : TimeError

-- The times that may not be negative, and those that a passenger may not log.
abbrev pub times : Flight → List ℤ
times f =
    f.total_time ∷ f.night_time ∷ f.ifr_time ∷ f.cross_country_time ∷ f.pic_time ∷ f.dual_time
    ∷ f.sic_time ∷ f.dual_given_time ∷ f.picus_time ∷ f.spic_time ∷ f.examiner_time ∷ f.relief_time
    ∷ []

abbrev pub logged : Flight → List ℤ
logged f =
    f.total_time ∷ f.pic_time ∷ f.sic_time ∷ f.dual_time ∷ f.dual_given_time ∷ f.multi_pilot_time
    ∷ f.solo_time ∷ f.picus_time ∷ f.spic_time ∷ f.examiner_time ∷ f.relief_time ∷ []

-- The columns that an FSTD session leaves empty.
abbrev pub flight_columns : Flight → List ℤ
flight_columns f =
    f.total_time ∷ f.pic_time ∷ f.dual_time ∷ f.sic_time ∷ f.dual_given_time ∷ f.multi_pilot_time
    ∷ f.solo_time ∷ f.cross_country_time ∷ f.night_time ∷ f.ifr_time ∷ f.picus_time ∷ f.spic_time
    ∷ f.examiner_time ∷ f.relief_time ∷ []

abbrev pub is_nonzero : ℤ → Bool
is_nonzero t = not (is_zero t)

-- The functions return `none` where the source returns a nil error.
unfoldable pub validate_session_times : Flight → Option TimeError
validate_session_times f =
    if not (is_given f.fstd_type)
    then some fstd_type_required
    else if not (is_positive f.simulated_flight_time)
    then some fstd_session_time
    else if any is_nonzero (flight_columns f)
    then some fstd_flight_time
    else if ltb_ℤ f.simulated_flight_time f.simulated_instrument_time
    then some invalid_ifr_time
    else none

abbrev pub function_time : Flight → ℤ
function_time f =
    f.pic_time +ℤ f.picus_time +ℤ f.spic_time +ℤ f.sic_time +ℤ f.dual_time +ℤ f.relief_time

unfoldable pub validate_time_distribution : Flight → Option TimeError
unfolding validate_session_times
validate_time_distribution f =
    if f.is_simulator
    then validate_session_times f
    else if f.is_pic && f.is_dual
    then some invalid_time_distribution
    else if any is_negative (times f)
    then some negative_time
    else if ltb_ℤ f.total_time f.night_time
    then some invalid_night_time
    else if ltb_ℤ f.total_time f.ifr_time
    then some invalid_ifr_time
    else if ltb_ℤ f.total_time f.cross_country_time
    then some invalid_cross_country_time
    else if ltb_ℤ f.total_time (function_time f)
    then some invalid_function_time
    else if ltb_ℤ f.total_time f.dual_given_time
    then some invalid_dual_given_time
    else if ltb_ℤ f.total_time f.examiner_time
    then some invalid_examiner_time
    else if f.is_passenger && any is_nonzero (logged f)
    then some passenger_function_time
    else if is_negative f.landings_day || is_negative f.landings_night
    then some negative_landings
    else none

-- uuid.Nil is 0.
unfoldable pub is_valid : Flight → Bool
is_valid f =
    if f.user_id == 0 || f.date == 0 || is_empty f.aircraft_type
    then false
    else if f.is_simulator
    then is_given f.fstd_type && is_positive f.simulated_flight_time
    else if f.is_passenger
    then not (is_empty f.aircraft_reg)
    else not (is_empty f.aircraft_reg) && is_positive f.total_time
