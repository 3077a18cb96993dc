-- ===== src/FlightRules/Roles.antt =====
-- flightrules/roles.go: the user's role on a flight, from the crew list and the aircraft.
pub mod Precedence
pub mod Order
pub mod Decisions
use ninerlog_api.Base.{
  Bool, true, false, not, ◌&&◌, ◌||◌, Option, none, some, List, [], ◌∷◌, any, is_empty,
  if◌then◌else◌,
}
use ninerlog_api.Base.Int.{ℤ, is_positive}
use ninerlog_api.Base.Text.{Text}
use ninerlog_api.Flight.{
  CrewRole, pic, sic, instructor, student, passenger, safety_pilot, examiner, CrewMember, Flight,
}
use ninerlog_api.FlightRules.Names.{matches_user}

pub record AircraftFacts : Type 0 where
  pub registration : Text
  pub is_multi_pilot : Bool

unfoldable pub is_multi_pilot_aircraft : Option AircraftFacts → Bool
is_multi_pilot_aircraft none = false
is_multi_pilot_aircraft (some a) = a.is_multi_pilot

pub data Role : Type 0 where
  role_pic role_dual_receiving role_dual_giving role_sic role_passenger : Role

unfoldable pub has_declared_function_time : Flight → Bool
has_declared_function_time f =
    is_positive f.picus_time || is_positive f.spic_time || is_positive f.relief_time

pub record CrewComposition : Type 0 where
  pub other_instructor : Bool
  pub self_instructor : Bool
  pub other_examiner : Bool
  pub other_student : Bool
  pub other_pic : Bool
  pub self_pic : Bool
  pub self_sic : Bool
  pub self_safety_pilot : Bool
  pub empty : Bool

-- The closure isSelf of classifyCrew.
unfoldable pub is_self : Text → Text → Bool
is_self user_name name = not (is_empty user_name) && matches_user name user_name

-- One turn of the loop of classifyCrew, for a member who is or is not the user.
unfoldable pub note_member : Bool → CrewRole → CrewComposition → CrewComposition
note_member true instructor c = record c { self_instructor = true }
note_member false instructor c = record c { other_instructor = true }
note_member false examiner c = record c { other_examiner = true }
note_member false student c = record c { other_student = true }
note_member true pic c = record c { self_pic = true }
note_member false pic c = record c { other_pic = true }
note_member true sic c = record c { self_sic = true }
note_member true safety_pilot c = record c { self_safety_pilot = true }
note_member _ _ c = c

unfoldable pub note_crew : Text → List CrewMember → CrewComposition → CrewComposition
unfolding note_member is_self
note_crew user_name [] c = c
note_crew user_name (m ∷ ms) c =
    note_crew user_name ms (note_member (is_self user_name m.name) m.role c)

abbrev pub no_crew : Bool → CrewComposition
no_crew empty = record {
  other_instructor = false;
  self_instructor = false;
  other_examiner = false;
  other_student = false;
  other_pic = false;
  self_pic = false;
  self_sic = false;
  self_safety_pilot = false;
  empty = empty;
}

unfoldable pub classify_crew : Flight → Text → CrewComposition
unfolding note_crew
classify_crew f user_name = note_crew user_name f.crew_members (no_crew (is_empty f.crew_members))

unfoldable pub may_log_co_pilot_time : Flight → CrewComposition → Option AircraftFacts → Bool
unfolding is_multi_pilot_aircraft has_declared_function_time
may_log_co_pilot_time f crew aircraft =
    if is_multi_pilot_aircraft aircraft || crew.self_safety_pilot || crew.self_sic
    then true
    else if has_declared_function_time f
    then true
    else f.sic_time_override && is_positive f.sic_time

unfoldable pub determine_role : Flight → Text → Option AircraftFacts → Role
unfolding classify_crew may_log_co_pilot_time has_declared_function_time
determine_role f user_name aircraft =
    let crew = classify_crew f user_name in
    if crew.other_instructor || crew.other_examiner
    then role_dual_receiving
    else if crew.self_instructor || crew.other_student
    then role_dual_giving
    else if (crew.other_pic || crew.self_sic) && not crew.self_pic
    then (if may_log_co_pilot_time f crew aircraft then role_sic else role_passenger)
    else if crew.self_safety_pilot && not crew.self_pic
    then role_sic
    else if crew.empty
        && ((f.sic_time_override && is_positive f.sic_time) || has_declared_function_time f)
    then role_sic
    else role_pic

-- The switch on the role, and the test of the crew list, in IsMultiPilotOperation.
abbrev pub is_role_sic : Role → Bool
is_role_sic role_sic = true
is_role_sic _ = false

abbrev pub is_crew_sic : CrewRole → Bool
is_crew_sic sic = true
is_crew_sic _ = false

unfoldable pub is_multi_pilot_operation : Flight → Role → Option AircraftFacts → Bool
unfolding is_multi_pilot_aircraft
is_multi_pilot_operation f role aircraft =
    if not (is_multi_pilot_aircraft aircraft)
    then false
    else if is_role_sic role
    then true
    else any (λ m. is_crew_sic m.role) f.crew_members
