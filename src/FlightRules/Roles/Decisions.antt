-- ===== src/FlightRules/Roles/Decisions.antt =====
-- DetermineRole (internal/service/flightrules/roles.go) against the crew list it reads.
use ninerlog_api.Base.{
  ◌≡◌, refl, Bool, true, false, Bool-cases, inl, inr, not, ◌&&◌, ◌||◌, Option, arith, is_empty,
  if◌then◌else◌,
}
use ninerlog_api.Base.Int.{is_positive}
use ninerlog_api.Base.Text.{Text}
use ninerlog_api.Flight.{instructor, examiner, student, pic, sic, safety_pilot, Flight}
use ninerlog_api.FlightRules.Roles.{
  AircraftFacts, Role, role_pic, role_dual_receiving, role_dual_giving, role_sic, role_passenger,
  no_crew, is_multi_pilot_aircraft, has_declared_function_time, may_log_co_pilot_time,
  classify_crew, determine_role,
}
use ninerlog_api.FlightRules.Roles.Precedence.{self_is, other_is, joined, note_crew-joined}

classify_crew-joined :
    (f : Flight) (user : Text)
    → classify_crew f user ≡ joined user f.crew_members (no_crew (is_empty f.crew_members))
unfolding classify_crew
classify_crew-joined f user =
    note_crew-joined user f.crew_members (no_crew (is_empty f.crew_members))

-- The last tests of DetermineRole, regrouped.
regroup :
    (led self_pic multi safety co declared entered empty taught teaching : Bool)
    → (if taught
        then role_dual_receiving
        else if teaching
        then role_dual_giving
        else if led && not self_pic
        then (if (if multi || safety || co then true else if declared then true else entered)
            then role_sic
            else role_passenger)
        else if safety && not self_pic
        then role_sic
        else if empty && (entered || declared)
        then role_sic
        else role_pic)
      ≡ (if taught
          then role_dual_receiving
          else if teaching
          then role_dual_giving
          else if led && not self_pic
          then (if multi || safety || co || (declared || entered) then role_sic else role_passenger)
          else if (safety && not self_pic) || (empty && (declared || entered))
          then role_sic
          else role_pic)
regroup led self_pic multi safety co declared entered empty taught teaching = ground arith

module _ (f : Flight) (user : Text) (aircraft : Option AircraftFacts) where
  -- Another person instructs or examines the user; the user instructs.
  unfoldable pub taught : Bool
  taught = other_is user instructor f.crew_members || other_is user examiner f.crew_members

  unfoldable pub teaching : Bool
  teaching = self_is user instructor f.crew_members || other_is user student f.crew_members

  -- Someone else is in command, or the user is listed as co-pilot.
  unfoldable pub led : Bool
  led =
      (other_is user pic f.crew_members || self_is user sic f.crew_members)
      && not (self_is user pic f.crew_members)

  -- The operation has a co-pilot's seat for the user.
  unfoldable pub declared : Bool
  declared = has_declared_function_time f || (f.sic_time_override && is_positive f.sic_time)

  unfoldable pub seated : Bool
  unfolding declared
  seated =
      is_multi_pilot_aircraft aircraft
      || self_is user safety_pilot f.crew_members
      || self_is user sic f.crew_members
      || declared

  -- The user is in a co-pilot's seat though nobody else is in command.
  unfoldable pub supporting : Bool
  unfolding declared
  supporting =
      (self_is user safety_pilot f.crew_members && not (self_is user pic f.crew_members))
      || (is_empty f.crew_members && declared)

  -- What a role says of the crew list and the aircraft.
  unfoldable pub Fits : Role → Type 0
  unfolding taught teaching led seated supporting
  Fits role_dual_receiving = taught ≡ true
  Fits role_dual_giving = (taught ≡ false) × (teaching ≡ true)
  Fits role_passenger = (taught ≡ false) × (teaching ≡ false) × (led ≡ true) × (seated ≡ false)
  Fits role_sic =
      (taught ≡ false) × (teaching ≡ false) × ((led && seated) || (not led && supporting) ≡ true)
  Fits role_pic = (taught ≡ false) × (teaching ≡ false) × (led ≡ false) × (supporting ≡ false)

  -- The tests of DetermineRole, read off the list.
  determine_role-tests : determine_role f user aircraft ≡ (
      if taught
      then role_dual_receiving
      else if teaching
      then role_dual_giving
      else if led
      then (if seated then role_sic else role_passenger)
      else if supporting
      then role_sic
      else role_pic)
  unfolding determine_role may_log_co_pilot_time taught teaching led seated supporting declared
      joined
  determine_role-tests = rw (classify_crew-joined f user) (
      regroup (other_is user pic f.crew_members || self_is user sic f.crew_members)
        (self_is user pic f.crew_members) (is_multi_pilot_aircraft aircraft)
        (self_is user safety_pilot f.crew_members) (self_is user sic f.crew_members)
        (has_declared_function_time f) (f.sic_time_override && is_positive f.sic_time)
        (is_empty f.crew_members) taught teaching)

  -- The role that DetermineRole gives has its conditions met by the crew list read as a whole. Dual
  -- received: another person instructs or examines. Dual given: no such person, and the user instructs
  -- or another person is the student. Passenger and co-pilot: neither, and another person is in
  -- command or the user is listed as co-pilot, while the user is not listed as PIC, without and with
  -- a co-pilot's seat; co-pilot also in a supporting seat. PIC: none of these.
  pub determine_role-Fits : Fits (determine_role f user aircraft)
  unfolding Fits
  determine_role-Fits = rw determine_role-tests (elim (Bool-cases taught) [
    | inl t ↦ rw t t
    | inr t ↦ rw t (elim (Bool-cases teaching) [
      | inl g ↦ rw g (t, g)
      | inr g ↦ rw g (elim (Bool-cases led) [
        | inl l ↦ rw l (elim (Bool-cases seated) [
          | inl s ↦ rw s (t, g, rw (l, s) refl)
          | inr s ↦ rw s (t, g, l, s)
        ])
        | inr l ↦ rw l (elim (Bool-cases supporting) [
          | inl s ↦ rw s (t, g, rw (l, s) refl)
          | inr s ↦ rw s (t, g, l, s)
        ])
      ])
    ])
  ])
