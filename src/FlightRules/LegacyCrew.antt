-- ===== src/FlightRules/LegacyCrew.antt =====
-- flightrules/crew.go: the crew inferred from the flat columns of older logbook files. A role of ""
-- is `none`; the others are the roles of models.CrewRole.
pub mod Completeness
use ninerlog_api.Base.{
  Bool, true, false, not, ◌&&◌, ◌||◌, Option, none, some, List, [], ◌∷◌, ◌++◌, any, is_empty,
  if◌then◌else◌,
}
use ninerlog_api.Base.Text.{Text, codes, text_eq, to_lower, equal_fold, trim_space}
use ninerlog_api.Flight.{CrewRole, pic, sic, instructor, student, passenger, CrewMember}

pub record LegacyCrewInput : Type 0 where
  pub person1 : Text
  pub person2 : Text
  pub person3 : Text
  pub person4 : Text
  pub person5 : Text
  pub person6 : Text
  pub person1_role : Text
  pub person2_role : Text
  pub person3_role : Text
  pub person4_role : Text
  pub person5_role : Text
  pub person6_role : Text
  pub instructor_name : Text
  pub has_dual_received : Bool
  pub has_dual_given : Bool

-- One of the words of a case of the switch.
one_of : Text → List Text → Bool
unfolding text_eq
one_of s words = any (λ w. text_eq s w) words

unfoldable pub normalize_legacy_role : Text → Option CrewRole
unfolding one_of to_lower trim_space text_eq
normalize_legacy_role s =
    let r = to_lower (trim_space s) in
    if text_eq r (codes "pic")
    then some pic
    else if text_eq r (codes "sic")
    then some sic
    else if one_of r (codes "instructor" ∷ codes "cfi" ∷ codes "cfii" ∷ [])
    then some instructor
    else if text_eq r (codes "student")
    then some student
    else if one_of r (
        codes "passenger"
        ∷ codes "pax"
        ∷ codes "flightattendant"
        ∷ codes "flight attendant"
        ∷ codes "observer"
        ∷ codes "engineer"
        ∷ codes "other"
        ∷ [])
    then some passenger
    else none

member : Text → CrewRole → CrewMember
member name role = record { name = name; role = role }

-- The instructor is named and is not the first person.
unfoldable pub named_apart : Text → Text → Bool → Bool
unfolding equal_fold
named_apart p1 instructor_name is_training =
    is_training && not (is_empty instructor_name) && not (equal_fold p1 instructor_name)

-- A first person, with the explicit role if there is one.
unfoldable pub first_person : Text → Option CrewRole → Text → Bool → Bool → List CrewMember
unfolding named_apart member
first_person p1 (some r) instructor_name is_training is_giving =
    if named_apart p1 instructor_name is_training
    then member instructor_name instructor ∷ member p1 r ∷ []
    else member p1 r ∷ []
first_person p1 none instructor_name is_training is_giving =
    if named_apart p1 instructor_name is_training
    then member instructor_name instructor ∷ member p1 pic ∷ []
    else if is_training
    then member p1 instructor ∷ []
    else if is_giving
    then member p1 student ∷ []
    else member p1 pic ∷ []

unfoldable pub first_members : Text → Option CrewRole → Text → Bool → Bool → List CrewMember
unfolding first_person member
first_members p1 role instructor_name is_training is_giving =
    if not (is_empty p1)
    then first_person p1 role instructor_name is_training is_giving
    else if not (is_empty instructor_name)
    then member instructor_name instructor ∷ []
    else []

role_or : Option CrewRole → CrewRole → CrewRole
role_or none d = d
role_or (some r) d = r

-- A person after the first, whose role is `d` if none is explicit.
unfoldable pub other_member : Text → Option CrewRole → CrewRole → List CrewMember
unfolding member role_or
other_member p role d = if is_empty p then [] else member p (role_or role d) ∷ []

unfoldable pub infer_legacy_crew : LegacyCrewInput → List CrewMember
unfolding trim_space normalize_legacy_role first_members other_member
infer_legacy_crew input =
    let instructor_name = trim_space input.instructor_name in
    let is_training = not (is_empty instructor_name) || input.has_dual_received in
    first_members (trim_space input.person1) (normalize_legacy_role input.person1_role)
      instructor_name is_training input.has_dual_given
    ++ other_member (trim_space input.person2) (normalize_legacy_role input.person2_role)
        (if is_training then student else passenger)
    ++ other_member (trim_space input.person3) (normalize_legacy_role input.person3_role) passenger
    ++ other_member (trim_space input.person4) (normalize_legacy_role input.person4_role) passenger
    ++ other_member (trim_space input.person5) (normalize_legacy_role input.person5_role) passenger
    ++ other_member (trim_space input.person6) (normalize_legacy_role input.person6_role) passenger
