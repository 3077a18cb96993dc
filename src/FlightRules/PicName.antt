-- ===== src/FlightRules/PicName.antt =====
-- The PIC name of a row, for display and for saving: display.go of flightrules.
pub mod Saved
use ninerlog_api.Base.{
  Bool, true, false, not, ◌&&◌, ◌||◌, Option, none, some, List, [], ◌∷◌, is_empty, if◌then◌else◌,
}
use ninerlog_api.Base.Text.{Text, codes, trim_space, equal_fold}
use ninerlog_api.Flight.{
  CrewRole, pic, sic, instructor, student, passenger, safety_pilot, examiner, CrewMember, Flight,
  is_given,
}
use ninerlog_api.FlightRules.Names.{matches_user}

-- The roles as a test.
abbrev pub same_role : CrewRole → CrewRole → Bool
same_role pic pic = true
same_role sic sic = true
same_role instructor instructor = true
same_role student student = true
same_role passenger passenger = true
same_role safety_pilot safety_pilot = true
same_role examiner examiner = true
same_role _ _ = false

-- The loop over the crew; the empty text where nobody is found.
unfoldable pub third_party_name : List CrewMember → Text → CrewRole → Text
unfolding trim_space
third_party_name [] user_name role = []
third_party_name (m ∷ ms) user_name role =
    let rest = third_party_name ms user_name role in
    let name = trim_space m.name in
    if not (same_role m.role role)
      || is_empty name
      || (not (is_empty user_name) && matches_user name user_name)
    then rest
    else name

unfoldable pub instructor_name_from_crew : Flight → Text → Text
instructor_name_from_crew f user_name = third_party_name f.crew_members user_name instructor

unfoldable pub examiner_name_from_crew : Flight → Text → Text
examiner_name_from_crew f user_name = third_party_name f.crew_members user_name examiner

unfoldable pub pic_name_from_crew : Flight → Text → Text
pic_name_from_crew f user_name = third_party_name f.crew_members user_name pic

unfoldable pub is_self_placeholder : Text → Bool
unfolding trim_space equal_fold
is_self_placeholder s = equal_fold (trim_space s) (codes "self")

-- The text behind a pointer, none for nil and for a blank text.
unfoldable pub non_blank : Option Text → Option Text
unfolding trim_space
non_blank none = none
non_blank (some s) = if is_empty (trim_space s) then none else some s

abbrev non_empty : Text → Option Text
non_empty s = if is_empty s then none else some s

-- The first that is there.
abbrev pub or_else : Option Text → Option Text → Option Text
or_else none b = b
or_else (some s) b = some s

-- The instructor, examiner or other PIC known from the crew.
unfoldable pub name_from_crew : Flight → Text → Option Text
unfolding instructor_name_from_crew examiner_name_from_crew pic_name_from_crew
name_from_crew f user_name = or_else (non_empty (instructor_name_from_crew f user_name)) (
    or_else (non_empty (examiner_name_from_crew f user_name))
      (non_empty (pic_name_from_crew f user_name)))

abbrev trimmed : Option Text → Option Text
trimmed none = none
trimmed (some s) = some (trim_space s)

-- The choice between the PIC name, if set, and the instructor's name; a "Self" gives way to the latter.
unfoldable pub choose_pic_name : Option Text → Option Text → Option Text
unfolding is_self_placeholder
choose_pic_name none instructor_name = instructor_name
choose_pic_name (some p) none = some p
choose_pic_name (some p) (some i) = if is_self_placeholder p then some i else some p

abbrev or_text : Option Text → Text → Text
or_text none d = d
or_text (some s) d = s

unfoldable pub display_pic_name : Flight → Text → Text
unfolding non_blank name_from_crew choose_pic_name
display_pic_name f user_name =
    if f.is_simulator
    then []
    else or_text
        (choose_pic_name (non_blank f.pic_name)
          (or_else (trimmed (non_blank f.instructor_name)) (name_from_crew f user_name)))
        (codes "SELF")

-- The end of ResolvePICNameForSave, where neither name is known.
abbrev pub self_if_pic : Flight → Option Text
self_if_pic f = if f.is_pic && not f.is_dual then some (codes "Self") else none

unfoldable pub resolve_pic_name_for_save : Flight → Text → Option Text
unfolding non_blank name_from_crew choose_pic_name
resolve_pic_name_for_save f user_name =
    or_else
      (choose_pic_name (non_blank f.pic_name)
        (or_else (non_blank f.instructor_name) (name_from_crew f user_name)))
      (self_if_pic f)
