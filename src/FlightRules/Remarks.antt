-- ===== src/FlightRules/Remarks.antt =====
-- flightrules/remarks.go: the remarks as they are printed, with the declared times and the flags.
use ninerlog_api.Base.{Bool, Option, none, some, List, [], ◌∷◌, ◌++◌, is_empty, if◌then◌else◌}
use ninerlog_api.Base.Int.{ℤ, is_positive}
use ninerlog_api.Base.Text.{Text, codes, trim_space}
use ninerlog_api.Duration.{format_colon_hm}
use ninerlog_api.Flight.{Flight, is_given}

pub data RemarkFlag : Type 0 where
  flag_ipc flag_flight_review flag_proficiency_check : RemarkFlag

abbrev or_blank : Option Text → Text
or_blank none = []
or_blank (some s) = s

-- A text and one more, parted by a separator where the first is not empty.
joined_by : Text → Text → Text → Text
joined_by separator out s = if is_empty out then s else out ++ separator ++ s

-- The closures addTime and addFlag.
unfoldable pub add_time : Text → ℤ → Text → Text
unfolding joined_by format_colon_hm
add_time label minutes out =
    if is_positive minutes
    then joined_by (codes " ") out
        (codes "[" ++ label ++ codes " " ++ format_colon_hm minutes ++ codes "]")
    else out

unfoldable pub add_flag : Bool → Text → Text → Text
unfolding joined_by
add_flag active label out = if active then joined_by (codes " ") out label else out

unfoldable pub add_flags : Flight → List RemarkFlag → Text → Text
unfolding add_flag
add_flags f [] out = out
add_flags f (flag_ipc ∷ flags) out = add_flags f flags (add_flag f.is_ipc (codes "[IPC]") out)
add_flags f (flag_flight_review ∷ flags) out =
    add_flags f flags (add_flag f.is_flight_review (codes "[FR]") out)
add_flags f (flag_proficiency_check ∷ flags) out =
    add_flags f flags (add_flag f.is_proficiency_check (codes "[PC]") out)

unfoldable pub combined_remarks : Flight → List RemarkFlag → Text
unfolding joined_by add_time add_flags trim_space
combined_remarks f flags =
    let remarks = or_blank f.remarks in
    let endorsed =
      if is_given f.endorsements
      then joined_by (codes " | ") remarks (or_blank f.endorsements)
      else remarks in
    let timed = add_time (codes "Relief") f.relief_time (
      add_time (codes "Examiner") f.examiner_time
        (add_time (codes "SPIC") f.spic_time (add_time (codes "PICUS") f.picus_time endorsed))) in
    trim_space (add_flags f flags timed)
