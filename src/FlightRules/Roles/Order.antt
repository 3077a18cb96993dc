-- ===== src/FlightRules/Roles/Order.antt =====
-- The order of the crew list does not matter to the role (internal/service/flightrules/roles.go).
use mathlib.Core.List.{Perm}
use mathlib.Core.Logic.{∥∥₁_elim}
use mathlib.Core.Bool.{Bool-set}
use ninerlog_api.Base.{◌≡◌, sym, ◌∙◌, refl, Bool, Option, List, any, is_empty}
use ninerlog_api.Base.Text.{Text}
use ninerlog_api.Flight.{
  CrewRole, instructor, examiner, student, pic, sic, safety_pilot, CrewMember, Flight,
}
use ninerlog_api.FlightRules.Roles.{
  AircraftFacts, CrewComposition, Role, is_crew_sic, note_crew, no_crew, classify_crew,
  determine_role, is_multi_pilot_operation,
}
use ninerlog_api.FlightRules.Roles.Precedence.{
  self_is, other_is, joined, note_crew-joined, any-Permᴰ, is_empty-Permᴰ,
}

any-Perm : (p : CrewMember → Bool) {l r : List CrewMember} → Perm l r → any p l ≡ any p r
any-Perm p {l} {r} h = ∥∥₁_elim h (Bool-set (any p l) (any p r)) (any-Permᴰ p)

is_empty-Perm : {l r : List CrewMember} → Perm l r → is_empty l ≡ is_empty r
is_empty-Perm {l} {r} h = ∥∥₁_elim h (Bool-set (is_empty l) (is_empty r)) is_empty-Permᴰ

module _ (user : Text) {l r : List CrewMember} (h : Perm l r) where
  self_is-Perm : (q : CrewRole) → self_is user q l ≡ self_is user q r
  unfolding self_is
  self_is-Perm q = any-Perm _ h

  other_is-Perm : (q : CrewRole) → other_is user q l ≡ other_is user q r
  unfolding other_is
  other_is-Perm q = any-Perm _ h

  joined-Perm : (c : CrewComposition) → joined user l c ≡ joined user r c
  unfolding joined
  joined-Perm c =
      rw
        (
          self_is-Perm instructor,
          self_is-Perm pic,
          self_is-Perm sic,
          self_is-Perm safety_pilot,
          other_is-Perm instructor,
          other_is-Perm examiner,
          other_is-Perm student,
          other_is-Perm pic,
        )
        refl

  note_crew-Perm : note_crew user l (no_crew (is_empty l)) ≡ note_crew user r (no_crew (is_empty r))
  note_crew-Perm =
      note_crew-joined user l (no_crew (is_empty l))
      ∙ joined-Perm (no_crew (is_empty l))
      ∙ rw (is_empty-Perm h) (sym (note_crew-joined user r (no_crew (is_empty r))))

-- The user's role, and whether the operation is multi-pilot, are the same for the crew list in any order.
pub determine_role-Perm :
    (f : Flight) (user : Text) (aircraft : Option AircraftFacts) (role : Role) (r : List CrewMember)
    → Perm f.crew_members r
    → (determine_role (record f { crew_members = r }) user aircraft
        ≡ determine_role f user aircraft)
      × (is_multi_pilot_operation (record f { crew_members = r }) role aircraft
          ≡ is_multi_pilot_operation f role aircraft)
unfolding determine_role classify_crew is_multi_pilot_operation
determine_role-Perm f user aircraft role r h =
    (rw (note_crew-Perm user h) refl, rw (any-Perm (λ m. is_crew_sic m.role) h) refl)
