-- ===== src/FlightRules/Roles/Precedence.antt =====
-- The crew list as DetermineRole (internal/service/flightrules/roles.go) reads it.
use ninerlog_api.Base.{
  ◌≡◌, sym, ◌∙◌, refl, Bool, true, false, not, ◌&&◌, ◌||◌, List, [], ◌∷◌, arith, any, is_empty,
}
use mathlib.Core.List.{Permᴰ}
use ninerlog_api.Base.Text.{Text}
use ninerlog_api.Flight.{
  CrewRole, pic, sic, instructor, student, passenger, safety_pilot, examiner, CrewMember,
}
use ninerlog_api.FlightRules.Roles.{CrewComposition, is_self, note_member, note_crew}

-- The roles as a test.
abbrev same_role : CrewRole → CrewRole → Bool
same_role pic pic = true
same_role sic sic = true
same_role instructor instructor = true
same_role student student = true
same_role passenger passenger = true
same_role safety_pilot safety_pilot = true
same_role examiner examiner = true
same_role _ _ = false

-- Someone on the crew list has the role: the user, and another person.
unfoldable pub self_is : Text → CrewRole → List CrewMember → Bool
self_is user r ms = any (λ m. is_self user m.name && same_role m.role r) ms

unfoldable pub other_is : Text → CrewRole → List CrewMember → Bool
other_is user r ms = any (λ m. not (is_self user m.name) && same_role m.role r) ms

-- A composition after further members.
unfoldable pub joined : Text → List CrewMember → CrewComposition → CrewComposition
joined user ms c = record {
  other_instructor = c.other_instructor || other_is user instructor ms;
  self_instructor = c.self_instructor || self_is user instructor ms;
  other_examiner = c.other_examiner || other_is user examiner ms;
  other_student = c.other_student || other_is user student ms;
  other_pic = c.other_pic || other_is user pic ms;
  self_pic = c.self_pic || self_is user pic ms;
  self_sic = c.self_sic || self_is user sic ms;
  self_safety_pilot = c.self_safety_pilot || self_is user safety_pilot ms;
  empty = c.empty;
}

or_false : (b : Bool) → (b || false) ≡ b
or_false true = refl
or_false false = refl

or_true : (b : Bool) → (b || true) ≡ true
or_true true = refl
or_true false = refl

-- One member more, for the member's role and whether it is the user, `self` and `other` being what
-- the rest of the list says of each role.
unfoldable counted :
    Bool → CrewRole → (CrewRole → Bool) → (CrewRole → Bool) → CrewComposition → CrewComposition
counted b r self other c = record {
  other_instructor = c.other_instructor || ((not b && same_role r instructor) || other instructor);
  self_instructor = c.self_instructor || ((b && same_role r instructor) || self instructor);
  other_examiner = c.other_examiner || ((not b && same_role r examiner) || other examiner);
  other_student = c.other_student || ((not b && same_role r student) || other student);
  other_pic = c.other_pic || ((not b && same_role r pic) || other pic);
  self_pic = c.self_pic || ((b && same_role r pic) || self pic);
  self_sic = c.self_sic || ((b && same_role r sic) || self sic);
  self_safety_pilot = c.self_safety_pilot || ((b && same_role r safety_pilot) || self safety_pilot);
  empty = c.empty;
}

note_member-counted :
    (b : Bool) (r : CrewRole) (user : Text) (ms : List CrewMember) (c : CrewComposition)
    → joined user ms (note_member b r c)
      ≡ counted b r (λ q. self_is user q ms) (λ q. other_is user q ms) c
unfolding joined note_member counted
note_member-counted true instructor user ms c = rw (or_true c.self_instructor) refl
note_member-counted false instructor user ms c = rw (or_true c.other_instructor) refl
note_member-counted true examiner user ms c = refl
note_member-counted false examiner user ms c = rw (or_true c.other_examiner) refl
note_member-counted true student user ms c = refl
note_member-counted false student user ms c = rw (or_true c.other_student) refl
note_member-counted true pic user ms c = rw (or_true c.self_pic) refl
note_member-counted false pic user ms c = rw (or_true c.other_pic) refl
note_member-counted true sic user ms c = rw (or_true c.self_sic) refl
note_member-counted false sic user ms c = refl
note_member-counted true safety_pilot user ms c = rw (or_true c.self_safety_pilot) refl
note_member-counted false safety_pilot user ms c = refl
note_member-counted true passenger user ms c = refl
note_member-counted false passenger user ms c = refl

joined-nil : (user : Text) (c : CrewComposition) → note_crew user [] c ≡ joined user [] c
unfolding note_crew joined self_is other_is
joined-nil user c =
    rw
      (
        or_false c.other_instructor,
        or_false c.self_instructor,
        or_false c.other_examiner,
        or_false c.other_student,
        or_false c.other_pic,
        or_false c.self_pic,
        or_false c.self_sic,
        or_false c.self_safety_pilot,
      )
      refl

joined-cons :
    (user : Text) (m : CrewMember) (ms : List CrewMember) (c : CrewComposition)
    → counted (is_self user m.name) m.role (λ q. self_is user q ms) (λ q. other_is user q ms) c
      ≡ joined user (m ∷ ms) c
unfolding joined counted self_is other_is
joined-cons user m ms c = refl

note_crew-cons :
    (user : Text) (m : CrewMember) (ms : List CrewMember) (c : CrewComposition)
    → note_crew user (m ∷ ms) c ≡ note_crew user ms (note_member (is_self user m.name) m.role c)
unfolding note_crew
note_crew-cons user m ms c = refl

-- The loop finds whoever is on the list.
pub note_crew-joined :
    (user : Text) (ms : List CrewMember) (c : CrewComposition)
    → note_crew user ms c ≡ joined user ms c
note_crew-joined user [] c = joined-nil user c
note_crew-joined user (m ∷ ms) c =
    note_crew-cons user m ms c
    ∙ note_crew-joined user ms (note_member (is_self user m.name) m.role c)
    ∙ note_member-counted (is_self user m.name) m.role user ms c
    ∙ joined-cons user m ms c

or_swap : (a b c : Bool) → (a || (b || c)) ≡ (b || (a || c))
or_swap a b c = ground arith

-- The members in another order.
pub any-Permᴰ : (p : CrewMember → Bool) {l r : List CrewMember} → Permᴰ l r → any p l ≡ any p r
any-Permᴰ p Permᴰ.nil = refl
any-Permᴰ p (Permᴰ.cons e d) = rw (e, any-Permᴰ p d) refl
any-Permᴰ p (Permᴰ.swap {a = a} {b = b} {l = l} e₁ e₂) =
    rw (sym e₁, sym e₂) (or_swap (p a) (p b) (any p l))
any-Permᴰ p (Permᴰ.trans d₁ d₂) = any-Permᴰ p d₁ ∙ any-Permᴰ p d₂

pub is_empty-Permᴰ : {l r : List CrewMember} → Permᴰ l r → is_empty l ≡ is_empty r
is_empty-Permᴰ Permᴰ.nil = refl
is_empty-Permᴰ (Permᴰ.cons e d) = refl
is_empty-Permᴰ (Permᴰ.swap e₁ e₂) = refl
is_empty-Permᴰ (Permᴰ.trans d₁ d₂) = is_empty-Permᴰ d₁ ∙ is_empty-Permᴰ d₂
