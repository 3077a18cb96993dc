-- ===== src/FlightRules/PicName/Saved.antt =====
-- ResolvePICNameForSave and DisplayPICName (internal/service/flightrules/display.go): a saved name
-- is stable, and a flight always shows one.
use ninerlog_api.Base.{
  ◌≡◌, ◌∙◌, sym, refl, Bool, true, false, Bool-cases, not, ◌&&◌, List, Option, none, some, inl, inr,
  [], ◌∷◌, is_empty, if◌then◌else◌,
}
use ninerlog_api.Base.Text.{Text, codes, trim_space}
use ninerlog_api.Base.Text.Trim.{trim_space_again}
use ninerlog_api.Flight.{Flight, CrewMember, CrewRole}
use ninerlog_api.FlightRules.PicName.{
  non_blank, non_empty, or_else, or_text, trimmed, name_from_crew, third_party_name,
  instructor_name_from_crew, examiner_name_from_crew, pic_name_from_crew, is_self_placeholder,
  choose_pic_name, display_pic_name, resolve_pic_name_for_save,
}

-- The name chosen, once more.
NonBlank : Option Text → Type 0
NonBlank o = non_blank o ≡ o

resolve_twice :
    (p i : Option Text) (b : Bool)
    → NonBlank i
    → NonBlank p
    → non_blank (some (codes "Self")) ≡ some (codes "Self")
    → or_else
        (choose_pic_name
          (non_blank (or_else (choose_pic_name p i) (if b then some (codes "Self") else none)))
          i)
        (if b then some (codes "Self") else none)
      ≡ or_else (choose_pic_name p i) (if b then some (codes "Self") else none)
unfolding choose_pic_name NonBlank
resolve_twice none none true h k s = rw s refl
resolve_twice none none false h k s = rw k refl
resolve_twice none (some i) b h k s = elim (Bool-cases (is_self_placeholder i)) [
  | inl e ↦ rw (h, e) refl
  | inr e ↦ rw (h, e) refl
]
resolve_twice (some p) none b h k s = rw k refl
resolve_twice (some p) (some i) b h k s = elim (Bool-cases (is_self_placeholder p)) [
  | inl e ↦ elim (Bool-cases (is_self_placeholder i)) [
    | inl g ↦ rw (e, h, g) refl
    | inr g ↦ rw (e, h, g) refl
  ]
  | inr e ↦ rw (e, k, e) refl
]

non_blank-NonBlank : (o : Option Text) → NonBlank (non_blank o)
unfolding NonBlank non_blank
non_blank-NonBlank none = refl
non_blank-NonBlank (some s) = elim (Bool-cases (is_empty (trim_space s))) [
  | inl e ↦ rw e refl
  | inr e ↦ rw (e, e) refl
]

NonBlank-or_else : (o p : Option Text) → NonBlank o → NonBlank p → NonBlank (or_else o p)
NonBlank-or_else none p h k = k
NonBlank-or_else (some s) p h k = h

-- A name from the crew is empty or not blank.
Worded : Text → Type 0
Worded s = is_empty (trim_space s) ≡ is_empty s

if_Worded : (b : Bool) (s t : Text) → Worded s → Worded t → Worded (if b then s else t)
if_Worded true s t h k = h
if_Worded false s t h k = k

trim_empty : Worded []
unfolding Worded trim_space
trim_empty = refl

again : (s : Text) → Worded (trim_space s)
unfolding Worded
again s = trim_space_again s

third_party_name-Worded :
    (ms : List CrewMember) (u : Text) (r : CrewRole) → Worded (third_party_name ms u r)
unfolding third_party_name
third_party_name-Worded [] u r = trim_empty
third_party_name-Worded (m ∷ ms) u r =
    if_Worded _ _ _ (third_party_name-Worded ms u r) (again m.name)

non_empty-NonBlank : (s : Text) → Worded s → NonBlank (non_empty s)
unfolding Worded NonBlank non_blank
non_empty-NonBlank s h = elim (Bool-cases (is_empty s)) [
  | inl e ↦ rw e refl
  | inr e ↦ rw (e, h, e) refl
]

name_from_crew-NonBlank : (f : Flight) (u : Text) → NonBlank (name_from_crew f u)
unfolding name_from_crew instructor_name_from_crew examiner_name_from_crew pic_name_from_crew
name_from_crew-NonBlank f u =
    NonBlank-or_else _ _ (non_empty-NonBlank _ (third_party_name-Worded f.crew_members u _)) (
      NonBlank-or_else _ _ (non_empty-NonBlank _ (third_party_name-Worded f.crew_members u _))
        (non_empty-NonBlank _ (third_party_name-Worded f.crew_members u _)))

self_NonBlank : non_blank (some (codes "Self")) ≡ some (codes "Self")
unfolding non_blank trim_space
self_NonBlank = refl

if_not : (b : Bool) (x y : Text) → b ≡ false → is_empty (if b then x else y) ≡ is_empty y
if_not b x y e = rw e refl

-- A name that is not empty, if there is one.
abbrev Filled : Option Text → Type 0
Filled none = Unit
Filled (some s) = is_empty s ≡ false

Filled-or_else : (o p : Option Text) → Filled o → Filled p → Filled (or_else o p)
Filled-or_else none p h k = k
Filled-or_else (some s) p h k = h

non_empty-Filled : (s : Text) → Filled (non_empty s)
non_empty-Filled [] = tt
non_empty-Filled (c ∷ s) = refl

empty_trims : (s : Text) → is_empty (trim_space s) ≡ false → is_empty s ≡ false
unfolding trim_space
empty_trims [] h = h
empty_trims (c ∷ s) h = refl

non_blank-Filled : (o : Option Text) → Filled (non_blank o) × Filled (trimmed (non_blank o))
unfolding non_blank
non_blank-Filled none = (tt, tt)
non_blank-Filled (some s) = elim (Bool-cases (is_empty (trim_space s))) [
  | inl e ↦ rw e (tt, tt)
  | inr e ↦ rw e (empty_trims s e, e)
]

name_from_crew-Filled : (f : Flight) (u : Text) → Filled (name_from_crew f u)
unfolding name_from_crew
name_from_crew-Filled f u =
    Filled-or_else (non_empty (instructor_name_from_crew f u)) _
      (non_empty-Filled (instructor_name_from_crew f u))
      (Filled-or_else (non_empty (examiner_name_from_crew f u)) (non_empty (pic_name_from_crew f u))
        (non_empty-Filled (examiner_name_from_crew f u))
        (non_empty-Filled (pic_name_from_crew f u)))

choose-Filled : (p i : Option Text) → Filled p → Filled i → Filled (choose_pic_name p i)
unfolding choose_pic_name
choose-Filled none i h k = k
choose-Filled (some p) none h k = h
choose-Filled (some p) (some i) h k = elim (Bool-cases (is_self_placeholder p)) [
  | inl e ↦ rw e k
  | inr e ↦ rw e h
]

or_text-Filled :
    (o : Option Text) (d : Text) → Filled o → is_empty d ≡ false → is_empty (or_text o d) ≡ false
or_text-Filled none d h k = k
or_text-Filled (some s) d h k = h

display_pic_name-Filled : (f : Flight) (u : Text) → is_empty (display_pic_name f u) ≡ f.is_simulator
unfolding display_pic_name
display_pic_name-Filled f u = elim (Bool-cases f.is_simulator) [
  | inl e ↦ rw e refl
  | inr e ↦
      if_not f.is_simulator [] _ e
      ∙ or_text-Filled _ (codes "SELF")
          (choose-Filled (non_blank f.pic_name)
            (or_else (trimmed (non_blank f.instructor_name)) (name_from_crew f u))
            (non_blank-Filled f.pic_name).0
            (Filled-or_else _ _ (non_blank-Filled f.instructor_name).1 (name_from_crew-Filled f u)))
          refl
      ∙ sym e
]

resolve_pic_name_idem :
    (f : Flight) (user_name : Text)
    → resolve_pic_name_for_save
        (record f { pic_name = resolve_pic_name_for_save f user_name })
        user_name
      ≡ resolve_pic_name_for_save f user_name
unfolding resolve_pic_name_for_save name_from_crew instructor_name_from_crew examiner_name_from_crew
    pic_name_from_crew
resolve_pic_name_idem f user_name =
    resolve_twice (non_blank f.pic_name)
      (or_else (non_blank f.instructor_name) (name_from_crew f user_name))
      (f.is_pic && not f.is_dual)
      (NonBlank-or_else (non_blank f.instructor_name) (name_from_crew f user_name)
        (non_blank-NonBlank f.instructor_name) (name_from_crew-NonBlank f user_name))
      (non_blank-NonBlank f.pic_name) self_NonBlank

-- Saving again the PIC name that ResolvePICNameForSave gave leaves it as it is; and DisplayPICName
-- gives the empty text for FSTD sessions alone.
pub pic_name_lem :
    (f : Flight) (user_name : Text)
    → (resolve_pic_name_for_save
          (record f { pic_name = resolve_pic_name_for_save f user_name })
          user_name
        ≡ resolve_pic_name_for_save f user_name)
      × (is_empty (display_pic_name f user_name) ≡ f.is_simulator)
pic_name_lem f user_name = (resolve_pic_name_idem f user_name, display_pic_name-Filled f user_name)
