-- ===== src/FlightRules/LegacyCrew/Completeness.antt =====
-- InferLegacyCrew (internal/service/flightrules/crew.go) loses no name and invents none.
use ninerlog_api.Base.{
  ◌≡◌, refl, Bool, true, false, not, ◌||◌, Option, none, some, List, [], ◌∷◌, ◌++◌, All, any,
  is_empty, arith, if◌then◌else◌,
}
use ninerlog_api.Base.Text.{Text, text_eq_refl, equal_fold, to_lower, trim_space}
use ninerlog_api.Flight.{CrewRole, instructor, student, passenger, CrewMember}
use ninerlog_api.FlightRules.LegacyCrew.{
  LegacyCrewInput, normalize_legacy_role, member, named_apart, first_person, first_members,
  other_member, infer_legacy_crew,
}

-- A name is on the list.
unfoldable pub listed : List CrewMember → Text → Bool
listed ms name = any (λ m. equal_fold m.name name) ms

equal_fold_refl : (s : Text) → equal_fold s s ≡ true
unfolding equal_fold
equal_fold_refl s = text_eq_refl (to_lower s)

-- Nothing is lost: the name is empty or listed.
abbrev Kept : List CrewMember → Text → Type 0
Kept ms name = (is_empty name || listed ms name) ≡ true

other_member-Kept : (p : Text) (r : Option CrewRole) (d : CrewRole) → Kept (other_member p r d) p
unfolding listed other_member member
other_member-Kept p r d = let e = equal_fold_refl p in ground arith

first_person-Kept :
    (p : Text) (r : Option CrewRole) (i : Text) (t g : Bool) → Kept (first_person p r i t g) p
unfolding listed first_person member
first_person-Kept p none i t g = let e = equal_fold_refl p in ground arith
first_person-Kept p (some r) i t g = let e = equal_fold_refl p in ground arith

first_person-Kept_instructor :
    (p : Text) (r : Option CrewRole) (i : Text) (b g : Bool)
    → Kept (first_person p r i (not (is_empty i) || b) g) i
unfolding listed first_person named_apart member
first_person-Kept_instructor p none i b g = let e = equal_fold_refl i in ground arith
first_person-Kept_instructor p (some r) i b g = let e = equal_fold_refl i in ground arith

alone : (i : Text) → Kept (member i instructor ∷ []) i
unfolding listed member
alone i = let e = equal_fold_refl i in ground arith

listed_append :
    (xs ys : List CrewMember) (n : Text) → listed (xs ++ ys) n ≡ (listed xs n || listed ys n)
unfolding listed
listed_append [] ys n = refl
listed_append (x ∷ xs) ys n = ground (arith, listed_append xs ys n)

Kept-left : (xs ys : List CrewMember) (n : Text) → Kept xs n → Kept (xs ++ ys) n
Kept-left xs ys n h = rw (listed_append xs ys n) (ground arith)

Kept-right : (xs ys : List CrewMember) (n : Text) → Kept ys n → Kept (xs ++ ys) n
Kept-right xs ys n h = rw (listed_append xs ys n) (ground arith)

first_members-Kept :
    (p : Text) (r : Option CrewRole) (i : Text) (b g : Bool)
    → Kept (first_members p r i (not (is_empty i) || b) g) p
      × Kept (first_members p r i (not (is_empty i) || b) g) i
unfolding first_members
first_members-Kept [] r [] b g = (refl, refl)
first_members-Kept [] r (c ∷ i) b g = (refl, alone (c ∷ i))
first_members-Kept (c ∷ p) r i b g = (
  first_person-Kept (c ∷ p) r i (not (is_empty i) || b) g,
  first_person-Kept_instructor (c ∷ p) r i b g,
)

-- Every member has a name.
Named : List CrewMember → Type 0
Named ms = All (λ m. is_empty m.name ≡ false) ms

Named-append : (xs ys : List CrewMember) → Named xs → Named ys → Named (xs ++ ys)
unfolding Named
Named-append [] ys h k = k
Named-append (x ∷ xs) ys (h, hs) k = (h, Named-append xs ys hs k)

if_Named :
    (b : Bool) (xs ys : List CrewMember)
    → (b ≡ true → Named xs)
    → (b ≡ false → Named ys)
    → Named (if b then xs else ys)
if_Named true xs ys h k = h refl
if_Named false xs ys h k = k refl

other_member-Named : (p : Text) (r : Option CrewRole) (d : CrewRole) → Named (other_member p r d)
unfolding Named other_member member
other_member-Named [] r d = tt
other_member-Named (c ∷ p) r d = (refl, tt)

named_apart-some : (p i : Text) (t : Bool) → named_apart p i t ≡ true → is_empty i ≡ false
unfolding named_apart
named_apart-some p i t h = ground arith

first_person-Named :
    (p : Text) (r : Option CrewRole) (i : Text) (t g : Bool)
    → is_empty p ≡ false
    → Named (first_person p r i t g)
unfolding Named first_person member
first_person-Named p none i t g h =
    if_Named (named_apart p i t) _ _ (λ e. (named_apart-some p i t e, (h, tt)))
      (λ e. if_Named t _ _ (λ a. (h, tt)) (λ a. if_Named g _ _ (λ b. (h, tt)) (λ b. (h, tt))))
first_person-Named p (some r) i t g h =
    if_Named (named_apart p i t) _ _ (λ e. (named_apart-some p i t e, (h, tt))) (λ e. (h, tt))

first_members-Named :
    (p : Text) (r : Option CrewRole) (i : Text) (t g : Bool) → Named (first_members p r i t g)
unfolding first_members member Named
first_members-Named [] r [] t g = tt
first_members-Named [] r (c ∷ i) t g = (refl, tt)
first_members-Named (c ∷ p) r i t g = first_person-Named (c ∷ p) r i t g refl

-- The six lists joined, each with the names that it keeps.
joined-Kept :
    (a b c d e f : List CrewMember) (i p q r s t u : Text)
    → Kept a i
    → Kept a p
    → Kept b q
    → Kept c r
    → Kept d s
    → Kept e t
    → Kept f u
    → All (λ n. Kept (a ++ b ++ c ++ d ++ e ++ f) n) (i ∷ p ∷ q ∷ r ∷ s ∷ t ∷ u ∷ [])
joined-Kept a b c d e f i p q r s t u hi hp hq hr hs ht hu =
    let ab = a ++ b in
    let abc = ab ++ c in
    let abcd = abc ++ d in
    let from_ab : (n : Text) → Kept ab n → Kept (abcd ++ e ++ f) n = λ n h.
      Kept-left (abcd ++ e) f n (Kept-left abcd e n (Kept-left abc d n (Kept-left ab c n h))) in
    (
      from_ab i (Kept-left a b i hi),
      (
        from_ab p (Kept-left a b p hp),
        (
          from_ab q (Kept-right a b q hq),
          (
            Kept-left (abcd ++ e) f r
                (Kept-left abcd e r (Kept-left abc d r (Kept-right ab c r hr))),
            (
              Kept-left (abcd ++ e) f s (Kept-left abcd e s (Kept-right abc d s hs)),
              (
                Kept-left (abcd ++ e) f t (Kept-right abcd e t ht),
                (Kept-right (abcd ++ e) f u hu, tt),
              ),
            ),
          ),
        ),
      ),
    )

joined-Named :
    (a b c d e f : List CrewMember)
    → Named a
    → Named b
    → Named c
    → Named d
    → Named e
    → Named f
    → Named (a ++ b ++ c ++ d ++ e ++ f)
joined-Named a b c d e f ha hb hc hd he hf =
    Named-append (a ++ b ++ c ++ d ++ e) f
      (Named-append (a ++ b ++ c ++ d) e
        (Named-append (a ++ b ++ c) d (Named-append (a ++ b) c (Named-append a b ha hb) hc) hd) he)
      hf

-- The seven names of the columns, trimmed.
abbrev pub names : LegacyCrewInput → List Text
names input =
    trim_space input.instructor_name
    ∷ trim_space input.person1
    ∷ trim_space input.person2
    ∷ trim_space input.person3
    ∷ trim_space input.person4
    ∷ trim_space input.person5
    ∷ trim_space input.person6
    ∷ []

-- InferLegacyCrew loses no name, whatever the roles and the totals say: each of the instructor's and
-- the six persons' names, trimmed, is empty or, but for its case, the name of a member; and every
-- member it infers has a name.
pub infer_legacy_crew_lem :
    (input : LegacyCrewInput)
    → All (λ n. (is_empty n || listed (infer_legacy_crew input) n) ≡ true) (names input)
      × All (λ m. is_empty m.name ≡ false) (infer_legacy_crew input)
unfolding infer_legacy_crew Named
infer_legacy_crew_lem input =
    let instructor_name = trim_space input.instructor_name in
    let training = not (is_empty instructor_name) || input.has_dual_received in
    let role1 = normalize_legacy_role input.person1_role in
    let role2 = normalize_legacy_role input.person2_role in
    let role3 = normalize_legacy_role input.person3_role in
    let role4 = normalize_legacy_role input.person4_role in
    let role5 = normalize_legacy_role input.person5_role in
    let role6 = normalize_legacy_role input.person6_role in
    let first =
      first_members-Kept (trim_space input.person1) role1 instructor_name input.has_dual_received
        input.has_dual_given in
    (
      joined-Kept _ _ _ _ _ _ _ _ _ _ _ _ _ first.1 first.0
          (other_member-Kept (trim_space input.person2) role2
            (if training then student else passenger))
          (other_member-Kept (trim_space input.person3) role3 passenger)
          (other_member-Kept (trim_space input.person4) role4 passenger)
          (other_member-Kept (trim_space input.person5) role5 passenger)
          (other_member-Kept (trim_space input.person6) role6 passenger),
      joined-Named _ _ _ _ _ _
          (first_members-Named (trim_space input.person1) role1 instructor_name training
            input.has_dual_given)
          (other_member-Named (trim_space input.person2) role2
            (if training then student else passenger))
          (other_member-Named (trim_space input.person3) role3 passenger)
          (other_member-Named (trim_space input.person4) role4 passenger)
          (other_member-Named (trim_space input.person5) role5 passenger)
          (other_member-Named (trim_space input.person6) role6 passenger),
    )
