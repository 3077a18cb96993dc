-- ===== src/Currency/Service/Complete.antt =====
-- EvaluateAll (service.go) reports the passenger currency of every class that has one.
use mathlib.Core.Path.{subst}
use ninerlog_api.Base.{
  ◌≡◌, ◌≢◌, refl, sym, ap, ◌∙◌, ◌⊎◌, inl, inr, ℕ, Bool, true, false, Bool-cases, not, ◌||◌, ◌&&◌,
  Option, none, some, List, [], ◌∷◌, ◌++◌, map, any, All, arith, if◌then◌else◌,
}
use ninerlog_api.Base.Text.{Text, codes}
use ninerlog_api.Clock.{Instant}
use ninerlog_api.Models.{ClassType, ir, ul, UlKind, class_eq, ClassRating, License}
use ninerlog_api.Currency.Types.{PassengerCurrency}
use ninerlog_api.Currency.Provider.{FlightDataProvider}
use ninerlog_api.Currency.GermanUl.{rating_ul_kind}
use ninerlog_api.Currency.Service.{
  Evaluator, easa_evaluator, faa_evaluator, other_evaluator, german_ul_evaluator, Registry, get,
  evaluator_for, is_german_ul, key_eq, passenger_key, Evaluation, is_eligible, holds_part_fcl_tmg,
  passenger_results, evaluate_all,
}
use ninerlog_api.Currency.Service.Keys.{class_eq-eq, key_eq-eq}
use ninerlog_api.Currency.Service.Passengers.{
  Candidate, key_of, results_for, evaluate_all-OncePerKey,
}
use ninerlog_api.Currency.Service.Coverage.{Covers, CoversRead, evaluate_all-CoversAll}
use ninerlog_api.Currency.Service.Shown.{Shows, easa-Shows, faa-Shows, ul-Shows}

-- An element of the list has the property.
abbrev pub Some : {A : Type 0} → (A → Type 0) → List A → Type 0
Some P [] = ⊥
Some P (x ∷ l) = P x ⊎ Some P l

Some-left : {A : Type 0} (P : A → Type 0) (l m : List A) → Some P l → Some P (l ++ m)
Some-left P [] m h = absurd h
Some-left P (x ∷ l) m (inl h) = inl h
Some-left P (x ∷ l) m (inr h) = inr (Some-left P l m h)

Some-right : {A : Type 0} (P : A → Type 0) (l m : List A) → Some P m → Some P (l ++ m)
Some-right P [] m h = h
Some-right P (x ∷ l) m h = inr (Some-right P l m h)

Some-map :
    {A : Type 0} {P Q : A → Type 0} → ((x : A) → P x → Q x) → (l : List A) → Some P l → Some Q l
Some-map f [] h = absurd h
Some-map f (x ∷ l) (inl h) = inl (f x h)
Some-map f (x ∷ l) (inr h) = inr (Some-map f l h)

-- What holds of all elements holds of one.
All-at : {A : Type 0} (P : A → Type 0) (x : A) (l : List A) → Some (λ y. x ≡ y) l → All P l → P x
All-at P x [] m h = absurd m
All-at P x (y ∷ l) (inl e) h = subst P (sym e) h.0
All-at P x (y ∷ l) (inr m) h = All-at P x l m h.1

-- The authority on a result: the FAA evaluator writes its own.
abbrev pub shown_authority : Evaluator → Text → Text
shown_authority faa_evaluator authority = codes "FAA"
shown_authority _ authority = authority

abbrev pub shown_kind : ClassRating → Option UlKind
shown_kind rating = if class_eq rating.class_type ul then some (rating_ul_kind rating) else none

passes : (i u g : Bool) → i ≡ false → (u ≡ false) ⊎ (g ≡ true) → not i && not (u && not g) ≡ true
passes i u g h k = ground arith

not_class : (r : ClassRating) (c : ClassType) → r.class_type ≢ c → class_eq r.class_type c ≡ false
not_class r c h = elim (Bool-cases (class_eq r.class_type c)) [
  | inl e ↦ absurd (h (class_eq-eq r.class_type c e))
  | inr e ↦ e
]

-- Neither IR, nor ULTRALIGHT outside the German evaluator.
eligible :
    (eval : Evaluator) (r : ClassRating)
    → r.class_type ≢ ir
    → (r.class_type ≢ ul) ⊎ (eval ≡ german_ul_evaluator)
    → is_eligible eval r ≡ true
eligible eval r h k =
    passes (class_eq r.class_type ir) (class_eq r.class_type ul) (is_german_ul eval)
      (not_class r ir h)
      (elim k [ inl a ↦ inl (not_class r ul a) | inr g ↦ inr (ap is_german_ul g) ])

rekinded :
    {ct : ClassType} {k k' : Option UlKind} {auth : Text} {r : PassengerCurrency}
    → k ≡ k'
    → Shows ct k auth r
    → Shows ct k' auth r
rekinded e h = record {
  of_class = h.of_class;
  of_kind = h.of_kind ∙ e;
  of_authority = h.of_authority;
}

-- Outside the German evaluator an eligible rating is no ultralight, and shows no kind.
no_kind :
    (i u : Bool) (k : Option UlKind)
    → not i && not (u && true) ≡ true
    → none ≡ (if u then k else none)
no_kind i u k h = ground arith

or_next : (a b : Bool) → a ≡ false → a || b ≡ true → b ≡ true
or_next a b h k = ground arith

module _ (registry : Registry) (requested : Bool) (wall : Instant) (user_id : ℕ)
    (dp : FlightDataProvider) (as_of : Option (Instant → FlightDataProvider)) where
  -- The evaluation of an eligible rating by an evaluator that has one.
  passenger_results-Shows :
      (eval : Evaluator) (license : License) (peers : List ClassRating) (rating : ClassRating)
      → eval ≢ other_evaluator
      → is_eligible eval rating ≡ true
      → Some
          (Shows rating.class_type
            (shown_kind rating)
            (shown_authority eval license.regulatory_authority))
          (passenger_results registry requested wall user_id dp as_of eval license peers rating)
  unfolding passenger_results
  passenger_results-Shows other_evaluator license peers rating n w = absurd (n refl)
  passenger_results-Shows german_ul_evaluator license peers rating n w =
      inl (ul-Shows requested wall rating license peers dp)
  passenger_results-Shows easa_evaluator license peers rating n w = inl (
      rekinded
        (no_kind (class_eq rating.class_type ir) (class_eq rating.class_type ul)
          (some (rating_ul_kind rating)) w)
        (easa-Shows requested wall rating.class_type license peers dp))
  passenger_results-Shows faa_evaluator license peers rating n w = inl (
      rekinded
        (no_kind (class_eq rating.class_type ir) (class_eq rating.class_type ul)
          (some (rating_ul_kind rating)) w)
        (faa-Shows requested wall rating.class_type license dp))

  -- The evaluator depends on the authority only.
  same_evaluator :
      (a b : License)
      → a.regulatory_authority ≡ b.regulatory_authority
      → evaluator_for registry a ≡ evaluator_for registry b
  unfolding evaluator_for
  same_evaluator a b h =
      ap (λ t. elim (get registry t) [ none ↦ other_evaluator | some eval ↦ eval ]) h

  -- What a rating must be shown with.
  abbrev pub ShowsRating : License → ClassRating → PassengerCurrency → Type 0
  ShowsRating license rating =
      Shows rating.class_type (shown_kind rating)
        (shown_authority (evaluator_for registry license) license.regulatory_authority)

  -- A candidate with an equal key shows the same.
  candidate_shown :
      (license : License) (rating : ClassRating) (c : Candidate)
      → key_eq (passenger_key license rating) (key_of c) ≡ true
      → evaluator_for registry license ≢ other_evaluator
      → is_eligible (evaluator_for registry c.license) c.rating ≡ true
      → Some (ShowsRating license rating) (
          passenger_results registry requested wall user_id dp as_of
            (evaluator_for registry c.license)
            c.license
            c.peers
            c.rating)
  candidate_shown license rating c same n w =
      let (ct, auth, kind) = key_eq-eq (passenger_key license rating) (key_of c) same in
      let eval = same_evaluator license c.license auth in
      let found =
        passenger_results-Shows (evaluator_for registry c.license) c.license c.peers c.rating
          (λ e. n (eval ∙ e)) w in
      let authority =
        ap (λ v. shown_authority v c.license.regulatory_authority) (sym eval)
        ∙ ap (shown_authority (evaluator_for registry license)) (sym auth) in
      Some-map
        (λ r h. record {
          of_class = h.of_class ∙ sym ct;
          of_kind = h.of_kind ∙ sym kind;
          of_authority = h.of_authority ∙ authority;
        })
        _ found

  -- A key that was seen has its result.
  results_for-Shows :
      (license : License) (rating : ClassRating) (log : List Candidate)
      → any (key_eq (passenger_key license rating)) (map key_of log) ≡ true
      → All (λ (c : Candidate). is_eligible (evaluator_for registry c.license) c.rating ≡ true) log
      → evaluator_for registry license ≢ other_evaluator
      → Some (ShowsRating license rating) (results_for registry requested wall user_id dp as_of log)
  results_for-Shows license rating [] h w n = absurd (cc h)
  results_for-Shows license rating (c ∷ log) h w n =
      let made =
        passenger_results registry requested wall user_id dp as_of
          (evaluator_for registry c.license) c.license c.peers c.rating in
      let before = results_for registry requested wall user_id dp as_of log in
      elim (Bool-cases (key_eq (passenger_key license rating) (key_of c))) [
        | inl same ↦
            Some-right (ShowsRating license rating) before made
              (candidate_shown license rating c same n w.0)
        | inr next ↦
            Some-left (ShowsRating license rating) before made
              (results_for-Shows license rating log (or_next _ _ next h) w.1 n)
      ]

-- EvaluateAll, once the licences are read, reports the passenger currency of every class: for a
-- licence among them, whose authority's evaluator is not the fallback one, and a class rating that
-- was read for it and is not IR, nor ULTRALIGHT outside the German evaluator, one of the passenger
-- results has the rating's class, its ultralight kind, and the licence's authority ("FAA" where the
-- FAA evaluator is registered for it).
pub evaluate_all-Shows :
    (registry : Registry) (requested : Bool) (wall : Instant) (user_id : ℕ)
    (dp : FlightDataProvider) (as_of : Option (Instant → FlightDataProvider))
    (licenses : List License) (read : ℕ → Option (List ClassRating)) (e : Evaluation)
    (license : License) (ratings : List ClassRating) (rating : ClassRating)
    → evaluate_all registry requested wall user_id dp as_of (some licenses) read ≡ some e
    → Some (λ l. license ≡ l) licenses
    → read license.id ≡ some ratings
    → Some (λ r. rating ≡ r) ratings
    → evaluator_for registry license ≢ other_evaluator
    → rating.class_type ≢ ir
    → (rating.class_type ≢ ul) ⊎ (evaluator_for registry license ≡ german_ul_evaluator)
    → Some
        (Shows rating.class_type
          (shown_kind rating)
          (shown_authority (evaluator_for registry license) license.regulatory_authority))
        e.passenger_currency
evaluate_all-Shows registry requested wall user_id dp as_of licenses read e license ratings rating h
      listed found held n no_ir german =
    let part = holds_part_fcl_tmg registry requested wall user_id dp as_of read licenses in
    let once = evaluate_all-OncePerKey registry requested wall user_id dp as_of licenses read e h in
    let all = evaluate_all-CoversAll registry requested wall user_id dp as_of licenses read e h in
    let covered =
      All-at
        (λ (l : License). CoversRead registry requested wall user_id dp as_of part l (read l.id) e)
        license licenses listed all in
    let covers : Covers registry requested wall user_id dp as_of part license ratings e =
      subst (λ o. CoversRead registry requested wall user_id dp as_of part license o e) found
        covered in
    let seen =
      All-at
        (λ (r : ClassRating).
          is_eligible (evaluator_for registry license) r ≡ true
          → any (key_eq (passenger_key license r)) e.seen_passenger_classes ≡ true)
        rating ratings held covers
        (eligible (evaluator_for registry license) rating no_ir german) in
    subst (Some (ShowsRating registry requested wall user_id dp as_of license rating))
      (sym once.made)
      (results_for-Shows registry requested wall user_id dp as_of license rating once.log
        (subst (λ l. any (key_eq (passenger_key license rating)) l ≡ true) once.keyed seen)
        once.eligible n)
