-- ===== src/Currency/Service/Coverage.antt =====
-- The loops of EvaluateAll (service.go): the key of every eligible rating that was read is seen.
use mathlib.Core.Path.{subst}
use ninerlog_api.Base.{
  ℕ, ◌≡◌, refl, sym, Bool, true, Bool-cases, Option, none, some, inl, inr, List, [], ◌∷◌, ◌||◌,
  ◌&&◌, any, All, arith,
}
use ninerlog_api.Base.Text.{text_eq, text_eq_refl}
use ninerlog_api.Clock.{Instant}
use ninerlog_api.Models.{ClassType, UlKind, class_eq, kind_eq, ClassRating, License}
use ninerlog_api.Currency.Provider.{FlightDataProvider}
use ninerlog_api.Currency.Service.{
  Evaluator, Registry, evaluator_for, PassengerKey, kind_option_eq, key_eq, passenger_key,
  Evaluation, start, is_eligible, holds_part_fcl_tmg, eval_rating, eval_ratings, eval_review,
  eval_license, eval_licenses, evaluate_all,
}
use ninerlog_api.Currency.Service.Passengers.{
  eval_ratings-nil, eval_ratings-cons, eval_licenses-nil, eval_licenses-cons,
}

class_eq_refl : (a : ClassType) → class_eq a a ≡ true
class_eq_refl a = ground arith

kind_eq_refl : (a : UlKind) → kind_eq a a ≡ true
kind_eq_refl a = ground arith

kind_option_eq_refl : (o : Option UlKind) → kind_option_eq o o ≡ true
kind_option_eq_refl none = refl
kind_option_eq_refl (some k) = kind_eq_refl k

and_true : (a b c : Bool) → a ≡ true → b ≡ true → c ≡ true → a && b && c ≡ true
and_true a b c x y z = grind (arith, x, y, z)

key_eq_refl : (k : PassengerKey) → key_eq k k ≡ true
key_eq_refl k =
    and_true (class_eq k.class_type k.class_type) (text_eq k.authority k.authority)
      (kind_option_eq k.kind k.kind) (class_eq_refl k.class_type) (text_eq_refl k.authority)
      (kind_option_eq_refl k.kind)

abbrev Holds : PassengerKey → Evaluation → Type 0
Holds k st = any (key_eq k) st.seen_passenger_classes ≡ true

-- A step forgets no key.
record Grows (st st' : Evaluation) : Type 0 where
  keeps : (k : PassengerKey) → Holds k st → Holds k st'

Grows-trans : (a b c : Evaluation) → Grows a b → Grows b c → Grows a c
Grows-trans a b c h g = record { keeps = λ k x. g.keeps k (h.keeps k x) }

or_right : (a b : Bool) → b ≡ true → a || b ≡ true
or_right a b h = ground (arith, h)

or_left : (a b : Bool) → a ≡ true → a || b ≡ true
or_left a b h = ground (arith, h)

module _ (registry : Registry) (requested : Bool) (wall : Instant) (user_id : ℕ)
    (dp : FlightDataProvider) (as_of : Option (Instant → FlightDataProvider)) (part : Bool) where
  eval_rating-Grows :
      (license : License) (peers : List ClassRating) (st : Evaluation) (rating : ClassRating)
      → Grows st (eval_rating registry requested wall user_id dp as_of part license peers st rating)
  unfolding eval_rating
  eval_rating-Grows license peers st rating =
      let key = passenger_key license rating in
      elim (Bool-cases (is_eligible (evaluator_for registry license) rating)) [
        | inr skipped ↦ rw (skipped, eval_rating) (record { keeps = λ k h. h })
        | inl wanted ↦ elim (Bool-cases (any (key_eq key) st.seen_passenger_classes)) [
          | inl seen ↦ rw (wanted, seen, eval_rating) (record { keeps = λ k h. h })
          | inr fresh ↦
              rw (wanted, fresh, eval_rating)
                (record { keeps = λ k h. or_right (key_eq k key) _ h })
        ]
      ]

  eval_rating-Holds :
      (license : License) (peers : List ClassRating) (st : Evaluation) (rating : ClassRating)
      → is_eligible (evaluator_for registry license) rating ≡ true
      → Holds
          (passenger_key license rating)
          (eval_rating registry requested wall user_id dp as_of part license peers st rating)
  unfolding eval_rating
  eval_rating-Holds license peers st rating wanted =
      let key = passenger_key license rating in
      elim (Bool-cases (any (key_eq key) st.seen_passenger_classes)) [
        | inl seen ↦ rw (wanted, seen, eval_rating) seen
        | inr fresh ↦ rw (wanted, fresh, eval_rating) (or_left (key_eq key key) _ (key_eq_refl key))
      ]

  eval_ratings-Grows :
      (license : License) (peers : List ClassRating) (st : Evaluation) (ratings : List ClassRating)
      → Grows st
          (eval_ratings registry requested wall user_id dp as_of part license peers st ratings)
  eval_ratings-Grows license peers st [] =
      subst (Grows st)
        (sym (eval_ratings-nil registry requested wall user_id dp as_of part license peers st))
        (record { keeps = λ k h. h })
  eval_ratings-Grows license peers st (rating ∷ ratings) =
      let next =
        eval_rating registry requested wall user_id dp as_of part license peers st rating in
      subst (Grows st)
        (sym (
          eval_ratings-cons registry requested wall user_id dp as_of part license peers st rating
            ratings))
        (Grows-trans st next _ (eval_rating-Grows license peers st rating)
          (eval_ratings-Grows license peers next ratings))

  -- The key of every eligible rating in a list is there.
  abbrev pub Covers : License → List ClassRating → Evaluation → Type 0
  Covers license ratings st =
      All
        (λ (r : ClassRating).
          is_eligible (evaluator_for registry license) r ≡ true
          → any (key_eq (passenger_key license r)) st.seen_passenger_classes ≡ true)
        ratings

  Covers-Grows :
      (license : License) (ratings : List ClassRating) (st st' : Evaluation)
      → Grows st st'
      → Covers license ratings st
      → Covers license ratings st'
  Covers-Grows license [] st st' g h = tt
  Covers-Grows license (r ∷ ratings) st st' g h = (
    λ wanted. g.keeps (passenger_key license r) (h.0 wanted),
    Covers-Grows license ratings st st' g h.1,
  )

  eval_ratings-Covers :
      (license : License) (peers : List ClassRating) (st : Evaluation) (ratings : List ClassRating)
      → Covers license ratings
          (eval_ratings registry requested wall user_id dp as_of part license peers st ratings)
  eval_ratings-Covers license peers st [] = tt
  eval_ratings-Covers license peers st (rating ∷ ratings) =
      let next =
        eval_rating registry requested wall user_id dp as_of part license peers st rating in
      subst (Covers license (rating ∷ ratings))
        (sym (
          eval_ratings-cons registry requested wall user_id dp as_of part license peers st rating
            ratings))
        (
          λ wanted.
              (eval_ratings-Grows license peers next ratings).keeps (passenger_key license rating)
                (eval_rating-Holds license peers st rating wanted),
          eval_ratings-Covers license peers next ratings,
        )

  eval_review-Grows :
      (eval : Evaluator) (st : Evaluation)
      → Grows st (eval_review registry requested wall user_id dp as_of eval st)
  unfolding eval_review
  eval_review-Grows eval st =
      let same : (eval_review registry requested wall user_id dp as_of eval
            st).seen_passenger_classes
          ≡ st.seen_passenger_classes =
        ground arith in
      record { keeps = λ k h. subst (λ l. any (key_eq k) l ≡ true) (sym same) h }

  -- As Covers, for what a read of the ratings returned.
  abbrev pub CoversRead : License → Option (List ClassRating) → Evaluation → Type 0
  CoversRead license none st = Unit
  CoversRead license (some ratings) st = Covers license ratings st

  eval_license-Grows :
      (license : License) (st : Evaluation) (o : Option (List ClassRating))
      → Grows st (eval_license registry requested wall user_id dp as_of part license st o)
  unfolding eval_license
  eval_license-Grows license st none = record { keeps = λ k h. h }
  eval_license-Grows license st (some ratings) =
      Grows-trans st _ _ (eval_ratings-Grows license ratings st ratings)
        (eval_review-Grows (evaluator_for registry license) _)

  eval_license-Covers :
      (license : License) (st : Evaluation) (o : Option (List ClassRating))
      → CoversRead license o
          (eval_license registry requested wall user_id dp as_of part license st o)
  unfolding eval_license
  eval_license-Covers license st none = tt
  eval_license-Covers license st (some ratings) =
      Covers-Grows license ratings _ _ (eval_review-Grows (evaluator_for registry license) _)
        (eval_ratings-Covers license ratings st ratings)

  eval_licenses-Grows :
      (read : ℕ → Option (List ClassRating)) (st : Evaluation) (licenses : List License)
      → Grows st (eval_licenses registry requested wall user_id dp as_of part read st licenses)
  eval_licenses-Grows read st [] =
      subst (Grows st)
        (sym (eval_licenses-nil registry requested wall user_id dp as_of part read st))
        (record { keeps = λ k h. h })
  eval_licenses-Grows read st (license ∷ licenses) =
      let next =
        eval_license registry requested wall user_id dp as_of part license st (read license.id) in
      subst (Grows st)
        (sym (
          eval_licenses-cons registry requested wall user_id dp as_of part read st license
            licenses))
        (Grows-trans st next _ (eval_license-Grows license st (read license.id))
          (eval_licenses-Grows read next licenses))

  CoversRead-Grows :
      (license : License) (o : Option (List ClassRating)) (st st' : Evaluation)
      → Grows st st'
      → CoversRead license o st
      → CoversRead license o st'
  CoversRead-Grows license none st st' g h = tt
  CoversRead-Grows license (some ratings) st st' g h = Covers-Grows license ratings st st' g h

  abbrev pub CoversAll : (ℕ → Option (List ClassRating)) → List License → Evaluation → Type 0
  CoversAll read licenses st =
      All (λ (license : License). CoversRead license (read license.id) st) licenses

  eval_licenses-CoversAll :
      (read : ℕ → Option (List ClassRating)) (st : Evaluation) (licenses : List License)
      → CoversAll read licenses
          (eval_licenses registry requested wall user_id dp as_of part read st licenses)
  eval_licenses-CoversAll read st [] = tt
  eval_licenses-CoversAll read st (license ∷ licenses) =
      let next =
        eval_license registry requested wall user_id dp as_of part license st (read license.id) in
      subst (CoversAll read (license ∷ licenses))
        (sym (
          eval_licenses-cons registry requested wall user_id dp as_of part read st license
            licenses))
        (
          CoversRead-Grows license (read license.id) next _ (eval_licenses-Grows read next licenses)
              (eval_license-Covers license st (read license.id)),
          eval_licenses-CoversAll read next licenses,
        )

-- After EvaluateAll every key of an eligible rating has been seen.
pub evaluate_all-CoversAll :
    (registry : Registry) (requested : Bool) (wall : Instant) (user_id : ℕ)
    (dp : FlightDataProvider) (as_of : Option (Instant → FlightDataProvider))
    (licenses : List License) (read : ℕ → Option (List ClassRating)) (e : Evaluation)
    → evaluate_all registry requested wall user_id dp as_of (some licenses) read ≡ some e
    → CoversAll registry requested wall user_id dp as_of
        (holds_part_fcl_tmg registry requested wall user_id dp as_of read licenses)
        read
        licenses
        e
unfolding evaluate_all
evaluate_all-CoversAll registry requested wall user_id dp as_of licenses read e h =
    let part = holds_part_fcl_tmg registry requested wall user_id dp as_of read licenses in
    let same : eval_licenses registry requested wall user_id dp as_of part read start licenses ≡ e =
      cc in
    subst (CoversAll registry requested wall user_id dp as_of part read licenses) same
      (eval_licenses-CoversAll registry requested wall user_id dp as_of part read start licenses)
