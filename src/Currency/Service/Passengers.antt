-- ===== src/Currency/Service/Passengers.antt =====
-- Passenger currency in the loops of EvaluateAll (service.go): once for each class, authority and kind.
use mathlib.Core.Path.{subst}
use ninerlog_api.Base.{
  ℕ, ◌≡◌, refl, sym, ap, ◌∙◌, Bool, true, false, Bool-cases, Option, none, some, inl, inr, List, [],
  ◌∷◌, ◌++◌, map, any, All, arith,
}
use ninerlog_api.Clock.{Instant}
use ninerlog_api.Models.{ClassRating, License}
use ninerlog_api.Currency.Types.{PassengerCurrency}
use ninerlog_api.Currency.Provider.{FlightDataProvider}
use ninerlog_api.Currency.Service.{
  Evaluator, Registry, evaluator_for, PassengerKey, key_eq, passenger_key, Evaluation, start,
  is_eligible, holds_part_fcl_tmg, passenger_results, eval_rating, eval_ratings, eval_review,
  eval_license, eval_licenses, evaluate_all,
}

-- A rating that was evaluated for passengers, with its licence and peers.
pub record Candidate : Type 0 where
  pub license : License
  pub peers : List ClassRating
  pub rating : ClassRating

abbrev pub key_of : Candidate → PassengerKey
key_of c = passenger_key c.license c.rating

-- No two keys are equal.
abbrev pub Distinct : List PassengerKey → Type 0
Distinct [] = Unit
Distinct (k ∷ keys) = (any (key_eq k) keys ≡ false) × Distinct keys

module _ (registry : Registry) (requested : Bool) (wall : Instant) (user_id : ℕ)
    (dp : FlightDataProvider) (as_of : Option (Instant → FlightDataProvider)) where
  -- The passenger results of candidates, the latest candidate first in the list.
  abbrev pub results_for : List Candidate → List PassengerCurrency
  results_for [] = []
  results_for (c ∷ log) =
      results_for log
      ++ passenger_results registry requested wall user_id dp as_of
          (evaluator_for registry c.license) c.license c.peers c.rating

  -- The passenger results are those of eligible ratings with keys that differ from each other.
  pub record OncePerKey (st : Evaluation) : Type 0 where
    pub log : List Candidate
    pub made : st.passenger_currency ≡ results_for log
    pub keyed : st.seen_passenger_classes ≡ map key_of log
    pub distinct : Distinct st.seen_passenger_classes
    pub eligible :
        All (λ (c : Candidate). is_eligible (evaluator_for registry c.license) c.rating ≡ true) log

  -- A change of other fields keeps it.
  OncePerKey-other :
      (st st' : Evaluation)
      → st.passenger_currency ≡ st'.passenger_currency
      → st.seen_passenger_classes ≡ st'.seen_passenger_classes
      → OncePerKey st
      → OncePerKey st'
  OncePerKey-other st st' p s h = record {
    log = h.log;
    made = sym p ∙ h.made;
    keyed = sym s ∙ h.keyed;
    distinct = subst Distinct s h.distinct;
    eligible = h.eligible;
  }

  eval_rating-OncePerKey :
      (part : Bool) (license : License) (peers : List ClassRating) (st : Evaluation)
      (rating : ClassRating)
      → OncePerKey st
      → OncePerKey
          (eval_rating registry requested wall user_id dp as_of part license peers st rating)
  unfolding eval_rating
  eval_rating-OncePerKey part license peers st rating h =
      let key = passenger_key license rating in
      elim (Bool-cases (is_eligible (evaluator_for registry license) rating)) [
        | inr skipped ↦ rw (skipped, eval_rating) (OncePerKey-other st _ refl refl h)
        | inl wanted ↦ elim (Bool-cases (any (key_eq key) st.seen_passenger_classes)) [
          | inl seen ↦ rw (wanted, seen, eval_rating) (OncePerKey-other st _ refl refl h)
          | inr fresh ↦
              rw (wanted, fresh, eval_rating)
                (record {
                  log = record { license = license; peers = peers; rating = rating } ∷ h.log;
                  made =
                      ap
                        (λ l.
                          l
                          ++ passenger_results registry requested wall user_id dp as_of
                              (evaluator_for registry license) license peers rating)
                        h.made;
                  keyed = ap (λ l. key ∷ l) h.keyed;
                  distinct = (fresh, h.distinct);
                  eligible = (wanted, h.eligible);
                })
        ]
      ]

  pub eval_ratings-nil :
      (part : Bool) (license : License) (peers : List ClassRating) (st : Evaluation)
      → eval_ratings registry requested wall user_id dp as_of part license peers st [] ≡ st
  unfolding eval_ratings
  eval_ratings-nil part license peers st = refl

  pub eval_ratings-cons :
      (part : Bool) (license : License) (peers : List ClassRating) (st : Evaluation)
      (rating : ClassRating) (ratings : List ClassRating)
      → eval_ratings registry requested wall user_id dp as_of part license peers st
          (rating ∷ ratings)
        ≡ eval_ratings registry requested wall user_id dp as_of part license peers
            (eval_rating registry requested wall user_id dp as_of part license peers st rating)
            ratings
  unfolding eval_ratings
  eval_ratings-cons part license peers st rating ratings = refl

  eval_ratings-OncePerKey :
      (part : Bool) (license : License) (peers : List ClassRating) (st : Evaluation)
      (ratings : List ClassRating)
      → OncePerKey st
      → OncePerKey
          (eval_ratings registry requested wall user_id dp as_of part license peers st ratings)
  eval_ratings-OncePerKey part license peers st [] h =
      subst OncePerKey (sym (eval_ratings-nil part license peers st)) h
  eval_ratings-OncePerKey part license peers st (rating ∷ ratings) h =
      subst OncePerKey (sym (eval_ratings-cons part license peers st rating ratings)) (
        eval_ratings-OncePerKey part license peers
          (eval_rating registry requested wall user_id dp as_of part license peers st rating)
          ratings (eval_rating-OncePerKey part license peers st rating h))

  eval_review-OncePerKey :
      (eval : Evaluator) (st : Evaluation)
      → OncePerKey st
      → OncePerKey (eval_review registry requested wall user_id dp as_of eval st)
  unfolding eval_review
  eval_review-OncePerKey eval st h = OncePerKey-other st _ (ground arith) (ground arith) h

  eval_license-OncePerKey :
      (part : Bool) (license : License) (st : Evaluation) (o : Option (List ClassRating))
      → OncePerKey st
      → OncePerKey (eval_license registry requested wall user_id dp as_of part license st o)
  unfolding eval_license
  eval_license-OncePerKey part license st none h = h
  eval_license-OncePerKey part license st (some ratings) h =
      eval_review-OncePerKey (evaluator_for registry license) _
        (eval_ratings-OncePerKey part license ratings st ratings h)

  pub eval_licenses-nil :
      (part : Bool) (read : ℕ → Option (List ClassRating)) (st : Evaluation)
      → eval_licenses registry requested wall user_id dp as_of part read st [] ≡ st
  unfolding eval_licenses
  eval_licenses-nil part read st = refl

  pub eval_licenses-cons :
      (part : Bool) (read : ℕ → Option (List ClassRating)) (st : Evaluation) (license : License)
      (licenses : List License)
      → eval_licenses registry requested wall user_id dp as_of part read st (license ∷ licenses)
        ≡ eval_licenses registry requested wall user_id dp as_of part read
            (eval_license registry requested wall user_id dp as_of part license st
              (read license.id))
            licenses
  unfolding eval_licenses
  eval_licenses-cons part read st license licenses = refl

  eval_licenses-OncePerKey :
      (part : Bool) (read : ℕ → Option (List ClassRating)) (st : Evaluation)
      (licenses : List License)
      → OncePerKey st
      → OncePerKey (eval_licenses registry requested wall user_id dp as_of part read st licenses)
  eval_licenses-OncePerKey part read st [] h =
      subst OncePerKey (sym (eval_licenses-nil part read st)) h
  eval_licenses-OncePerKey part read st (license ∷ licenses) h =
      subst OncePerKey (sym (eval_licenses-cons part read st license licenses)) (
        eval_licenses-OncePerKey part read
          (eval_license registry requested wall user_id dp as_of part license st (read license.id))
          licenses (eval_license-OncePerKey part license st (read license.id) h))

  -- The passenger results of EvaluateAll, once the licences are read, are those of class ratings that
  -- are not IR, nor ULTRALIGHT outside the German evaluator, no two of which have the same class,
  -- authority and ultralight kind.
  pub evaluate_all-OncePerKey :
      (licenses : List License) (read : ℕ → Option (List ClassRating)) (e : Evaluation)
      → evaluate_all registry requested wall user_id dp as_of (some licenses) read ≡ some e
      → OncePerKey e
  unfolding evaluate_all
  evaluate_all-OncePerKey licenses read e h =
      let part = holds_part_fcl_tmg registry requested wall user_id dp as_of read licenses in
      let same : eval_licenses registry requested wall user_id dp as_of part read start licenses
          ≡ e =
        cc in
      subst OncePerKey same (
        eval_licenses-OncePerKey part read start licenses
          (record { log = []; made = refl; keyed = refl; distinct = tt; eligible = tt }))
