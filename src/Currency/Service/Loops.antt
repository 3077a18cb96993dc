-- ===== src/Currency/Service/Loops.antt =====
-- What the loops of EvaluateAll (service.go) leave: a result for every rating that was read, and
-- passenger currency once for each class, authority and kind.
use ninerlog_api.Base.{
  ℕ, ◌≡◌, refl, sym, ap, ◌∙◌, Bool, Option, none, some, List, [], ◌∷◌, ◌++◌, map, arith,
}
use ninerlog_api.Clock.{Instant}
use ninerlog_api.Models.{ClassRating, License}
use ninerlog_api.Currency.Types.{ClassRatingCurrency}
use ninerlog_api.Currency.Provider.{FlightDataProvider}
use ninerlog_api.Currency.Service.{
  Evaluator, Registry, evaluator_for, Evaluation, start, holds_part_fcl_tmg, rating_result,
  eval_rating, eval_ratings, eval_review, eval_license, eval_licenses, evaluate_all,
}

append_assoc : {A : Type 0} (xs ys zs : List A) → (xs ++ ys) ++ zs ≡ xs ++ (ys ++ zs)
append_assoc [] ys zs = refl
append_assoc (x ∷ xs) ys zs = ap (λ l. x ∷ l) (append_assoc xs ys zs)

append_nil : {A : Type 0} (xs : List A) → xs ++ [] ≡ xs
append_nil [] = refl
append_nil (x ∷ xs) = ap (λ l. x ∷ l) (append_nil xs)

module _ (registry : Registry) (requested : Bool) (wall : Instant) (user_id : ℕ)
    (dp : FlightDataProvider) (as_of : Option (Instant → FlightDataProvider)) (part : Bool)
    (read : ℕ → Option (List ClassRating)) where
  -- The results of a licence, one for each rating that was read, in order.
  abbrev pub results_of : License → Option (List ClassRating) → List ClassRatingCurrency
  results_of license none = []
  results_of license (some ratings) =
      map (rating_result registry requested wall user_id dp as_of part license ratings) ratings

  abbrev pub all_results : List License → List ClassRatingCurrency
  all_results [] = []
  all_results (license ∷ licenses) = results_of license (read license.id) ++ all_results licenses

  eval_rating-ratings :
      (license : License) (peers : List ClassRating) (st : Evaluation) (rating : ClassRating)
      → (eval_rating registry requested wall user_id dp as_of part license peers st rating).ratings
        ≡ st.ratings
          ++ rating_result registry requested wall user_id dp as_of part license peers rating ∷ []
  unfolding eval_rating
  eval_rating-ratings license peers st rating = ground arith

  eval_ratings-ratings :
      (license : License) (peers : List ClassRating) (st : Evaluation) (ratings : List ClassRating)
      → (eval_ratings registry requested wall user_id dp as_of part license peers st
          ratings).ratings
        ≡ st.ratings
          ++ map (rating_result registry requested wall user_id dp as_of part license peers) ratings
  unfolding eval_ratings
  eval_ratings-ratings license peers st [] = sym (append_nil st.ratings)
  eval_ratings-ratings license peers st (rating ∷ ratings) =
      eval_ratings-ratings license peers
        (eval_rating registry requested wall user_id dp as_of part license peers st rating) ratings
      ∙ ap
          (λ l.
            l
            ++ map (rating_result registry requested wall user_id dp as_of part license peers)
                ratings)
          (eval_rating-ratings license peers st rating)
      ∙ append_assoc st.ratings _ _

  eval_review-ratings :
      (eval : Evaluator) (st : Evaluation)
      → (eval_review registry requested wall user_id dp as_of eval st).ratings ≡ st.ratings
  unfolding eval_review
  eval_review-ratings eval st = ground arith

  eval_license-ratings :
      (license : License) (st : Evaluation) (o : Option (List ClassRating))
      → (eval_license registry requested wall user_id dp as_of part license st o).ratings
        ≡ st.ratings ++ results_of license o
  unfolding eval_license
  eval_license-ratings license st none = sym (append_nil st.ratings)
  eval_license-ratings license st (some ratings) =
      eval_review-ratings (evaluator_for registry license) _
      ∙ eval_ratings-ratings license ratings st ratings

  eval_licenses-ratings :
      (st : Evaluation) (licenses : List License)
      → (eval_licenses registry requested wall user_id dp as_of part read st licenses).ratings
        ≡ st.ratings ++ all_results licenses
  unfolding eval_licenses
  eval_licenses-ratings st [] = sym (append_nil st.ratings)
  eval_licenses-ratings st (license ∷ licenses) =
      eval_licenses-ratings
        (eval_license registry requested wall user_id dp as_of part license st (read license.id))
        licenses
      ∙ ap (λ l. l ++ all_results licenses) (eval_license-ratings license st (read license.id))
      ∙ append_assoc st.ratings _ _

-- EvaluateAll, once the licences are read, returns one rating result for every class rating of a
-- licence whose ratings could be read, in the order in which they were read; a licence whose ratings
-- could not be read adds none.
pub evaluate_all-all_results :
    (registry : Registry) (requested : Bool) (wall : Instant) (user_id : ℕ)
    (dp : FlightDataProvider) (as_of : Option (Instant → FlightDataProvider))
    (licenses : List License) (read : ℕ → Option (List ClassRating)) (e : Evaluation)
    → evaluate_all registry requested wall user_id dp as_of (some licenses) read ≡ some e
    → e.ratings
      ≡ all_results registry requested wall user_id dp as_of
          (holds_part_fcl_tmg registry requested wall user_id dp as_of read licenses)
          read
          licenses
unfolding evaluate_all
evaluate_all-all_results registry requested wall user_id dp as_of licenses read e h =
    let same : eval_licenses registry requested wall user_id dp as_of
          (holds_part_fcl_tmg registry requested wall user_id dp as_of read licenses) read start
          licenses
        ≡ e =
      cc in
    ap (λ (x : Evaluation). x.ratings) (sym same)
    ∙ eval_licenses-ratings registry requested wall user_id dp as_of
        (holds_part_fcl_tmg registry requested wall user_id dp as_of read licenses) read start
        licenses
