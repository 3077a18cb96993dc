-- ===== src/Currency/Service.antt =====
-- service.go: EvaluateAll over a user's licences and class ratings, with the Registry of evaluator.go
-- as cmd/api/main.go fills it. The repositories are parameters: the licences read, and the class
-- ratings read for a licence, `none` being an error. `wall`, `requested`, `dp` and `as_of` are those
-- of Evaluate.antt.
pub mod Loops
pub mod Passengers
pub mod Coverage
pub mod Keys
pub mod Shown
pub mod Complete
use ninerlog_api.Base.{
  ℕ, Bool, true, false, not, ◌&&◌, ◌||◌, Option, none, some, List, [], ◌∷◌, ◌++◌, any,
  if◌then◌else◌,
}
use ninerlog_api.Base.Text.{Text, codes, text_eq}
use ninerlog_api.Clock.{Instant}
use ninerlog_api.Models.{ClassType, ir, ul, tmg, class_eq, UlKind, kind_eq, ClassRating, License}
use ninerlog_api.Currency.Types.{
  RuleText, easa_spl_tmg, ClassRatingCurrency, PassengerCurrency, FlightReviewStatus,
}
use ninerlog_api.Currency.Provider.{FlightDataProvider}
use ninerlog_api.Currency.Engine.{RatingRule}
use ninerlog_api.Currency.Easa.Credits.{has_class}
use ninerlog_api.Currency.Easa.SplTmg.{apply_sfcl_tmg_exemption}
use ninerlog_api.Currency.Easa.Select.{easa_select_rule, other_select_rule, is_easa_sailplane}
use ninerlog_api.Currency.Evaluate.{eval_rating_rule_with_peers}
use ninerlog_api.Currency.Faa.{faa_select_rule}
use ninerlog_api.Currency.GermanUl.{rating_ul_kind, german_ul_select_rule}
use ninerlog_api.Currency.FlightReview.{evaluate_flight_review}
use ninerlog_api.Currency.Pax.Easa.{is_ul_licence_type, easa_evaluate_passenger_currency}
use ninerlog_api.Currency.Pax.Faa.{faa_evaluate_passenger_currency}
use ninerlog_api.Currency.Pax.GermanUl.{ul_evaluate_rating_passenger_currency}

-- The types that implement Evaluator.
pub data Evaluator : Type 0 where
  easa_evaluator faa_evaluator other_evaluator german_ul_evaluator : Evaluator

-- The Registry's map; of two entries for an authority the first counts.
abbrev pub Registry : Type 0
Registry = List (Text × Evaluator)

abbrev pub register : Text → Evaluator → Registry → Registry
register authority eval r = (authority, eval) ∷ r

unfoldable pub register_multi : List Text → Evaluator → Registry → Registry
register_multi [] eval r = r
register_multi (a ∷ authorities) eval r = register_multi authorities eval (register a eval r)

unfoldable pub get : Registry → Text → Option Evaluator
get [] authority = none
get ((a, eval) ∷ r) authority =
    let rest = get r authority in if text_eq a authority then some eval else rest

-- The registrations of main.go.
unfoldable pub default_registry : Registry
unfolding register_multi
default_registry =
    register_multi (codes "LBA" ∷ codes "DULV" ∷ codes "DAeC" ∷ codes "DAEC" ∷ [])
      german_ul_evaluator
      (register [] other_evaluator
        (register (codes "FAA") faa_evaluator (register (codes "EASA") easa_evaluator [])))

unfoldable pub evaluator_for : Registry → License → Evaluator
unfolding get
evaluator_for registry license = elim (get registry license.regulatory_authority) [
  | none ↦ other_evaluator
  | some eval ↦ eval
]

-- The rule that an evaluator selects, and the peers that it passes on.
unfoldable pub rule_for : Evaluator → ClassRating → License → RatingRule
unfolding easa_select_rule faa_select_rule other_select_rule german_ul_select_rule rating_ul_kind
rule_for easa_evaluator rating license = easa_select_rule rating license
rule_for faa_evaluator rating license = faa_select_rule rating license
rule_for other_evaluator rating license = other_select_rule rating
rule_for german_ul_evaluator rating license =
    if class_eq rating.class_type ul
    then german_ul_select_rule (rating_ul_kind rating) license
    else easa_select_rule rating license

abbrev pub peers_for : Evaluator → List ClassRating → List ClassRating
peers_for easa_evaluator peers = peers
peers_for german_ul_evaluator peers = peers
peers_for _ peers = []

abbrev pub is_german_ul : Evaluator → Bool
is_german_ul german_ul_evaluator = true
is_german_ul _ = false

abbrev pub is_spl_tmg : RuleText → Bool
is_spl_tmg easa_spl_tmg = true
is_spl_tmg _ = false

-- The passengerKey: class, authority, and the kind of an ultralight rating.
pub record PassengerKey : Type 0 where
  pub class_type : ClassType
  pub authority : Text
  pub kind : Option UlKind

abbrev pub kind_option_eq : Option UlKind → Option UlKind → Bool
kind_option_eq none none = true
kind_option_eq (some a) (some b) = kind_eq a b
kind_option_eq _ _ = false

abbrev pub key_eq : PassengerKey → PassengerKey → Bool
key_eq a b =
    class_eq a.class_type b.class_type
    && text_eq a.authority b.authority
    && kind_option_eq a.kind b.kind

abbrev pub passenger_key : License → ClassRating → PassengerKey
passenger_key license rating = record {
  class_type = rating.class_type;
  authority = license.regulatory_authority;
  kind = if class_eq rating.class_type ul then some (rating_ul_kind rating) else none;
}

-- The local variables of EvaluateAll.
pub record Evaluation : Type 0 where
  pub ratings : List ClassRatingCurrency
  pub passenger_currency : List PassengerCurrency
  pub flight_review : Option FlightReviewStatus
  pub seen_passenger_classes : List PassengerKey
  pub flight_review_evaluated : Bool

abbrev pub start : Evaluation
start = record {
  ratings = [];
  passenger_currency = [];
  flight_review = none;
  seen_passenger_classes = [];
  flight_review_evaluated = false;
}

-- Whether a rating has passenger currency: not IR, nor ULTRALIGHT outside the German evaluator.
abbrev pub is_eligible : Evaluator → ClassRating → Bool
is_eligible eval rating =
    not (class_eq rating.class_type ir)
    && not (class_eq rating.class_type ul && not (is_german_ul eval))

module _ (registry : Registry) (requested : Bool) (wall : Instant) (user_id : ℕ)
    (dp : FlightDataProvider) (as_of : Option (Instant → FlightDataProvider)) where
  -- The ratings of a licence as they were read, [] where they were not.
  unfoldable pub holds_part_fcl_tmg : (ℕ → Option (List ClassRating)) → List License → Bool
  unfolding evaluator_for is_easa_sailplane is_ul_licence_type
  holds_part_fcl_tmg read [] = false
  holds_part_fcl_tmg read (license ∷ licenses) =
      let rest = holds_part_fcl_tmg read licenses in
      if elim (evaluator_for registry license) [
        | easa_evaluator ↦ true
        | german_ul_evaluator ↦ true
        | faa_evaluator ↦ false
        | other_evaluator ↦ false
      ]
        && not (is_easa_sailplane license.license_type || is_ul_licence_type license.license_type)
        && elim (read license.id) [ none ↦ false | some ratings ↦ has_class ratings tmg ]
      then true
      else rest

  -- Tier 1 for a rating.
  unfoldable pub rating_result :
      (part_fcl_tmg : Bool) → License → List ClassRating → ClassRating → ClassRatingCurrency
  unfolding eval_rating_rule_with_peers rule_for evaluator_for apply_sfcl_tmg_exemption
  rating_result part_fcl_tmg license peers rating =
      let eval = evaluator_for registry license in
      let result =
        eval_rating_rule_with_peers wall (rule_for eval rating license) rating license
          (peers_for eval peers) requested dp as_of in
      if part_fcl_tmg && is_spl_tmg result.rule_description
      then apply_sfcl_tmg_exemption result
      else result

  -- Tier 2 for a rating; the fallback evaluator has none.
  unfoldable pub passenger_results :
      Evaluator → License → List ClassRating → ClassRating → List PassengerCurrency
  unfolding ul_evaluate_rating_passenger_currency easa_evaluate_passenger_currency
      faa_evaluate_passenger_currency
  passenger_results easa_evaluator license peers rating =
      easa_evaluate_passenger_currency requested wall rating.class_type license peers dp ∷ []
  passenger_results faa_evaluator license peers rating =
      faa_evaluate_passenger_currency requested wall rating.class_type license dp ∷ []
  passenger_results other_evaluator license peers rating = []
  passenger_results german_ul_evaluator license peers rating =
      ul_evaluate_rating_passenger_currency requested wall rating license peers dp ∷ []

  -- The body of the inner loop.
  unfoldable pub eval_rating :
      (part_fcl_tmg : Bool) → License → List ClassRating → Evaluation → ClassRating → Evaluation
  unfolding rating_result passenger_results evaluator_for
  eval_rating part_fcl_tmg license peers st rating =
      let eval = evaluator_for registry license in
      let key = passenger_key license rating in
      let rated = record st {
        ratings = st.ratings ++ rating_result part_fcl_tmg license peers rating ∷ [];
      } in
      if not (is_eligible eval rating)
      then rated
      else if any (key_eq key) st.seen_passenger_classes
      then rated
      else record rated {
        seen_passenger_classes = key ∷ st.seen_passenger_classes;
        passenger_currency = st.passenger_currency ++ passenger_results eval license peers rating;
      }

  unfoldable pub eval_ratings :
      (part_fcl_tmg : Bool)
      → License
      → List ClassRating
      → Evaluation
      → List ClassRating
      → Evaluation
  unfolding eval_rating
  eval_ratings part_fcl_tmg license peers st [] = st
  eval_ratings part_fcl_tmg license peers st (rating ∷ ratings) =
      eval_ratings part_fcl_tmg license peers (eval_rating part_fcl_tmg license peers st rating)
        ratings

  -- The flight review, once, with the first evaluator that has one.
  unfoldable pub eval_review : Evaluator → Evaluation → Evaluation
  unfolding evaluate_flight_review
  eval_review faa_evaluator st = if st.flight_review_evaluated then st else record st {
    flight_review = some (evaluate_flight_review wall user_id dp);
    flight_review_evaluated = true;
  }
  eval_review eval st = st

  -- The body of the outer loop, with the class ratings as they were read.
  unfoldable pub eval_license :
      (part_fcl_tmg : Bool) → License → Evaluation → Option (List ClassRating) → Evaluation
  unfolding eval_ratings eval_review evaluator_for
  eval_license part_fcl_tmg license st none = st
  eval_license part_fcl_tmg license st (some ratings) =
      eval_review (evaluator_for registry license)
        (eval_ratings part_fcl_tmg license ratings st ratings)

  unfoldable pub eval_licenses :
      (part_fcl_tmg : Bool)
      → (ℕ → Option (List ClassRating))
      → Evaluation
      → List License
      → Evaluation
  unfolding eval_license
  eval_licenses part_fcl_tmg read st [] = st
  eval_licenses part_fcl_tmg read st (license ∷ licenses) =
      eval_licenses part_fcl_tmg read (eval_license part_fcl_tmg license st (read license.id))
        licenses

  unfoldable pub evaluate_all :
      Option (List License) → (ℕ → Option (List ClassRating)) → Option Evaluation
  unfolding eval_licenses holds_part_fcl_tmg
  evaluate_all none read = none
  evaluate_all (some licenses) read =
      some (eval_licenses (holds_part_fcl_tmg read licenses) read start licenses)
