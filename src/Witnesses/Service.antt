-- ===== src/Witnesses/Service.antt =====
-- The theorems on EvaluateAll (service.go), applied to concrete data.
use ninerlog_api.Base.{◌≡◌, refl, inl, inr, Option, none, some, List, [], ◌∷◌}
use ninerlog_api.Clock.{midnight}
use ninerlog_api.Models.{sep_land, ir, ClassRating, License}
use ninerlog_api.Base.{false}
use ninerlog_api.Base.{if◌then◌else◌}
use ninerlog_api.Base.{ℕ, ◌==◌}
use ninerlog_api.Base.Text.{codes}
use ninerlog_api.Currency.Service.{
  Evaluation, evaluator_for, get, default_registry, start, holds_part_fcl_tmg, eval_licenses,
  evaluate_all,
}
use ninerlog_api.Currency.Service.Loops.{all_results, evaluate_all-all_results}
use ninerlog_api.Currency.Service.Shown.{Shows}
use ninerlog_api.Currency.Service.Complete.{Some, evaluate_all-Shows}
use ninerlog_api.Currency.Service.Passengers.{OncePerKey, evaluate_all-OncePerKey}
use ninerlog_api.Witnesses.{today, pilot, rated, flown, logbook}

-- Two EASA licences with an SEP rating each, and the ratings of a third that cannot be read.
abbrev easa_license : ℕ → License
easa_license n = record pilot {
  id = n;
  regulatory_authority = codes "EASA";
  license_type = codes "PPL";
}

abbrev licenses : List License
licenses = easa_license 1 ∷ easa_license 2 ∷ easa_license 3 ∷ []

abbrev read_ratings : ℕ → Option (List ClassRating)
read_ratings n = if n == 3 then none else some (rated sep_land ∷ rated ir ∷ [])

abbrev evaluated : Evaluation
evaluated =
    eval_licenses default_registry false (midnight today) 7 (logbook flown) none
      (holds_part_fcl_tmg default_registry false (midnight today) 7 (logbook flown) none
        read_ratings licenses)
      read_ratings start licenses

evaluate_all-all_results_example :
    evaluated.ratings
    ≡ all_results default_registry false
        (midnight today)
        7
        (logbook flown)
        none
        (holds_part_fcl_tmg default_registry false
          (midnight today)
          7
          (logbook flown)
          none
          read_ratings
          licenses)
        read_ratings
        licenses
unfolding evaluate_all
evaluate_all-all_results_example =
    evaluate_all-all_results default_registry false (midnight today) 7 (logbook flown) none licenses
      read_ratings evaluated refl

evaluate_all-OncePerKey_example :
    OncePerKey default_registry false (midnight today) 7 (logbook flown) none evaluated
unfolding evaluate_all
evaluate_all-OncePerKey_example =
    evaluate_all-OncePerKey default_registry false (midnight today) 7 (logbook flown) none licenses
      read_ratings evaluated refl

evaluate_all-Shows_example : Some (Shows sep_land none (codes "EASA")) evaluated.passenger_currency
unfolding evaluate_all evaluator_for get default_registry
evaluate_all-Shows_example =
    evaluate_all-Shows default_registry false (midnight today) 7 (logbook flown) none licenses
      read_ratings evaluated (easa_license 2) (rated sep_land ∷ rated ir ∷ []) (rated sep_land) refl
      (inr (inl refl)) refl (inl refl) (λ h. cc) (λ h. cc) (inl (λ h. cc))
