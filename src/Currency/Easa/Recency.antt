-- ===== src/Currency/Easa/Recency.antt =====
-- The rolling-window rules of easa.go for the LAPL(A), and of gpl.go for gyroplanes.
use ninerlog_api.Base.{
  true, false, not, ◌&&◌, Option, none, some, List, [], ◌∷◌, ◌++◌, if◌then◌else◌,
}
use ninerlog_api.Models.{ClassType, sep_land, sep_sea}
use ninerlog_api.Currency.Types.{
  current, expiring, rating_recency_not_met, rating_recency_current, ReqKey, total_time,
  landings_key, training_flight, refresher_training, sep_land_time, sep_land_landings, sep_sea_time,
  sep_sea_landings, minutes, landings, easa_lapl, easa_gpl, Progress, Requirement,
  ClassRatingCurrency, conclude,
}
use ninerlog_api.Currency.Provider.{drop_error}
use ninerlog_api.Currency.Engine.{
  m_total_minutes, m_instructor_minutes, m_landings, req_spec, build_reqs, all_reqs_met, rolling,
  rolling_since, scope_by_class, scope_class_group, RatingRuntime, RatingRule, fetch_progress,
  prof_check_requirement, evaluation_failed, recency_finalize,
}
use ninerlog_api.Currency.Easa.Credits.{
  has_class, easa_lapl_classes, easa_annex_i_credit, gpl_annex_i_credit,
}

-- One round of the loop of easaLAPLLandSeaReqs.
class_minimums : RatingRuntime → ClassType → ReqKey → ReqKey → Option (List Requirement)
unfolding build_reqs
class_minimums rt ct time_key lands_key =
    elim (rt.dp.get_progress_by_aircraft_class rt.license.user_id (ct ∷ []) false rt.since) [
      | none ↦ none
      | some p ↦ some (
          build_reqs p (
            req_spec time_key m_total_minutes 60 minutes
            ∷ req_spec lands_key m_landings 6 landings
            ∷ []))
    ]

unfoldable pub easa_lapl_land_sea_reqs : RatingRuntime → Option (List Requirement)
unfolding class_minimums
easa_lapl_land_sea_reqs rt = elim (class_minimums rt sep_land sep_land_time sep_land_landings) [
  | none ↦ none
  | some land ↦ elim (class_minimums rt sep_sea sep_sea_time sep_sea_landings) [
    | none ↦ none
    | some sea ↦ some (land ++ sea)
  ]
]

-- The requirements of the LAPL rule: the base ones, and those per class with both SEP ratings.
unfoldable pub lapl_reqs : RatingRuntime → Progress → Option (List Requirement)
unfolding build_reqs has_class easa_lapl_land_sea_reqs
lapl_reqs rt progress =
    let reqs = build_reqs progress rt.rule.base_reqs in
    if has_class rt.peers sep_land && has_class rt.peers sep_sea
    then elim (easa_lapl_land_sea_reqs rt) [ none ↦ none | some split ↦ some (reqs ++ split) ]
    else some reqs

unfoldable pub lapl_finalize : RatingRuntime → ClassRatingCurrency
unfolding rolling_since fetch_progress lapl_reqs all_reqs_met prof_check_requirement
lapl_finalize rt0 =
    let rt = record rt0 { since = rolling_since rt0.rule.window rt0.now } in
    elim (fetch_progress rt) [
      | none ↦ evaluation_failed rt.result
      | some progress ↦
          let result = record rt.result { progress = some progress } in
          elim (lapl_reqs rt progress) [
            | none ↦ evaluation_failed result
            | some reqs ↦
                let req_check = prof_check_requirement (
                  drop_error
                    (rt.dp.get_last_proficiency_check rt.license.user_id rt.classes rt.since)) in
                let listed = record result { requirements = reqs ++ req_check ∷ [] } in
                if not (all_reqs_met reqs) && not req_check.met
                then conclude listed expiring rating_recency_not_met none
                else conclude listed current rating_recency_current none
          ]
    ]

unfoldable pub easa_lapl_rule : RatingRule
unfolding easa_lapl_classes easa_annex_i_credit lapl_finalize
easa_lapl_rule = record {
  spec = record {
    description = easa_lapl;
    window = rolling 2 0 0;
    scope = scope_class_group easa_lapl_classes;
    counts_towed = false;
    classes_no_dual = false;
    ul_credit = easa_annex_i_credit;
    base_reqs =
        req_spec total_time m_total_minutes 720 minutes
        ∷ req_spec landings_key m_landings 12 landings
        ∷ req_spec training_flight m_instructor_minutes 60 minutes
        ∷ [];
  };
  finalize = lapl_finalize;
}

unfoldable pub easa_gpl_rule : RatingRule
unfolding gpl_annex_i_credit recency_finalize
easa_gpl_rule = record {
  spec = record {
    description = easa_gpl;
    window = rolling 2 0 0;
    scope = scope_by_class;
    counts_towed = false;
    classes_no_dual = false;
    ul_credit = gpl_annex_i_credit;
    base_reqs =
        req_spec total_time m_total_minutes 720 minutes
        ∷ req_spec landings_key m_landings 12 landings
        ∷ req_spec refresher_training m_instructor_minutes 60 minutes
        ∷ [];
  };
  finalize = recency_finalize true;
}
