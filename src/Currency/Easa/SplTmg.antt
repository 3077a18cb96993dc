-- ===== src/Currency/Easa/SplTmg.antt =====
-- The SFCL.160(b) rule of easa.go, for touring motor gliders flown with an SPL, and the SFCL.160(c)
-- exemption.
use ninerlog_api.Base.{
  ◌+◌, true, false, not, ◌&&◌, none, some, List, [], ◌∷◌, ◌++◌, ◌⊎◌, inl, inr, if◌then◌else◌,
}
use ninerlog_api.Models.{tmg, glider, three_axis_motorglider, sailplane}
use ninerlog_api.Currency.Types.{
  current, expiring, rating_recency_not_met, rating_recency_current, rating_sfcl_tmg_exempt,
  flight_time, tmg_time, tmg_landings, tmg_training_flight, minutes, landings, easa_spl_tmg,
  Progress, Requirement, ClassRatingCurrency, conclude,
}
use ninerlog_api.Currency.Provider.{drop_error}
use ninerlog_api.Currency.Engine.{
  m_pic_or_dual_minutes, m_landings, m_longest_training_flight, ReqSpec, req_spec, build_req,
  all_reqs_met, rolling, rolling_since, scope_by_class_override, RatingRuntime, RatingRule,
  no_ul_credit, fetch_progress, ul_hours_credit, prof_check_requirement, evaluation_failed,
}

abbrev pub spl_tmg_time_req : ReqSpec
spl_tmg_time_req = req_spec flight_time m_pic_or_dual_minutes 720 minutes

abbrev pub tmg_time_req : ReqSpec
tmg_time_req = req_spec tmg_time m_pic_or_dual_minutes 360 minutes

abbrev pub tmg_landings_req : ReqSpec
tmg_landings_req = req_spec tmg_landings m_landings 12 landings

abbrev pub tmg_training_req : ReqSpec
tmg_training_req = req_spec tmg_training_flight m_longest_training_flight 60 minutes

-- The hours on all sailplanes, the hours on TMGs, and the result with the kinds and classes
-- counted. On the left, the result as a failed read leaves it.
spl_tmg_hours :
    RatingRuntime → Progress → ClassRatingCurrency ⊎ (Progress × Progress × ClassRatingCurrency)
unfolding ul_hours_credit
spl_tmg_hours rt t =
    elim (rt.dp.get_progress_by_aircraft_class rt.license.user_id (glider ∷ []) true rt.since) [
      | none ↦ inl rt.result
      | some g ↦ elim (ul_hours_credit rt (sailplane ∷ [])) [
        | none ↦ inl rt.result
        | some ul_sailplane ↦ elim (ul_hours_credit rt (three_axis_motorglider ∷ [])) [
          | none ↦ inl (record rt.result { credited_ul_kinds = sailplane ∷ [] })
          | some ul_motorglider ↦ inr (
            record t {
              pic_minutes = t.pic_minutes + (g.pic_minutes + ul_sailplane + ul_motorglider);
              instructor_minutes = t.instructor_minutes + g.instructor_minutes;
            },
            record t { pic_minutes = t.pic_minutes + ul_motorglider },
            record rt.result {
              counted_classes = glider ∷ tmg ∷ [];
              credited_ul_kinds = sailplane ∷ three_axis_motorglider ∷ [];
            },
          )
        ]
      ]
    ]

unfoldable pub spl_tmg_reqs : (hours tmg_hours on_tmg : Progress) → List Requirement
unfolding build_req
spl_tmg_reqs hours tmg_hours on_tmg =
    build_req hours spl_tmg_time_req
    ∷ build_req tmg_hours tmg_time_req
    ∷ build_req on_tmg tmg_landings_req
    ∷ build_req on_tmg tmg_training_req
    ∷ []

unfoldable pub spl_tmg_finalize : RatingRuntime → ClassRatingCurrency
unfolding rolling_since fetch_progress spl_tmg_hours spl_tmg_reqs all_reqs_met
    prof_check_requirement
spl_tmg_finalize rt0 =
    let rt = record rt0 { since = rolling_since rt0.rule.window rt0.now } in
    elim (fetch_progress rt) [
      | none ↦ evaluation_failed rt.result
      | some t ↦ elim (spl_tmg_hours rt t) [
        | inl failed ↦ evaluation_failed failed
        | inr (hours, tmg_hours, result) ↦
            let reqs = spl_tmg_reqs hours tmg_hours t in
            let req_check = prof_check_requirement (
              drop_error
                (rt.dp.get_last_proficiency_check rt.license.user_id (tmg ∷ []) rt.since)) in
            let listed = record result {
              progress = some t;
              requirements = reqs ++ req_check ∷ [];
            } in
            if not (all_reqs_met reqs) && not req_check.met
            then conclude listed expiring rating_recency_not_met none
            else conclude listed current rating_recency_current none
      ]
    ]

unfoldable pub easa_spl_tmg_rule : RatingRule
unfolding spl_tmg_finalize
easa_spl_tmg_rule = record {
  spec = record {
    description = easa_spl_tmg;
    window = rolling 2 0 0;
    scope = scope_by_class_override tmg;
    counts_towed = false;
    classes_no_dual = false;
    ul_credit = no_ul_credit;
    base_reqs = spl_tmg_time_req ∷ tmg_time_req ∷ tmg_landings_req ∷ tmg_training_req ∷ [];
  };
  finalize = spl_tmg_finalize;
}

unfoldable pub apply_sfcl_tmg_exemption : ClassRatingCurrency → ClassRatingCurrency
apply_sfcl_tmg_exemption result =
    conclude (record result { requirements = []; recency_expires_on = none; lapsed_on = none })
      current rating_sfcl_tmg_exempt none
