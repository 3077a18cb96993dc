-- ===== src/Currency/Faa.antt =====
-- The FAA rules of faa.go.
pub mod Decisions
use ninerlog_api.Base.{
  ◌-◌, Bool, true, false, not, ◌&&◌, ◌||◌, Option, none, some, [], ◌∷◌, leb, if◌then◌else◌,
}
use ninerlog_api.Base.Int.{pos}
use ninerlog_api.Base.Text.{Text, codes, text_eq, to_upper}
use ninerlog_api.Clock.{sub_date}
use ninerlog_api.Models.{ClassType, ir, glider, ul, class_eq, ClassRating, License}
use ninerlog_api.Models.Expiry.{is_expired_at}
use ninerlog_api.Currency.Types.{
  current, expiring, expired, unknown, rating_expired, rating_ir_current,
  rating_ir_lapsed_safety_pilot, rating_ir_expired_ipc, rating_ir_not_applicable,
  rating_pax_not_current, rating_pax_day_current_night_no, rating_pax_current_day_night,
  rating_glider_not_current, rating_glider_current, day_landings_key, night_landings_key,
  approaches_key, holds_key, launches_and_landing, landings, approaches, holds, launches,
  faa_pax_day_night, faa_ir, faa_ir_lapsed, faa_ir_ipc, faa_glider, faa_no_ir, msg_needed, Progress,
  ClassRatingCurrency, conclude,
}
use ninerlog_api.Currency.Engine.{
  m_landings, m_night_landings, m_approaches, m_holds, ReqSpec, req_spec, build_req, no_window,
  rolling, since_rolling, scope_by_class, scope_all, RatingRuntime, RatingRule, no_ul_credit,
  fetch_progress, evaluation_failed,
}
use ninerlog_api.Currency.Easa.Select.{other_expiry_rule}

abbrev pub day_req : ReqSpec
day_req = req_spec day_landings_key m_landings 3 landings

abbrev pub night_req : ReqSpec
night_req = req_spec night_landings_key m_night_landings 3 landings

-- The difference is read only where the requirement is not met, so `-` is exact.
unfoldable pub faa_pax_decide : RatingRuntime → Progress → ClassRatingCurrency
unfolding build_req
faa_pax_decide rt progress =
    let req_day = build_req progress day_req in
    let req_night = build_req progress night_req in
    let result = record rt.result {
      progress = some progress;
      requirements = req_day ∷ req_night ∷ [];
    } in
    if not req_day.met
    then conclude result expired rating_pax_not_current (msg_needed (pos (3 - progress.landings)))
    else if not req_night.met
    then conclude result expiring rating_pax_day_current_night_no
        (msg_needed (pos (3 - progress.night_landings)))
    else conclude result current rating_pax_current_day_night none

-- The common head of the strategies, once the flights are read: a failed read, or the decision.
unfoldable pub decide_now :
    (RatingRuntime → Progress → ClassRatingCurrency)
    → RatingRuntime
    → Option Progress
    → ClassRatingCurrency
decide_now decide rt none = evaluation_failed rt.result
decide_now decide rt (some progress) = decide rt progress

-- The window from now.
unfoldable pub from_now :
    (RatingRuntime → Progress → ClassRatingCurrency) → RatingRuntime → ClassRatingCurrency
unfolding since_rolling fetch_progress decide_now
from_now decide rt = decide_now decide (since_rolling rt) (fetch_progress (since_rolling rt))

unfoldable pub faa_passenger_rating_rule : RatingRule
unfolding from_now faa_pax_decide
faa_passenger_rating_rule = record {
  spec = record {
    description = faa_pax_day_night;
    window = rolling 0 0 90;
    scope = scope_by_class;
    counts_towed = false;
    classes_no_dual = false;
    ul_credit = no_ul_credit;
    base_reqs = day_req ∷ night_req ∷ [];
  };
  finalize = from_now faa_pax_decide;
}

abbrev pub approaches_req : ReqSpec
approaches_req = req_spec approaches_key m_approaches 6 approaches

abbrev pub holds_req : ReqSpec
holds_req = req_spec holds_key m_holds 1 holds

-- Whether the experience was met within the last 12 months; not if it cannot be read.
unfoldable pub grace_met : Option Progress → Bool
grace_met none = false
grace_met (some p) = leb 6 p.approaches && leb 1 p.holds

unfoldable pub faa_instrument_decide : RatingRuntime → Progress → ClassRatingCurrency
unfolding build_req is_expired_at grace_met sub_date
faa_instrument_decide rt progress =
    let req_approaches = build_req progress approaches_req in
    let req_holds = build_req progress holds_req in
    let result = record rt.result {
      progress = some progress;
      requirements = req_approaches ∷ req_holds ∷ [];
    } in
    if is_expired_at rt.rating rt.wall
    then conclude result expired rating_expired none
    else if req_approaches.met && req_holds.met
    then conclude result current rating_ir_current none
    else if grace_met (rt.dp.get_progress_all rt.license.user_id (sub_date rt.now 1 0 0))
    then conclude (record result { rule_description = faa_ir_lapsed }) expiring
        rating_ir_lapsed_safety_pilot none
    else conclude (record result { rule_description = faa_ir_ipc }) expired rating_ir_expired_ipc
        none

unfoldable pub faa_instrument_rule : RatingRule
unfolding from_now faa_instrument_decide
faa_instrument_rule = record {
  spec = record {
    description = faa_ir;
    window = rolling 0 6 0;
    scope = scope_all;
    counts_towed = false;
    classes_no_dual = false;
    ul_credit = no_ul_credit;
    base_reqs = approaches_req ∷ holds_req ∷ [];
  };
  finalize = from_now faa_instrument_decide;
}

abbrev pub launch_req : ReqSpec
launch_req = req_spec launches_and_landing m_landings 3 launches

unfoldable pub faa_glider_decide : RatingRuntime → Progress → ClassRatingCurrency
unfolding build_req
faa_glider_decide rt progress =
    let req_launch = build_req progress launch_req in
    let result = record rt.result {
      progress = some progress;
      rule_description = faa_glider;
      requirements = req_launch ∷ [];
    } in
    if not req_launch.met
    then conclude result expired rating_glider_not_current
        (msg_needed (pos (3 - progress.landings)))
    else conclude result current rating_glider_current none

unfoldable pub faa_glider_rule : RatingRule
unfolding from_now faa_glider_decide
faa_glider_rule = record {
  spec = record {
    description = faa_pax_day_night;
    window = rolling 0 0 90;
    scope = scope_by_class;
    counts_towed = true;
    classes_no_dual = false;
    ul_credit = no_ul_credit;
    base_reqs = launch_req ∷ [];
  };
  finalize = from_now faa_glider_decide;
}

unfoldable pub faa_suppressed_ir_rule : RatingRule
faa_suppressed_ir_rule = record {
  spec = record {
    description = faa_no_ir;
    window = no_window;
    scope = scope_all;
    counts_towed = false;
    classes_no_dual = false;
    ul_credit = no_ul_credit;
    base_reqs = [];
  };
  finalize = λ rt. conclude rt.result unknown rating_ir_not_applicable none;
}

select_by_class : ClassType → Text → RatingRule
select_by_class ul lt = other_expiry_rule
select_by_class ir lt =
    if text_eq lt (codes "SPORT") || text_eq lt (codes "RECREATIONAL")
    then faa_suppressed_ir_rule
    else faa_instrument_rule
select_by_class ct lt =
    if text_eq lt (codes "GLIDER") || class_eq ct glider
    then faa_glider_rule
    else faa_passenger_rating_rule

unfoldable pub faa_select_rule : ClassRating → License → RatingRule
unfolding select_by_class text_eq to_upper
faa_select_rule rating license = select_by_class rating.class_type (to_upper license.license_type)
