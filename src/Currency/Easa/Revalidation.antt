-- ===== src/Currency/Easa/Revalidation.antt =====
-- The revalidation rules of easa.go, whose experience window precedes the expiry date: SEP and TMG,
-- MEP and SET, IR, and the rule that tracks the expiry date only.
use ninerlog_api.Base.{
  Bool, true, false, not, ◌&&◌, ◌||◌, Option, none, some, List, [], ◌∷◌, if◌then◌else◌,
}
use ninerlog_api.Clock.{Instant, day_of, before, sub_date}
use ninerlog_api.Models.{ir}
use ninerlog_api.Models.Expiry.{days_until_expiry, is_expired_at, is_expiring_soon_at}
use ninerlog_api.Currency.Types.{
  current, expiring, expired, unknown, MsgKey, rating_no_expiry_date, rating_expired,
  rating_expiring, rating_valid_until, rating_window_not_open, rating_revalidation_not_met,
  rating_revalidation_not_met_prof_check, rating_revalidation_expiring_met,
  rating_revalidation_current, rating_ir_hours_and_check_not_met, rating_ir_hours_not_met,
  rating_ir_check_not_met, total_time, pic_time, ifr_time, landings_key, refresher_training,
  route_sectors, minutes, landings, flights, easa_sep_tmg, easa_mep_set, easa_ir, easa_expiry_only,
  msg_days, msg_date, Progress, ClassRatingCurrency, conclude,
}
use ninerlog_api.Currency.Provider.{drop_error}
use ninerlog_api.Currency.Engine.{
  m_total_minutes, m_pic_minutes, m_ifr_minutes, m_instructor_minutes, m_landings, m_flights,
  ReqSpec, req_spec, build_req, build_reqs, all_reqs_met, WindowSpec, window_preceding_expiry,
  no_window, scope_by_class, scope_all, scope_class_group, RatingRuntime, RatingRule, no_ul_credit,
  fetch_progress, prof_check_requirement, evaluation_failed,
}
use ninerlog_api.Currency.Easa.Credits.{easa_sep_tmg_classes, easa_annex_i_credit}

-- The result with the window fields, and whether the window is closed.
unfoldable pub apply_closed_window :
    (since wall : Instant) → ClassRatingCurrency → ClassRatingCurrency × Bool
apply_closed_window since wall result =
    let dated = record result { window_opens_at = some (day_of since) } in
    if not (before wall since) then (record dated { window_open = true }, false) else (
      conclude (record dated { window_open = false }) current rating_window_not_open
          (msg_date (day_of since)),
      true,
    )

-- The decision, once the flights are read; a failed read gives no decision.
unfoldable pub decide_read :
    (RatingRuntime → Instant → Progress → ClassRatingCurrency)
    → RatingRuntime
    → Instant
    → Option Progress
    → ClassRatingCurrency
decide_read decide rt expiry none = evaluation_failed rt.result
decide_read decide rt expiry (some progress) =
    decide (record rt { result = record rt.result { progress = some progress } }) expiry progress

-- The common head of the three finalize strategies, by the expiry date: no date, closed window,
-- failed read. As in the source, an open window drops the copy of the result that
-- applyClosedWindow returns.
unfoldable pub in_window_of :
    (RatingRuntime → Instant → Progress → ClassRatingCurrency)
    → RatingRuntime
    → Option Instant
    → ClassRatingCurrency
unfolding apply_closed_window fetch_progress sub_date decide_read
in_window_of decide rt0 none = conclude rt0.result unknown rating_no_expiry_date none
in_window_of decide rt0 (some expiry) =
    let since = sub_date expiry 1 0 0 in
    let (r, closed) = apply_closed_window since rt0.wall rt0.result in
    let rt = record rt0 { since = since } in
    if closed then r else decide_read decide rt expiry (fetch_progress rt)

unfoldable pub in_window :
    (RatingRuntime → Instant → Progress → ClassRatingCurrency) → RatingRuntime → ClassRatingCurrency
unfolding in_window_of
in_window decide rt = in_window_of decide rt rt.rating.expiry_date

-- The tail that they share: expired, short of the requirements, about to expire, or current.
unfoldable pub conclude_revalidation :
    RatingRuntime
    → Instant
    → (all_met : Bool) → (shortfall : MsgKey) → ClassRatingCurrency
    → ClassRatingCurrency
unfolding is_expired_at is_expiring_soon_at days_until_expiry
conclude_revalidation rt expiry all_met shortfall result =
    if is_expired_at rt.rating rt.wall
    then conclude result expired rating_expired none
    else if not all_met
    then conclude result expiring shortfall none
    else if is_expiring_soon_at rt.rating rt.wall 90
    then conclude result expiring rating_revalidation_expiring_met
        (msg_days (days_until_expiry expiry rt.wall))
    else conclude result current rating_revalidation_current none

abbrev pub preceding_year : WindowSpec
preceding_year = record { kind = window_preceding_expiry; years = 1; months = 0; days = 0 }

abbrev pub sep_tmg_reqs : List ReqSpec
sep_tmg_reqs =
    req_spec total_time m_total_minutes 720 minutes
    ∷ req_spec pic_time m_pic_minutes 360 minutes
    ∷ req_spec landings_key m_landings 12 landings
    ∷ req_spec refresher_training m_instructor_minutes 60 minutes
    ∷ []

unfoldable pub sep_tmg_decide : RatingRuntime → Instant → Progress → ClassRatingCurrency
unfolding build_reqs all_reqs_met conclude_revalidation
sep_tmg_decide rt expiry progress =
    let reqs = build_reqs progress rt.rule.base_reqs in
    let result = record rt.result { requirements = reqs } in
    conclude_revalidation rt expiry (all_reqs_met reqs) rating_revalidation_not_met result

unfoldable pub easa_sep_tmg_rule : RatingRule
unfolding in_window sep_tmg_decide easa_sep_tmg_classes easa_annex_i_credit
easa_sep_tmg_rule = record {
  spec = record {
    description = easa_sep_tmg;
    window = preceding_year;
    scope = scope_class_group easa_sep_tmg_classes;
    counts_towed = false;
    classes_no_dual = false;
    ul_credit = easa_annex_i_credit;
    base_reqs = sep_tmg_reqs;
  };
  finalize = in_window sep_tmg_decide;
}

abbrev pub sectors_req : ReqSpec
sectors_req = req_spec route_sectors m_flights 10 flights

abbrev pub refresher_req : ReqSpec
refresher_req = req_spec refresher_training m_instructor_minutes 60 minutes

abbrev pub ifr_req : ReqSpec
ifr_req = req_spec ifr_time m_ifr_minutes 600 minutes

unfoldable pub mep_set_decide : RatingRuntime → Instant → Progress → ClassRatingCurrency
unfolding build_req prof_check_requirement conclude_revalidation
mep_set_decide rt expiry progress =
    let req_sectors = build_req progress sectors_req in
    let req_instructor = build_req progress refresher_req in
    let check_date =
      drop_error (rt.dp.get_last_proficiency_check rt.license.user_id rt.classes rt.since) in
    let req_check = prof_check_requirement check_date in
    let result = record rt.result {
      requirements = req_sectors ∷ req_instructor ∷ req_check ∷ [];
    } in
    let all_met = (req_sectors.met && req_instructor.met) || req_check.met in
    conclude_revalidation rt expiry all_met rating_revalidation_not_met_prof_check result

unfoldable pub easa_mep_set_rule : RatingRule
unfolding in_window mep_set_decide
easa_mep_set_rule = record {
  spec = record {
    description = easa_mep_set;
    window = preceding_year;
    scope = scope_by_class;
    counts_towed = false;
    classes_no_dual = false;
    ul_credit = no_ul_credit;
    base_reqs = sectors_req ∷ refresher_req ∷ [];
  };
  finalize = in_window mep_set_decide;
}

-- The message of an IR whose requirements are not all met.
abbrev pub ir_shortfall : Bool → Bool → MsgKey
ir_shortfall hours_met has_check =
    if not hours_met && not has_check
    then rating_ir_hours_and_check_not_met
    else if not hours_met
    then rating_ir_hours_not_met
    else rating_ir_check_not_met

unfoldable pub ir_decide : RatingRuntime → Instant → Progress → ClassRatingCurrency
unfolding build_req prof_check_requirement conclude_revalidation
ir_decide rt expiry progress =
    let req_hours = build_req progress ifr_req in
    let check_date =
      drop_error (rt.dp.get_last_proficiency_check rt.license.user_id (ir ∷ []) rt.since) in
    let req_check = prof_check_requirement check_date in
    let result = record rt.result { requirements = req_hours ∷ req_check ∷ [] } in
    conclude_revalidation rt expiry (req_hours.met && req_check.met)
      (ir_shortfall req_hours.met req_check.met) result

unfoldable pub easa_ir_rule : RatingRule
unfolding in_window ir_decide
easa_ir_rule = record {
  spec = record {
    description = easa_ir;
    window = preceding_year;
    scope = scope_all;
    counts_towed = false;
    classes_no_dual = false;
    ul_credit = no_ul_credit;
    base_reqs = ifr_req ∷ [];
  };
  finalize = in_window ir_decide;
}

-- The finalize strategy of the expiry-only rules of easa.go and other.go, which differ in the
-- message for a rating with no expiry date.
unfoldable pub expiry_only_finalize : MsgKey → RatingRuntime → ClassRatingCurrency
unfolding is_expired_at is_expiring_soon_at days_until_expiry
expiry_only_finalize no_date rt = elim rt.rating.expiry_date [
  | none ↦ conclude rt.result unknown no_date none
  | some expiry ↦
      if is_expired_at rt.rating rt.wall
      then conclude rt.result expired rating_expired none
      else if is_expiring_soon_at rt.rating rt.wall 90
      then conclude rt.result expiring rating_expiring (msg_days (days_until_expiry expiry rt.wall))
      else conclude rt.result current rating_valid_until none
]

unfoldable pub easa_expiry_only_rule : RatingRule
unfolding expiry_only_finalize
easa_expiry_only_rule = record {
  spec = record {
    description = easa_expiry_only;
    window = no_window;
    scope = scope_by_class;
    counts_towed = false;
    classes_no_dual = false;
    ul_credit = no_ul_credit;
    base_reqs = [];
  };
  finalize = expiry_only_finalize rating_no_expiry_date;
}
