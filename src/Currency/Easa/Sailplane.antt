-- ===== src/Currency/Easa/Sailplane.antt =====
-- The SFCL rules of easa.go: sailplanes, touring motor gliders flown with an SPL, launch methods.
use ninerlog_api.Base.{
  ℕ, ◌+◌, Bool, true, false, not, ◌&&◌, none, some, List, [], ◌∷◌, ◌++◌, ◌⊎◌, inl, inr, leb, ◌==◌,
  if◌then◌else◌,
}
use ninerlog_api.Models.{tmg, glider, class_eq, three_axis_motorglider, sailplane}
use ninerlog_api.Currency.Types.{
  current, expiring, rating_recency_not_met, rating_recency_current, launch_method_progress,
  flight_time, launches_key, training_flights_key, minutes, flights, launches, easa_spl, Progress,
  no_progress, Requirement, LaunchMethod, winch, car, aerotow, self_launch, bungee,
  LaunchMethodCurrency, ClassRatingCurrency, conclude,
}
use ninerlog_api.Currency.Provider.{drop_error}
use ninerlog_api.Currency.Engine.{
  m_pic_or_dual_minutes, m_launches, m_training_flights, ReqSpec, req_spec, build_req, all_reqs_met,
  rolling, rolling_since, scope_by_class, RatingRuntime, RatingRule, no_ul_credit, fetch_progress,
  ul_hours_credit, prof_check_requirement, evaluation_failed,
}

unfoldable pub launch_methods : List LaunchMethod
launch_methods = winch ∷ car ∷ aerotow ∷ self_launch ∷ bungee ∷ []

unfoldable pub launch_method_required : LaunchMethod → ℕ
launch_method_required bungee = 2
launch_method_required _ = 5

abbrev is_self_launch : LaunchMethod → Bool
is_self_launch self_launch = true
is_self_launch _ = false

-- The entry of one method, with its launches in the window.
unfoldable pub method_currency : (LaunchMethod → ℕ) → ℕ → LaunchMethod → LaunchMethodCurrency
unfolding launch_method_required
method_currency in_window tmg_takeoffs m =
    let count = if is_self_launch m then in_window m + tmg_takeoffs else in_window m in
    record {
      method = m;
      launch_count = count;
      required = launch_method_required m;
      met = leb (launch_method_required m) count;
      message_key = launch_method_progress;
    }

-- The loop over the launch methods.
unfoldable pub list_methods :
    (ever in_window : LaunchMethod → ℕ) → ℕ → List LaunchMethod → List LaunchMethodCurrency
unfolding method_currency
list_methods ever in_window tmg_takeoffs [] = []
list_methods ever in_window tmg_takeoffs (m ∷ ms) =
    let rest = list_methods ever in_window tmg_takeoffs ms in
    if ever m == 0 then rest else method_currency in_window tmg_takeoffs m ∷ rest

-- A failed read gives no entry. The first read is of all time, from the zero instant.
unfoldable pub easa_launch_method_currency : RatingRuntime → ℕ → List LaunchMethodCurrency
unfolding list_methods launch_methods
easa_launch_method_currency rt tmg_takeoffs =
    elim (rt.dp.get_launch_counts rt.license.user_id rt.rating.class_type 0) [
      | none ↦ []
      | some ever ↦
          elim (rt.dp.get_launch_counts rt.license.user_id rt.rating.class_type rt.since) [
            | none ↦ []
            | some in_window ↦ list_methods ever in_window tmg_takeoffs launch_methods
          ]
    ]

abbrev pub spl_time_req : ReqSpec
spl_time_req = req_spec flight_time m_pic_or_dual_minutes 300 minutes

abbrev pub spl_launch_req : ReqSpec
spl_launch_req = req_spec launches_key m_launches 15 launches

abbrev pub spl_training_req : ReqSpec
spl_training_req = req_spec training_flights_key m_training_flights 2 flights

-- The hours that count beside the sailplane's own progress, for a GLIDER rating with what the TMG
-- and the ultralights add, the TMG progress, and the result with the classes and kinds counted. On
-- the left, the result as a failed read leaves it.
spl_hours :
    RatingRuntime → Progress → ClassRatingCurrency ⊎ (Progress × Progress × ClassRatingCurrency)
unfolding ul_hours_credit
spl_hours rt plane =
    if class_eq rt.rating.class_type glider
    then elim (rt.dp.get_progress_by_aircraft_class rt.license.user_id (tmg ∷ []) false rt.since) [
      | none ↦ inl rt.result
      | some t ↦
          let counted = record rt.result { counted_classes = glider ∷ tmg ∷ [] } in
          let kinds = sailplane ∷ three_axis_motorglider ∷ [] in
          elim (ul_hours_credit rt kinds) [
            | none ↦ inl counted
            | some ul_minutes ↦ inr (
              record plane {
                pic_minutes = plane.pic_minutes + t.pic_minutes + ul_minutes;
                instructor_minutes = plane.instructor_minutes + t.instructor_minutes;
              },
              t,
              record counted { credited_ul_kinds = kinds },
            )
          ]
    ]
    else inr (plane, no_progress, rt.result)

-- The requirements of the sailplane rule: the hours with what is credited, the rest on sailplanes.
unfoldable pub spl_reqs : (hours plane : Progress) → List Requirement
unfolding build_req
spl_reqs hours plane =
    build_req hours spl_time_req
    ∷ build_req plane spl_launch_req
    ∷ build_req plane spl_training_req
    ∷ []

unfoldable pub spl_finalize : RatingRuntime → ClassRatingCurrency
unfolding rolling_since fetch_progress spl_hours spl_reqs all_reqs_met prof_check_requirement
    easa_launch_method_currency
spl_finalize rt0 =
    let rt = record rt0 { since = rolling_since rt0.rule.window rt0.now } in
    elim (fetch_progress rt) [
      | none ↦ evaluation_failed rt.result
      | some plane ↦ elim (spl_hours rt plane) [
        | inl failed ↦ evaluation_failed failed
        | inr (hours, t, result) ↦
            let reqs = spl_reqs hours plane in
            let req_check = prof_check_requirement (
              drop_error (
                rt.dp.get_last_proficiency_check rt.license.user_id (rt.rating.class_type ∷ [])
                  rt.since)) in
            let listed = record result {
              progress = some plane;
              requirements = reqs ++ req_check ∷ [];
              launch_method_currency = easa_launch_method_currency rt t.launches;
            } in
            if not (all_reqs_met reqs) && not req_check.met
            then conclude listed expiring rating_recency_not_met none
            else conclude listed current rating_recency_current none
      ]
    ]

unfoldable pub easa_spl_rule : RatingRule
unfolding spl_finalize
easa_spl_rule = record {
  spec = record {
    description = easa_spl;
    window = rolling 2 0 0;
    scope = scope_by_class;
    counts_towed = true;
    classes_no_dual = false;
    ul_credit = no_ul_credit;
    base_reqs = spl_time_req ∷ spl_launch_req ∷ spl_training_req ∷ [];
  };
  finalize = spl_finalize;
}
