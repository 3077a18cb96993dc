-- ===== src/Currency/Engine.antt =====
-- engine.go: metrics, requirements, windows, rules, and the evaluation of a rule. A rule is its
-- data (RuleSpec) with its finalize strategy, since a runtime refers to the rule's data only.
-- `wall` is what time.Now() returns during the evaluation; `now` is the instant evaluated for.
pub mod Recency
use ninerlog_api.Base.{
  ℕ, ◌+◌, max, Bool, true, false, not, ◌&&◌, ◌||◌, Option, none, some, List, [], ◌∷◌, ◌++◌, length,
  is_empty, leb, ltb, ◌==◌, if◌then◌else◌,
}
use ninerlog_api.Clock.{Instant, day_text, day_of, after, sub_date}
use ninerlog_api.Models.{ClassType, glider, class_eq, UlKind, ClassRating, License}
use ninerlog_api.Currency.Types.{
  current, expiring, unknown, rating_evaluation_failed, rating_recency_current,
  rating_recency_not_met, requirement_progress, requirement_prof_check_missing,
  requirement_prof_check_completed, no_message, ReqKey, proficiency_check, ReqUnit, check, RuleText,
  msg_date, Progress, no_progress, Requirement, ClassRatingCurrency, conclude,
}
use ninerlog_api.Currency.Provider.{UlSelector, FlightDataProvider}

pub data Metric : Type 0 where
  m_total_minutes m_pic_minutes m_ifr_minutes m_instructor_minutes m_landings : Metric
  m_night_landings m_flights m_approaches m_holds m_pic_or_dual_minutes m_launches : Metric
  m_training_flights m_longest_training_flight : Metric

unfoldable pub metric_val : Progress → Metric → ℕ
metric_val p m_total_minutes = p.total_minutes
metric_val p m_pic_minutes = p.pic_minutes
metric_val p m_ifr_minutes = p.ifr_minutes
metric_val p m_instructor_minutes = p.instructor_minutes
metric_val p m_landings = p.landings
metric_val p m_night_landings = p.night_landings
metric_val p m_flights = p.flights
metric_val p m_approaches = p.approaches
metric_val p m_holds = p.holds
metric_val p m_pic_or_dual_minutes = p.pic_minutes + p.instructor_minutes
metric_val p m_launches = p.launches
metric_val p m_training_flights = p.training_flights
metric_val p m_longest_training_flight = p.longest_training_flight_minutes

pub record ReqSpec : Type 0 where
  pub name_key : ReqKey
  pub metric : Metric
  pub threshold : ℕ
  pub req_unit : ReqUnit

abbrev pub req_spec : ReqKey → Metric → ℕ → ReqUnit → ReqSpec
req_spec k m n u = record { name_key = k; metric = m; threshold = n; req_unit = u }

unfoldable pub build_req : Progress → ReqSpec → Requirement
unfolding metric_val
build_req p s =
    let cur = metric_val p s.metric in
    record {
      name_key = s.name_key;
      met = leb s.threshold cur;
      amount = cur;
      required = s.threshold;
      req_unit = s.req_unit;
      message_key = requirement_progress;
      message_params = none;
    }

unfoldable pub build_reqs : Progress → List ReqSpec → List Requirement
unfolding build_req
build_reqs p [] = []
build_reqs p (s ∷ specs) = build_req p s ∷ build_reqs p specs

unfoldable pub all_reqs_met : List Requirement → Bool
all_reqs_met [] = true
all_reqs_met (r ∷ reqs) = if not r.met then false else all_reqs_met reqs

pub data WindowKind : Type 0 where
  window_rolling_now window_preceding_expiry : WindowKind

pub record WindowSpec : Type 0 where
  pub kind : WindowKind
  pub years : ℕ
  pub months : ℕ
  pub days : ℕ

-- The zero value of a windowSpec.
abbrev pub no_window : WindowSpec
no_window = record { kind = window_rolling_now; years = 0; months = 0; days = 0 }

abbrev pub rolling : ℕ → ℕ → ℕ → WindowSpec
rolling y m d = record { kind = window_rolling_now; years = y; months = m; days = d }

unfoldable pub rolling_since : WindowSpec → Instant → Instant
unfolding sub_date
rolling_since w now = sub_date now w.years w.months w.days

unfoldable pub is_rolling : WindowSpec → Bool
is_rolling w = elim w.kind [
  | window_rolling_now ↦ not (w.years == 0) || not (w.months == 0) || not (w.days == 0)
  | window_preceding_expiry ↦ false
]

-- scopeByClassOverride and scopeClassGroup carry the field that they read.
pub data ProgressScope : Type 0 where
  scope_by_class : ProgressScope
  scope_by_class_override : ClassType → ProgressScope
  scope_all : ProgressScope
  scope_class_group : (ClassRating → List ClassRating → List ClassType) → ProgressScope

pub record UlCredit : Type 0 where
  pub sel : UlSelector
  pub native : Bool
  pub counts_towed : Bool

-- The data of a ratingRule. A nil ulCredit function is the one that returns none.
pub record RuleSpec : Type 0 where
  pub description : RuleText
  pub window : WindowSpec
  pub scope : ProgressScope
  pub counts_towed : Bool
  pub classes_no_dual : Bool
  pub ul_credit : ClassRating → List ClassType → Option UlCredit
  pub base_reqs : List ReqSpec

pub record RatingRuntime : Type 0 where
  pub rule : RuleSpec
  pub rating : ClassRating
  pub license : License
  pub peers : List ClassRating
  pub classes : List ClassType
  pub ul : Option UlCredit
  pub dp : FlightDataProvider
  pub result : ClassRatingCurrency
  pub since : Instant
  pub now : Instant
  pub wall : Instant

pub record RatingRule : Type 0 where
  pub spec : RuleSpec
  pub finalize : RatingRuntime → ClassRatingCurrency

abbrev pub no_ul_credit : ClassRating → List ClassType → Option UlCredit
no_ul_credit rating classes = none

unfoldable pub include_towed_flights : ClassType → Bool → Bool
include_towed_flights ct sailplane = sailplane || class_eq ct glider

-- p is nil only beside an error, so it is present here.
unfoldable pub add_progress : Progress → Progress → Bool → Progress
add_progress total p with_dual = record {
  total_minutes = total.total_minutes + p.total_minutes;
  pic_minutes = total.pic_minutes + p.pic_minutes;
  ifr_minutes = total.ifr_minutes + p.ifr_minutes;
  instructor_minutes =
      if with_dual
      then total.instructor_minutes + p.instructor_minutes
      else total.instructor_minutes;
  night_minutes = total.night_minutes + p.night_minutes;
  landings = total.landings + p.landings;
  day_landings = total.day_landings + p.day_landings;
  night_landings = total.night_landings + p.night_landings;
  flights = total.flights + p.flights;
  approaches = total.approaches + p.approaches;
  holds = total.holds + p.holds;
  launches = total.launches + p.launches;
  training_flights =
      if with_dual then total.training_flights + p.training_flights else total.training_flights;
  longest_training_flight_minutes =
      if with_dual
      then max total.longest_training_flight_minutes p.longest_training_flight_minutes
      else total.longest_training_flight_minutes;
}

abbrev is_override : ProgressScope → Bool
is_override (scope_by_class_override ct) = true
is_override _ = false

-- The part of fetchProgress that reads the rule's classes.
unfoldable pub fetch_classes : RatingRuntime → Option Progress
unfolding include_towed_flights add_progress
fetch_classes rt =
    if is_empty rt.classes
    then some no_progress
    else elim (rt.dp.get_progress_by_aircraft_class rt.license.user_id rt.classes
        (not (is_override rt.rule.scope)
          && include_towed_flights rt.rating.class_type rt.rule.counts_towed)
        rt.since) [
          | none ↦ none
          | some p ↦ some (add_progress no_progress p (not rt.rule.classes_no_dual))
        ]

-- The part of fetchProgress that adds the ultralight credit.
unfoldable pub fetch_ul : RatingRuntime → Progress → Option Progress
unfolding add_progress
fetch_ul rt total = elim rt.ul [
  | none ↦ some total
  | some u ↦ elim (rt.dp.get_progress_by_ul_kind rt.license.user_id u.sel u.counts_towed rt.since) [
    | none ↦ none
    | some p ↦ some (add_progress total p u.native)
  ]
]

abbrev is_all : ProgressScope → Bool
is_all scope_all = true
is_all _ = false

unfoldable pub fetch_progress : RatingRuntime → Option Progress
unfolding fetch_classes fetch_ul
fetch_progress rt =
    if is_all rt.rule.scope
    then rt.dp.get_progress_all rt.license.user_id rt.since
    else elim (fetch_classes rt) [ none ↦ none | some total ↦ fetch_ul rt total ]

-- The later of two proficiency checks.
abbrev later_check : Option Instant → Option Instant → Option Instant
later_check latest none = latest
later_check none (some d) = some d
later_check (some l) (some d) = if after d l then some d else some l

unfoldable pub last_proficiency_check : RatingRuntime → Option (Option Instant)
last_proficiency_check rt =
    let on_classes : Option (Option Instant) =
      if is_empty rt.classes
      then some none
      else rt.dp.get_last_proficiency_check rt.license.user_id rt.classes rt.since in
    elim on_classes [
      | none ↦ none
      | some latest ↦ elim rt.ul [
        | none ↦ some latest
        | some u ↦
            if u.native
            then elim (rt.dp.get_last_proficiency_check_by_ul_kind rt.license.user_id u.sel
                rt.since) [ none ↦ none | some d ↦ some (later_check latest d) ]
            else some latest
      ]
    ]

-- ulHoursCredit; the caller records the kinds on the result.
unfoldable pub ul_hours_credit : RatingRuntime → List UlKind → Option ℕ
ul_hours_credit rt kinds =
    elim (rt.dp.get_progress_by_ul_kind rt.license.user_id
      (record { kinds = kinds; include_unspecified = false; min_mtom_kg = 0 }) true rt.since) [
        | none ↦ none
        | some p ↦ some p.pic_minutes
      ]

resolve_scope : ProgressScope → ClassRating → List ClassRating → List ClassType
resolve_scope scope_by_class rating peers = rating.class_type ∷ []
resolve_scope (scope_by_class_override ct) rating peers = ct ∷ []
resolve_scope scope_all rating peers = []
resolve_scope (scope_class_group group) rating peers = group rating peers

unfoldable pub resolve_classes : RuleSpec → ClassRating → List ClassRating → List ClassType
unfolding resolve_scope
resolve_classes rule rating peers = resolve_scope rule.scope rating peers

abbrev credited_kinds : Option UlCredit → List UlKind
credited_kinds none = []
credited_kinds (some u) = u.sel.kinds

-- The result shell of evalRatingRuleAt, before the rule's finalize.
unfoldable pub base_result :
    RuleSpec → ClassRating → License → List ClassType → Option UlCredit → ClassRatingCurrency
base_result rule rating license classes ul = record {
  class_rating_id = rating.id;
  class_type = rating.class_type;
  license_id = rating.license_id;
  regulatory_authority = license.regulatory_authority;
  license_type = license.license_type;
  status = none;
  expiry_date = day_text rating.expiry_date;
  window_opens_at = none;
  window_open = false;
  recency_expires_on = none;
  lapsed_on = none;
  message_key = no_message;
  message_params = none;
  rule_description = rule.description;
  progress = none;
  requirements = [];
  launch_method_currency = [];
  counted_classes = if ltb 1 (length classes) then classes else [];
  credited_ul_kinds = credited_kinds ul;
}

-- The runtime that evalRatingRuleAt hands to finalize. The window start is set by the strategy.
unfoldable pub start_runtime :
    (wall : Instant)
    → RuleSpec
    → ClassRating
    → License
    → List ClassRating
    → FlightDataProvider
    → (now : Instant) → RatingRuntime
unfolding resolve_classes base_result
start_runtime wall spec rating license peers dp now =
    let classes = resolve_classes spec rating peers in
    let ul = spec.ul_credit rating classes in
    record {
      rule = spec;
      rating = rating;
      license = license;
      peers = peers;
      classes = classes;
      ul = ul;
      dp = dp;
      result = base_result spec rating license classes ul;
      since = 0;
      now = now;
      wall = wall;
    }

unfoldable pub eval_rating_rule_at :
    (wall : Instant) (rule : RatingRule)
    → ClassRating
    → License
    → List ClassRating
    → FlightDataProvider
    → (now : Instant) → ClassRatingCurrency
unfolding start_runtime
eval_rating_rule_at wall rule rating license peers dp now =
    rule.finalize (start_runtime wall rule.spec rating license peers dp now)

-- easa.go's profCheckRequirement.
unfoldable pub prof_check_requirement : Option Instant → Requirement
prof_check_requirement none = record {
  name_key = proficiency_check;
  met = false;
  amount = 0;
  required = 1;
  req_unit = check;
  message_key = requirement_prof_check_missing;
  message_params = none;
}
prof_check_requirement (some date) = record {
  name_key = proficiency_check;
  met = true;
  amount = 1;
  required = 1;
  req_unit = check;
  message_key = requirement_prof_check_completed;
  message_params = msg_date (day_of date);
}

abbrev pub evaluation_failed : ClassRatingCurrency → ClassRatingCurrency
evaluation_failed r = conclude r unknown rating_evaluation_failed none

unfoldable pub set_recency_status : ClassRatingCurrency → Bool → ClassRatingCurrency
set_recency_status result met =
    if met
    then conclude result current rating_recency_current none
    else conclude result expiring rating_recency_not_met none

-- recencyFinalize with a proficiency check, once its date is read.
unfoldable pub recency_checked :
    ClassRatingCurrency → List Requirement → Option (Option Instant) → ClassRatingCurrency
unfolding all_reqs_met prof_check_requirement set_recency_status
recency_checked result reqs none = evaluation_failed result
recency_checked result reqs (some date) =
    let req_check = prof_check_requirement date in
    set_recency_status (record result { requirements = reqs ++ req_check ∷ [] })
      (all_reqs_met reqs || req_check.met)

unfoldable pub recency_with : Bool → RatingRuntime → Progress → ClassRatingCurrency
unfolding build_reqs all_reqs_met last_proficiency_check recency_checked set_recency_status
recency_with true rt progress =
    recency_checked (record rt.result { progress = some progress })
      (build_reqs progress rt.rule.base_reqs) (last_proficiency_check rt)
recency_with false rt progress =
    let reqs = build_reqs progress rt.rule.base_reqs in
    set_recency_status (record rt.result { progress = some progress; requirements = reqs })
      (all_reqs_met reqs)

-- recencyFinalize, once the flights are read.
unfoldable pub recency_of : Bool → RatingRuntime → Option Progress → ClassRatingCurrency
unfolding recency_with
recency_of with_check rt none = evaluation_failed rt.result
recency_of with_check rt (some progress) = recency_with with_check rt progress

-- The runtime with the window start that rollingSince gives.
unfoldable pub since_rolling : RatingRuntime → RatingRuntime
unfolding rolling_since
since_rolling rt = record rt { since = rolling_since rt.rule.window rt.now }

unfoldable pub recency_finalize : Bool → RatingRuntime → ClassRatingCurrency
unfolding since_rolling fetch_progress recency_of
recency_finalize with_check rt =
    recency_of with_check (since_rolling rt) (fetch_progress (since_rolling rt))
