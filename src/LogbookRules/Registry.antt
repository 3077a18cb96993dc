-- ===== src/LogbookRules/Registry.antt =====
-- RuleFor, Assess and the deadlines of rules.go.
use ninerlog_api.Base.{
  ℕ, ◌+◌, ◌-◌, ◌*◌, Bool, true, false, ◌||◌, ◌==◌, Option, none, some, List, [], ◌∷◌, ◌++◌,
  is_empty, if◌then◌else◌,
}
use ninerlog_api.Base.Int.{ℤ, pos_part, neg_part}
use ninerlog_api.Base.Text.{Text, codes, text_eq, equal_fold, to_upper, trim_space}
use ninerlog_api.Clock.{Instant, midnight, day_of, before}
use ninerlog_api.LogbookRules.Terms.{is_at_national, is_de_ul}

pub data Window : Type 0 where
  window_flight_day window_hours_48 : Window

pub data Requirement : Type 0 where
  requirement_none requirement_suggested requirement_required : Requirement

pub record Licence : Type 0 where
  pub id : ℕ
  pub regulatory_authority : Text
  pub license_type : Text
  pub issuing_country : Text

pub record Rule : Type 0 where
  pub requirement : Requirement
  pub window : Option Window
  pub basis : Text
  pub downward_only_overrides : Bool

pub record Match : Type 0 where
  pub licence : Licence
  pub rule : Rule

pub record Assessment : Type 0 where
  pub required : List Match
  pub suggested : List Match
  pub window : Option Window
  pub overrides_downward_only : Bool

abbrev pub required_rule : Window → Text → Rule
required_rule w basis = record {
  requirement = requirement_required;
  window = some w;
  basis = basis;
  downward_only_overrides = false;
}

abbrev pub suggested_rule : Text → Rule
suggested_rule basis = record {
  requirement = requirement_suggested;
  window = none;
  basis = basis;
  downward_only_overrides = false;
}

abbrev pub no_rule : Rule
no_rule = record {
  requirement = requirement_none;
  window = none;
  basis = [];
  downward_only_overrides = false;
}

unfoldable pub rule_for : Licence → Rule
unfolding to_upper trim_space text_eq equal_fold is_at_national is_de_ul
rule_for l =
    let country = to_upper (trim_space l.issuing_country) in
    if is_empty country
    then no_rule
    else if text_eq country (codes "CH")
    then record (required_rule window_hours_48 (codes "FOCA Accepted Logbook Formats §2.3(7)")) {
      downward_only_overrides = true;
    }
    else if text_eq country (codes "DE")
    then (if is_de_ul l.regulatory_authority l.license_type
        then suggested_rule (codes "§120 LuftPersV")
        else required_rule window_flight_day (codes "NfL 2212-21 §4.3.2"))
    else if text_eq country (codes "AT")
    then (if is_at_national l.license_type
        then required_rule window_flight_day (codes "ZLPV 2006 Anlage 6")
        else suggested_rule (codes "AMC1 FCL.050 (e)(2)"))
    else if text_eq country (codes "AU")
    then required_rule window_flight_day (codes "CASR 61.355, RAAP 13")
    else if text_eq country (codes "NZ")
    then required_rule window_flight_day (codes "Part 61.29(e)")
    else if text_eq country (codes "JP")
    then required_rule window_flight_day (codes "国空乗390号")
    else if text_eq country (codes "UY")
    then required_rule window_flight_day (codes "RAU 61.51")
    else if text_eq country (codes "DK")
    then suggested_rule (codes "BL 6-04 §3.2.6")
    else if text_eq country (codes "BR")
    then suggested_rule (codes "CIV Digital")
    else if text_eq country (codes "GB")
    then suggested_rule (codes "printed extracts")
    else if text_eq country (codes "US")
    then suggested_rule (codes "AC 120-78B")
    else if equal_fold (trim_space l.regulatory_authority) (codes "EASA")
    then suggested_rule (codes "AMC1 FCL.050 (e)(2)")
    else no_rule

abbrev pub is_flight_day : Option Window → Bool
is_flight_day (some window_flight_day) = true
is_flight_day _ = false

unfoldable pub shorter : Option Window → Option Window → Option Window
shorter none b = b
shorter (some a) b =
    if is_flight_day (some a) || is_flight_day b then some window_flight_day else some a

-- The switch on the requirement, for a licence with its rule.
unfoldable pub note_rule : Requirement → Match → Assessment → Assessment
unfolding shorter
note_rule requirement_required m a = record a {
  required = a.required ++ m ∷ [];
  overrides_downward_only = a.overrides_downward_only || m.rule.downward_only_overrides;
  window = shorter a.window m.rule.window;
}
note_rule requirement_suggested m a = record a { suggested = a.suggested ++ m ∷ [] }
note_rule requirement_none m a = a

unfoldable pub assess_from : List Licence → Assessment → Assessment
unfolding note_rule
assess_from [] a = a
assess_from (l ∷ ls) a =
    let r = rule_for l in
    assess_from ls (note_rule r.requirement (record { licence = l; rule = r }) a)

abbrev pub no_assessment : Assessment
no_assessment = record {
  required = [];
  suggested = [];
  window = none;
  overrides_downward_only = false;
}

unfoldable pub assess : List Licence → Assessment
unfolding assess_from
assess licences = assess_from licences no_assessment

abbrev pub hour_ns : ℕ
hour_ns = 3600000000000

-- The end of the calendar date, `offset` hours east of UTC.
unfoldable pub flight_day_end : Instant → ℤ → Instant
flight_day_end flight_date offset =
    midnight (day_of flight_date + 1) + neg_part offset * hour_ns - pos_part offset * hour_ns

unfoldable pub window_deadline : Option Window → Instant → Instant → ℤ → Instant
unfolding flight_day_end
window_deadline (some window_hours_48) flight_date landed_at offset =
    if landed_at == 0 then flight_day_end flight_date offset else landed_at + 48 * hour_ns
window_deadline _ flight_date landed_at offset = flight_day_end flight_date offset

-- The loop of Deadline.
unfoldable pub earliest_deadline : List Match → Instant → Instant → ℤ → Instant → Instant
unfolding window_deadline
earliest_deadline [] flight_date landed_at offset earliest = earliest
earliest_deadline (m ∷ ms) flight_date landed_at offset earliest =
    let d = window_deadline m.rule.window flight_date landed_at offset in
    earliest_deadline ms flight_date landed_at offset
      (if earliest == 0 || before d earliest then d else earliest)

unfoldable pub deadline : Assessment → Instant → Instant → ℤ → Instant
unfolding flight_day_end earliest_deadline
deadline a flight_date landed_at offset =
    if is_empty a.required
    then flight_day_end flight_date offset
    else earliest_deadline a.required flight_date landed_at offset 0
