-- ===== src/Currency/Easa/Decisions.antt =====
-- What the revalidation rules of easa.go decide, by the days left and the experience. The theorems
-- are on the code, and not on docs/PERSONAS.md, from which it differs for two of the rules: there O2
-- has MEP revalidated by the proficiency check only, while the code also accepts route sectors with
-- refresher training; O3 has IR revalidated by a check in the 3 months before the expiry date and no
-- experience, while the code asks for 10 hours of IFR time and takes a check of the last 12 months.
use ninerlog_api.Base.{
  ◌≤◌, ◌≡◌, ap, ◌∙◌, ◌≢◌, ◌↔◌, ◌⊎◌, Bool, true, Option, none, some, List, [], ◌∷◌, arith, not, ◌&&◌,
  ◌||◌, if◌then◌else◌,
}
use ninerlog_api.Base.Int.{ℤ, pos, negsuc, ◌≤ℤ◌, ltb_ℤ, leb_ℤ}
use ninerlog_api.Clock.{Instant, sub_date}
use ninerlog_api.Models.{ir, ClassType, ClassRating, License}
use ninerlog_api.Models.Expiry.{days_until_expiry, expired_at, expiring_within}
use ninerlog_api.Currency.Types.{
  Status, current, expiring, expired, Progress, ClassRatingCurrency, MsgKey, MessageParams,
  conclude, Requirement, rating_revalidation_not_met, rating_revalidation_not_met_prof_check,
  rating_expired, rating_revalidation_expiring_met, rating_revalidation_current,
}
use ninerlog_api.Currency.Provider.{FlightDataProvider, drop_error}
use ninerlog_api.Currency.Engine.{
  build_req, build_reqs, all_reqs_met, RatingRuntime, RatingRule, prof_check_requirement,
  fetch_progress, start_runtime, eval_rating_rule_at,
}
use ninerlog_api.Currency.Easa.Revalidation.{
  ir_shortfall, sep_tmg_reqs, sectors_req, refresher_req, ifr_req, apply_closed_window, decide_read,
  in_window_of, in_window, conclude_revalidation, sep_tmg_decide, easa_sep_tmg_rule, mep_set_decide,
  easa_mep_set_rule, ir_decide, easa_ir_rule,
}

-- The experience that FCL.740.A(b)(1) asks for.
abbrev pub SepTmgExperience : Progress → Type 0
SepTmgExperience p =
    (720 ≤ p.total_minutes)
    × (360 ≤ p.pic_minutes)
    × (12 ≤ p.landings)
    × (60 ≤ p.instructor_minutes)

-- The runtime of a revalidation rule, its window start set.
abbrev pub since_year_before : RatingRuntime → Instant → RatingRuntime
since_year_before rt expiry = record rt { since = sub_date expiry 1 0 0 }

-- The runtime that a decision is handed.
abbrev window_read : RatingRuntime → Instant → Progress → RatingRuntime
window_read rt expiry p = record (since_year_before rt expiry) {
  result = record rt.result { progress = some p };
}

open_branch :
    (a b : ClassRatingCurrency) (since wall : Instant) (r : ClassRatingCurrency)
    → since ≤ wall
    → (if (apply_closed_window since wall r).1 then a else b) ≡ b
unfolding apply_closed_window
open_branch a b since wall r h = ground arith

-- With the window open and the flights read, a strategy comes down to its decision.
in_window_open :
    (decide : RatingRuntime → Instant → Progress → ClassRatingCurrency) (rt : RatingRuntime)
    (expiry : Instant) (p : Progress)
    → rt.rating.expiry_date ≡ some expiry
    → sub_date expiry 1 0 0 ≤ rt.wall
    → fetch_progress (since_year_before rt expiry) ≡ some p
    → in_window decide rt ≡ decide_read decide (since_year_before rt expiry) expiry (some p)
unfolding in_window
in_window_open decide rt expiry p e w f =
    ap (in_window_of decide rt) e
    ∙ open_branch _ _ (sub_date expiry 1 0 0) rt.wall rt.result w
    ∙ ap (decide_read decide (since_year_before rt expiry) expiry) f

-- A status decided by the days left and a requirement: expired once the expiry date has passed,
-- current with more than 90 days left and the requirement met. In between it is expiring.
abbrev pub Decides : ℤ → Option Status → Type 0 → Type 0
Decides left status Met =
    ((status ≡ some expired) ↔ (left ≤ℤ negsuc 0))
    × ((status ≡ some current) ↔ ((pos 91 ≤ℤ left) × Met))

Decides-map :
    (left : ℤ) (status : Option Status) {Met Met' : Type 0}
    → Met ↔ Met'
    → Decides left status Met
    → Decides left status Met'
Decides-map left status e (a, (b, c)) = (a, (λ h. ((b h).0, e.0 (b h).1), λ h. c (h.0, e.1 h.1)))

-- The tail of the strategies, with the days left generalised.
tail-Decides :
    (left : ℤ) (all_met : Bool) (shortfall : MsgKey) (params : Option MessageParams)
    (r : ClassRatingCurrency)
    → Decides left
        (if ltb_ℤ left (pos 0)
          then conclude r expired rating_expired none
          else if not all_met
          then conclude r expiring shortfall none
          else if leb_ℤ (pos 0) left && leb_ℤ left (pos 90)
          then conclude r expiring rating_revalidation_expiring_met params
          else conclude r current rating_revalidation_current none).status
        (all_met ≡ true)
tail-Decides left all_met shortfall params r = ground arith

conclude_revalidation-Decides :
    (rt : RatingRuntime) (expiry : Instant) (all_met : Bool) (shortfall : MsgKey)
    (r : ClassRatingCurrency)
    → rt.rating.expiry_date ≡ some expiry
    → Decides
        (days_until_expiry expiry rt.wall)
        (conclude_revalidation rt expiry all_met shortfall r).status
        (all_met ≡ true)
unfolding conclude_revalidation
conclude_revalidation-Decides rt expiry all_met shortfall r e =
    rw (e, conclude_revalidation, expired_at, expiring_within)
      (tail-Decides (days_until_expiry expiry rt.wall) all_met shortfall _ r)

sep_tmg_met :
    (p : Progress) → (all_reqs_met (build_reqs p sep_tmg_reqs) ≡ true) ↔ SepTmgExperience p
unfolding all_reqs_met build_reqs
sep_tmg_met p = ground arith

mep_set_met :
    (p : Progress) (check : Option Instant)
    → (((build_req p sectors_req).met && (build_req p refresher_req).met
          || (prof_check_requirement check).met)
        ≡ true)
      ↔ (((10 ≤ p.flights) × (60 ≤ p.instructor_minutes)) ⊎ (check ≢ none))
unfolding build_req prof_check_requirement
mep_set_met p none = ground arith
mep_set_met p (some d) = ground arith

ir_met :
    (p : Progress) (check : Option Instant)
    → (((build_req p ifr_req).met && (prof_check_requirement check).met) ≡ true)
      ↔ ((600 ≤ p.ifr_minutes) × (check ≢ none))
unfolding build_req prof_check_requirement
ir_met p none = ground arith
ir_met p (some d) = ground arith

-- The three decisions, by the tests that they make.
abbrev check_of : RatingRuntime → List ClassType → Option Instant
check_of rt classes =
    drop_error (rt.dp.get_last_proficiency_check rt.license.user_id classes rt.since)

sep_tmg_decide-Decides :
    (rt : RatingRuntime) (expiry : Instant) (p : Progress)
    → rt.rating.expiry_date ≡ some expiry
    → Decides
        (days_until_expiry expiry rt.wall)
        (sep_tmg_decide rt expiry p).status
        (all_reqs_met (build_reqs p rt.rule.base_reqs) ≡ true)
unfolding sep_tmg_decide
sep_tmg_decide-Decides rt expiry p e =
    conclude_revalidation-Decides rt expiry (all_reqs_met (build_reqs p rt.rule.base_reqs))
      rating_revalidation_not_met
      (record rt.result { requirements = build_reqs p rt.rule.base_reqs }) e

mep_set_decide-Decides :
    (rt : RatingRuntime) (expiry : Instant) (p : Progress)
    → rt.rating.expiry_date ≡ some expiry
    → Decides
        (days_until_expiry expiry rt.wall)
        (mep_set_decide rt expiry p).status
        (((10 ≤ p.flights) × (60 ≤ p.instructor_minutes)) ⊎ (check_of rt rt.classes ≢ none))
unfolding mep_set_decide
mep_set_decide-Decides rt expiry p e =
    let check : Requirement = prof_check_requirement (check_of rt rt.classes) in
    let sectors : Requirement = build_req p sectors_req in
    let refresher : Requirement = build_req p refresher_req in
    Decides-map (days_until_expiry expiry rt.wall) (mep_set_decide rt expiry p).status
      (mep_set_met p (check_of rt rt.classes))
      (conclude_revalidation-Decides rt expiry (sectors.met && refresher.met || check.met)
        rating_revalidation_not_met_prof_check
        (record rt.result { requirements = sectors ∷ refresher ∷ check ∷ [] }) e)

ir_decide-Decides :
    (rt : RatingRuntime) (expiry : Instant) (p : Progress)
    → rt.rating.expiry_date ≡ some expiry
    → Decides
        (days_until_expiry expiry rt.wall)
        (ir_decide rt expiry p).status
        ((600 ≤ p.ifr_minutes) × (check_of rt (ir ∷ []) ≢ none))
unfolding ir_decide
ir_decide-Decides rt expiry p e =
    let check : Requirement = prof_check_requirement (check_of rt (ir ∷ [])) in
    let hours : Requirement = build_req p ifr_req in
    Decides-map (days_until_expiry expiry rt.wall) (ir_decide rt expiry p).status
      (ir_met p (check_of rt (ir ∷ [])))
      (conclude_revalidation-Decides rt expiry (hours.met && check.met)
        (ir_shortfall hours.met check.met) (record rt.result { requirements = hours ∷ check ∷ [] })
        e)

-- What the theorems on the three rules assume: the window before the expiry date is open, and the
-- provider answers.
module _ (rule : RatingRule) (wall : Instant) (rating : ClassRating) (license : License)
    (peers : List ClassRating) (dp : FlightDataProvider) (now expiry : Instant) (p : Progress) where
  pub record IsRead : Type 0 where
    pub dated : rating.expiry_date ≡ some expiry
    pub open_window : sub_date expiry 1 0 0 ≤ wall
    pub fetched :
        fetch_progress
          (since_year_before (start_runtime wall rule.spec rating license peers dp now) expiry)
        ≡ some p

module _ (wall : Instant) (rating : ClassRating) (license : License) (peers : List ClassRating)
    (dp : FlightDataProvider) (now expiry : Instant) (p : Progress) where
  -- EASA FCL.740.A(b)(1), SEP and TMG: with an expiry date, an open window and the flights read, the
  -- rating is expired exactly when its expiry date has passed, and current exactly when more than 90
  -- days are left and the 12 hours, 6 hours as PIC, 12 landings and 1 hour of refresher are there.
  pub sep_tmg-Decides :
      IsRead easa_sep_tmg_rule wall rating license peers dp now expiry p
      → Decides
          (days_until_expiry expiry wall)
          (eval_rating_rule_at wall easa_sep_tmg_rule rating license peers dp now).status
          (SepTmgExperience p)
  unfolding eval_rating_rule_at easa_sep_tmg_rule sep_tmg_decide
  sep_tmg-Decides h =
      let rt : RatingRuntime =
        start_runtime wall easa_sep_tmg_rule.spec rating license peers dp now in
      rw (in_window_open sep_tmg_decide rt expiry p h.dated h.open_window h.fetched) (
        Decides-map (days_until_expiry expiry wall) _ (sep_tmg_met p)
          (sep_tmg_decide-Decides (window_read rt expiry p) expiry p h.dated))

  -- EASA FCL.740.A(b)(2), MEP and SET: with an expiry date, an open window and the flights read, the
  -- rating is expired exactly when its expiry date has passed, and current exactly when more than 90
  -- days are left and either the 10 route sectors and 1 hour of refresher training are there, whether
  -- or not there was a proficiency check, or there was a check on the rating's class since the
  -- day a year before the expiry date.
  pub mep_set-Decides :
      IsRead easa_mep_set_rule wall rating license peers dp now expiry p
      → Decides
          (days_until_expiry expiry wall)
          (eval_rating_rule_at wall easa_mep_set_rule rating license peers dp now).status
          (((10 ≤ p.flights) × (60 ≤ p.instructor_minutes))
            ⊎ (drop_error (
                  dp.get_last_proficiency_check license.user_id
                    (rating.class_type ∷ [])
                    (sub_date expiry 1 0 0))
                ≢ none))
  unfolding eval_rating_rule_at easa_mep_set_rule
  mep_set-Decides h =
      let rt : RatingRuntime =
        start_runtime wall easa_mep_set_rule.spec rating license peers dp now in
      rw (in_window_open mep_set_decide rt expiry p h.dated h.open_window h.fetched)
        (mep_set_decide-Decides (window_read rt expiry p) expiry p h.dated)

  -- EASA FCL.625.A, IR: with an expiry date, an open window and the flights read, the rating is
  -- expired exactly when its expiry date has passed, and current exactly when more than 90 days are
  -- left and both 10 hours of IFR time and a proficiency check are there, each at any time since the
  -- day a year before the expiry date.
  pub ir-Decides :
      IsRead easa_ir_rule wall rating license peers dp now expiry p
      → Decides
          (days_until_expiry expiry wall)
          (eval_rating_rule_at wall easa_ir_rule rating license peers dp now).status
          ((600 ≤ p.ifr_minutes)
            × (drop_error
                  (dp.get_last_proficiency_check license.user_id (ir ∷ []) (sub_date expiry 1 0 0))
                ≢ none))
  unfolding eval_rating_rule_at easa_ir_rule
  ir-Decides h =
      let rt : RatingRuntime = start_runtime wall easa_ir_rule.spec rating license peers dp now in
      rw (in_window_open ir_decide rt expiry p h.dated h.open_window h.fetched)
        (ir_decide-Decides (window_read rt expiry p) expiry p h.dated)
