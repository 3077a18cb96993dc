-- ===== src/Currency/Recency.antt =====
-- The rules whose strategy is recencyFinalize (engine.go): the seven ultralight rules of german_ul.go
-- and the GPL rule of gpl.go. The other rolling-window rules have strategies of their own.
use ninerlog_api.Base.{
  ℕ, ◌≤◌, ◌≡◌, refl, sym, ap, ◌∙◌, ◌≢◌, ◌↔◌, ◌⊎◌, inl, inr, Bool, true, false, Option, none, some,
  List, arith,
}
use ninerlog_api.Clock.{Instant, sub_date}
use ninerlog_api.Models.{ClassRating, License}
use ninerlog_api.Currency.Types.{current, Progress, ClassRatingCurrency}
use ninerlog_api.Currency.Provider.{FlightDataProvider}
use ninerlog_api.Currency.Engine.{
  metric_val, RatingRule, RatingRuntime, start_runtime, rolling_since, since_rolling,
  fetch_progress, last_proficiency_check, recency_finalize, eval_rating_rule_at,
}
use ninerlog_api.Currency.Engine.Recency.{
  Meets, IsRecency, IsRecency-map, AtLeast, recency_finalize-IsRecency, recency_finalize_mono,
}
use ninerlog_api.Currency.GermanUl.{
  german_ul_rule, german_ul_helicopter_rule, german_ul_gyroplane_rule, german_ul_trike_dulv_rule,
  german_ul_trike_daec_rule, german_ul_powered_paraglider_rule, german_ul_sailplane_rule,
}
use ninerlog_api.Currency.Easa.Recency.{easa_gpl_rule}

-- The eight rules.
pub data RecencyRule : Type 0 where
  ul_three_axis ul_helicopter ul_gyroplane ul_trike_dulv ul_trike_daec : RecencyRule
  ul_powered_paraglider ul_sailplane gpl : RecencyRule

abbrev pub rule_of : RecencyRule → RatingRule
rule_of ul_three_axis = german_ul_rule
rule_of ul_helicopter = german_ul_helicopter_rule
rule_of ul_gyroplane = german_ul_gyroplane_rule
rule_of ul_trike_dulv = german_ul_trike_dulv_rule
rule_of ul_trike_daec = german_ul_trike_daec_rule
rule_of ul_powered_paraglider = german_ul_powered_paraglider_rule
rule_of ul_sailplane = german_ul_sailplane_rule
rule_of gpl = easa_gpl_rule

-- The years that a window reaches back.
abbrev pub window_years : RecencyRule → ℕ
window_years ul_helicopter = 1
window_years ul_sailplane = 1
window_years _ = 2

-- Whether a proficiency check replaces the experience.
abbrev pub admits_check : RecencyRule → Bool
admits_check ul_three_axis = true
admits_check ul_helicopter = true
admits_check ul_gyroplane = true
admits_check gpl = true
admits_check _ = false

-- The experience that each rule asks for, times in minutes.
abbrev pub Experience : RecencyRule → Progress → Type 0
Experience ul_three_axis p =
    (720 ≤ p.total_minutes)
    × (360 ≤ p.pic_minutes)
    × (12 ≤ p.landings)
    × (60 ≤ p.instructor_minutes)
Experience ul_gyroplane p =
    (720 ≤ p.total_minutes)
    × (360 ≤ p.pic_minutes)
    × (12 ≤ p.landings)
    × (60 ≤ p.instructor_minutes)
Experience ul_helicopter p =
    (360 ≤ p.total_minutes) × (6 ≤ p.landings) × (60 ≤ p.instructor_minutes)
Experience ul_trike_dulv p = 720 ≤ p.pic_minutes
Experience ul_trike_daec p = (720 ≤ p.total_minutes) × (12 ≤ p.landings)
Experience ul_powered_paraglider p = 30 ≤ p.landings
Experience ul_sailplane p = 5 ≤ p.landings
Experience gpl p = (720 ≤ p.total_minutes) × (12 ≤ p.landings) × (60 ≤ p.instructor_minutes)

Meets-Experience :
    (k : RecencyRule) (p : Progress) → Meets p (rule_of k).spec.base_reqs ↔ Experience k p
unfolding metric_val german_ul_rule german_ul_helicopter_rule german_ul_gyroplane_rule
    german_ul_trike_dulv_rule german_ul_trike_daec_rule german_ul_powered_paraglider_rule
    german_ul_sailplane_rule easa_gpl_rule
Meets-Experience ul_three_axis p = ground arith
Meets-Experience ul_helicopter p = ground arith
Meets-Experience ul_gyroplane p = ground arith
Meets-Experience ul_trike_dulv p = ground arith
Meets-Experience ul_trike_daec p = ground arith
Meets-Experience ul_powered_paraglider p = ground arith
Meets-Experience ul_sailplane p = ground arith
Meets-Experience gpl p = ground arith

finalize_of : (k : RecencyRule) → (rule_of k).finalize ≡ recency_finalize (admits_check k)
unfolding german_ul_rule german_ul_helicopter_rule german_ul_gyroplane_rule
    german_ul_trike_dulv_rule german_ul_trike_daec_rule german_ul_powered_paraglider_rule
    german_ul_sailplane_rule easa_gpl_rule
finalize_of ul_three_axis = refl
finalize_of ul_helicopter = refl
finalize_of ul_gyroplane = refl
finalize_of ul_trike_dulv = refl
finalize_of ul_trike_daec = refl
finalize_of ul_powered_paraglider = refl
finalize_of ul_sailplane = refl
finalize_of gpl = refl

window_of :
    (k : RecencyRule) (now : Instant)
    → rolling_since (rule_of k).spec.window now ≡ sub_date now (window_years k) 0 0
unfolding german_ul_rule german_ul_helicopter_rule german_ul_gyroplane_rule
    german_ul_trike_dulv_rule german_ul_trike_daec_rule german_ul_powered_paraglider_rule
    german_ul_sailplane_rule easa_gpl_rule rolling_since
window_of ul_three_axis now = refl
window_of ul_helicopter now = refl
window_of ul_gyroplane now = refl
window_of ul_trike_dulv now = refl
window_of ul_trike_daec now = refl
window_of ul_powered_paraglider now = refl
window_of ul_sailplane now = refl
window_of gpl now = refl

module _ (wall : Instant) (k : RecencyRule) (rating : ClassRating) (license : License)
    (peers : List ClassRating) (dp : FlightDataProvider) (now : Instant) where
  -- The runtime with the start of the window, in which the flights are read.
  abbrev pub rolling_runtime : RatingRuntime
  rolling_runtime = record (start_runtime wall (rule_of k).spec rating license peers dp now) {
    since = sub_date now (window_years k) 0 0;
  }

  rolling_runtime_lem :
      since_rolling (start_runtime wall (rule_of k).spec rating license peers dp now)
      ≡ rolling_runtime
  unfolding since_rolling start_runtime
  rolling_runtime_lem =
      ap
        (λ (t : Instant). record (start_runtime wall (rule_of k).spec rating license peers dp now) {
          since = t;
        })
        (window_of k now)

  abbrev pub recency_result : ClassRatingCurrency
  recency_result = eval_rating_rule_at wall (rule_of k) rating license peers dp now

  strategy :
      recency_result
      ≡ recency_finalize
          (admits_check k)
          (start_runtime wall (rule_of k).spec rating license peers dp now)
  unfolding eval_rating_rule_at
  strategy =
      ap
        (λ (f : RatingRuntime → ClassRatingCurrency).
          f (start_runtime wall (rule_of k).spec rating license peers dp now))
        (finalize_of k)

-- The experience of the rule, or the check in its place.
abbrev pub Maintains : RecencyRule → Progress → Option Instant → Type 0
Maintains k p check = Experience k p ⊎ ((admits_check k ≡ true) × (check ≢ none))

maintains :
    (k : RecencyRule) (p : Progress) (check : Option Instant)
    → (Meets p (rule_of k).spec.base_reqs ⊎ ((admits_check k ≡ true) × (check ≢ none)))
      ↔ Maintains k p check
maintains k p check =
    let same = Meets-Experience k p in
    (
      λ h. elim h [ inl m ↦ inl (same.0 m) | inr c ↦ inr c ],
      λ h. elim h [ inl m ↦ inl (same.1 m) | inr c ↦ inr c ],
    )

-- The rules of german_ul.go and the GPL rule, evaluated with the flights read of the last year for
-- ultralight helicopters and sailplanes and of the last 2 years for the others, and, for the
-- three-axis, helicopter, gyroplane and GPL rules, the last proficiency check in that time: the status
-- is current exactly when the flights have the experience that the rule asks for, or one of these
-- four rules found a check; otherwise it is expiring. The experience is 12 hours, 6 hours as PIC, 12
-- landings and 1 hour with an instructor for three-axis ultralights and gyroplanes, 6 hours, 6
-- landings and 1 hour with an instructor for helicopters, 12 hours as PIC for DULV trikes, 12 hours
-- and 12 landings for DAeC trikes, 30 landings for powered paragliders, 5 for ultralight sailplanes,
-- and 12 hours, 12 landings and 1 hour with an instructor for the GPL.
pub eval_rating_rule_at-IsRecency :
    (wall : Instant) (k : RecencyRule) (rating : ClassRating) (license : License)
    (peers : List ClassRating) (dp : FlightDataProvider) (now : Instant) (p : Progress)
    (check : Option Instant)
    → fetch_progress (rolling_runtime wall k rating license peers dp now) ≡ some p
    → (admits_check k ≡ true
        → last_proficiency_check (rolling_runtime wall k rating license peers dp now) ≡ some check)
    → IsRecency
        (eval_rating_rule_at wall (rule_of k) rating license peers dp now).status
        (Maintains k p check)
unfolding start_runtime
eval_rating_rule_at-IsRecency wall k rating license peers dp now p check f c =
    let rt : RatingRuntime = start_runtime wall (rule_of k).spec rating license peers dp now in
    let same = rolling_runtime_lem wall k rating license peers dp now in
    rw (strategy wall k rating license peers dp now) (
      IsRecency-map (recency_finalize (admits_check k) rt).status (maintains k p check) (
        recency_finalize-IsRecency (admits_check k) rt p check (ap fetch_progress same ∙ f)
          (λ w. ap last_proficiency_check same ∙ c w)))

-- More flying never loses a rule of german_ul.go or the GPL rule: a rating that is current with the
-- flights and the check of one provider is current with those of another, read at another time, if
-- they have at least as much of every metric, and a check where there was one.
pub eval_rating_rule_at_mono :
    (wall wall' : Instant) (k : RecencyRule) (rating : ClassRating) (license : License)
    (peers : List ClassRating) (dp dp' : FlightDataProvider) (now now' : Instant) (p q : Progress)
    (check check' : Option Instant)
    → fetch_progress (rolling_runtime wall k rating license peers dp now) ≡ some p
    → (admits_check k ≡ true
        → last_proficiency_check (rolling_runtime wall k rating license peers dp now) ≡ some check)
    → fetch_progress (rolling_runtime wall' k rating license peers dp' now') ≡ some q
    → (admits_check k ≡ true
        → last_proficiency_check (rolling_runtime wall' k rating license peers dp' now')
          ≡ some check')
    → AtLeast p q
    → (check ≢ none → check' ≢ none)
    → (eval_rating_rule_at wall (rule_of k) rating license peers dp now).status ≡ some current
    → (eval_rating_rule_at wall' (rule_of k) rating license peers dp' now').status ≡ some current
unfolding start_runtime
eval_rating_rule_at_mono wall wall' k rating license peers dp dp' now now' p q check check' f c f'
      c' more kept is =
    let start = start_runtime wall (rule_of k).spec rating license peers dp now in
    let start' = start_runtime wall' (rule_of k).spec rating license peers dp' now' in
    let same = rolling_runtime_lem wall k rating license peers dp now in
    let same' = rolling_runtime_lem wall' k rating license peers dp' now' in
    rw (strategy wall' k rating license peers dp' now') (
      recency_finalize_mono (admits_check k) start start' p q check check'
        (ap fetch_progress same ∙ f) (λ w. ap last_proficiency_check same ∙ c w)
        (ap fetch_progress same' ∙ f') (λ w. ap last_proficiency_check same' ∙ c' w) refl more kept
        (ap (λ (r : ClassRatingCurrency). r.status)
            (sym (strategy wall k rating license peers dp now))
          ∙ is))
