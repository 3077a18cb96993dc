-- ===== src/Currency/Engine/Recency.antt =====
-- What recencyFinalize (engine.go) decides, and that more flying never loses it. Currency/Recency.antt
-- has it for the rules that use it.
use mathlib.Core.Path.{subst}
use ninerlog_api.Base.{
  ◌≤◌, ◌≡◌, refl, sym, ap, ◌∙◌, ◌≢◌, ◌↔◌, ◌⊎◌, inl, inr, Bool, true, false, ◌||◌, Option, none,
  some, List, [], ◌∷◌, ◌++◌, All, arith,
}
use ninerlog_api.Clock.{Instant}
use ninerlog_api.Currency.Types.{
  Status, current, expiring, Progress, Requirement, ClassRatingCurrency,
}
use ninerlog_api.Currency.Engine.{
  Metric, metric_val, ReqSpec, build_reqs, all_reqs_met, RatingRuntime, fetch_progress,
  last_proficiency_check, prof_check_requirement, set_recency_status, recency_checked, recency_with,
  since_rolling, recency_of, recency_finalize,
}

-- The experience that a list of requirements asks for.
abbrev pub Meets : Progress → List ReqSpec → Type 0
Meets p = All (λ s. s.threshold ≤ metric_val p s.metric)

-- All requirements are met exactly when every metric reaches its threshold.
pub all_reqs_met-Meets :
    (p : Progress) (specs : List ReqSpec)
    → (all_reqs_met (build_reqs p specs) ≡ true) ↔ Meets p specs
unfolding all_reqs_met build_reqs
all_reqs_met-Meets p [] = (λ _. tt, λ _. refl)
all_reqs_met-Meets p (s ∷ specs) = ground (arith, all_reqs_met-Meets p specs)

-- A status that recencyFinalize sets: current exactly if the requirement is met, else expiring.
abbrev pub IsRecency : Option Status → Type 0 → Type 0
IsRecency status Met =
    ((status ≡ some current) ↔ Met) × ((status ≡ some current) ⊎ (status ≡ some expiring))

set_recency_status-IsRecency :
    (r : ClassRatingCurrency) (met : Bool)
    → IsRecency (set_recency_status r met).status (met ≡ true)
unfolding set_recency_status
set_recency_status-IsRecency r met = ground arith

pub IsRecency-map :
    (status : Option Status) {Met Met' : Type 0}
    → Met ↔ Met'
    → IsRecency status Met
    → IsRecency status Met'
IsRecency-map status e ((a, b), c) = ((λ h. e.0 (a h), λ h. b (e.1 h)), c)

-- The experience, or the check that replaces it where the rule has one.
abbrev pub RecencyMet : Bool → Progress → List ReqSpec → Option Instant → Type 0
RecencyMet with_check p specs check = Meets p specs ⊎ ((with_check ≡ true) × (check ≢ none))

or_true : (b : Bool) → b || true ≡ true
or_true b = ground arith

checked_met :
    (p : Progress) (specs : List ReqSpec) (check : Option Instant)
    → (all_reqs_met (build_reqs p specs) || (prof_check_requirement check).met ≡ true)
      ↔ RecencyMet true p specs check
unfolding prof_check_requirement
checked_met p specs none = grind (arith, all_reqs_met-Meets p specs)
checked_met p specs (some d) =
    (λ _. inr (refl, λ e. cc), λ _. or_true (all_reqs_met (build_reqs p specs)))

unchecked_met :
    (p : Progress) (specs : List ReqSpec) (check : Option Instant)
    → (all_reqs_met (build_reqs p specs) ≡ true) ↔ RecencyMet false p specs check
unchecked_met p specs check = grind (arith, all_reqs_met-Meets p specs)

recency_checked-IsRecency :
    (r : ClassRatingCurrency) (p : Progress) (specs : List ReqSpec) (check : Option Instant)
    → IsRecency
        (recency_checked r (build_reqs p specs) (some check)).status
        (RecencyMet true p specs check)
unfolding recency_checked
recency_checked-IsRecency r p specs check =
    let reqs : List Requirement = build_reqs p specs in
    let listed : ClassRatingCurrency = record r {
      requirements = reqs ++ prof_check_requirement check ∷ [];
    } in
    let met : Bool = all_reqs_met reqs || (prof_check_requirement check).met in
    IsRecency-map (set_recency_status listed met).status (checked_met p specs check)
      (set_recency_status-IsRecency listed met)

recency_unchecked-IsRecency :
    (rt : RatingRuntime) (p : Progress) (check : Option Instant)
    → IsRecency (recency_with false rt p).status (RecencyMet false p rt.rule.base_reqs check)
unfolding recency_with
recency_unchecked-IsRecency rt p check =
    let reqs : List Requirement = build_reqs p rt.rule.base_reqs in
    let listed : ClassRatingCurrency = record rt.result {
      progress = some p;
      requirements = reqs;
    } in
    IsRecency-map (set_recency_status listed (all_reqs_met reqs)).status
      (unchecked_met p rt.rule.base_reqs check)
      (set_recency_status-IsRecency listed (all_reqs_met reqs))

-- recencyFinalize, with the flights and, where it asks for one, the check read.
pub recency_finalize-IsRecency :
    (with_check : Bool) (rt : RatingRuntime) (p : Progress) (check : Option Instant)
    → fetch_progress (since_rolling rt) ≡ some p
    → (with_check ≡ true → last_proficiency_check (since_rolling rt) ≡ some check)
    → IsRecency
        (recency_finalize with_check rt).status
        (RecencyMet with_check p rt.rule.base_reqs check)
unfolding recency_finalize
recency_finalize-IsRecency true rt p check f c =
    let rt' : RatingRuntime = since_rolling rt in
    let reqs : List Requirement = build_reqs p rt.rule.base_reqs in
    let result : ClassRatingCurrency = record rt.result { progress = some p } in
    let e : recency_finalize true rt ≡ recency_checked result reqs (some check) =
      ap (recency_of true rt') f ∙ ap (recency_checked result reqs) (c refl) in
    subst
      (λ (r : ClassRatingCurrency). IsRecency r.status (RecencyMet true p rt.rule.base_reqs check))
      (sym e) (recency_checked-IsRecency result p rt.rule.base_reqs check)
recency_finalize-IsRecency false rt p check f c =
    subst
      (λ (r : ClassRatingCurrency). IsRecency r.status (RecencyMet false p rt.rule.base_reqs check))
      (sym (ap (recency_of false (since_rolling rt)) f))
      (recency_unchecked-IsRecency (since_rolling rt) p check)

-- `q` has at least the flying of `p`.
pub record AtLeast (p q : Progress) : Type 0 where
  pub every_metric : (m : Metric) → metric_val p m ≤ metric_val q m

Meets-AtLeast :
    (p q : Progress) (specs : List ReqSpec) → AtLeast p q → Meets p specs → Meets q specs
Meets-AtLeast p q [] h m = tt
Meets-AtLeast p q (s ∷ specs) h m =
    (omega (arith, h.every_metric s.metric), Meets-AtLeast p q specs h m.1)

-- At least as much of every metric, and a check where there was one, keep it current.
pub recency_finalize_mono :
    (with_check : Bool) (rt rt' : RatingRuntime) (p q : Progress) (check check' : Option Instant)
    → fetch_progress (since_rolling rt) ≡ some p
    → (with_check ≡ true → last_proficiency_check (since_rolling rt) ≡ some check)
    → fetch_progress (since_rolling rt') ≡ some q
    → (with_check ≡ true → last_proficiency_check (since_rolling rt') ≡ some check')
    → rt.rule.base_reqs ≡ rt'.rule.base_reqs
    → AtLeast p q
    → (check ≢ none → check' ≢ none)
    → (recency_finalize with_check rt).status ≡ some current
    → (recency_finalize with_check rt').status ≡ some current
recency_finalize_mono with_check rt rt' p q check check' f c f' c' same more kept is =
    let before = recency_finalize-IsRecency with_check rt p check f c in
    let after = recency_finalize-IsRecency with_check rt' q check' f' c' in
    after.0.1 (elim (before.0.0 is) [
      | inl m ↦ inl (subst (Meets q) same (Meets-AtLeast p q rt.rule.base_reqs more m))
      | inr (w, k) ↦ inr (w, kept k)
    ])
