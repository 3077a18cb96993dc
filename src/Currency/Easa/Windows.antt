-- ===== src/Currency/Easa/Windows.antt =====
-- The window fields of the revalidation rules: what applyClosedWindow fills in, and what is left of
-- it on the result.
use ninerlog_api.Base.{
  ◌≤◌, ◌≡◌, refl, sym, Bool, true, false, Option, none, some, arith, if◌then◌else◌,
}
use ninerlog_api.Clock.{Instant, sub_date}
use ninerlog_api.Models.{ClassRating, License}
use ninerlog_api.Base.{List}
use mathlib.Core.Path.{subst}
use ninerlog_api.Currency.Types.{MsgKey, Requirement, Progress, ClassRatingCurrency}
use ninerlog_api.Currency.Provider.{FlightDataProvider}
use ninerlog_api.Currency.Engine.{RatingRuntime, RatingRule, start_runtime, eval_rating_rule_at}
use ninerlog_api.Currency.Easa.Revalidation.{
  apply_closed_window, decide_read, in_window_of, in_window, conclude_revalidation, sep_tmg_decide,
  easa_sep_tmg_rule, mep_set_decide, easa_mep_set_rule, ir_decide, easa_ir_rule,
}

abbrev Decision : Type 0
Decision = RatingRuntime → Instant → Progress → ClassRatingCurrency

-- A result without the window fields.
record IsUndated (r : ClassRatingCurrency) : Type 0 where
  no_flag : r.window_open ≡ false
  no_date : r.window_opens_at ≡ none

abbrev KeepsUndated : Decision → Type 0
KeepsUndated decide =
    (rt : RatingRuntime) (expiry : Instant) (p : Progress)
    → IsUndated rt.result
    → IsUndated (decide rt expiry p)

conclude_revalidation-IsUndated :
    (rt : RatingRuntime) (expiry : Instant) (all_met : Bool) (m : MsgKey) (reqs : List Requirement)
    → IsUndated rt.result
    → IsUndated
        (conclude_revalidation rt expiry all_met m (record rt.result { requirements = reqs }))
unfolding conclude_revalidation
conclude_revalidation-IsUndated rt expiry all_met m reqs h = ground arith

sep_tmg_decide-KeepsUndated : KeepsUndated sep_tmg_decide
unfolding sep_tmg_decide
sep_tmg_decide-KeepsUndated rt expiry p h = conclude_revalidation-IsUndated rt expiry _ _ _ h

mep_set_decide-KeepsUndated : KeepsUndated mep_set_decide
unfolding mep_set_decide
mep_set_decide-KeepsUndated rt expiry p h = conclude_revalidation-IsUndated rt expiry _ _ _ h

ir_decide-KeepsUndated : KeepsUndated ir_decide
unfolding ir_decide
ir_decide-KeepsUndated rt expiry p h = conclude_revalidation-IsUndated rt expiry _ _ _ h

decide_read-IsUndated :
    (decide : Decision)
    → KeepsUndated decide
    → (rt : RatingRuntime) (expiry : Instant) (o : Option Progress) → IsUndated rt.result
    → IsUndated (decide_read decide rt expiry o)
unfolding decide_read
decide_read-IsUndated decide keeps rt expiry none h = record {
  no_flag = h.no_flag;
  no_date = h.no_date;
}
decide_read-IsUndated decide keeps rt expiry (some p) h =
    keeps (record rt { result = record rt.result { progress = some p } }) expiry p
      (record { no_flag = h.no_flag; no_date = h.no_date })

branch_open :
    (a b : ClassRatingCurrency) (since wall : Instant) (r : ClassRatingCurrency)
    → since ≤ wall
    → b ≡ (if (apply_closed_window since wall r).1 then a else b)
unfolding apply_closed_window
branch_open a b since wall r h = ground arith

in_window-IsUndated :
    (decide : Decision)
    → KeepsUndated decide
    → (rt : RatingRuntime) (expiry : Instant) → rt.rating.expiry_date ≡ some expiry
    → sub_date expiry 1 0 0 ≤ rt.wall
    → IsUndated rt.result
    → IsUndated (in_window decide rt)
unfolding in_window
in_window-IsUndated decide keeps rt expiry e w h =
    subst (λ o. IsUndated (in_window_of decide rt o)) (sym e)
      (subst IsUndated (branch_open _ _ (sub_date expiry 1 0 0) rt.wall rt.result w) (
        decide_read-IsUndated decide keeps (record rt { since = sub_date expiry 1 0 0 }) expiry _
          h))

flag_set :
    (since wall : Instant) (r : ClassRatingCurrency)
    → since ≤ wall
    → (apply_closed_window since wall r).0.window_open ≡ true
unfolding apply_closed_window
flag_set since wall r h = ground arith

abbrev pub ReportsNoWindow : ClassRatingCurrency → Type 0
ReportsNoWindow r = (r.window_open ≡ false) × (r.window_opens_at ≡ none)

module _ (wall : Instant) (rating : ClassRating) (license : License) (peers : List ClassRating)
    (dp : FlightDataProvider) (now expiry : Instant) where
  abbrev pub result_of : RatingRule → ClassRatingCurrency
  result_of rule = eval_rating_rule_at wall rule rating license peers dp now

  -- From a year before the expiry date on, none of the three revalidation rules reports the window:
  -- the flag is false and the date is absent, though applyClosedWindow sets the flag on its copy of
  -- any result.
  pub open_window_lost :
      rating.expiry_date ≡ some expiry
      → sub_date expiry 1 0 0 ≤ wall
      → (r : ClassRatingCurrency)
      → ReportsNoWindow (result_of easa_sep_tmg_rule)
        × ReportsNoWindow (result_of easa_mep_set_rule)
        × ReportsNoWindow (result_of easa_ir_rule)
        × ((apply_closed_window (sub_date expiry 1 0 0) wall r).0.window_open ≡ true)
  unfolding eval_rating_rule_at easa_sep_tmg_rule easa_mep_set_rule easa_ir_rule
  open_window_lost e w r =
      let start = λ (rule : RatingRule). start_runtime wall rule.spec rating license peers dp now in
      let blank = λ (decide : Decision) (keeps : KeepsUndated decide) (rule : RatingRule).
        in_window-IsUndated decide keeps (start rule) expiry e w
          (record { no_flag = refl; no_date = refl }) in
      let a = blank sep_tmg_decide sep_tmg_decide-KeepsUndated easa_sep_tmg_rule in
      let b = blank mep_set_decide mep_set_decide-KeepsUndated easa_mep_set_rule in
      let c = blank ir_decide ir_decide-KeepsUndated easa_ir_rule in
      ((a.no_flag, a.no_date), (b.no_flag, b.no_date), (c.no_flag, c.no_date), flag_set _ wall r w)
