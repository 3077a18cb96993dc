-- ===== src/Witnesses/Easa.antt =====
-- The theorems on the EASA revalidation rules, applied to concrete data.
use ninerlog_api.Base.{◌-◌, ◌≤◌, ◌≡◌, refl, ◌≢◌, ◌⊎◌, true, Option, none, some, [], arith}
use ninerlog_api.Clock.{midnight, sub_date}
use ninerlog_api.Models.{sep_land, mep_land, ir, ClassType}
use ninerlog_api.Models.Expiry.{days_until_expiry}
use ninerlog_api.Currency.Engine.{RatingRule, fetch_progress, start_runtime, eval_rating_rule_at}
use ninerlog_api.Currency.Types.{Status}
use ninerlog_api.Currency.Engine.{add_progress, base_result}
use ninerlog_api.Currency.Easa.Windows.{result_of, ReportsNoWindow, open_window_lost}
use ninerlog_api.Currency.Easa.Revalidation.{apply_closed_window}
use ninerlog_api.Currency.Easa.Revalidation.{easa_sep_tmg_rule, easa_mep_set_rule, easa_ir_rule}
use ninerlog_api.Currency.Easa.Decisions.{
  Decides, SepTmgExperience, sep_tmg-Decides, mep_set-Decides, ir-Decides,
}
use ninerlog_api.Witnesses.{today, pilot, rated, flown, logbook, expiry}

abbrev rule_result : RatingRule → ClassType → Option Status
rule_result rule ct =
    (eval_rating_rule_at (midnight today) rule (rated ct) pilot [] (logbook flown)
      (midnight today)).status

sep_tmg-Decides_example :
    Decides
      (days_until_expiry expiry (midnight today))
      (rule_result easa_sep_tmg_rule sep_land)
      (SepTmgExperience flown)
unfolding fetch_progress start_runtime sub_date easa_sep_tmg_rule add_progress
sep_tmg-Decides_example =
    sep_tmg-Decides (midnight today) (rated sep_land) pilot [] (logbook flown) (midnight today)
      expiry flown (record { dated = refl; open_window = omega arith; fetched = refl })

mep_set-Decides_example :
    Decides
      (days_until_expiry expiry (midnight today))
      (rule_result easa_mep_set_rule mep_land)
      (((10 ≤ 15) × (60 ≤ 90)) ⊎ (some (midnight (today - 30)) ≢ none))
unfolding fetch_progress start_runtime sub_date easa_mep_set_rule add_progress
mep_set-Decides_example =
    mep_set-Decides (midnight today) (rated mep_land) pilot [] (logbook flown) (midnight today)
      expiry flown (record { dated = refl; open_window = omega arith; fetched = refl })

ir-Decides_example :
    Decides
      (days_until_expiry expiry (midnight today))
      (rule_result easa_ir_rule ir)
      ((600 ≤ 700) × (some (midnight (today - 30)) ≢ none))
unfolding fetch_progress start_runtime sub_date easa_ir_rule add_progress
ir-Decides_example =
    ir-Decides (midnight today) (rated ir) pilot [] (logbook flown) (midnight today) expiry flown
      (record { dated = refl; open_window = omega arith; fetched = refl })

open_window_lost_example :
    ReportsNoWindow (
      result_of
        (midnight today)
        (rated sep_land)
        pilot
        []
        (logbook flown)
        (midnight today)
        expiry
        easa_sep_tmg_rule)
    × ReportsNoWindow (
        result_of
          (midnight today)
          (rated sep_land)
          pilot
          []
          (logbook flown)
          (midnight today)
          expiry
          easa_mep_set_rule)
    × ReportsNoWindow (
        result_of
          (midnight today)
          (rated sep_land)
          pilot
          []
          (logbook flown)
          (midnight today)
          expiry
          easa_ir_rule)
    × ((apply_closed_window
          (sub_date expiry 1 0 0)
          (midnight today)
          (base_result easa_ir_rule.spec (rated ir) pilot [] none)).0.window_open
        ≡ true)
unfolding sub_date
open_window_lost_example =
    open_window_lost (midnight today) (rated sep_land) pilot [] (logbook flown) (midnight today)
      expiry refl (omega arith) (base_result easa_ir_rule.spec (rated ir) pilot [] none)
