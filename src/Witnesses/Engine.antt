-- ===== src/Witnesses/Engine.antt =====
-- The theorems on the engine (engine.go), applied to concrete data.
use ninerlog_api.Base.{◌+◌, ◌-◌, ◌≤◌, ◌≡◌, refl, none, some, [], arith, leb}
use ninerlog_api.Clock.{midnight}
use ninerlog_api.Currency.Types.{current, no_progress}
use ninerlog_api.Currency.Provider.{FlightDataProvider}
use ninerlog_api.Currency.Engine.{
  fetch_progress, last_proficiency_check, start_runtime, since_rolling, eval_rating_rule_at,
  recency_finalize,
}
use ninerlog_api.Currency.Engine.Recency.{IsRecency}
use ninerlog_api.Currency.Recency.{
  gpl, rule_of, Maintains, eval_rating_rule_at-IsRecency, eval_rating_rule_at_mono,
}
use ninerlog_api.Currency.Engine.{
  add_progress, Metric, metric_val, m_total_minutes, m_pic_minutes, m_ifr_minutes,
  m_instructor_minutes, m_landings, m_night_landings, m_flights, m_approaches, m_holds,
  m_pic_or_dual_minutes, m_launches, m_training_flights, m_longest_training_flight,
}
use ninerlog_api.Currency.Easa.Recency.{easa_gpl_rule}
use ninerlog_api.Currency.Lapse.{last_current_offset}
use ninerlog_api.Base.{false}
use ninerlog_api.Models.{glider, gyro}
use ninerlog_api.Base.{if◌then◌else◌}
use ninerlog_api.Currency.Engine.{is_rolling}
use ninerlog_api.Currency.Evaluate.{window_span, recency_lapse_date, eval_rating_rule_with_peers}
use ninerlog_api.Currency.Evaluate.Dates.{
  IsLastCurrent, status_at, recency_expires_on-IsLastCurrent,
}
use ninerlog_api.Currency.Faa.{faa_glider_rule}
use ninerlog_api.Currency.Lapse.Forward.{OffsetAnswers, last_current_offset-OffsetAnswers}
use ninerlog_api.Witnesses.{today, pilot, rated, flown, flown_more, logbook}

eval_rating_rule_at-IsRecency_example :
    IsRecency
      (eval_rating_rule_at
        (midnight today)
        (rule_of gpl)
        (rated gyro)
        pilot
        []
        (logbook flown)
        (midnight today)).status
      (Maintains gpl flown (some (midnight (today - 30))))
unfolding fetch_progress last_proficiency_check start_runtime easa_gpl_rule add_progress
    since_rolling
eval_rating_rule_at-IsRecency_example =
    eval_rating_rule_at-IsRecency (midnight today) gpl (rated gyro) pilot [] (logbook flown)
      (midnight today) flown (some (midnight (today - 30))) refl (λ h. refl)

flown_less : (m : Metric) → metric_val flown m ≤ metric_val flown_more m
unfolding metric_val
flown_less m_total_minutes = omega arith
flown_less m_pic_minutes = omega arith
flown_less m_ifr_minutes = omega arith
flown_less m_instructor_minutes = omega arith
flown_less m_landings = omega arith
flown_less m_night_landings = omega arith
flown_less m_flights = omega arith
flown_less m_approaches = omega arith
flown_less m_holds = omega arith
flown_less m_pic_or_dual_minutes = omega arith
flown_less m_launches = omega arith
flown_less m_training_flights = omega arith
flown_less m_longest_training_flight = omega arith

eval_rating_rule_at_mono_example :
    (eval_rating_rule_at
      (midnight (today + 3))
      (rule_of gpl)
      (rated gyro)
      pilot
      []
      (logbook flown_more)
      (midnight (today + 3))).status
    ≡ some current
unfolding fetch_progress last_proficiency_check start_runtime easa_gpl_rule add_progress
    since_rolling recency_finalize eval_rating_rule_at
eval_rating_rule_at_mono_example =
    eval_rating_rule_at_mono (midnight today) (midnight (today + 3)) gpl (rated gyro) pilot []
      (logbook flown) (logbook flown_more) (midnight today) (midnight (today + 3)) flown flown_more
      (some (midnight (today - 30))) (some (midnight (today - 30))) refl (λ h. refl) refl
      (λ h. refl) (record { every_metric = flown_less }) (λ h. h) refl

last_current_offset-OffsetAnswers_example : OffsetAnswers (λ n. leb n 12) 90 (some 12)
unfolding last_current_offset
last_current_offset-OffsetAnswers_example = last_current_offset-OffsetAnswers (λ n. leb n 12) 90

-- Flights that are all 90 days old in 40 days: current until then.
abbrev fading : FlightDataProvider
fading = record (logbook flown) {
  get_progress_by_aircraft_class = λ user classes towed since.
      if leb since (midnight (today - 50)) then some flown else some no_progress;
}

recency_expires_on-IsLastCurrent_example :
    IsLastCurrent
      (status_at (midnight today) faa_glider_rule (rated glider) pilot [] fading)
      today
      (window_span faa_glider_rule.spec.window today)
      (today + 40)
unfolding faa_glider_rule eval_rating_rule_with_peers eval_rating_rule_at start_runtime
    fetch_progress add_progress since_rolling recency_lapse_date last_current_offset is_rolling
recency_expires_on-IsLastCurrent_example =
    recency_expires_on-IsLastCurrent (midnight today) faa_glider_rule (rated glider) pilot [] fading
      false none (today + 40) refl refl refl
