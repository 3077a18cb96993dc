-- ===== src/Witnesses/Pax.antt =====
-- The theorems on passenger currency and its lapse dates, applied to concrete data.
use ninerlog_api.Base.{◌-◌, ◌≤◌, ◌≡◌, refl, ◌↔◌, ◌⊎◌, true, none, some, [], arith}
use ninerlog_api.Clock.{Instant, midnight}
use ninerlog_api.Models.{sep_land}
use ninerlog_api.Currency.Pax.{pax_lapse_date}
use ninerlog_api.Currency.Pax.Lapse.{
  LapseAnswers, days_until, pax_met_at-IsMonotone, pax_lapse_date-LapseAnswers,
}
use ninerlog_api.Currency.Lapse.Rounds.{Answers, last_current_day-Answers}
use ninerlog_api.Currency.Lapse.{last_current_day, lapse_search_floor, max_lapse_search_rounds}
use ninerlog_api.Currency.Pax.{pax_totals}
use ninerlog_api.Currency.Pax.Easa.{easa_night_privilege, has_valid_ir_rating, gpl_shortfall}
use ninerlog_api.Currency.Pax.Statuses.{DaySays, NightSays, easa_pax, easa_pax_lem}
use ninerlog_api.Currency.Pax.{all_landings, pax_met_at, pax_expiry_date}
use ninerlog_api.Currency.Pax.Expiry.{pax_expiry_date-pax_met_at}
use ninerlog_api.Witnesses.{today, pilot, flown, landed, logbook}

pax_expiry_date-pax_met_at_example :
    (pax_met_at landed 3 all_landings none today today ≡ true)
    ↔ ((t : Instant) × ((pax_expiry_date landed 3 all_landings ≡ some t) × (midnight today ≤ t)))
pax_expiry_date-pax_met_at_example =
    pax_expiry_date-pax_met_at landed 3 all_landings today today (omega arith) (omega arith)
      (omega arith, (tt, tt)) (omega arith, (omega arith, tt))

pax_lapse_date-LapseAnswers_example :
    LapseAnswers landed 3 all_landings none today
      (pax_lapse_date landed 3 all_landings none (midnight today))
pax_lapse_date-LapseAnswers_example =
    pax_lapse_date-LapseAnswers landed 3 all_landings none (midnight today) (omega arith, (tt, tt))
      (omega arith)

last_current_day-Answers_example :
    Answers
      (pax_met_at landed 3 all_landings none)
      (λ until. days_until (midnight until) landed)
      lapse_search_floor
      max_lapse_search_rounds
      (today - 1)
      (last_current_day today lapse_search_floor
        (λ d u. some (pax_met_at landed 3 all_landings none d u)))
last_current_day-Answers_example =
    last_current_day-Answers
      (pax_met_at-IsMonotone landed 3 all_landings none (omega arith, (tt, tt))) today

easa_pax_lem_example :
    DaySays (easa_pax true (midnight today) sep_land pilot [] (logbook flown)) 4 0
    × NightSays
        (easa_pax true (midnight today) sep_land pilot [] (logbook flown)).night_status
        (easa_night_privilege sep_land pilot)
        ((has_valid_ir_rating [] (midnight today) ≡ true) ⊎ (1 ≤ 1))
unfolding pax_totals gpl_shortfall
easa_pax_lem_example =
    easa_pax_lem true (midnight today) sep_land pilot [] (logbook flown) landed 0 refl refl
