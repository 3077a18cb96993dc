-- ===== src/Clock/Tests.antt =====
-- Runs of the calendar arithmetic on known dates.
use ninerlog_api.Base.{ℕ, ◌+◌, ◌*◌, ◌-◌, ◌≡◌, refl}
use ninerlog_api.Clock.{
  Day, month_day, month_index, month_offset, sub_date, add_date, day_of, midnight,
}

abbrev ymd : ℕ → ℕ → ℕ → Day
ymd y m d = month_day (y * 12 + (m - 1)) (d - 1)

runs :
    (ymd 1970 1 1 ≡ 719162)
    × (day_of (sub_date (midnight (ymd 2024 2 29)) 1 0 0) ≡ ymd 2023 3 1)
    × (day_of (add_date (midnight (ymd 2024 8 31)) 0 6 0) ≡ ymd 2025 3 3)
    × (day_of (sub_date (midnight (ymd 2026 1 15)) 0 6 90) ≡ ymd 2025 4 16)
    × (month_offset (ymd 2000 12 31) ≡ 30)
    × (month_index (ymd 2000 12 31) ≡ 2000 * 12 + 11)
unfolding sub_date add_date
runs = (refl, refl, refl, refl, refl, refl)
