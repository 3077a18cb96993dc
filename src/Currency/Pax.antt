-- ===== src/Currency/Pax.antt =====
-- Passenger currency: the window and the expiry date of passenger_expiry.go, and the lapse date of
-- lapse.go.
pub mod Easa
pub mod Faa
pub mod GermanUl
pub mod Expiry
pub mod Lapse
pub mod Statuses
pub mod FaaStatuses
use ninerlog_api.Base.{
  ℕ, ◌+◌, ◌-◌, ◌*◌, Bool, true, false, not, ◌&&◌, ◌||◌, Option, none, some, List, [], ◌∷◌, leb, ltb,
  ◌==◌, if◌then◌else◌,
}
use ninerlog_api.Clock.{Instant, midnight_of, Day, day_of, day_ns, midnight, before, after}
use ninerlog_api.Models.{ir, class_eq, ClassRating}
use ninerlog_api.Currency.Types.{Status, expired, PassengerCurrency}
use ninerlog_api.Currency.Provider.{LandingDay}
use ninerlog_api.Currency.Lapse.{lapse_search_floor, last_current_day, lapse_after}

abbrev pub pax_window_days : ℕ
pax_window_days = 90

unfoldable pub pax_window_start : Instant → Instant
pax_window_start now = midnight (day_of now - pax_window_days)

abbrev pub all_landings : LandingDay → ℕ
all_landings d = d.day_landings + d.night_landings

abbrev pub night_count : LandingDay → ℕ
night_count d = d.night_landings

-- The landings, and those at night.
unfoldable pub pax_totals : List LandingDay → ℕ × ℕ
pax_totals [] = (0, 0)
pax_totals (d ∷ days) =
    let (landings, night) = pax_totals days in (all_landings d + landings, night_count d + night)

-- The loop of paxExpiryDate, with the total so far.
expiry_from : ℕ → (LandingDay → ℕ) → ℕ → List LandingDay → Option Instant
expiry_from required count total [] = none
expiry_from required count total (d ∷ days) =
    let rest = expiry_from required count (total + count d) days in
    if leb required (total + count d) then some (d.date + pax_window_days * day_ns) else rest

unfoldable pub pax_expiry_date : List LandingDay → ℕ → (LandingDay → ℕ) → Option Instant
unfolding expiry_from
pax_expiry_date days required count =
    if required == 0 then none else expiry_from required count 0 days

-- The loop of paxLapseDate: the landings from `start` on and up to `until`, newest date first.
unfoldable pub window_total : (LandingDay → ℕ) → Instant → Instant → List LandingDay → ℕ
window_total count start until [] = 0
window_total count start until (d ∷ history) =
    let rest = window_total count start until history in
    if after d.date until then rest else if before d.date start then 0 else count d + rest

abbrev waived : Option Instant → Day → Bool
waived none day = false
waived (some waiver) day = leb day (day_of waiver)

unfoldable pub pax_met_at :
    List LandingDay → ℕ → (LandingDay → ℕ) → Option Instant → Day → Day → Bool
unfolding window_total
pax_met_at history required count waiver day until =
    waived waiver day
    || leb required (window_total count (midnight (day - pax_window_days)) (midnight until) history)

unfoldable pub pax_lapse_date :
    List LandingDay → ℕ → (LandingDay → ℕ) → Option Instant → Instant → Option Day
unfolding pax_met_at last_current_day
pax_lapse_date history required count waiver today =
    if required == 0
    then none
    else elim (last_current_day (day_of today) lapse_search_floor
        (λ day until. some (pax_met_at history required count waiver day until))) [
          | none ↦ none
          | some last ↦ lapse_after last
        ]

abbrev pub is_expired : Option Status → Bool
is_expired (some expired) = true
is_expired _ = false

unfoldable pub fill_pax_lapse_dates :
    (requested : Bool)
    → PassengerCurrency
    → (Instant → Option (List LandingDay))
    → Option Instant
    → Instant
    → PassengerCurrency
unfolding pax_lapse_date
fill_pax_lapse_dates requested result fetch waiver now =
    let need_day = is_expired result.day_status in
    let need_night = result.night_privilege && is_expired result.night_status in
    if not requested
    then result
    else if not need_day && not need_night
    then result
    else elim (fetch (midnight lapse_search_floor)) [
      | none ↦ record result { lapse_unknown = true }
      | some history ↦ record result {
        day_lapsed_on =
            if need_day
            then midnight_of (pax_lapse_date history result.day_required all_landings none now)
            else result.day_lapsed_on;
        night_lapsed_on =
            if need_night
            then midnight_of (pax_lapse_date history result.night_required night_count waiver now)
            else result.night_lapsed_on;
      }
    ]

later_date : Option Instant → Instant → Instant
later_date none t = t
later_date (some l) t = if after t l then t else l

-- The loop of latestIRExpiry, with the latest date so far.
latest_from : Option Instant → List ClassRating → Option Instant
unfolding later_date
latest_from latest [] = latest
latest_from latest (r ∷ ratings) =
    latest_from
      (if class_eq r.class_type ir
        then elim r.expiry_date [ none ↦ latest | some t ↦ some (later_date latest t) ]
        else latest)
      ratings

unfoldable pub latest_ir_expiry : List ClassRating → Option Instant
unfolding latest_from
latest_ir_expiry ratings = latest_from none ratings
