-- ===== src/Currency/Pax/FaaStatuses.antt =====
-- The statuses of the FAA passenger evaluation, which asks for three landings at night.
use ninerlog_api.Base.{ℕ, Bool, false, Option, some, List, leb, if◌then◌else◌}
use ninerlog_api.Base.Text.{codes, text_eq, to_upper}
use ninerlog_api.Clock.{Instant}
use ninerlog_api.Models.{ClassType, License}
use ninerlog_api.Currency.Types.{Status, current, expired, unknown, PassengerCurrency}
use ninerlog_api.Currency.Provider.{LandingDay, FlightDataProvider}
use ninerlog_api.Currency.Engine.{include_towed_flights}
use ninerlog_api.Currency.Pax.Faa.{faa_evaluate_passenger_currency}

-- The night status that the summary sets.
abbrev night_of : Bool → ℕ → Option Status
night_of has_night nights =
    if has_night then some (if leb 3 nights then current else expired) else some unknown

module _ (requested : Bool) (wall : Instant) (ct : ClassType) (license : License)
    (dp : FlightDataProvider) where
  abbrev pub faa_fetch : Instant → Option (List LandingDay)
  faa_fetch =
      dp.get_landing_days_by_aircraft_class license.user_id ct
        (include_towed_flights ct (text_eq (to_upper license.license_type) (codes "GLIDER"))) false

  abbrev pub faa_pax : PassengerCurrency
  faa_pax = faa_evaluate_passenger_currency requested wall ct license dp
