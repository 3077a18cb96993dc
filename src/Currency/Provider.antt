-- ===== src/Currency/Provider.antt =====
-- The FlightDataProvider interface of evaluator.go: aggregated flight data, as the engine asks for
-- it. The PostgreSQL implementation is not modelled, so it is a parameter. A failed read is `none`.
-- The fields are the methods of the same names; `as_of` is AsOfProvider (lapse.go), absent where
-- the provider does not implement it.
use ninerlog_api.Base.{ℕ, Bool, Option, none, some, List}
use ninerlog_api.Clock.{Instant}
use ninerlog_api.Models.{ClassType, UlKind}
use ninerlog_api.Currency.Types.{Progress, LaunchMethod}

pub record LandingDay : Type 0 where
  pub date : Instant
  pub day_landings : ℕ
  pub night_landings : ℕ

pub record UlSelector : Type 0 where
  pub kinds : List UlKind
  pub include_unspecified : Bool
  pub min_mtom_kg : ℕ

-- Each method takes the user's id first. GetLaunchCounts is a function of the method, 0 where the
-- map has no entry.
pub record FlightDataProvider : Type 0 where
  pub get_progress_by_aircraft_class : ℕ → List ClassType → Bool → Instant → Option Progress
  pub get_progress_all : ℕ → Instant → Option Progress
  pub get_last_flight_review : ℕ → Option (Option Instant)
  pub get_last_proficiency_check : ℕ → List ClassType → Instant → Option (Option Instant)
  pub get_launch_counts : ℕ → ClassType → Instant → Option (LaunchMethod → ℕ)
  pub get_landing_days_by_aircraft_class :
      ℕ → ClassType → Bool → Bool → Instant → Option (List LandingDay)
  pub get_progress_by_ul_kind : ℕ → UlSelector → Bool → Instant → Option Progress
  pub get_last_proficiency_check_by_ul_kind : ℕ → UlSelector → Instant → Option (Option Instant)
  pub get_landing_days_by_ul_kind : ℕ → UlSelector → Bool → Instant → Option (List LandingDay)

-- The callers that drop the error read the returned pointer, which is nil beside an error.
abbrev pub drop_error : Option (Option Instant) → Option Instant
drop_error none = none
drop_error (some d) = d
