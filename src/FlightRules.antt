-- ===== src/FlightRules.antt =====
-- internal/service/flightrules: who is who on a flight, the user's role, and what a row counts as.
-- models.Flight is `Flight`; a nil *models.Flight, which no modelled caller passes, is left out.
pub mod Names
pub mod Roles
pub mod Fstd
pub mod PicName
pub mod LegacyCrew
pub mod Remarks
use ninerlog_api.Base.{Bool}
