-- ===== src/FlightCalc.antt =====
-- internal/service/flightcalc: the fields of a flight that are calculated when it is saved.
pub mod Times
pub mod Steps
pub mod Apply
