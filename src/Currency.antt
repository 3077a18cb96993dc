-- ===== src/Currency.antt =====
-- The currency engine of internal/service/currency.
pub mod Types
pub mod Provider
pub mod Engine
pub mod Easa
pub mod Faa
pub mod Lapse
pub mod Evaluate
pub mod GermanUl
pub mod Recency
pub mod Pax
pub mod FlightReview
pub mod Service
