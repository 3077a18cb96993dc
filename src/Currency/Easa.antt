-- ===== src/Currency/Easa.antt =====
-- The EASA evaluator of easa.go, with credited_classes.go and gpl.go.
pub mod Credits
pub mod Revalidation
pub mod Recency
pub mod Sailplane
pub mod SplTmg
pub mod Select
pub mod Decisions
pub mod Windows
