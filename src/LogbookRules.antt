-- ===== src/LogbookRules.antt =====
-- internal/service/logbookrules/rules.go: which authority's rules ask for strict corrections of a
-- logbook, and until when a flight may be edited freely. A window of "" is `none`. A longitude stands
-- as math.Round(lon/15), its whole hours.
pub mod Terms
pub mod Registry
pub mod Deadlines
pub mod Assessed
