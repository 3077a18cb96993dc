-- ===== src/Lib.antt =====
-- Verification library of the flight log service: the flight record with its calculated fields, and
-- the evaluation of pilot currency.
--
-- The program answers, for each class rating of a pilot's licences, whether its privileges are
-- current under the rules of the licensing authority. A rule (internal/service/currency/engine.go)
-- is data, i.e. requirements, a window and a scope of flights, with a finalize strategy; the files
-- of the authorities (easa.go, gpl.go, other.go, faa.go, german_ul.go) list the rules and select one
-- by class type and licence text. The engine asks a FlightDataProvider for the flights in a window,
-- and the searches of lapse.go and engine.go run a rule again at other days, to find when it was or
-- will be current last. Passenger currency stands beside the ratings (passenger_expiry.go, lapse.go
-- and one evaluator per authority).
--
-- A flight is saved through ApplyAutoCalculations (internal/service/flightcalc), which finds the
-- user's role from the crew list (internal/service/flightrules) and derives the columns from it;
-- ValidateTimeDistribution (internal/models/flight.go) then accepts or rejects the flight. The
-- calculated columns are what the currency rules and the layouts of the logbook read.
--
-- Files:
-- - Base and below: shared tests, lists, integers and text. Text is a list of code points; case
--   mapping is exact below U+0180 and for the Greek and Cyrillic letters, and leaves others as they
--   are.
-- - Clock: instants, days and Go's AddDate. An instant is the number of nanoseconds since year 1.
-- - Models, Models/Expiry, Models/Ultralight: internal/models (class_rating.go, license.go,
--   ultralight.go, expiry.go).
-- - Currency/Types: types.go and messages.go. Currency/Provider: the interface of evaluator.go.
-- - Currency/Engine: engine.go; a RatingRuntime is ratingRuntime, and finalize returns the result
--   that the source writes through rt.result. `wall` is what time.Now() returns, taken to be the
--   same during one evaluation; `now` is the instant evaluated for.
-- - Currency/Engine/Recency: lemmas on recencyFinalize. Currency/Recency: theorems on the rules that
--   use it, those of german_ul.go and gpl.go.
-- - Currency/Easa and below: easa.go, credited_classes.go, gpl.go, other.go. Decisions and Windows
--   hold the theorems on the revalidation rules.
-- - Currency/Faa, Currency/FlightReview: faa.go. Currency/GermanUl: german_ul.go.
-- - Currency/Lapse: lastCurrentDay (lapse.go) and the bisection of recencyLapseDate (engine.go);
--   Search, Forward and Rounds hold their theorems.
-- - Currency/Evaluate: evalRatingRuleWithPeers, recencyLapseDate, ratingLapseDate.
-- - Currency/Pax: passenger_expiry.go and the passenger part of lapse.go; Easa, Faa and GermanUl
--   below it are the three evaluators; Expiry and Lapse hold theorems.
-- - Currency/Service: service.go and the Registry of evaluator.go, filled as in cmd/api/main.go; Loops,
--   Passengers and Complete hold theorems on EvaluateAll; Coverage, Keys and Shown have lemmas.
-- - Flight: the flight record of internal/models/flight.go with its crew (contact.go), IsValid and
--   ValidateTimeDistribution; Validate has lemmas on its tests, and Coherence the theorem.
-- - FlightRules/Names, Roles, Fstd, PicName, LegacyCrew and Remarks: names.go, roles.go, ifr.go and
--   fstd.go with the columns of display.go, the PIC names of display.go, crew.go and remarks.go, in internal/service/flightrules; the modules below them hold theorems.
-- - FlightCalc/Times, Steps and Apply: flightcalc.go, i.e. times of day and instants, the single
--   steps, and ApplyAutoCalculations; the modules below them hold theorems. A step takes a flight to
--   the flight that it leaves. Airports, twilight and distances are the parameter World.
-- - LogbookRules/Terms and Registry: internal/service/logbookrules/rules.go; Deadlines and Assessed
--   hold theorems.
-- - Duration: pkg/duration/duration.go; Digits and RoundTrip hold theorems.
-- - UpdateCheck: internal/updatecheck/semver.go; Antisymmetry holds the theorem.
-- - Witnesses and below: the theorems applied to concrete flights.
--
-- Errors: a failing read of the provider is `none`, and the branches that turn it into an unknown
-- status are written out. The provider itself (SQL in internal/repository/postgres) is a parameter,
-- a record of functions, so a theorem holds for every provider; what a theorem needs of it, e.g.
-- that the flights are read or that landing days come newest first, is a hypothesis.
--
-- Fuel: both searches halve a range of days, by recursion on fuel. The inner loop of
-- lastCurrentDay and the loop of recencyLapseDate get the length of the range, which falls by one at
-- least in each round, so the fuel does not run out. The 64 rounds of the outer loop are the
-- source's own bound. The loop of calculateNightTime goes by minutes, and gets two turns more than
-- the whole minutes of the block time. The printing of a number in decimal gets more turns than it has
-- digits.
--
-- The theorems are on the code, also where a document of the repository asks for something else:
-- docs/PERSONAS.md has other conditions for MEP and IR revalidation (O2, O3) and calendar months for
-- FAA instrument currency (T3), see Currency/Easa/Decisions and Currency/Faa/Decisions.
--
-- Not modelled: SQL, HTTP, authentication, notifications, exports, imports and backups, whose code
-- is input and output; custom rules and logbook services; solar positions, airports and
-- great-circle distances, which are floating-point arithmetic over a data set. Rule texts are
-- constructors, one for each text. Identifiers are numbers.
pub mod Base
pub mod Clock
pub mod Models
pub mod Currency
pub mod Duration
pub mod Flight
pub mod FlightCalc
pub mod FlightRules
pub mod LogbookRules
pub mod UpdateCheck
pub mod Witnesses
