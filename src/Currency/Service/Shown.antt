-- ===== src/Currency/Service/Shown.antt =====
-- The class, ultralight kind and authority that a passenger result shows (easa.go, faa.go,
-- german_ul.go), for the passenger key of service.go.
use ninerlog_api.Base.{
  ◌≡◌, refl, sym, ℕ, Bool, true, Bool-cases, inl, inr, Option, none, some, List, arith, ltb,
  if◌then◌else◌,
}
use ninerlog_api.Base.Text.{Text, codes}
use ninerlog_api.Clock.{Instant}
use ninerlog_api.Models.{ClassType, ul, class_eq, UlKind, sailplane, kind_eq, ClassRating, License}
use ninerlog_api.Models.Ultralight.{aircraft_kinds_for_rating}
use ninerlog_api.Currency.Types.{PassengerCurrency}
use ninerlog_api.Currency.Provider.{LandingDay, FlightDataProvider}
use ninerlog_api.Currency.Pax.{fill_pax_lapse_dates, latest_ir_expiry}
use ninerlog_api.Currency.Engine.{include_towed_flights}
use ninerlog_api.Currency.Easa.Select.{is_easa_sailplane}
use ninerlog_api.Currency.GermanUl.{rating_ul_kind}
use ninerlog_api.Currency.Service.Keys.{class_eq-eq}
use ninerlog_api.Currency.Pax.Easa.{
  pic_only, easa_night_privilege, has_valid_ir_rating, gpl_shortfall, easa_pax_base,
  easa_pax_statuses, apply_shortfall, easa_pax_summary, pax_failed,
  easa_evaluate_passenger_currency,
}
use ninerlog_api.Currency.Pax.Faa.{
  faa_pax_base, faa_pax_statuses, faa_pax_summary, faa_evaluate_passenger_currency,
}
use ninerlog_api.Currency.Pax.GermanUl.{
  ul_pax_base, ul_pax_statuses, ul_evaluate_rating_passenger_currency,
}

-- Whose result it is.
pub record Shows (ct : ClassType) (kind : Option UlKind) (authority : Text) (r : PassengerCurrency)
    : Type 0 where
  pub of_class : r.class_type ≡ ct
  pub of_kind : r.ul_kind ≡ kind
  pub of_authority : r.regulatory_authority ≡ authority

module _ (ct : ClassType) (kind : Option UlKind) (authority : Text) where
  fill_pax_lapse_dates-Shows :
      (requested : Bool) (r : PassengerCurrency) (fetch : Instant → Option (List LandingDay))
      (waiver : Option Instant) (now : Instant)
      → Shows ct kind authority r
      → Shows ct kind authority (fill_pax_lapse_dates requested r fetch waiver now)
  unfolding fill_pax_lapse_dates
  fill_pax_lapse_dates-Shows requested r fetch waiver now h = ground arith

  easa_pax_summary-Shows :
      (night valid_ir : Bool) (shortfall : ℕ) (r : PassengerCurrency)
      → Shows ct kind authority r
      → Shows ct kind authority (easa_pax_summary night valid_ir shortfall r)
  unfolding easa_pax_summary
  easa_pax_summary-Shows night valid_ir shortfall r h = ground arith

  faa_pax_summary-Shows :
      (night : Bool) (r : PassengerCurrency)
      → Shows ct kind authority r
      → Shows ct kind authority (faa_pax_summary night r)
  unfolding faa_pax_summary
  faa_pax_summary-Shows night r h = ground arith

  ul_pax_statuses-Shows :
      (r : PassengerCurrency) (days : List LandingDay)
      → Shows ct kind authority r
      → Shows ct kind authority (ul_pax_statuses r days)
  unfolding ul_pax_statuses
  ul_pax_statuses-Shows r days h = ground arith

  easa_pax_statuses-Shows :
      (night valid_ir : Bool) (r : PassengerCurrency) (days : List LandingDay)
      → Shows ct kind authority r
      → Shows ct kind authority (easa_pax_statuses night valid_ir r days)
  unfolding easa_pax_statuses
  easa_pax_statuses-Shows night valid_ir r days h = ground arith

  faa_pax_statuses-Shows :
      (night : Bool) (r : PassengerCurrency) (days : List LandingDay)
      → Shows ct kind authority r
      → Shows ct kind authority (faa_pax_statuses night r days)
  unfolding faa_pax_statuses
  faa_pax_statuses-Shows night r days h = ground arith

  apply_shortfall-Shows :
      (shortfall : ℕ) (r : PassengerCurrency)
      → Shows ct kind authority r
      → Shows ct kind authority (apply_shortfall shortfall r)
  unfolding apply_shortfall
  apply_shortfall-Shows shortfall r h = ground arith

  failed-Shows :
      (r : PassengerCurrency) → Shows ct kind authority r → Shows ct kind authority (pax_failed r)
  failed-Shows r h = record {
    of_class = h.of_class;
    of_kind = h.of_kind;
    of_authority = h.of_authority;
  }

  -- What is read, or an error.
  fetched_or_not :
      {A : Type 0} (o : Option A) (failed : PassengerCurrency) (f : A → PassengerCurrency)
      → Shows ct kind authority failed
      → ((x : A) → Shows ct kind authority (f x))
      → Shows ct kind authority (elim o [ none ↦ failed | some x ↦ f x ])
  fetched_or_not none failed f h k = h
  fetched_or_not (some x) failed f h k = k x

  cleared-Shows :
      (b : Bool) (r : PassengerCurrency)
      → Shows ct kind authority r
      → Shows ct kind authority (if b then record r { day_lapsed_on = none } else r)
  cleared-Shows b r h = ground arith

-- The EASA result shows the class and the licence's authority.
pub easa-Shows :
    (requested : Bool) (wall : Instant) (ct : ClassType) (license : License)
    (peers : List ClassRating) (dp : FlightDataProvider)
    → Shows ct none license.regulatory_authority
        (easa_evaluate_passenger_currency requested wall ct license peers dp)
unfolding easa_evaluate_passenger_currency easa_pax_base
easa-Shows requested wall ct license peers dp =
    let auth = license.regulatory_authority in
    let night = easa_night_privilege ct license in
    let valid_ir = has_valid_ir_rating peers wall in
    let base = easa_pax_base night valid_ir ct license in
    let blank : Shows ct none auth base = record {
      of_class = refl;
      of_kind = refl;
      of_authority = refl;
    } in
    fetched_or_not ct none auth _ _ _ (failed-Shows ct none auth base blank) (λ days.
      let counted = easa_pax_statuses night valid_ir base days in
      let counts = easa_pax_statuses-Shows ct none auth night valid_ir base days blank in
      fetched_or_not ct none auth (gpl_shortfall dp ct license) _ _
        (failed-Shows ct none auth counted counts)
        (λ shortfall. easa_pax_summary-Shows ct none auth night valid_ir shortfall _ (
          cleared-Shows ct none auth (ltb 0 shortfall) _ (
            fill_pax_lapse_dates-Shows ct none auth requested (apply_shortfall shortfall counted)
              (dp.get_landing_days_by_aircraft_class license.user_id ct
                (include_towed_flights ct (is_easa_sailplane license.license_type))
                (pic_only ct license))
              (latest_ir_expiry peers) wall
              (apply_shortfall-Shows ct none auth shortfall counted counts)))))

pub faa-Shows :
    (requested : Bool) (wall : Instant) (ct : ClassType) (license : License)
    (dp : FlightDataProvider)
    → Shows ct none (codes "FAA") (faa_evaluate_passenger_currency requested wall ct license dp)
unfolding faa_evaluate_passenger_currency faa_pax_base
faa-Shows requested wall ct license dp = grind (
  arith,
  faa_pax_summary-Shows ct none (codes "FAA"),
  fill_pax_lapse_dates-Shows ct none (codes "FAA"),
  faa_pax_statuses-Shows ct none (codes "FAA"),
)

pub ul-Shows :
    (requested : Bool) (wall : Instant) (rating : ClassRating) (license : License)
    (peers : List ClassRating) (dp : FlightDataProvider)
    → Shows rating.class_type
        (if class_eq rating.class_type ul then some (rating_ul_kind rating) else none)
        license.regulatory_authority
        (ul_evaluate_rating_passenger_currency requested wall rating license peers dp)
unfolding ul_evaluate_rating_passenger_currency ul_pax_base
ul-Shows requested wall rating license peers dp =
    let auth = license.regulatory_authority in
    elim (Bool-cases (class_eq rating.class_type ul)) [
      | inr other ↦
          rw (other, ul_evaluate_rating_passenger_currency)
            (easa-Shows requested wall rating.class_type license peers dp)
      | inl same ↦
          let kind = rating_ul_kind rating in
          let base = ul_pax_base kind license in
          let blank : Shows rating.class_type (some kind) auth base = record {
            of_class = sym (class_eq-eq rating.class_type ul same);
            of_kind = refl;
            of_authority = refl;
          } in
          rw (same, ul_evaluate_rating_passenger_currency)
            (fetched_or_not rating.class_type (some kind) auth _ _ _
              (failed-Shows rating.class_type (some kind) auth base blank)
              (λ days.
                fill_pax_lapse_dates-Shows rating.class_type (some kind) auth requested
                  (ul_pax_statuses base days)
                  (dp.get_landing_days_by_ul_kind license.user_id
                    (record {
                      kinds = aircraft_kinds_for_rating kind;
                      include_unspecified = true;
                      min_mtom_kg = 0;
                    })
                    (kind_eq kind sailplane))
                  none wall
                  (ul_pax_statuses-Shows rating.class_type (some kind) auth base days blank)))
    ]
