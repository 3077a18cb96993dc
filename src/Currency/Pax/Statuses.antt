-- ===== src/Currency/Pax/Statuses.antt =====
-- The statuses of the EASA and FAA passenger evaluations, against the landings in the window.
use mathlib.Core.Path.{subst}
use ninerlog_api.Base.{
  ℕ, zero, suc, ◌+◌, ◌≤◌, ◌<◌, ◌≡◌, ◌≢◌, refl, sym, ◌∙◌, ◌↔◌, ◌⊎◌, inr, Bool, true, false, Option,
  none, some, List, [], ◌∷◌, arith, leb, ltb, if◌then◌else◌,
}
use ninerlog_api.Clock.{Instant, Day, day_text}
use ninerlog_api.Models.{ClassType, ClassRating, License}
use ninerlog_api.Currency.Types.{Status, current, expired, unknown, PassengerCurrency}
use ninerlog_api.Currency.Provider.{LandingDay, FlightDataProvider}
use ninerlog_api.Currency.Engine.{include_towed_flights}
use ninerlog_api.Currency.Pax.{
  pax_window_start, all_landings, pax_totals, expiry_from, pax_expiry_date, fill_pax_lapse_dates,
  latest_ir_expiry,
}
use ninerlog_api.Currency.Easa.Select.{is_easa_sailplane}
use ninerlog_api.Currency.Pax.Easa.{
  has_valid_ir_rating, pic_only, easa_night_privilege, easa_pax_base, easa_pax_statuses,
  gpl_shortfall, apply_shortfall, easa_pax_summary, easa_evaluate_passenger_currency,
}

-- What the later steps of an evaluation leave as it is.
pub record Keeps (r s : PassengerCurrency) : Type 0 where
  pub day : r.day_status ≡ s.day_status
  pub night : r.night_status ≡ s.night_status
  pub nights : r.night_landings ≡ s.night_landings
  pub expires : r.day_expires_on ≡ s.day_expires_on

pub Keeps-fill_pax_lapse_dates :
    (requested : Bool) (r : PassengerCurrency) (fetch : Instant → Option (List LandingDay))
    (waiver : Option Instant) (now : Instant)
    → Keeps (fill_pax_lapse_dates requested r fetch waiver now) r
unfolding fill_pax_lapse_dates
Keeps-fill_pax_lapse_dates requested r fetch waiver now = record {
  day = ground arith;
  night = ground arith;
  nights = ground arith;
  expires = ground arith;
}

Keeps-easa_pax_summary :
    (night valid_ir : Bool) (shortfall : ℕ) (r : PassengerCurrency)
    → Keeps (easa_pax_summary night valid_ir shortfall r) r
unfolding easa_pax_summary
Keeps-easa_pax_summary night valid_ir shortfall r = record {
  day = ground arith;
  night = ground arith;
  nights = ground arith;
  expires = ground arith;
}

Keeps-trans : (r s t : PassengerCurrency) → Keeps r s → Keeps s t → Keeps r t
Keeps-trans r s t h k = record {
  day = h.day ∙ k.day;
  night = h.night ∙ k.night;
  nights = h.nights ∙ k.nights;
  expires = h.expires ∙ k.expires;
}

-- A date is reported exactly when the total reaches the requirement.
is_dated : Option Instant → Bool
is_dated none = false
is_dated (some t) = true

expiry_from-pax_totals :
    (required : ℕ) (days : List LandingDay) (total : ℕ)
    → total < required
    → (is_dated (expiry_from required all_landings total days) ≡ true)
      ↔ (required ≤ total + (pax_totals days).0)
unfolding expiry_from pax_totals is_dated
expiry_from-pax_totals required [] total lt = ground arith
expiry_from-pax_totals required (d ∷ days) total lt =
    ground (arith, expiry_from-pax_totals required days (total + all_landings d))

day_text-dated : (o : Option Instant) → (day_text o ≢ none) ↔ (is_dated o ≡ true)
unfolding is_dated
day_text-dated none = (λ h. absurd (h refl), λ h. absurd cc)
day_text-dated (some t) = (λ h. refl, λ h e. cc)

pub pax_expiry_date-pax_totals :
    (days : List LandingDay)
    → (day_text (pax_expiry_date days 3 all_landings) ≢ none) ↔ (3 ≤ (pax_totals days).0)
unfolding pax_expiry_date
pax_expiry_date-pax_totals days =
    let (a, b) = day_text-dated (expiry_from 3 all_landings 0 days) in
    let (c, d) = expiry_from-pax_totals 3 days 0 (omega arith) in
    (λ h. omega (arith, c (a h)), λ h. b (d (omega arith)))

-- What the landings in the window say of the day: current exactly with three of them and no
-- shortfall of experience, expired otherwise, and an expiry date is reported exactly if current.
abbrev pub DayIs : Option Status → Option Day → (landings shortfall : ℕ) → Type 0
DayIs status expires_on landings shortfall =
    ((status ≡ some current) ↔ ((3 ≤ landings) × (shortfall ≡ 0)))
    × ((status ≡ some current) ⊎ (status ≡ some expired))
    × ((status ≡ some current) ↔ (expires_on ≢ none))

abbrev pub DaySays : PassengerCurrency → (landings shortfall : ℕ) → Type 0
DaySays r landings shortfall = DayIs r.day_status r.day_expires_on landings shortfall

pub apply_shortfall-DaySays :
    (n shortfall : ℕ) (r : PassengerCurrency)
    → r.day_status ≡ some (if leb 3 n then current else expired)
    → (r.day_expires_on ≢ none) ↔ (3 ≤ n)
    → DaySays (apply_shortfall shortfall r) n shortfall
unfolding apply_shortfall
apply_shortfall-DaySays n zero r h e =
    let met : (r.day_status ≡ some current) ↔ (3 ≤ n) = ground (arith, h) in
    (ground (arith, h), ground (arith, h), (λ s. e.1 (met.0 s), λ d. met.1 (e.0 d)))
apply_shortfall-DaySays n (suc k) r h e =
    let positive : ltb 0 (suc k) ≡ true = ground arith in
    rw (positive, apply_shortfall)
      (
        (λ s. absurd cc, λ z. absurd (omega (arith, z.1))),
        inr refl,
        (λ s. absurd cc, λ d. absurd (d refl)),
      )

DaySays-Keeps :
    (r s : PassengerCurrency) (n shortfall : ℕ)
    → Keeps r s
    → DaySays s n shortfall
    → DaySays r n shortfall
DaySays-Keeps r s n shortfall k h =
    subst (λ x. DayIs x r.day_expires_on n shortfall) (sym k.day)
      (subst (λ x. DayIs s.day_status x n shortfall) (sym k.expires) h)

-- What a night status must be, by the privilege and what meets the requirement.
abbrev pub NightSays : Option Status → (privilege : Bool) → Type 0 → Type 0
NightSays status privilege Met =
    ((status ≡ some unknown) ↔ (privilege ≡ false))
    × ((status ≡ some current) ↔ ((privilege ≡ true) × Met))
    × ((status ≡ some expired) ↔ ((privilege ≡ true) × ¬ Met))

-- Dropping the lapse date leaves the statuses.
Keeps-undated :
    (b : Bool) (r : PassengerCurrency)
    → Keeps (if b then record r { day_lapsed_on = none } else r) r
Keeps-undated b r = record {
  day = ground arith;
  night = ground arith;
  nights = ground arith;
  expires = ground arith;
}

module _ (requested : Bool) (wall : Instant) (ct : ClassType) (license : License)
    (peers : List ClassRating) (dp : FlightDataProvider) where
  abbrev pub easa_fetch : Instant → Option (List LandingDay)
  easa_fetch =
      dp.get_landing_days_by_aircraft_class license.user_id ct
        (include_towed_flights ct (is_easa_sailplane license.license_type)) (pic_only ct license)

  abbrev pub easa_pax : PassengerCurrency
  easa_pax = easa_evaluate_passenger_currency requested wall ct license peers dp

  -- The result before the lapse dates and the message.
  abbrev easa_counted : List LandingDay → ℕ → PassengerCurrency
  easa_counted days shortfall =
      let night = easa_night_privilege ct license in
      let valid_ir = has_valid_ir_rating peers wall in
      apply_shortfall shortfall
        (easa_pax_statuses night valid_ir (easa_pax_base night valid_ir ct license) days)

  Keeps-easa_pax :
      (days : List LandingDay) (shortfall : ℕ)
      → easa_fetch (pax_window_start wall) ≡ some days
      → gpl_shortfall dp ct license ≡ some shortfall
      → Keeps easa_pax (easa_counted days shortfall)
  unfolding easa_evaluate_passenger_currency
  Keeps-easa_pax days shortfall h g =
      let night = easa_night_privilege ct license in
      let valid_ir = has_valid_ir_rating peers wall in
      let counted = easa_counted days shortfall in
      let filled =
        fill_pax_lapse_dates requested counted easa_fetch (latest_ir_expiry peers) wall in
      let shown = if ltb 0 shortfall then record filled { day_lapsed_on = none } else filled in
      let e : easa_pax ≡ easa_pax_summary night valid_ir shortfall shown =
        rw (h, g, easa_evaluate_passenger_currency) refl in
      subst (λ r. Keeps r counted) (sym e)
        (Keeps-trans _ shown _ (Keeps-easa_pax_summary night valid_ir shortfall shown) (
          Keeps-trans _ filled _ (Keeps-undated (ltb 0 shortfall) filled) (
            Keeps-fill_pax_lapse_dates requested counted easa_fetch (latest_ir_expiry peers) wall)))

  easa_counted-DaySays :
      (days : List LandingDay) (shortfall : ℕ)
      → DaySays (easa_counted days shortfall) (pax_totals days).0 shortfall
  unfolding easa_pax_statuses easa_pax_base
  easa_counted-DaySays days shortfall =
      let night = easa_night_privilege ct license in
      let valid_ir = has_valid_ir_rating peers wall in
      apply_shortfall-DaySays (pax_totals days).0 shortfall
        (easa_pax_statuses night valid_ir (easa_pax_base night valid_ir ct license) days) refl
        (pax_expiry_date-pax_totals days)

  easa_counted-NightSays :
      (days : List LandingDay) (shortfall : ℕ)
      → NightSays
          (easa_counted days shortfall).night_status
          (easa_night_privilege ct license)
          ((has_valid_ir_rating peers wall ≡ true) ⊎ (1 ≤ (pax_totals days).1))
  unfolding apply_shortfall easa_pax_statuses easa_pax_base
  easa_counted-NightSays days shortfall = ground arith

  -- EASA FCL.060(b), with the landings of the window and the experience of a GPL read: by day the
  -- pilot is current exactly with 3 landings and no shortfall of experience, and an expiry date is
  -- reported exactly then. The night status is unknown exactly without the night privilege, and with
  -- it current exactly with a valid IR or a landing at night.
  pub easa_pax_lem :
      (days : List LandingDay) (shortfall : ℕ)
      → easa_fetch (pax_window_start wall) ≡ some days
      → gpl_shortfall dp ct license ≡ some shortfall
      → DaySays easa_pax (pax_totals days).0 shortfall
        × NightSays easa_pax.night_status
            (easa_night_privilege ct license)
            ((has_valid_ir_rating peers wall ≡ true) ⊎ (1 ≤ (pax_totals days).1))
  easa_pax_lem days shortfall h g =
      let kept = Keeps-easa_pax days shortfall h g in
      (
        DaySays-Keeps _ _ (pax_totals days).0 shortfall kept (easa_counted-DaySays days shortfall),
        subst
            (λ (s : Option Status).
              NightSays s (easa_night_privilege ct license)
                ((has_valid_ir_rating peers wall ≡ true) ⊎ (1 ≤ (pax_totals days).1)))
            (sym kept.night) (easa_counted-NightSays days shortfall),
      )
