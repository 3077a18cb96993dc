-- ===== src/FlightCalc/Apply/Pilots.antt =====
-- What ApplyAutoCalculations (internal/service/flightcalc/flightcalc.go) makes of a pilot's flight.
use mathlib.Core.Path.{subst}
use ninerlog_api.Base.{◌≡◌, ◌∙◌, sym, ap, refl, Bool, true, false, ◌&&◌, ◌||◌, none, Option}
use ninerlog_api.Base.Int.{pos, ◌≤ℤ◌}
use ninerlog_api.Base.Text.{Text}
use ninerlog_api.Flight.{Flight, validate_time_distribution, function_time}
use ninerlog_api.Flight.Validate.{PassesTests, validate_time_distribution-PassesTests}
use ninerlog_api.FlightRules.Roles.{AircraftFacts, Role, is_role_sic, determine_role}
use ninerlog_api.FlightRules.Fstd.{effective_ifr_time}
use ninerlog_api.FlightRules.Fstd.Ifr.{effective_ifr_time_bounds}
use ninerlog_api.FlightCalc.Steps.{
  World, declared_function_time, calculate_night_time, calculate_landing_split,
  calculate_cross_country_time,
}
use ninerlog_api.FlightCalc.Steps.Values.{
  Within, calculate_night_time-Within, calculate_cross_country_time-Within, landings_nonneg,
  dual_given-Within,
}
use ninerlog_api.FlightCalc.Steps.Fields.{sets_function}
use ninerlog_api.FlightCalc.Steps.Functions.{Fits, assign-exact, assign-le, assign_nonneg}
use ninerlog_api.FlightCalc.Apply.{
  is_role_passenger, unless, recover_total, apply_pilot_calculations, apply_auto_calculations,
}
use ninerlog_api.FlightCalc.Apply.Trace.{
  with_function, with_night, with_landings, with_solo, with_cross_country, with_sic,
  with_dual_given, with_multi_pilot, after_night, after_solo, after_sic, after_multi_pilot,
}
use ninerlog_api.FlightCalc.Apply.Passengers.{if_false}
use ninerlog_api.FlightCalc.Apply.Calculated.{
  calculated, apply_pilot-calculated, function_time-calculated,
}

-- Entered values that fit together; the total is the recovered one.
pub record Entered (f : Flight) : Type 0 where
  pub fits : Fits f
  pub total : pos 0 ≤ℤ f.total_time
  pub picus : pos 0 ≤ℤ f.picus_time
  pub spic : pos 0 ≤ℤ f.spic_time
  pub relief : pos 0 ≤ℤ f.relief_time
  pub examiner : Within f.total_time f.examiner_time
  pub night : Within f.total_time f.night_time
  pub cross_country : Within f.total_time f.cross_country_time
  pub dual_given : Within f.total_time f.dual_given_time
  pub landings_day : pos 0 ≤ℤ f.landings_day
  pub landings_night : pos 0 ≤ℤ f.landings_night
  pub all_landings : pos 0 ≤ℤ f.all_landings

carry : (P : Flight → Type 0) {x y : Flight} → x ≡ y → P y → P x
carry P e p = subst P (sym e) p

unless-keeps :
    (P : Flight → Type 0) (b : Bool) (step : Flight → Flight) (f : Flight)
    → P f
    → P (step f)
    → P (unless b step f)
unless-keeps P true step f p q = p
unless-keeps P false step f p q = q

module _ (w : World) (u : Text) (aircraft : Option AircraftFacts) (role : Role) (f : Flight)
    (h : Entered f) where
  night_ok : Within f.total_time (with_night w u aircraft role f).night_time
  night_ok =
      let g = with_function w u aircraft role f in
      let t = carry (λ x. pos 0 ≤ℤ x.total_time) (sets_function role f) h.total in
      let n = carry (λ x. Within x.total_time x.night_time) (sets_function role f) h.night in
      subst (λ t. Within t (with_night w u aircraft role f).night_time)
        (ap (λ x. x.total_time) (sets_function role f))
        (unless-keeps (λ x. Within g.total_time x.night_time) g.night_time_override
          (calculate_night_time w) g n (calculate_night_time-Within w g t n))

  landings_ok :
      (pos 0 ≤ℤ (with_landings w u aircraft role f).landings_day)
      × (pos 0 ≤ℤ (with_landings w u aircraft role f).landings_night)
  landings_ok =
      let g = with_night w u aircraft role f in
      let e = after_night w u aircraft role f in
      let d = carry (λ x. pos 0 ≤ℤ x.landings_day) e h.landings_day in
      let n = carry (λ x. pos 0 ≤ℤ x.landings_night) e h.landings_night in
      let a = carry (λ x. pos 0 ≤ℤ x.all_landings) e h.all_landings in
      unless-keeps (λ x. (pos 0 ≤ℤ x.landings_day) × (pos 0 ≤ℤ x.landings_night))
        (g.landings_day_override || g.landings_night_override) (calculate_landing_split w) g (d, n)
        (landings_nonneg w g d n a)

  cross_country_ok : Within f.total_time (with_cross_country w u aircraft role f).cross_country_time
  cross_country_ok =
      let g = with_solo w u aircraft role f in
      let e = after_solo w u aircraft role f in
      subst (λ t. Within t (with_cross_country w u aircraft role f).cross_country_time)
        (ap (λ x. x.total_time) e)
        (unless-keeps (λ x. Within g.total_time x.cross_country_time) g.cross_country_time_override
          calculate_cross_country_time g
          (carry (λ x. Within x.total_time x.cross_country_time) e h.cross_country)
          (calculate_cross_country_time-Within g (carry (λ x. pos 0 ≤ℤ x.total_time) e h.total)))

  dual_given_ok : Within f.total_time (with_dual_given w u aircraft role f).dual_given_time
  dual_given_ok =
      let g = with_sic w u aircraft role f in
      let e = after_sic w u aircraft role f in
      subst (λ t. Within t (with_dual_given w u aircraft role f).dual_given_time)
        (ap (λ x. x.total_time) e)
        (dual_given-Within role g (carry (λ x. pos 0 ≤ℤ x.total_time) e h.total)
          (carry (λ x. Within x.total_time x.dual_given_time) e h.dual_given))

  ifr_ok : Within f.total_time (effective_ifr_time (with_multi_pilot w u aircraft role f))
  ifr_ok =
      let g = with_multi_pilot w u aircraft role f in
      let e = after_multi_pilot w u aircraft role f in
      let b = effective_ifr_time_bounds g (carry (λ x. pos 0 ≤ℤ x.total_time) e h.total) in
      subst (λ t. Within t (effective_ifr_time g)) (ap (λ x. x.total_time) e) (b.0, b.1)

  PassesTests-calculated : f.is_passenger ≡ false → PassesTests (calculated w u aircraft role f)
  PassesTests-calculated flown =
      let (p, d, s, x) = assign_nonneg role f h.fits in
      let (ld, ln) = landings_ok in
      record {
        exclusive = x;
        nonnegative = (
          h.total,
          (
            night_ok.0,
            (
              ifr_ok.0,
              (
                cross_country_ok.0,
                (
                  p,
                  (d, (s, (dual_given_ok.0, (h.picus, (h.spic, (h.examiner.0, (h.relief, tt))))))),
                ),
              ),
            ),
          ),
        );
        night = night_ok.1;
        ifr = ifr_ok.1;
        cross_country = cross_country_ok.1;
        decomposed = rw (function_time-calculated w u aircraft role f) (assign-le role f h.fits);
        dual_given = dual_given_ok.1;
        examined = h.examiner.1;
        carried = λ e. absurd (cc (flown, e));
        landed = (ld, ln);
      }

-- The flight that the steps start from: the total recovered, the passenger flag unset.
abbrev pub started : Flight → Flight
started f = record (recover_total f) { is_passenger = false }

module _ (w : World) (u : Text) (aircraft : Option AircraftFacts) (f : Flight)
    (flown : f.is_simulator ≡ false)
    (crewed : is_role_passenger (determine_role (recover_total f) u aircraft) ≡ false) where
  abbrev own_role : Role
  own_role = determine_role (recover_total f) u aircraft

  apply-pilot :
      apply_auto_calculations w u aircraft f ≡ calculated w u aircraft own_role (started f)
  unfolding apply_auto_calculations
  apply-pilot =
      if_false _ _ flown
      ∙ if_false _ _ crewed
      ∙ ap
          (λ b.
            apply_pilot_calculations w u aircraft own_role
              (record (recover_total f) { is_passenger = b }))
          crewed
      ∙ apply_pilot-calculated w u aircraft own_role (started f)

  started_flown : (started f).is_simulator ≡ false
  unfolding recover_total
  started_flown = flown

  -- Entered values that fit together are calculated to a flight that ValidateTimeDistribution
  -- accepts: no negative times or landings; the declared function times with the entered co-pilot
  -- time, and the examiner, night, cross-country and dual-given times singly, at most the total, which
  -- is the recovered one. The flight is no FSTD session, the user's role on it not that of a passenger.
  pub pilot_valid :
      Entered (started f)
      → validate_time_distribution (apply_auto_calculations w u aircraft f) ≡ none
  pilot_valid h = rw apply-pilot (
      (validate_time_distribution-PassesTests (calculated w u aircraft own_role (started f))
          started_flown).1
        (PassesTests-calculated w u aircraft own_role (started f) h refl))

  -- The calculated function times decompose the total time: where no co-pilot time is entered, or the
  -- user is not co-pilot, and the declared times are at most the total, PIC, PICUS, SPIC, SIC, dual
  -- and relief time add up to it exactly, and the total is kept. The flight is no FSTD session and
  -- the user's role on it not that of a passenger.
  pub pilot_decomposes :
      (is_role_sic own_role && f.sic_time_override) ≡ false
      → declared_function_time f ≤ℤ (recover_total f).total_time
      → (function_time (apply_auto_calculations w u aircraft f)
          ≡ (apply_auto_calculations w u aircraft f).total_time)
        × ((apply_auto_calculations w u aircraft f).total_time ≡ (recover_total f).total_time)
  unfolding recover_total declared_function_time
  pilot_decomposes n h = (
    rw apply-pilot (
        function_time-calculated w u aircraft own_role (started f)
        ∙ assign-exact own_role (started f) n h),
    rw apply-pilot refl,
  )
