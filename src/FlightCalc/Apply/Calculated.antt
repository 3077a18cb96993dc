-- ===== src/FlightCalc/Apply/Calculated.antt =====
-- The flight that the steps of ApplyAutoCalculations (internal/service/flightcalc/flightcalc.go)
-- calculate for a pilot, in one piece.
use ninerlog_api.Base.{ℕ, ◌≡◌, ◌∙◌, sym, ap, Option, arith}
use ninerlog_api.Base.Int.{ℤ, ◌+ℤ◌}
use ninerlog_api.Base.Text.{Text}
use ninerlog_api.Flight.{Flight, function_time}
use ninerlog_api.FlightRules.Roles.{AircraftFacts, Role}
use ninerlog_api.FlightRules.Fstd.{effective_ifr_time}
use ninerlog_api.FlightCalc.Steps.{World, calculate_sic_time}
use ninerlog_api.FlightCalc.Steps.Fields.{sets_function, sets_sic}
use ninerlog_api.FlightCalc.Steps.Functions.{assign}
use ninerlog_api.FlightCalc.Apply.{apply_pilot_calculations}
use ninerlog_api.FlightCalc.Apply.Trace.{
  with_function, with_night, with_landings, with_solo, with_cross_country, with_distance,
  with_takeoffs, with_sic, with_dual_given, with_multi_pilot, after_takeoffs, after_multi_pilot,
  apply_pilot-steps,
}

-- The co-pilot time does not depend on what the steps in between set.
sic_reads :
    (role : Role) (f : Flight) (n d e a s c : ℤ) (x : ℕ) (t u : ℤ)
    → (calculate_sic_time role (record f {
      night_time = n;
      landings_day = d;
      landings_night = e;
      all_landings = a;
      solo_time = s;
      cross_country_time = c;
      distance = x;
      takeoffs_day = t;
      takeoffs_night = u;
    })).sic_time
      ≡ (calculate_sic_time role f).sic_time
unfolding calculate_sic_time
sic_reads role f n d e a s c x t u = ground arith

module _ (w : World) (u : Text) (aircraft : Option AircraftFacts) (role : Role) (f : Flight) where
  -- The co-pilot time is the one that the two steps on the function times leave.
  sic_lem : (with_sic w u aircraft role f).sic_time ≡ (assign role f).sic_time
  sic_lem =
      ap (λ x. (calculate_sic_time role x).sic_time) (after_takeoffs w u aircraft role f)
      ∙ sic_reads role _ _ _ _ _ _ _ _ _ _
      ∙ sym (ap (λ x. (calculate_sic_time role x).sic_time) (sets_function role f))

  -- The calculated flight, all steps together.
  abbrev pub calculated : Flight
  calculated = record f {
    is_pic = (assign role f).is_pic;
    is_dual = (assign role f).is_dual;
    pic_time = (assign role f).pic_time;
    dual_time = (assign role f).dual_time;
    sic_time = (assign role f).sic_time;
    night_time = (with_night w u aircraft role f).night_time;
    landings_day = (with_landings w u aircraft role f).landings_day;
    landings_night = (with_landings w u aircraft role f).landings_night;
    all_landings =
        (with_landings w u aircraft role f).landings_day
        +ℤ (with_landings w u aircraft role f).landings_night;
    solo_time = (with_solo w u aircraft role f).solo_time;
    cross_country_time = (with_cross_country w u aircraft role f).cross_country_time;
    distance = (with_distance w u aircraft role f).distance;
    takeoffs_day = (with_takeoffs w u aircraft role f).takeoffs_day;
    takeoffs_night = (with_takeoffs w u aircraft role f).takeoffs_night;
    dual_given_time = (with_dual_given w u aircraft role f).dual_given_time;
    multi_pilot_time = (with_multi_pilot w u aircraft role f).multi_pilot_time;
    ifr_time = effective_ifr_time (with_multi_pilot w u aircraft role f);
  }

  -- The function times of the first step are those of both.
  assign_keeps :
      with_function w u aircraft role f
      ≡ record (assign role f) { sic_time = (with_function w u aircraft role f).sic_time }
  assign_keeps = sym (
      ap (λ (x : Flight). record x { sic_time = (with_function w u aircraft role f).sic_time })
        (sets_sic role (with_function w u aircraft role f)))

  -- The function times of a flight, and a co-pilot time, in the calculated flight.
  taken : Flight → ℤ → Flight
  taken x t = record calculated {
    is_pic = x.is_pic;
    is_dual = x.is_dual;
    pic_time = x.pic_time;
    dual_time = x.dual_time;
    sic_time = t;
  }

  assign_sets : assign role f ≡ record f {
    is_pic = (with_function w u aircraft role f).is_pic;
    is_dual = (with_function w u aircraft role f).is_dual;
    pic_time = (with_function w u aircraft role f).pic_time;
    dual_time = (with_function w u aircraft role f).dual_time;
    sic_time = (assign role f).sic_time;
  }
  assign_sets =
      sets_sic role (with_function w u aircraft role f)
      ∙ ap (λ (x : Flight). record x { sic_time = (assign role f).sic_time }) (sets_function role f)

  pub apply_pilot-calculated : apply_pilot_calculations w u aircraft role f ≡ calculated
  unfolding taken
  apply_pilot-calculated =
      apply_pilot-steps w u aircraft role f
      ∙ ap
          (λ (x : Flight). record x {
            ifr_time = effective_ifr_time (with_multi_pilot w u aircraft role f);
          })
          (after_multi_pilot w u aircraft role f)
      ∙ ap (λ t. taken (with_function w u aircraft role f) t) sic_lem
      ∙ ap (λ x. taken x (assign role f).sic_time) assign_keeps

  pub function_time-calculated : function_time calculated ≡ function_time (assign role f)
  function_time-calculated = sym (
      ap
        (λ x.
          (assign role f).pic_time
          +ℤ x.picus_time
          +ℤ x.spic_time
          +ℤ (assign role f).sic_time
          +ℤ (assign role f).dual_time
          +ℤ x.relief_time)
        assign_sets)
