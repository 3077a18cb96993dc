-- ===== src/FlightCalc/Apply/Trace.antt =====
-- What ApplyAutoCalculations (internal/service/flightcalc/flightcalc.go) makes of a pilot's flight, step by step.
use ninerlog_api.Base.{◌≡◌, ◌∙◌, ap, refl, Bool, true, false, ◌||◌, Option}
use ninerlog_api.Base.Int.{◌+ℤ◌}
use ninerlog_api.Base.Text.{Text}
use ninerlog_api.Flight.{Flight}
use ninerlog_api.FlightRules.Roles.{AircraftFacts, Role}
use ninerlog_api.FlightRules.Fstd.{effective_ifr_time}
use ninerlog_api.FlightCalc.Steps.{
  World, calculate_pic_dual, calculate_night_time, calculate_landing_split, calculate_solo_time,
  calculate_cross_country_time, calculate_distance, calculate_takeoff_split, calculate_sic_time,
  calculate_dual_given_time, calculate_multi_pilot_time,
}
use ninerlog_api.FlightCalc.Steps.Fields.{
  sets_function, sets_night, sets_landings, sets_solo, sets_cross_country, sets_distance,
  sets_takeoffs, sets_sic, sets_dual_given, sets_multi_pilot,
}
use ninerlog_api.FlightCalc.Apply.{unless, all_landings_of, apply_pilot_calculations}

-- A step that may be left out sets what the step sets.
unless_night :
    (w : World) (b : Bool) (f : Flight)
    → unless b (calculate_night_time w) f
      ≡ record f { night_time = (unless b (calculate_night_time w) f).night_time }
unless_night w true f = refl
unless_night w false f = sets_night w f

unless_landings :
    (w : World) (b : Bool) (f : Flight)
    → unless b (calculate_landing_split w) f ≡ record f {
      landings_day = (unless b (calculate_landing_split w) f).landings_day;
      landings_night = (unless b (calculate_landing_split w) f).landings_night;
    }
unless_landings w true f = refl
unless_landings w false f = sets_landings w f

unless_cross_country :
    (b : Bool) (f : Flight)
    → unless b calculate_cross_country_time f ≡ record f {
      cross_country_time = (unless b calculate_cross_country_time f).cross_country_time;
    }
unless_cross_country true f = refl
unless_cross_country false f = sets_cross_country f

unless_takeoffs :
    (w : World) (b : Bool) (f : Flight)
    → unless b (calculate_takeoff_split w) f ≡ record f {
      takeoffs_day = (unless b (calculate_takeoff_split w) f).takeoffs_day;
      takeoffs_night = (unless b (calculate_takeoff_split w) f).takeoffs_night;
    }
unless_takeoffs w true f = refl
unless_takeoffs w false f = sets_takeoffs w f

module _ (w : World) (user_name : Text) (aircraft : Option AircraftFacts) (role : Role)
    (f : Flight) where
  -- The flight after each step.
  abbrev pub with_function : Flight
  with_function = calculate_pic_dual role f

  abbrev pub with_night : Flight
  with_night = unless with_function.night_time_override (calculate_night_time w) with_function

  abbrev pub with_landings : Flight
  with_landings =
      unless (with_night.landings_day_override || with_night.landings_night_override)
        (calculate_landing_split w) with_night

  abbrev pub with_solo : Flight
  with_solo = calculate_solo_time user_name (all_landings_of with_landings)

  abbrev pub with_cross_country : Flight
  with_cross_country =
      unless with_solo.cross_country_time_override calculate_cross_country_time with_solo

  abbrev pub with_distance : Flight
  with_distance = calculate_distance w with_cross_country

  abbrev pub with_takeoffs : Flight
  with_takeoffs =
      unless (with_distance.takeoffs_day_override || with_distance.takeoffs_night_override)
        (calculate_takeoff_split w) with_distance

  abbrev pub with_sic : Flight
  with_sic = calculate_sic_time role with_takeoffs

  abbrev pub with_dual_given : Flight
  with_dual_given = calculate_dual_given_time role with_sic

  abbrev pub with_multi_pilot : Flight
  with_multi_pilot = calculate_multi_pilot_time role aircraft with_dual_given

  pub apply_pilot-steps :
      apply_pilot_calculations w user_name aircraft role f
      ≡ record with_multi_pilot { ifr_time = effective_ifr_time with_multi_pilot }
  unfolding apply_pilot_calculations
  apply_pilot-steps = refl

  -- The fields set so far, over the flight as it was.
  pub after_function : with_function ≡ record f {
    is_pic = with_function.is_pic;
    is_dual = with_function.is_dual;
    pic_time = with_function.pic_time;
    dual_time = with_function.dual_time;
  }
  after_function = sets_function role f

  pub after_night : with_night ≡ record f {
    is_pic = with_function.is_pic;
    is_dual = with_function.is_dual;
    pic_time = with_function.pic_time;
    dual_time = with_function.dual_time;
    night_time = with_night.night_time;
  }
  after_night =
      unless_night w with_function.night_time_override with_function
      ∙ ap (λ (x : Flight). record x { night_time = with_night.night_time }) after_function

  pub after_landings : with_landings ≡ record f {
    is_pic = with_function.is_pic;
    is_dual = with_function.is_dual;
    pic_time = with_function.pic_time;
    dual_time = with_function.dual_time;
    night_time = with_night.night_time;
    landings_day = with_landings.landings_day;
    landings_night = with_landings.landings_night;
  }
  after_landings =
      unless_landings w (with_night.landings_day_override || with_night.landings_night_override)
        with_night
      ∙ ap
          (λ (x : Flight). record x {
            landings_day = with_landings.landings_day;
            landings_night = with_landings.landings_night;
          })
          after_night

  pub after_solo : with_solo ≡ record f {
    is_pic = with_function.is_pic;
    is_dual = with_function.is_dual;
    pic_time = with_function.pic_time;
    dual_time = with_function.dual_time;
    night_time = with_night.night_time;
    landings_day = with_landings.landings_day;
    landings_night = with_landings.landings_night;
    all_landings = with_landings.landings_day +ℤ with_landings.landings_night;
    solo_time = with_solo.solo_time;
  }
  unfolding all_landings_of
  after_solo =
      sets_solo user_name (all_landings_of with_landings)
      ∙ ap (λ (x : Flight). record (all_landings_of x) { solo_time = with_solo.solo_time })
          after_landings

  pub after_cross_country : with_cross_country ≡ record f {
    is_pic = with_function.is_pic;
    is_dual = with_function.is_dual;
    pic_time = with_function.pic_time;
    dual_time = with_function.dual_time;
    night_time = with_night.night_time;
    landings_day = with_landings.landings_day;
    landings_night = with_landings.landings_night;
    all_landings = with_landings.landings_day +ℤ with_landings.landings_night;
    solo_time = with_solo.solo_time;
    cross_country_time = with_cross_country.cross_country_time;
  }
  after_cross_country =
      unless_cross_country with_solo.cross_country_time_override with_solo
      ∙ ap (λ (x : Flight). record x { cross_country_time = with_cross_country.cross_country_time })
          after_solo

  pub after_distance : with_distance ≡ record f {
    is_pic = with_function.is_pic;
    is_dual = with_function.is_dual;
    pic_time = with_function.pic_time;
    dual_time = with_function.dual_time;
    night_time = with_night.night_time;
    landings_day = with_landings.landings_day;
    landings_night = with_landings.landings_night;
    all_landings = with_landings.landings_day +ℤ with_landings.landings_night;
    solo_time = with_solo.solo_time;
    cross_country_time = with_cross_country.cross_country_time;
    distance = with_distance.distance;
  }
  after_distance =
      sets_distance w with_cross_country
      ∙ ap (λ (x : Flight). record x { distance = with_distance.distance }) after_cross_country

  pub after_takeoffs : with_takeoffs ≡ record f {
    is_pic = with_function.is_pic;
    is_dual = with_function.is_dual;
    pic_time = with_function.pic_time;
    dual_time = with_function.dual_time;
    night_time = with_night.night_time;
    landings_day = with_landings.landings_day;
    landings_night = with_landings.landings_night;
    all_landings = with_landings.landings_day +ℤ with_landings.landings_night;
    solo_time = with_solo.solo_time;
    cross_country_time = with_cross_country.cross_country_time;
    distance = with_distance.distance;
    takeoffs_day = with_takeoffs.takeoffs_day;
    takeoffs_night = with_takeoffs.takeoffs_night;
  }
  after_takeoffs =
      unless_takeoffs w
        (with_distance.takeoffs_day_override || with_distance.takeoffs_night_override) with_distance
      ∙ ap
          (λ (x : Flight). record x {
            takeoffs_day = with_takeoffs.takeoffs_day;
            takeoffs_night = with_takeoffs.takeoffs_night;
          })
          after_distance

  pub after_sic : with_sic ≡ record f {
    is_pic = with_function.is_pic;
    is_dual = with_function.is_dual;
    pic_time = with_function.pic_time;
    dual_time = with_function.dual_time;
    night_time = with_night.night_time;
    landings_day = with_landings.landings_day;
    landings_night = with_landings.landings_night;
    all_landings = with_landings.landings_day +ℤ with_landings.landings_night;
    solo_time = with_solo.solo_time;
    cross_country_time = with_cross_country.cross_country_time;
    distance = with_distance.distance;
    takeoffs_day = with_takeoffs.takeoffs_day;
    takeoffs_night = with_takeoffs.takeoffs_night;
    sic_time = with_sic.sic_time;
  }
  after_sic =
      sets_sic role with_takeoffs
      ∙ ap (λ (x : Flight). record x { sic_time = with_sic.sic_time }) after_takeoffs

  pub after_dual_given : with_dual_given ≡ record f {
    is_pic = with_function.is_pic;
    is_dual = with_function.is_dual;
    pic_time = with_function.pic_time;
    dual_time = with_function.dual_time;
    night_time = with_night.night_time;
    landings_day = with_landings.landings_day;
    landings_night = with_landings.landings_night;
    all_landings = with_landings.landings_day +ℤ with_landings.landings_night;
    solo_time = with_solo.solo_time;
    cross_country_time = with_cross_country.cross_country_time;
    distance = with_distance.distance;
    takeoffs_day = with_takeoffs.takeoffs_day;
    takeoffs_night = with_takeoffs.takeoffs_night;
    sic_time = with_sic.sic_time;
    dual_given_time = with_dual_given.dual_given_time;
  }
  after_dual_given =
      sets_dual_given role with_sic
      ∙ ap (λ (x : Flight). record x { dual_given_time = with_dual_given.dual_given_time })
          after_sic

  pub after_multi_pilot : with_multi_pilot ≡ record f {
    is_pic = with_function.is_pic;
    is_dual = with_function.is_dual;
    pic_time = with_function.pic_time;
    dual_time = with_function.dual_time;
    night_time = with_night.night_time;
    landings_day = with_landings.landings_day;
    landings_night = with_landings.landings_night;
    all_landings = with_landings.landings_day +ℤ with_landings.landings_night;
    solo_time = with_solo.solo_time;
    cross_country_time = with_cross_country.cross_country_time;
    distance = with_distance.distance;
    takeoffs_day = with_takeoffs.takeoffs_day;
    takeoffs_night = with_takeoffs.takeoffs_night;
    sic_time = with_sic.sic_time;
    dual_given_time = with_dual_given.dual_given_time;
    multi_pilot_time = with_multi_pilot.multi_pilot_time;
  }
  after_multi_pilot =
      sets_multi_pilot role aircraft with_dual_given
      ∙ ap (λ (x : Flight). record x { multi_pilot_time = with_multi_pilot.multi_pilot_time })
          after_dual_given
