-- ===== src/FlightCalc/Steps/Fields.antt =====
-- Which fields each step of ApplyAutoCalculations (internal/service/flightcalc/flightcalc.go) sets.
use ninerlog_api.Base.{ℕ, ◌≡◌, refl, Bool, true, false, Option, none, some, arith, if◌then◌else◌}
use ninerlog_api.Base.Int.{pos}
use ninerlog_api.Base.Text.{Text}
use ninerlog_api.Flight.{Flight}
use ninerlog_api.FlightRules.Roles.{
  AircraftFacts, Role, role_pic, role_dual_receiving, role_dual_giving, role_sic, role_passenger,
}
use ninerlog_api.FlightCalc.Steps.{
  World, calculate_pic_dual, normalize_icao, capped_night, night_from, calculate_night_time,
  calculate_landing_split, calculate_solo_time, calculate_cross_country_time, calculate_distance,
  calculate_takeoff_split, calculate_sic_time, calculate_dual_given_time,
  calculate_multi_pilot_time,
}

-- A step that sets a field and keeps the others.
capped_night-sets :
    (f : Flight) (o : Option ℕ)
    → capped_night f o ≡ record f { night_time = (capped_night f o).night_time }
unfolding capped_night
capped_night-sets f none = refl
capped_night-sets f (some n) = refl

either : (P : Flight → Type 0) (b : Bool) (x y : Flight) → P x → P y → P (if b then x else y)
either P true x y p q = p
either P false x y p q = q

night_from-cases :
    (P : Flight → Type 0) (w : World) (f : Flight) (o : Option w.Airport)
    → P f
    → P (record f { night_time = pos 0 })
    → ((n : Option ℕ) → P (capped_night f n))
    → P (night_from w f o)
unfolding night_from
night_from-cases P w f none a b c = a
night_from-cases P w f (some ap) a b c = either P _ _ _ a (either P _ _ _ b (c _))

-- What calculateNightTime can leave: the flight as it is, no night, or a capped count.
pub calculate_night_time-cases :
    (P : Flight → Type 0) (w : World) (f : Flight)
    → P f
    → P (record f { night_time = pos 0 })
    → ((n : Option ℕ) → P (capped_night f n))
    → P (calculate_night_time w f)
unfolding calculate_night_time
calculate_night_time-cases P w f a b c =
    either P _ _ _ a (night_from-cases P w f (w.lookup (normalize_icao f.departure_icao)) a b c)

pub sets_night :
    (w : World) (f : Flight)
    → calculate_night_time w f ≡ record f { night_time = (calculate_night_time w f).night_time }
sets_night w f =
    calculate_night_time-cases (λ g. g ≡ record f { night_time = g.night_time }) w f refl refl
      (capped_night-sets f)

pub sets_function :
    (role : Role) (f : Flight)
    → calculate_pic_dual role f ≡ record f {
      is_pic = (calculate_pic_dual role f).is_pic;
      is_dual = (calculate_pic_dual role f).is_dual;
      pic_time = (calculate_pic_dual role f).pic_time;
      dual_time = (calculate_pic_dual role f).dual_time;
    }
unfolding calculate_pic_dual
sets_function role_pic f = refl
sets_function role_dual_receiving f = refl
sets_function role_dual_giving f = refl
sets_function role_sic f = refl
sets_function role_passenger f = refl

pub sets_landings :
    (w : World) (f : Flight)
    → calculate_landing_split w f ≡ record f {
      landings_day = (calculate_landing_split w f).landings_day;
      landings_night = (calculate_landing_split w f).landings_night;
    }
unfolding calculate_landing_split
sets_landings w f = ground arith

pub sets_solo :
    (u : Text) (f : Flight)
    → calculate_solo_time u f ≡ record f { solo_time = (calculate_solo_time u f).solo_time }
unfolding calculate_solo_time
sets_solo u f = ground arith

pub sets_cross_country :
    (f : Flight)
    → calculate_cross_country_time f
      ≡ record f { cross_country_time = (calculate_cross_country_time f).cross_country_time }
unfolding calculate_cross_country_time
sets_cross_country f = ground arith

pub sets_distance :
    (w : World) (f : Flight)
    → calculate_distance w f ≡ record f { distance = (calculate_distance w f).distance }
unfolding calculate_distance
sets_distance w f = ground arith

pub sets_takeoffs :
    (w : World) (f : Flight)
    → calculate_takeoff_split w f ≡ record f {
      takeoffs_day = (calculate_takeoff_split w f).takeoffs_day;
      takeoffs_night = (calculate_takeoff_split w f).takeoffs_night;
    }
unfolding calculate_takeoff_split
sets_takeoffs w f = ground arith

pub sets_sic :
    (role : Role) (f : Flight)
    → calculate_sic_time role f ≡ record f { sic_time = (calculate_sic_time role f).sic_time }
unfolding calculate_sic_time
sets_sic role f = ground arith

pub sets_dual_given :
    (role : Role) (f : Flight)
    → calculate_dual_given_time role f
      ≡ record f { dual_given_time = (calculate_dual_given_time role f).dual_given_time }
unfolding calculate_dual_given_time
sets_dual_given role f = ground arith

pub sets_multi_pilot :
    (role : Role) (aircraft : Option AircraftFacts) (f : Flight)
    → calculate_multi_pilot_time role aircraft f ≡ record f {
      multi_pilot_time = (calculate_multi_pilot_time role aircraft f).multi_pilot_time;
    }
unfolding calculate_multi_pilot_time
sets_multi_pilot role aircraft f = ground arith
