-- ===== src/FlightCalc/Steps/Values.antt =====
-- The values that the steps of internal/service/flightcalc/flightcalc.go set: bounds.
use ninerlog_api.Base.{ℕ, ◌≡◌, false, Option, none, some, arith}
use ninerlog_api.Base.Int.{ℤ, pos, ◌≤ℤ◌, ◌+ℤ◌, ◌-ℤ◌, +ℤ_parts, -ℤ_parts, eq_of_parts, is_negative}
use ninerlog_api.Flight.{Flight}
use ninerlog_api.FlightRules.Roles.{Role}
use ninerlog_api.FlightCalc.Steps.{
  World, capped_night, declared_function_time, derived_function_minutes, calculate_night_time,
  calculate_landing_split, calculate_cross_country_time, calculate_dual_given_time,
}
use ninerlog_api.FlightCalc.Steps.Fields.{calculate_night_time-cases}

-- From 0 to the total.
abbrev pub Within : ℤ → ℤ → Type 0
Within total t = (pos 0 ≤ℤ t) × (t ≤ℤ total)

capped_night-Within :
    (f : Flight) (o : Option ℕ)
    → pos 0 ≤ℤ f.total_time
    → Within f.total_time f.night_time
    → Within f.total_time (capped_night f o).night_time
unfolding capped_night
capped_night-Within f none t h = h
capped_night-Within f (some n) t h = (ground arith, ground arith)

pub calculate_night_time-Within :
    (w : World) (f : Flight)
    → pos 0 ≤ℤ f.total_time
    → Within f.total_time f.night_time
    → Within f.total_time (calculate_night_time w f).night_time
calculate_night_time-Within w f t h =
    calculate_night_time-cases (λ g. Within f.total_time g.night_time) w f h (omega arith, t)
      (λ o. capped_night-Within f o t h)

pub calculate_cross_country_time-Within :
    (f : Flight)
    → pos 0 ≤ℤ f.total_time
    → Within f.total_time (calculate_cross_country_time f).cross_country_time
unfolding calculate_cross_country_time
calculate_cross_country_time-Within f t = (ground arith, ground arith)

nonneg_sum : (a b : ℤ) → pos 0 ≤ℤ a → pos 0 ≤ℤ b → pos 0 ≤ℤ a +ℤ b
nonneg_sum a b h k = omega (arith, +ℤ_parts a b)

pub landings_nonneg :
    (w : World) (f : Flight)
    → pos 0 ≤ℤ f.landings_day
    → pos 0 ≤ℤ f.landings_night
    → pos 0 ≤ℤ f.all_landings
    → (pos 0 ≤ℤ (calculate_landing_split w f).landings_day)
      × (pos 0 ≤ℤ (calculate_landing_split w f).landings_night)
unfolding calculate_landing_split
landings_nonneg w f a b c =
    let s = nonneg_sum f.landings_day f.landings_night a b in (ground arith, ground arith)

pub dual_given-Within :
    (role : Role) (f : Flight)
    → pos 0 ≤ℤ f.total_time
    → Within f.total_time f.dual_given_time
    → Within f.total_time (calculate_dual_given_time role f).dual_given_time
unfolding calculate_dual_given_time
dual_given-Within role f t h = (ground arith, ground arith)

-- What is left of a total over a declared time fills the total up.
rest_of : (total declared : ℤ) → declared ≤ℤ total → total -ℤ declared +ℤ declared ≡ total
rest_of total declared h =
    eq_of_parts (total -ℤ declared +ℤ declared) total
      (omega (arith, -ℤ_parts total declared, +ℤ_parts (total -ℤ declared) declared))

rest_nonneg : (total declared : ℤ) → declared ≤ℤ total → is_negative (total -ℤ declared) ≡ false
rest_nonneg total declared h = let e = -ℤ_parts total declared in ground arith

pub derived_lem :
    (f : Flight)
    → declared_function_time f ≤ℤ f.total_time
    → (derived_function_minutes f +ℤ declared_function_time f ≡ f.total_time)
      × (pos 0 ≤ℤ derived_function_minutes f)
unfolding derived_function_minutes
derived_lem f h =
    let e = rest_nonneg f.total_time (declared_function_time f) h in
    (rw e (rest_of f.total_time (declared_function_time f) h), ground arith)
