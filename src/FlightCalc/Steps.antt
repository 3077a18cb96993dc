-- ===== src/FlightCalc/Steps.antt =====
-- The steps of flightcalc.go, each as the flight that it leaves. The airports, their twilight and
-- their distances (internal/airports, pkg/solar and haversineNM) are a `World`.
pub mod Night
pub mod Fields
pub mod Values
pub mod Functions
use ninerlog_api.Base.{
  ℕ, zero, suc, ◌+◌, ◌-◌, ◌/◌, Bool, true, false, not, ◌&&◌, ◌||◌, ltb, leb, ◌==◌, if◌then◌else◌,
  Option, none, some, List, [], ◌∷◌, any, is_empty,
}
use ninerlog_api.Base.Int.{ℤ, pos, ltb_ℤ, ◌+ℤ◌, ◌-ℤ◌, is_zero, is_positive, is_negative}
use ninerlog_api.Base.Text.{Text, text_eq, to_upper, trim_space}
use ninerlog_api.Clock.{Instant, before}
use ninerlog_api.Flight.{CrewMember, Flight}
use ninerlog_api.FlightRules.Names.{matches_user}
use ninerlog_api.FlightRules.Roles.{
  AircraftFacts, Role, role_pic, role_dual_receiving, role_dual_giving, role_sic, role_passenger,
  is_role_sic, is_multi_pilot_operation,
}
use ninerlog_api.FlightCalc.Times.{minute_ns, instants_of, takeoff_at, landing_at}

-- airports.Lookup; solar.IsNight at an airport; solar.DaylightBetween for two instants at an airport,
-- with its IsNight; and haversineNM between two airports, in tenths of a nautical mile.
pub record World : Type 1 where
  pub Airport : Type 0
  pub lookup : Text → Option Airport
  pub is_night : Instant → Airport → Bool
  pub is_night_between : Instant → Instant → Airport → Instant → Bool
  pub haversine_nm : Airport → Airport → ℕ

unfoldable pub normalize_icao : Option Text → Text
unfolding to_upper trim_space
normalize_icao none = []
normalize_icao (some s) = to_upper (trim_space s)

unfoldable pub declared_function_time : Flight → ℤ
declared_function_time f = f.picus_time +ℤ f.spic_time +ℤ f.relief_time

unfoldable pub derived_function_minutes : Flight → ℤ
unfolding declared_function_time
derived_function_minutes f =
    let m = f.total_time -ℤ declared_function_time f in if is_negative m then pos 0 else m

unfoldable pub calculate_pic_dual : Role → Flight → Flight
calculate_pic_dual role_dual_receiving f = record f {
  is_pic = false;
  is_dual = true;
  dual_time = derived_function_minutes f;
  pic_time = pos 0;
}
calculate_pic_dual role_sic f = record f {
  is_pic = false;
  is_dual = false;
  pic_time = pos 0;
  dual_time = pos 0;
}
calculate_pic_dual _ f = record f {
  is_pic = true;
  is_dual = false;
  pic_time = derived_function_minutes f;
  dual_time = pos 0;
}

unfoldable pub is_alone : Text → List CrewMember → Bool
is_alone user_name ms =
    not (any (λ m. is_empty user_name || not (matches_user m.name user_name)) ms)

unfoldable pub calculate_solo_time : Text → Flight → Flight
unfolding is_alone
calculate_solo_time user_name f =
    if not f.is_pic || f.is_dual
    then record f { solo_time = pos 0 }
    else if is_positive f.picus_time
        || is_positive f.spic_time
        || is_positive f.examiner_time
        || is_positive f.relief_time
    then record f { solo_time = pos 0 }
    else record f { solo_time = if is_alone user_name f.crew_members then f.total_time else pos 0 }

unfoldable pub calculate_cross_country_time : Flight → Flight
unfolding normalize_icao
calculate_cross_country_time f =
    let dep = normalize_icao f.departure_icao in
    let arr = normalize_icao f.arrival_icao in
    if not (is_empty dep) && not (is_empty arr) && not (text_eq dep arr)
    then record f { cross_country_time = f.total_time }
    else record f { cross_country_time = pos 0 }

unfoldable pub calculate_sic_time : Role → Flight → Flight
unfolding derived_function_minutes
calculate_sic_time role f =
    if not (is_role_sic role)
    then record f { sic_time = pos 0 }
    else if f.sic_time_override
    then f
    else record f { sic_time = derived_function_minutes f }

unfoldable pub calculate_multi_pilot_time : Role → Option AircraftFacts → Flight → Flight
calculate_multi_pilot_time role aircraft f =
    if f.multi_pilot_time_override
    then f
    else if is_multi_pilot_operation f role aircraft
    then record f { multi_pilot_time = f.total_time }
    else record f { multi_pilot_time = pos 0 }

unfoldable pub is_role_dual_giving : Role → Bool
is_role_dual_giving role_dual_giving = true
is_role_dual_giving _ = false

unfoldable pub calculate_dual_given_time : Role → Flight → Flight
unfolding is_role_dual_giving
calculate_dual_given_time role f =
    if is_role_dual_giving role
    then record f { dual_given_time = f.total_time }
    else if not (is_empty f.crew_members)
    then record f { dual_given_time = pos 0 }
    else f

-- The loop of calculateNightTime up to `arr`, with the minutes counted so far; `none` when the fuel
-- runs out before.
unfoldable pub count_night : (Instant → Bool) → Instant → ℕ → Instant → ℕ → Option ℕ
count_night night arr zero current minutes = none
count_night night arr (suc fuel) current minutes =
    let rest =
      count_night night arr fuel (current + minute_ns)
        (if night current then suc minutes else minutes) in
    if before current arr then rest else some minutes

-- A turn for each minute begun, and one to leave the loop.
abbrev pub night_fuel : Instant → Instant → ℕ
night_fuel dep arr = suc (suc ((arr - dep) / minute_ns))

pub capped_night : Flight → Option ℕ → Flight
capped_night f none = f
capped_night f (some n) = record f {
  night_time = if ltb_ℤ f.total_time (pos n) then f.total_time else pos n;
}

module _ (w : World) where
  -- From a known airport, between two known block times.
  night_from : Flight → Option w.Airport → Flight
  unfolding capped_night count_night
  night_from f none = f
  night_from f (some dep_ap) =
      let i = instants_of f in
      if i.off_block == 0 || i.on_block == 0
      then f
      else if leb i.on_block i.off_block
      then record f { night_time = pos 0 }
      else capped_night f (
          count_night (w.is_night_between i.off_block i.on_block dep_ap) i.on_block
            (night_fuel i.off_block i.on_block) i.off_block 0)

  unfoldable pub calculate_night_time : Flight → Flight
  unfolding night_from
  calculate_night_time f =
      let dep = normalize_icao f.departure_icao in
      if is_empty dep then f else night_from f (w.lookup dep)

  distance_of : Option w.Airport → Option w.Airport → ℕ
  distance_of (some dep_ap) (some arr_ap) = w.haversine_nm dep_ap arr_ap
  distance_of _ _ = 0

  unfoldable pub calculate_distance : Flight → Flight
  unfolding distance_of
  calculate_distance f =
      let dep = normalize_icao f.departure_icao in
      let arr = normalize_icao f.arrival_icao in
      if is_empty dep || is_empty arr
      then record f { distance = 0 }
      else record f { distance = distance_of (w.lookup dep) (w.lookup arr) }

  -- Whether a known time at a known airport is at night.
  at_night : Instant → Option w.Airport → Bool
  at_night t none = false
  at_night t (some ap) = not (t == 0) && w.is_night t ap

  unfoldable pub calculate_takeoff_split : Flight → Flight
  unfolding at_night
  calculate_takeoff_split f =
      let total = f.all_landings in
      let dep = normalize_icao f.departure_icao in
      let dep_ap = if is_empty dep then none else w.lookup dep in
      if not (is_zero total) && at_night (takeoff_at (instants_of f)) dep_ap
      then record f { takeoffs_night = total; takeoffs_day = pos 0 }
      else record f { takeoffs_day = total; takeoffs_night = pos 0 }

  unfoldable pub calculate_landing_split : Flight → Flight
  unfolding at_night
  calculate_landing_split f =
      let total =
        if is_zero f.all_landings then f.landings_day +ℤ f.landings_night else f.all_landings in
      let arr = normalize_icao f.arrival_icao in
      let arr_ap = if is_empty arr then none else w.lookup arr in
      if is_zero total
      then record f { landings_day = pos 0; landings_night = pos 0 }
      else if at_night (landing_at (instants_of f)) arr_ap
      then record f { landings_night = total; landings_day = pos 0 }
      else record f { landings_day = total; landings_night = pos 0 }
