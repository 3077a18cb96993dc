-- ===== src/FlightCalc/Steps/Functions.antt =====
-- The function times that calculatePICDual and calculateSICTime leave
-- (internal/service/flightcalc/flightcalc.go) fill the total time up.
use ninerlog_api.Base.{◌≡◌, ◌∙◌, refl, Bool, true, false, Bool-cases, inl, inr, ◌&&◌, arith}
use ninerlog_api.Base.Int.{ℤ, pos, ◌≤ℤ◌, ◌+ℤ◌, +ℤ_parts, +ℤ_comm, +ℤ_assoc, eq_of_parts}
use ninerlog_api.Flight.{Flight, function_time}
use ninerlog_api.FlightRules.Roles.{
  Role, role_sic, role_pic, role_dual_receiving, role_dual_giving, role_passenger, is_role_sic,
}
use ninerlog_api.FlightCalc.Steps.{
  declared_function_time, derived_function_minutes, calculate_pic_dual, calculate_sic_time,
}
use ninerlog_api.FlightCalc.Steps.Values.{derived_lem}

pub +ℤ_zero : (a : ℤ) → a +ℤ pos 0 ≡ a
+ℤ_zero a = eq_of_parts (a +ℤ pos 0) a (omega (arith, +ℤ_parts a (pos 0)))

-- The derived minutes in the PIC, the SIC and the dual column.
as_pic : (d u s r : ℤ) → d +ℤ u +ℤ s +ℤ pos 0 +ℤ pos 0 +ℤ r ≡ d +ℤ (u +ℤ s +ℤ r)
as_pic d u s r = grind (arith, +ℤ_comm, +ℤ_assoc, +ℤ_zero)

as_sic : (d u s r : ℤ) → pos 0 +ℤ u +ℤ s +ℤ d +ℤ pos 0 +ℤ r ≡ d +ℤ (u +ℤ s +ℤ r)
as_sic d u s r = grind (arith, +ℤ_comm, +ℤ_assoc, +ℤ_zero)

as_dual : (d u s r : ℤ) → pos 0 +ℤ u +ℤ s +ℤ pos 0 +ℤ d +ℤ r ≡ d +ℤ (u +ℤ s +ℤ r)
as_dual d u s r = grind (arith, +ℤ_comm, +ℤ_assoc, +ℤ_zero)

-- Both steps, one after the other.
abbrev pub assign : Role → Flight → Flight
assign role f = calculate_sic_time role (calculate_pic_dual role f)

pub assign-exact :
    (role : Role) (f : Flight)
    → (is_role_sic role && f.sic_time_override) ≡ false
    → declared_function_time f ≤ℤ f.total_time
    → function_time (assign role f) ≡ f.total_time
unfolding calculate_pic_dual calculate_sic_time derived_function_minutes declared_function_time
assign-exact role_pic f n h = as_pic _ f.picus_time f.spic_time f.relief_time ∙ (derived_lem f h).0
assign-exact role_dual_giving f n h =
    as_pic _ f.picus_time f.spic_time f.relief_time ∙ (derived_lem f h).0
assign-exact role_passenger f n h =
    as_pic _ f.picus_time f.spic_time f.relief_time ∙ (derived_lem f h).0
assign-exact role_dual_receiving f n h =
    as_dual _ f.picus_time f.spic_time f.relief_time ∙ (derived_lem f h).0
assign-exact role_sic f n h =
    rw n (as_sic _ f.picus_time f.spic_time f.relief_time ∙ (derived_lem f h).0)

-- The same with an entered co-pilot time for which the total has room.
pub record Fits (f : Flight) : Type 0 where
  pub room : declared_function_time f ≤ℤ f.total_time
  pub co_pilot : pos 0 ≤ℤ f.sic_time
  pub co_pilot_room : f.sic_time +ℤ declared_function_time f ≤ℤ f.total_time

assign-entered :
    (f : Flight)
    → f.sic_time_override ≡ true
    → function_time (assign role_sic f) ≡ f.sic_time +ℤ declared_function_time f
unfolding calculate_pic_dual calculate_sic_time declared_function_time
assign-entered f n = rw n (as_sic f.sic_time f.picus_time f.spic_time f.relief_time)

sic_entered :
    (role : Role) (b : Bool) → (is_role_sic role && b) ≡ true → (role ≡ role_sic) × (b ≡ true)
sic_entered role_sic b h = (refl, h)
sic_entered role_pic b h = absurd (cc h)
sic_entered role_dual_giving b h = absurd (cc h)
sic_entered role_dual_receiving b h = absurd (cc h)
sic_entered role_passenger b h = absurd (cc h)

pub assign-le : (role : Role) (f : Flight) → Fits f → function_time (assign role f) ≤ℤ f.total_time
assign-le role f h = elim (Bool-cases (is_role_sic role && f.sic_time_override)) [
  | inl e ↦
      let (a, b) = sic_entered role f.sic_time_override e in
      rw (a, assign-entered f b) h.co_pilot_room
  | inr e ↦ rw (assign-exact role f e h.room) (omega arith)
]

-- The columns that the two steps write are not negative.
pub assign_nonneg :
    (role : Role) (f : Flight)
    → Fits f
    → (pos 0 ≤ℤ (assign role f).pic_time)
      × (pos 0 ≤ℤ (assign role f).dual_time)
      × (pos 0 ≤ℤ (assign role f).sic_time)
      × ((assign role f).is_pic && (assign role f).is_dual ≡ false)
unfolding calculate_pic_dual calculate_sic_time
assign_nonneg role_pic f h =
    (ground (arith, (derived_lem f h.room).1), ground arith, ground arith, refl)
assign_nonneg role_dual_giving f h =
    (ground (arith, (derived_lem f h.room).1), ground arith, ground arith, refl)
assign_nonneg role_passenger f h =
    (ground (arith, (derived_lem f h.room).1), ground arith, ground arith, refl)
assign_nonneg role_dual_receiving f h =
    (ground arith, ground (arith, (derived_lem f h.room).1), ground arith, refl)
assign_nonneg role_sic f h =
    (ground arith, ground arith, ground (arith, (derived_lem f h.room).1, h.co_pilot), ground arith)
