-- ===== src/FlightRules/Fstd.antt =====
-- flightrules/ifr.go, fstd.go and the column times of display.go: what a row counts as.
pub mod Columns
pub mod Ifr
use ninerlog_api.Base.{
  Bool, true, false, not, ◌&&◌, ◌||◌, Option, none, some, List, [], ◌∷◌, if◌then◌else◌,
}
use ninerlog_api.Base.Int.{ℤ, pos, ltb_ℤ, leb_ℤ, ◌+ℤ◌, is_positive}
use ninerlog_api.Base.Text.{Text, codes, to_upper, trim_space, has_prefix}
use ninerlog_api.Flight.{Flight, is_given}

unfoldable pub effective_ifr_time : Flight → ℤ
effective_ifr_time f =
    if f.is_simulator
    then pos 0
    else (let derived =
          if leb_ℤ f.ifr_time (pos 0)
          then f.actual_instrument_time +ℤ f.simulated_instrument_time
          else f.ifr_time in
        if leb_ℤ derived (pos 0)
        then pos 0
        else if ltb_ℤ f.total_time derived
        then f.total_time
        else derived)

unfoldable pub is_fstd_row : Flight → Bool
is_fstd_row f = is_given f.fstd_type && is_positive f.simulated_flight_time

unfoldable pub counts_as_flight_time : Flight → Bool
counts_as_flight_time f = not f.is_simulator && not f.is_passenger

unfoldable pub renders_logbook_row : Flight → Bool
renders_logbook_row f = f.is_simulator || is_positive f.total_time

pub data PilotingCategory : Type 0 where
  category_spse category_spme category_mp : PilotingCategory

-- `ac_class` is the stored class of the aircraft.
unfoldable pub piloting_category_for : Flight → Text → PilotingCategory
unfolding to_upper trim_space has_prefix
piloting_category_for f ac_class =
    let c = to_upper (trim_space ac_class) in
    if is_positive f.multi_pilot_time
    then category_mp
    else if has_prefix c (codes "MEP") || has_prefix c (codes "MET") || has_prefix c (codes "SET")
    then category_spme
    else category_spse

-- The switch on the category.
unfoldable pub row_times_of : PilotingCategory → Flight → ℤ × ℤ × ℤ
row_times_of category_mp f = (pos 0, pos 0, f.multi_pilot_time)
row_times_of category_spme f = (pos 0, f.total_time, pos 0)
row_times_of category_spse f = (f.total_time, pos 0, pos 0)

unfoldable pub row_times : Flight → Text → ℤ × ℤ × ℤ
unfolding row_times_of piloting_category_for
row_times f ac_class = row_times_of (piloting_category_for f ac_class) f

unfoldable pub pic_column_time : Flight → ℤ
pic_column_time f = f.pic_time +ℤ f.picus_time +ℤ f.spic_time

unfoldable pub co_pilot_column_time : Flight → ℤ
co_pilot_column_time f = f.sic_time +ℤ f.relief_time

unfoldable pub faa_sic_column_time : Flight → ℤ
faa_sic_column_time f = f.sic_time +ℤ f.picus_time +ℤ f.relief_time

unfoldable pub faa_dual_column_time : Flight → ℤ
faa_dual_column_time f = f.dual_time +ℤ f.spic_time
