-- ===== src/FlightRules/Fstd/Columns.antt =====
-- The column times of the layouts (internal/service/flightrules/display.go) against a coherent flight.
use ninerlog_api.Base.{◌≡◌, ◌∙◌, sym, false, arith, none}
use ninerlog_api.Base.Int.{ℤ, ◌≤ℤ◌, ◌+ℤ◌, +ℤ_comm, +ℤ_assoc}
use ninerlog_api.Flight.{Flight, validate_time_distribution, function_time}
use ninerlog_api.Flight.Validate.{validate_time_distribution-PassesTests}
use ninerlog_api.FlightRules.Fstd.{
  pic_column_time, co_pilot_column_time, faa_sic_column_time, faa_dual_column_time,
}

shuffle_easa : (p u s c d r : ℤ) → p +ℤ u +ℤ s +ℤ (c +ℤ r) +ℤ d ≡ p +ℤ u +ℤ s +ℤ c +ℤ d +ℤ r
shuffle_easa p u s c d r = grind (arith, +ℤ_comm, +ℤ_assoc)

shuffle_faa : (p u s c d r : ℤ) → p +ℤ (c +ℤ u +ℤ r) +ℤ (d +ℤ s) ≡ p +ℤ u +ℤ s +ℤ c +ℤ d +ℤ r
shuffle_faa p u s c d r = grind (arith, +ℤ_comm, +ℤ_assoc)

function_time-easa :
    (f : Flight) → pic_column_time f +ℤ co_pilot_column_time f +ℤ f.dual_time ≡ function_time f
unfolding pic_column_time co_pilot_column_time
function_time-easa f =
    shuffle_easa f.pic_time f.picus_time f.spic_time f.sic_time f.dual_time f.relief_time

function_time-faa :
    (f : Flight) → f.pic_time +ℤ faa_sic_column_time f +ℤ faa_dual_column_time f ≡ function_time f
unfolding faa_sic_column_time faa_dual_column_time
function_time-faa f =
    shuffle_faa f.pic_time f.picus_time f.spic_time f.sic_time f.dual_time f.relief_time

abbrev pub easa_columns : Flight → ℤ
easa_columns f = pic_column_time f +ℤ co_pilot_column_time f +ℤ f.dual_time

abbrev pub faa_columns : Flight → ℤ
faa_columns f = f.pic_time +ℤ faa_sic_column_time f +ℤ faa_dual_column_time f

-- For a flight that ValidateTimeDistribution accepts and that is no FSTD session, the PIC, co-pilot
-- and dual columns of the EASA layouts have the same sum as the PIC, SIC and dual columns of the
-- FAA layouts, and it is at most the total time.
pub columns_lem :
    (f : Flight)
    → f.is_simulator ≡ false
    → validate_time_distribution f ≡ none
    → (easa_columns f ≡ faa_columns f) × (easa_columns f ≤ℤ f.total_time)
columns_lem f flown valid =
    let easa = function_time-easa f in
    let bound = ((validate_time_distribution-PassesTests f flown).0 valid).decomposed in
    (easa ∙ sym (function_time-faa f), rw easa bound)
