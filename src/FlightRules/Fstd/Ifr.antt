-- ===== src/FlightRules/Fstd/Ifr.antt =====
-- EffectiveIFRTime (internal/service/flightrules/ifr.go): its bounds, and that it may be applied again.
use ninerlog_api.Base.{◌≡◌, arith}
use ninerlog_api.Base.Int.{pos, ◌≤ℤ◌}
use ninerlog_api.Flight.{Flight}
use ninerlog_api.FlightRules.Fstd.{effective_ifr_time}

-- The IFR time is between 0 and the total.
pub effective_ifr_time_bounds :
    (f : Flight)
    → pos 0 ≤ℤ f.total_time
    → (pos 0 ≤ℤ effective_ifr_time f) × (effective_ifr_time f ≤ℤ f.total_time)
unfolding effective_ifr_time
effective_ifr_time_bounds f h = (ground arith, ground arith)

effective_ifr_time_idem :
    (f : Flight)
    → pos 0 ≤ℤ f.total_time
    → effective_ifr_time (record f { ifr_time = effective_ifr_time f }) ≡ effective_ifr_time f
unfolding effective_ifr_time
effective_ifr_time_idem f h = ground arith

-- Of a total time that is not negative: EffectiveIFRTime is between 0 and the total, and
-- gives the same value again once it is stored.
pub effective_ifr_time_lem :
    (f : Flight)
    → pos 0 ≤ℤ f.total_time
    → (pos 0 ≤ℤ effective_ifr_time f)
      × (effective_ifr_time f ≤ℤ f.total_time)
      × (effective_ifr_time (record f { ifr_time = effective_ifr_time f }) ≡ effective_ifr_time f)
effective_ifr_time_lem f h =
    let b = effective_ifr_time_bounds f h in (b.0, b.1, effective_ifr_time_idem f h)
