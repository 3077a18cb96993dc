-- ===== src/Flight/Validate.antt =====
-- ValidateTimeDistribution (internal/models/flight.go), test by test: what its early returns accept.
use ninerlog_api.Base.{
  ◌≡◌, refl, ◌↔◌, Bool, true, false, not, ◌&&◌, ◌||◌, Option, none, some, List, [], ◌∷◌, All, any,
  arith, if◌then◌else◌,
}
use ninerlog_api.Base.Int.{ℤ, pos, ◌≤ℤ◌, ltb_ℤ, is_positive, is_negative}
use ninerlog_api.Flight.{
  Flight, TimeError, fstd_type_required, fstd_session_time, fstd_flight_time, invalid_ifr_time,
  invalid_time_distribution, negative_time, invalid_night_time, invalid_cross_country_time,
  invalid_function_time, invalid_dual_given_time, invalid_examiner_time, passenger_function_time,
  negative_landings, is_given, times, logged, flight_columns, is_nonzero, function_time,
  validate_session_times, validate_time_distribution,
}

-- One test of a chain of early returns.
early_return :
    (b : Bool) (e : TimeError) (r : Option TimeError)
    → ((if b then some e else r) ≡ none) ↔ ((b ≡ false) × (r ≡ none))
early_return b e r = ground arith

any-All :
    (p : ℤ → Bool) (P : ℤ → Type 0)
    → ((t : ℤ) → (p t ≡ false) ↔ P t)
    → (l : List ℤ) → (any p l ≡ false) ↔ All P l
any-All p P h [] = ground arith
any-All p P h (t ∷ l) = ground (arith, h t, any-All p P h l)

not_negative : (t : ℤ) → (is_negative t ≡ false) ↔ (pos 0 ≤ℤ t)
not_negative t = ground arith

not_nonzero : (t : ℤ) → (is_nonzero t ≡ false) ↔ (t ≡ pos 0)
not_nonzero t = ground arith

within : (t u : ℤ) → (ltb_ℤ u t ≡ false) ↔ (t ≤ℤ u)
within t u = ground arith

-- The tests on a flight that is no FSTD session, each as a condition; Flight/Coherence.antt says what
-- they amount to.
pub record PassesTests (f : Flight) : Type 0 where
  pub exclusive : f.is_pic && f.is_dual ≡ false
  pub nonnegative : All (λ (t : ℤ). pos 0 ≤ℤ t) (times f)
  pub night : f.night_time ≤ℤ f.total_time
  pub ifr : f.ifr_time ≤ℤ f.total_time
  pub cross_country : f.cross_country_time ≤ℤ f.total_time
  pub decomposed : function_time f ≤ℤ f.total_time
  pub dual_given : f.dual_given_time ≤ℤ f.total_time
  pub examined : f.examiner_time ≤ℤ f.total_time
  pub carried : f.is_passenger ≡ true → All (λ (t : ℤ). t ≡ pos 0) (logged f)
  pub landed : (pos 0 ≤ℤ f.landings_day) × (pos 0 ≤ℤ f.landings_night)

-- The tests on an FSTD session.
pub record PassesSessionTests (f : Flight) : Type 0 where
  pub device : is_given f.fstd_type ≡ true
  pub lasting : pos 1 ≤ℤ f.simulated_flight_time
  pub blank : All (λ (t : ℤ). t ≡ pos 0) (flight_columns f)
  pub instrument : f.simulated_instrument_time ≤ℤ f.simulated_flight_time

-- `early_return` in the form in which the chains below use it: a test that says `P` when it fails.
step :
    {P R : Type 0} {b : Bool} (e : TimeError) {r : Option TimeError}
    → ((b ≡ false) ↔ P)
    → ((r ≡ none) ↔ R)
    → ((if b then some e else r) ≡ none) ↔ (P × R)
step {P} {R} {b} e {r} (h, h') (k, k') = (
  λ q. let both = (early_return b e r).0 q in (h both.0, k both.1),
  λ q. (early_return b e r).1 (h' q.0, k' q.1),
)

done : (r : Option TimeError) → r ≡ none → (r ≡ none) ↔ Unit {0}
done r h = (λ q. tt, λ q. h)

negated : (b : Bool) → (not b ≡ false) ↔ (b ≡ true)
negated b = ground arith

lasting_lem : (t : ℤ) → (not (is_positive t) ≡ false) ↔ (pos 1 ≤ℤ t)
lasting_lem t = ground arith

neither : (t u : ℤ) → (is_negative t || is_negative u ≡ false) ↔ ((pos 0 ≤ℤ t) × (pos 0 ≤ℤ u))
neither t u = ground arith

itself : {P : Type 0} → P ↔ P
itself = (λ p. p, λ p. p)

pub validate_session_times-PassesSessionTests :
    (f : Flight) → (validate_session_times f ≡ none) ↔ PassesSessionTests f
unfolding validate_session_times
validate_session_times-PassesSessionTests f =
    let chain = step fstd_type_required (negated (is_given f.fstd_type)) (
      step fstd_session_time (lasting_lem f.simulated_flight_time) (
        step fstd_flight_time
          (any-All is_nonzero (λ (t : ℤ). t ≡ pos 0) not_nonzero (flight_columns f))
          (step invalid_ifr_time (within f.simulated_instrument_time f.simulated_flight_time)
            (done none refl)))) in
    (
      λ h.
          let (a, (b, (c, (d, u)))) = chain.0 h in
          record { device = a; lasting = b; blank = c; instrument = d },
      λ h. chain.1 (h.device, (h.lasting, (h.blank, (h.instrument, tt)))),
    )

-- No passenger logs a time, as the test of the source and as a condition.
carried_lem :
    (p : Bool) (l : List ℤ)
    → (p && any is_nonzero l ≡ false) ↔ (p ≡ true → All (λ (t : ℤ). t ≡ pos 0) l)
carried_lem true l =
    let e = any-All is_nonzero (λ (t : ℤ). t ≡ pos 0) not_nonzero l in
    (λ h p. e.0 h, λ h. e.1 (h refl))
carried_lem false l = (λ h p. absurd (cc p), λ h. refl)

-- Of a flight that is no FSTD session, the tests pass exactly when their conditions hold.
pub validate_time_distribution-PassesTests :
    (f : Flight) → f.is_simulator ≡ false → (validate_time_distribution f ≡ none) ↔ PassesTests f
unfolding validate_time_distribution
validate_time_distribution-PassesTests f flown =
    let chain = step invalid_time_distribution itself (
      step negative_time (any-All is_negative (λ (t : ℤ). pos 0 ≤ℤ t) not_negative (times f)) (
        step invalid_night_time (within f.night_time f.total_time) (
          step invalid_ifr_time (within f.ifr_time f.total_time) (
            step invalid_cross_country_time (within f.cross_country_time f.total_time) (
              step invalid_function_time (within (function_time f) f.total_time) (
                step invalid_dual_given_time (within f.dual_given_time f.total_time) (
                  step invalid_examiner_time (within f.examiner_time f.total_time) (
                    step passenger_function_time (carried_lem f.is_passenger (logged f)) (
                      step negative_landings (neither f.landings_day f.landings_night)
                        (done none refl)))))))))) in
    rw flown (
      λ h.
          let (a, (b, (c, (d, (e, (g, (i, (j, (k, (l, u)))))))))) = chain.0 h in
          record {
            exclusive = a;
            nonnegative = b;
            night = c;
            ifr = d;
            cross_country = e;
            decomposed = g;
            dual_given = i;
            examined = j;
            carried = k;
            landed = l;
          },
      λ h. chain.1 (
        h.exclusive,
        (
          h.nonnegative,
          (
            h.night,
            (
              h.ifr,
              (
                h.cross_country,
                (h.decomposed, (h.dual_given, (h.examined, (h.carried, (h.landed, tt))))),
              ),
            ),
          ),
        ),
      ),
    )
