-- ===== src/Flight/Coherence.antt =====
-- What ValidateTimeDistribution (internal/models/flight.go) accepts, in the fields of a flight: its
-- times lie between 0 and the total, and the times of the pilot functions fit into it.
use ninerlog_api.Base.{
  ◌≡◌, refl, ◌↔◌, ◌⊎◌, inl, inr, Bool, true, false, Bool-cases, ◌&&◌, none, [], ◌∷◌, All, arith,
}
use ninerlog_api.Base.Int.{ℤ, pos, ◌≤ℤ◌, ◌+ℤ◌}
use ninerlog_api.Flight.{Flight, is_given, validate_session_times, validate_time_distribution}
use ninerlog_api.Flight.Validate.{
  PassesTests, PassesSessionTests, validate_session_times-PassesSessionTests,
  validate_time_distribution-PassesTests,
}

abbrev pub IsWithin : ℤ → ℤ → Type 0
IsWithin t total = (pos 0 ≤ℤ t) × (t ≤ℤ total)

-- The times and landings of a flight, or of a passenger.
pub record Coherent (f : Flight) : Type 0 where
  pub exclusive : f.is_pic ≡ true → f.is_dual ≡ false
  pub total : pos 0 ≤ℤ f.total_time
  pub night : IsWithin f.night_time f.total_time
  pub ifr : IsWithin f.ifr_time f.total_time
  pub cross_country : IsWithin f.cross_country_time f.total_time
  pub dual_given : IsWithin f.dual_given_time f.total_time
  pub examined : IsWithin f.examiner_time f.total_time
  pub as_pic : IsWithin f.pic_time f.total_time
  pub as_picus : IsWithin f.picus_time f.total_time
  pub as_spic : IsWithin f.spic_time f.total_time
  pub as_sic : IsWithin f.sic_time f.total_time
  pub as_dual : IsWithin f.dual_time f.total_time
  pub in_relief : IsWithin f.relief_time f.total_time
  pub decomposed :
      f.pic_time +ℤ f.picus_time +ℤ f.spic_time +ℤ f.sic_time +ℤ f.dual_time +ℤ f.relief_time
      ≤ℤ f.total_time
  pub carried :
      f.is_passenger ≡ true
      → (f.total_time ≡ pos 0) × (f.multi_pilot_time ≡ pos 0) × (f.solo_time ≡ pos 0)
  pub landed : (pos 0 ≤ℤ f.landings_day) × (pos 0 ≤ℤ f.landings_night)

-- The times of an FSTD session: in the session's column only.
pub record CoherentSession (f : Flight) : Type 0 where
  pub device : is_given f.fstd_type ≡ true
  pub lasting : pos 1 ≤ℤ f.simulated_flight_time
  pub instrument : f.simulated_instrument_time ≤ℤ f.simulated_flight_time
  pub no_total : f.total_time ≡ pos 0
  pub no_functions :
      (f.pic_time ≡ pos 0)
      × (f.picus_time ≡ pos 0)
      × (f.spic_time ≡ pos 0)
      × (f.sic_time ≡ pos 0)
      × (f.dual_time ≡ pos 0)
      × (f.relief_time ≡ pos 0)
      × (f.dual_given_time ≡ pos 0)
      × (f.examiner_time ≡ pos 0)
  pub no_conditions :
      (f.night_time ≡ pos 0)
      × (f.ifr_time ≡ pos 0)
      × (f.cross_country_time ≡ pos 0)
      × (f.multi_pilot_time ≡ pos 0)
      × (f.solo_time ≡ pos 0)

-- Of two summands that are not negative, both are at most what bounds the sum.
summands :
    (a b t : ℤ) → pos 0 ≤ℤ a → pos 0 ≤ℤ b → a +ℤ b ≤ℤ t → (pos 0 ≤ℤ a +ℤ b) × (a ≤ℤ t) × (b ≤ℤ t)
unfolding ◌+ℤ◌
summands a b t h k s = ground arith

sum_nonneg : (a b : ℤ) → pos 0 ≤ℤ a → pos 0 ≤ℤ b → pos 0 ≤ℤ a +ℤ b
unfolding ◌+ℤ◌
sum_nonneg a b h k = ground arith

squeezed : (t total : ℤ) → IsWithin t total → total ≡ pos 0 → t ≡ pos 0
squeezed t total h e = ground arith

-- Six summands at once.
parts :
    (p u s c d r t : ℤ)
    → All (λ (x : ℤ). pos 0 ≤ℤ x) (p ∷ u ∷ s ∷ c ∷ d ∷ r ∷ [])
    → p +ℤ u +ℤ s +ℤ c +ℤ d +ℤ r ≤ℤ t
    → All (λ (x : ℤ). IsWithin x t) (p ∷ u ∷ s ∷ c ∷ d ∷ r ∷ [])
parts p u s c d r t (hp, (hu, (hs, (hc, (hd, (hr, _)))))) e =
    let n1 = sum_nonneg p u hp hu in
    let n2 = sum_nonneg (p +ℤ u) s n1 hs in
    let n3 = sum_nonneg (p +ℤ u +ℤ s) c n2 hc in
    let n4 = sum_nonneg (p +ℤ u +ℤ s +ℤ c) d n3 hd in
    let (_, e4, er) = summands (p +ℤ u +ℤ s +ℤ c +ℤ d) r t n4 hr e in
    let (_, e3, ed) = summands (p +ℤ u +ℤ s +ℤ c) d t n3 hd e4 in
    let (_, e2, ec) = summands (p +ℤ u +ℤ s) c t n2 hc e3 in
    let (_, e1, es) = summands (p +ℤ u) s t n1 hs e2 in
    let (_, ep, eu) = summands p u t hp hu e1 in
    ((hp, ep), ((hu, eu), ((hs, es), ((hc, ec), ((hd, ed), ((hr, er), tt))))))

exclusive_lem : (a b : Bool) → (a && b ≡ false) ↔ (a ≡ true → b ≡ false)
exclusive_lem true b = (λ h e. h, λ h. h refl)
exclusive_lem false b = (λ h e. absurd (cc e), λ h. refl)

Coherent-tested : (f : Flight) → PassesTests f → Coherent f
Coherent-tested f h =
    let (
      total,
      (night, (ifr, (xc, (pic, (dual, (sic, (given, (us, (sp, (ex, (relief, _))))))))))),
    ) =
      h.nonnegative in
    let (as_pic, (as_us, (as_sp, (as_sic, (as_dual, (in_relief, _)))))) =
      parts f.pic_time f.picus_time f.spic_time f.sic_time f.dual_time f.relief_time f.total_time
        (pic, (us, (sp, (sic, (dual, (relief, tt)))))) h.decomposed in
    record {
      exclusive = (exclusive_lem f.is_pic f.is_dual).0 h.exclusive;
      total = total;
      night = (night, h.night);
      ifr = (ifr, h.ifr);
      cross_country = (xc, h.cross_country);
      dual_given = (given, h.dual_given);
      examined = (ex, h.examined);
      as_pic = as_pic;
      as_picus = as_us;
      as_spic = as_sp;
      as_sic = as_sic;
      as_dual = as_dual;
      in_relief = in_relief;
      decomposed = h.decomposed;
      carried =
          λ e. let (t, (_, (_, (_, (_, (multi, (solo, _))))))) = h.carried e in (t, multi, solo);
      landed = h.landed;
    }

-- A passenger's total is 0, and so is all that lies between 0 and it.
PassesTests-of : (f : Flight) → Coherent f → PassesTests f
PassesTests-of f h = record {
  exclusive = (exclusive_lem f.is_pic f.is_dual).1 h.exclusive;
  nonnegative = (
    h.total,
    (
      h.night.0,
      (
        h.ifr.0,
        (
          h.cross_country.0,
          (
            h.as_pic.0,
            (
              h.as_dual.0,
              (
                h.as_sic.0,
                (
                  h.dual_given.0,
                  (h.as_picus.0, (h.as_spic.0, (h.examined.0, (h.in_relief.0, tt)))),
                ),
              ),
            ),
          ),
        ),
      ),
    ),
  );
  night = h.night.1;
  ifr = h.ifr.1;
  cross_country = h.cross_country.1;
  decomposed = h.decomposed;
  dual_given = h.dual_given.1;
  examined = h.examined.1;
  carried = λ e.
      let (t, multi, solo) = h.carried e in
      let zero = λ (x : ℤ) (w : IsWithin x f.total_time). squeezed x f.total_time w t in
      (
        t,
        (
          zero f.pic_time h.as_pic,
          (
            zero f.sic_time h.as_sic,
            (
              zero f.dual_time h.as_dual,
              (
                zero f.dual_given_time h.dual_given,
                (
                  multi,
                  (
                    solo,
                    (
                      zero f.picus_time h.as_picus,
                      (
                        zero f.spic_time h.as_spic,
                        (zero f.examiner_time h.examined, (zero f.relief_time h.in_relief, tt)),
                      ),
                    ),
                  ),
                ),
              ),
            ),
          ),
        ),
      );
  landed = h.landed;
}

CoherentSession-tested : (f : Flight) → PassesSessionTests f → CoherentSession f
CoherentSession-tested f h =
    let (
      total,
      (
        pic,
        (
          dual,
          (sic, (given, (multi, (solo, (xc, (night, (ifr, (us, (sp, (ex, (relief, _))))))))))),
        ),
      ),
    ) =
      h.blank in
    record {
      device = h.device;
      lasting = h.lasting;
      instrument = h.instrument;
      no_total = total;
      no_functions = (pic, us, sp, sic, dual, relief, given, ex);
      no_conditions = (night, ifr, xc, multi, solo);
    }

PassesSessionTests-of : (f : Flight) → CoherentSession f → PassesSessionTests f
PassesSessionTests-of f h =
    let (pic, us, sp, sic, dual, relief, given, ex) = h.no_functions in
    let (night, ifr, xc, multi, solo) = h.no_conditions in
    record {
      device = h.device;
      lasting = h.lasting;
      blank = (
        h.no_total,
        (
          pic,
          (
            dual,
            (sic, (given, (multi, (solo, (xc, (night, (ifr, (us, (sp, (ex, (relief, tt))))))))))),
          ),
        ),
      );
      instrument = h.instrument;
    }

contrary : (b : Bool) → b ≡ true → ¬ (b ≡ false)
contrary b h k = cc

accepts_flown :
    (f : Flight) → f.is_simulator ≡ false → (validate_time_distribution f ≡ none) ↔ Coherent f
accepts_flown f e =
    let tests = validate_time_distribution-PassesTests f e in
    (λ h. Coherent-tested f (tests.0 h), λ h. tests.1 (PassesTests-of f h))

validate-session :
    (f : Flight) → f.is_simulator ≡ true → validate_time_distribution f ≡ validate_session_times f
unfolding validate_time_distribution
validate-session f e = rw e refl

accepts_session :
    (f : Flight) → f.is_simulator ≡ true → (validate_time_distribution f ≡ none) ↔ CoherentSession f
accepts_session f e =
    let tests = validate_session_times-PassesSessionTests f in
    rw (validate-session f e)
      (λ h. CoherentSession-tested f (tests.0 h), λ h. tests.1 (PassesSessionTests-of f h))

-- ValidateTimeDistribution returns no error exactly for the following flights. A flight that is no
-- FSTD session is not both as PIC and dual; its total, night, IFR, cross-country, dual-given,
-- examiner, PIC, PICUS, SPIC, SIC, dual and relief times are not negative and at most the total; PIC,
-- PICUS, SPIC, SIC, dual and relief time add up to at most the total; a passenger's total,
-- multi-pilot and solo times are 0; and the day and night landings are not negative. An FSTD session
-- has a device type, a positive session time, at most as much simulated instrument time, and 0 in
-- the total, PIC, PICUS, SPIC, SIC, dual, relief, dual-given, examiner, night, IFR, cross-country,
-- multi-pilot and solo times.
pub validate_time_distribution-Coherent :
    (f : Flight)
    → (validate_time_distribution f ≡ none)
      ↔ (((f.is_simulator ≡ false) × Coherent f) ⊎ ((f.is_simulator ≡ true) × CoherentSession f))
validate_time_distribution-Coherent f = elim (Bool-cases f.is_simulator) [
  | inl e ↦
      let s = accepts_session f e in
      (
        λ h. inr (e, s.0 h),
        λ h. elim h [ inl (n, _) ↦ absurd (contrary f.is_simulator e n) | inr (_, c) ↦ s.1 c ],
      )
  | inr e ↦
      let s = accepts_flown f e in
      (
        λ h. inl (e, s.0 h),
        λ h. elim h [ inl (_, c) ↦ s.1 c | inr (y, _) ↦ absurd (contrary f.is_simulator y e) ],
      )
]
