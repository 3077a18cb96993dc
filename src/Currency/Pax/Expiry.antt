-- ===== src/Currency/Pax/Expiry.antt =====
-- The expiry date of passenger currency (passenger_expiry.go) against the lapse test of lapse.go.
use ninerlog_api.Base.{
  ℕ, ◌+◌, ◌-◌, ◌*◌, ◌≤◌, ◌<◌, ◌≡◌, refl, ◌↔◌, true, false, Bool-cases, Option, none, some, inl, inr,
  List, [], ◌∷◌, All, arith, leb, ◌==◌, if◌then◌else◌,
}
use mathlib.Core.Path.{subst}
use ninerlog_api.Clock.{Instant, Day, day_ns, midnight, before}
use ninerlog_api.Currency.Provider.{LandingDay}
use ninerlog_api.Currency.Pax.{
  pax_window_days, expiry_from, pax_expiry_date, window_total, pax_met_at,
}

-- Landing days, newest first.
abbrev pub NewestFirst : List LandingDay → Type 0
NewestFirst [] = Unit
NewestFirst (d ∷ days) = All (λ (e : LandingDay). e.date ≤ d.date) days × NewestFirst days

-- No landing day lies after an instant.
abbrev pub UpTo : Instant → List LandingDay → Type 0
UpTo until = All (λ (d : LandingDay). d.date ≤ until)

module _ (count : LandingDay → ℕ) (start until : Instant) where
  -- Nothing is counted once a day lies before the window.
  window_total_old :
      (days : List LandingDay)
      → All (λ (d : LandingDay). d.date < start) days
      → window_total count start until days ≡ 0
  unfolding window_total
  window_total_old [] h = refl
  window_total_old (d ∷ days) h = ground (arith, window_total_old days h.1)

-- What the loop of paxExpiryDate answers, against what the window from `start` counts.
abbrev ExpiryAnswers : ℕ → ℕ → Instant → Option Instant → Type 0
ExpiryAnswers required counted start none = counted < required
ExpiryAnswers required counted start (some t) =
    (required ≤ counted) ↔ (start + pax_window_days * day_ns ≤ t)

module _ (required : ℕ) (count : LandingDay → ℕ) (start until : Instant) where
  All-older :
      (d : LandingDay) (days : List LandingDay)
      → All (λ (e : LandingDay). e.date ≤ d.date) days
      → d.date < start
      → All (λ (e : LandingDay). e.date < start) days
  All-older d [] h lt = tt
  All-older d (e ∷ days) h lt = (omega arith, All-older d days h.1 lt)

  -- An answer stays right when only days before the window are added to the count.
  ExpiryAnswers-older :
      (c total : ℕ)
      → total < required
      → c < required
      → (r : Option Instant) → ExpiryAnswers required c start r
      → ExpiryAnswers required total start r
  ExpiryAnswers-older c total lt lt' none h = lt
  ExpiryAnswers-older c total lt lt' (some t) h =
      (λ a. absurd (omega arith), λ b. absurd (omega (arith, h.1 b)))

  short_lt : {c : ℕ} → leb required c ≡ false → c < required
  short_lt h = ground (arith, h)

  old_lt : {t : Instant} → before t start ≡ true → t < start
  old_lt h = ground (arith, h)

  window_step :
      (d : LandingDay) (days : List LandingDay)
      → d.date ≤ until
      → window_total count start until (d ∷ days)
        ≡ (if before d.date start then 0 else count d + window_total count start until days)
  unfolding window_total
  window_step d days u = ground arith

  expiry_from-ExpiryAnswers :
      (days : List LandingDay) (total : ℕ)
      → total < required
      → NewestFirst days
      → UpTo until days
      → ExpiryAnswers required
          (total + window_total count start until days)
          start
          (expiry_from required count total days)
  unfolding expiry_from window_total
  expiry_from-ExpiryAnswers [] total lt n u = omega arith
  expiry_from-ExpiryAnswers (d ∷ days) total lt n u =
      rw (window_step d days u.0) (elim (Bool-cases (before d.date start)) [
        | inl old ↦ elim (Bool-cases (leb required (total + count d))) [
          | inl enough ↦
              rw (old, enough, expiry_from)
                (λ a. absurd (omega arith), λ b. absurd (ground (arith, old)))
          | inr short ↦
              rw (old, short, expiry_from)
                (ExpiryAnswers-older (total + count d + window_total count start until days)
                  (total + 0) (omega arith)
                  (let gone : window_total count start until days ≡ 0 =
                      window_total_old count start until days (All-older d days n.0 (old_lt old)) in
                    omega (arith, gone, short_lt short))
                  _ (expiry_from-ExpiryAnswers days (total + count d) (short_lt short) n.1 u.1))
        ]
        | inr fresh ↦ elim (Bool-cases (leb required (total + count d))) [
          | inl enough ↦
              rw (fresh, enough, expiry_from)
                (λ a. ground (arith, fresh), λ b. ground (arith, enough))
          | inr short ↦
              rw (fresh, short, expiry_from)
                (subst
                  (λ k.
                    ExpiryAnswers required k start
                      (expiry_from required count (total + count d) days))
                  (omega arith)
                  (expiry_from-ExpiryAnswers days (total + count d) (short_lt short) n.1 u.1))
        ]
      ])

leb→le : (a b : ℕ) → leb a b ≡ true → a ≤ b
leb→le a b h = ground arith

le→leb : (a b : ℕ) → a ≤ b → leb a b ≡ true
le→leb a b h = ground arith

met_or_date :
    (required : ℕ) (day : Day)
    → 90 ≤ day
    → (counted : ℕ) (r : Option Instant) → ExpiryAnswers required counted (midnight (day - 90)) r
    → (leb required counted ≡ true) ↔ ((t : Instant) × ((r ≡ some t) × (midnight day ≤ t)))
met_or_date required day late counted none h = (λ a. absurd (ground (arith, a)), λ b. absurd cc)
met_or_date required day late counted (some t) h = (
  λ a. (t, (refl, omega (arith, h.0 (leb→le required counted a)))),
  λ (x, (e, l)).
      let same : t ≡ x = cc in le→leb required counted (h.1 (omega (arith, same, l, late))),
)

-- With landing days newest first, none after the day up to which they are read, and a positive
-- requirement, paxExpiryDate's date and the test of paxLapseDate agree: without a waiver, the
-- requirement is met on a day (from day 90 on) exactly when a date is returned that lies on or after
-- the midnight of that day.
pub pax_expiry_date-pax_met_at :
    (days : List LandingDay) (required : ℕ) (count : LandingDay → ℕ) (day until : Day)
    → 0 < required
    → 90 ≤ day
    → NewestFirst days
    → UpTo (midnight until) days
    → (pax_met_at days required count none day until ≡ true)
      ↔ ((t : Instant) × ((pax_expiry_date days required count ≡ some t) × (midnight day ≤ t)))
unfolding pax_met_at pax_expiry_date
pax_expiry_date-pax_met_at days required count day until pos_required late n u =
    let some_required : (required == 0) ≡ false = ground arith in
    rw (some_required) (
      met_or_date required day late (window_total count (midnight (day - 90)) (midnight until) days)
        (expiry_from required count 0 days)
        (subst
          (λ k. ExpiryAnswers required k (midnight (day - 90)) (expiry_from required count 0 days))
          (omega arith)
          (expiry_from-ExpiryAnswers required count (midnight (day - 90)) (midnight until) days 0
            pos_required n u)))
