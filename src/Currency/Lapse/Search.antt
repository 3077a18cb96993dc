-- ===== src/Currency/Lapse/Search.antt =====
-- Correctness of the search backwards.
use ninerlog_api.Base.{
  ℕ, zero, suc, ◌+◌, ◌-◌, ◌/◌, ◌≤◌, ◌<◌, ◌≡◌, Bool, true, false, Bool-cases, Option, some, inl, inr,
  arith, ltb,
}
use ninerlog_api.Clock.{Day}
use ninerlog_api.Currency.Lapse.{span_days, narrow}

-- `r` is a day from `lo` on and before `hi` that is met, while the next is not.
pub record IsLastMet (met : Day → Bool) (lo hi : Day) (r : Option Day) : Type 0 where
  pub found : Day
  pub returns : r ≡ some found
  pub from_lo : lo ≤ found
  pub below_hi : found < hi
  pub met_there : met found ≡ true
  pub not_after : met (suc found) ≡ false

-- The middle lies strictly between the ends while more than one day is left.
mid_between :
    (lo hi : Day)
    → ltb 1 (span_days lo hi) ≡ true
    → (lo < lo + span_days lo hi / 2) × (lo + span_days lo hi / 2 < hi)
unfolding span_days
mid_between lo hi h = ground arith

last_span : (lo hi : Day) → lo < hi → ltb 1 (span_days lo hi) ≡ false → suc lo ≡ hi
unfolding span_days
last_span lo hi l h = ground arith

module _ (met : Day → Bool) (fuel lo hi : ℕ) where
  narrow_stop :
      ltb 1 (span_days lo hi) ≡ false → narrow (λ d. some (met d)) (suc fuel) lo hi ≡ some lo
  unfolding narrow
  narrow_stop h = rw (h, narrow)

  narrow_up :
      ltb 1 (span_days lo hi) ≡ true
      → met (lo + span_days lo hi / 2) ≡ true
      → narrow (λ d. some (met d)) (suc fuel) lo hi
        ≡ narrow (λ d. some (met d)) fuel (lo + span_days lo hi / 2) hi
  unfolding narrow
  narrow_up h m = rw (h, m, narrow)

  narrow_down :
      ltb 1 (span_days lo hi) ≡ true
      → met (lo + span_days lo hi / 2) ≡ false
      → narrow (λ d. some (met d)) (suc fuel) lo hi
        ≡ narrow (λ d. some (met d)) fuel lo (lo + span_days lo hi / 2)
  unfolding narrow
  narrow_down h m = rw (h, m, narrow)

IsLastMet-widen :
    {met : Day → Bool} {lo lo' hi hi' : Day} {r : Option Day}
    → lo ≤ lo'
    → hi' ≤ hi
    → IsLastMet met lo' hi' r
    → IsLastMet met lo hi r
IsLastMet-widen a b x = record {
  found = x.found;
  returns = x.returns;
  from_lo = omega arith;
  below_hi = omega arith;
  met_there = x.met_there;
  not_after = x.not_after;
}

-- With enough fuel the inner loop finds the last day that is met.
pub narrow-IsLastMet :
    (met : Day → Bool) (fuel lo hi : ℕ)
    → hi - lo ≤ fuel
    → lo < hi
    → met lo ≡ true
    → met hi ≡ false
    → IsLastMet met lo hi (narrow (λ d. some (met d)) fuel lo hi)
narrow-IsLastMet met zero lo hi f l a b = absurd (omega arith)
narrow-IsLastMet met (suc fuel) lo hi f l a b = elim (Bool-cases (ltb 1 (span_days lo hi))) [
  | inr done ↦ record {
    found = lo;
    returns = narrow_stop met fuel lo hi done;
    from_lo = omega arith;
    below_hi = l;
    met_there = a;
    not_after = rw (last_span lo hi l done) b;
  }
  | inl more ↦
      let mid : Day = lo + span_days lo hi / 2 in
      let (above, below) = mid_between lo hi more in
      elim (Bool-cases (met mid)) [
        | inl yes_mid ↦ rw (narrow_up met fuel lo hi more yes_mid) (
            IsLastMet-widen (omega arith) (omega arith)
              (narrow-IsLastMet met fuel mid hi (omega arith) below yes_mid b))
        | inr no_mid ↦ rw (narrow_down met fuel lo hi more no_mid) (
            IsLastMet-widen (omega arith) (omega arith)
              (narrow-IsLastMet met fuel lo mid (omega arith) above a no_mid))
      ]
]
