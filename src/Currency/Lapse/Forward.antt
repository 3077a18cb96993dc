-- ===== src/Currency/Lapse/Forward.antt =====
-- Correctness of the search forwards: bisection between a day that is current and one that is not.
use ninerlog_api.Base.{
  ℕ, zero, suc, ◌+◌, ◌-◌, ◌/◌, ◌≤◌, ◌<◌, ◌≡◌, Bool, true, false, Bool-cases, Option, none, some,
  inl, inr, arith, ltb,
}
use ninerlog_api.Currency.Lapse.{bisect, last_current_offset}

-- `m` lies from `lo` on and before `hi`, it is current, and the next day is not.
pub record IsBoundary (current_on : ℕ → Bool) (lo hi m : ℕ) : Type 0 where
  pub from_lo : lo ≤ m
  pub below_hi : m < hi
  pub is_current : current_on m ≡ true
  pub next_not : current_on (suc m) ≡ false

module _ (current_on : ℕ → Bool) where
  bisect_stop : (fuel lo hi : ℕ) → ltb 1 (hi - lo) ≡ false → bisect current_on (suc fuel) lo hi ≡ lo
  unfolding bisect
  bisect_stop fuel lo hi h = rw (h, bisect)

  bisect_up :
      (fuel lo hi : ℕ)
      → ltb 1 (hi - lo) ≡ true
      → current_on ((lo + hi) / 2) ≡ true
      → bisect current_on (suc fuel) lo hi ≡ bisect current_on fuel ((lo + hi) / 2) hi
  unfolding bisect
  bisect_up fuel lo hi h m = rw (h, m, bisect)

  bisect_down :
      (fuel lo hi : ℕ)
      → ltb 1 (hi - lo) ≡ true
      → current_on ((lo + hi) / 2) ≡ false
      → bisect current_on (suc fuel) lo hi ≡ bisect current_on fuel lo ((lo + hi) / 2)
  unfolding bisect
  bisect_down fuel lo hi h m = rw (h, m, bisect)

  mid_between : (lo hi : ℕ) → ltb 1 (hi - lo) ≡ true → (lo < (lo + hi) / 2) × ((lo + hi) / 2 < hi)
  mid_between lo hi h = ground arith

  last_step : (lo hi : ℕ) → lo < hi → ltb 1 (hi - lo) ≡ false → suc lo ≡ hi
  last_step lo hi l h = ground arith

  bisect-IsBoundary :
      (fuel lo hi : ℕ)
      → hi - lo ≤ fuel
      → lo < hi
      → current_on lo ≡ true
      → current_on hi ≡ false
      → IsBoundary current_on lo hi (bisect current_on fuel lo hi)
  bisect-IsBoundary zero lo hi f l a b = absurd (omega arith)
  bisect-IsBoundary (suc fuel) lo hi f l a b = elim (Bool-cases (ltb 1 (hi - lo))) [
    | inr done ↦ rw (bisect_stop fuel lo hi done) (record {
      from_lo = omega arith;
      below_hi = l;
      is_current = a;
      next_not = rw (last_step lo hi l done) b;
    })
    | inl more ↦
        let (above, below) = mid_between lo hi more in
        elim (Bool-cases (current_on ((lo + hi) / 2))) [
          | inl on ↦ rw (bisect_up fuel lo hi more on) (
              IsBoundary-widen _ (omega arith) (omega arith)
                (bisect-IsBoundary fuel ((lo + hi) / 2) hi (omega arith) below on b))
          | inr off ↦ rw (bisect_down fuel lo hi more off) (
              IsBoundary-widen _ (omega arith) (omega arith)
                (bisect-IsBoundary fuel lo ((lo + hi) / 2) (omega arith) above a off))
        ]
  ]
    where
      IsBoundary-widen :
          (m : ℕ) {a b c d : ℕ}
          → a ≤ c
          → d ≤ b
          → IsBoundary current_on c d m
          → IsBoundary current_on a b m
      IsBoundary-widen m h k x = record {
        from_lo = omega (arith, x.from_lo);
        below_hi = omega (arith, x.below_hi);
        is_current = x.is_current;
        next_not = x.next_not;
      }

-- What recencyLapseDate's search returns: an offset is a last current day within the window; none
-- means that today is not current or that the day after a whole window still is.
abbrev pub OffsetAnswers : (ℕ → Bool) → ℕ → Option ℕ → Type 0
OffsetAnswers current_on span (some m) = IsBoundary current_on 0 (span + 1) m
OffsetAnswers current_on span none = (current_on 0 ≡ true) → current_on (span + 1) ≡ true

-- The search of recencyLapseDate over a window of `span` days, for any test: an offset that it
-- returns is current and lies within the window, and the next day is not current; without an offset,
-- today is not current or the day after the window still is.
pub last_current_offset-OffsetAnswers :
    (current_on : ℕ → Bool) (span : ℕ)
    → OffsetAnswers current_on span (last_current_offset current_on span)
unfolding last_current_offset
last_current_offset-OffsetAnswers current_on span = elim (Bool-cases (current_on 0)) [
  | inr off ↦ rw (off, last_current_offset) (λ on. cc)
  | inl on ↦ elim (Bool-cases (current_on (span + 1))) [
    | inl still ↦ rw (on, still, last_current_offset) (λ _. still)
    | inr lapsed ↦
        rw (on, lapsed, last_current_offset)
          (bisect-IsBoundary current_on (span + 1) 0 (span + 1) (omega arith) (omega arith) on
            lapsed)
  ]
]
