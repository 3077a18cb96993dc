-- ===== src/FlightCalc/Steps/Night.antt =====
-- The loop of calculateNightTime (internal/service/flightcalc/flightcalc.go) ends, and counts the
-- minutes of the block time that begin at night.
use ninerlog_api.Base.{
  ℕ, zero, suc, ◌+◌, ◌-◌, ◌*◌, ◌/◌, ◌≤◌, ◌<◌, ◌≡◌, ◌∙◌, ap, sym, refl, Bool, true, false,
  Bool-cases, inl, inr, some, arith, lt→ltb, ltb→lt, if◌then◌else◌,
}
use ninerlog_api.Clock.{Instant, before}
use ninerlog_api.FlightCalc.Times.{minute_ns}
use ninerlog_api.FlightCalc.Steps.{count_night, night_fuel}

-- The number of minutes at night among the first `n` after `t`.
unfoldable pub nights : (Instant → Bool) → ℕ → Instant → ℕ
nights night zero t = 0
nights night (suc n) t =
    let rest = nights night n (t + minute_ns) in if night t then suc rest else rest

count_night-stop :
    (night : Instant → Bool) (arr : Instant) (fuel : ℕ) (t : Instant) (m : ℕ)
    → before t arr ≡ false
    → count_night night arr (suc fuel) t m ≡ some m
unfolding count_night
count_night-stop night arr fuel t m h = rw h refl

count_night-go :
    (night : Instant → Bool) (arr : Instant) (fuel : ℕ) (t : Instant) (m : ℕ)
    → before t arr ≡ true
    → count_night night arr (suc fuel) t m
      ≡ count_night night arr fuel (t + minute_ns) (if night t then suc m else m)
unfolding count_night
count_night-go night arr fuel t m h = rw h refl

nights-suc :
    (night : Instant → Bool) (n : ℕ) (t : Instant) (m : ℕ)
    → (if night t then suc m else m) + nights night n (t + minute_ns) ≡ m + nights night (suc n) t
unfolding nights
nights-suc night n t m = ground arith

add_zero : (night : Instant → Bool) (t : Instant) (m : ℕ) → m + nights night 0 t ≡ m
unfolding nights
add_zero night t m = omega arith

zero_add : (n : ℕ) → 0 + n ≡ n
zero_add n = omega arith

nights-none : (night : Instant → Bool) (t : Instant) → 0 ≡ nights night 0 t
unfolding nights
nights-none night t = refl

not_before : (t u : Instant) → u ≤ t → before t u ≡ false
not_before t u h = ground arith

-- With `n` turns to go.
count_night-nights :
    (night : Instant → Bool) (arr : Instant) (n fuel : ℕ) (t : Instant) (m : ℕ)
    → arr ≤ t + n * minute_ns
    → t + n * minute_ns < arr + minute_ns
    → n < fuel
    → count_night night arr fuel t m ≡ some (m + nights night n t)
count_night-nights night arr n zero t m h k l = absurd (omega (arith, l))
count_night-nights night arr zero (suc fuel) t m h k l =
    count_night-stop night arr fuel t m (not_before t arr (omega arith))
    ∙ ap some (sym (add_zero night t m))
count_night-nights night arr (suc n) (suc fuel) t m h k l =
    count_night-go night arr fuel t m (lt→ltb t arr (omega arith))
    ∙ count_night-nights night arr n fuel (t + minute_ns) (if night t then suc m else m)
        (omega arith) (omega arith) (omega arith)
    ∙ ap some (nights-suc night n t m)

nights_le : (night : Instant → Bool) (n : ℕ) (t : Instant) → nights night n t ≤ n
unfolding nights
nights_le night zero t = omega arith
nights_le night (suc n) t = ground (arith, nights_le night n (t + minute_ns))

-- The minutes begun between two instants.
unfoldable pub minutes_begun : Instant → Instant → ℕ
minutes_begun off on = (on - off + (minute_ns - 1)) / minute_ns

minutes_begun-none : (off on : Instant) → before off on ≡ false → minutes_begun off on ≡ 0
unfolding minutes_begun
minutes_begun-none off on h = ground arith

minutes_begun-some :
    (off on : Instant)
    → before off on ≡ true
    → (on ≤ off + minutes_begun off on * minute_ns)
      × (off + minutes_begun off on * minute_ns < on + minute_ns)
      × (minutes_begun off on < night_fuel off on)
unfolding minutes_begun
minutes_begun-some off on h =
    let le : off < on = ltb→lt off on h in (omega arith, omega arith, omega arith)

-- The fuel is enough for any two instants: the loop of calculateNightTime ends, with the number of
-- minutes at night among those begun between off-block and on-block, at most all of them.
pub count_night_lem :
    (night : Instant → Bool) (off on : Instant)
    → (count_night night on (night_fuel off on) off 0
        ≡ some (nights night (minutes_begun off on) off))
      × (nights night (minutes_begun off on) off ≤ minutes_begun off on)
count_night_lem night off on = (
  elim (Bool-cases (before off on)) [
    | inl e ↦
        let (a, b, c) = minutes_begun-some off on e in
        count_night-nights night on (minutes_begun off on) (night_fuel off on) off 0 a b c
        ∙ ap some (zero_add (nights night (minutes_begun off on) off))
    | inr e ↦ rw (minutes_begun-none off on e) (
        count_night-stop night on (suc ((on - off) / minute_ns)) off 0 e
        ∙ ap some (nights-none night off))
  ],
  nights_le night (minutes_begun off on) off,
)
