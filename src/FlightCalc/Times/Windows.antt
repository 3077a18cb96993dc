-- ===== src/FlightCalc/Times/Windows.antt =====
-- Where the instants of a flight lie (instantsOf and blockMinutes of
-- internal/service/flightcalc/flightcalc.go).
use ninerlog_api.Base.{
  ℕ, ◌+◌, ◌-◌, ◌/◌, ◌≤◌, ◌<◌, ◌≡◌, ◌⊎◌, ◌∙◌, refl, false, Bool-cases, inl, inr, Option, some, none,
  arith, ltb, ◌==◌, ltb→lt, ==_iff, if◌then◌else◌,
}
use ninerlog_api.Base.Int.{pos}
use ninerlog_api.Base.Text.{Text}
use ninerlog_api.Clock.{Instant, Day, day_of, day_ns, before}
use ninerlog_api.Flight.{Flight}
use ninerlog_api.FlightCalc.Times.{
  minute_ns, FlightInstants, parse_time_of_day, or_zero, instant_on, roll, anchor_of, instants_of,
  in_block_window, takeoff_at, landing_at, minutes_between, parsed_minutes, given_minutes,
  block_minutes,
}
use ninerlog_api.FlightCalc.Times.Parsed.{OnDay, instant_on-OnDay, set_OnDay}

not_ltb : (t u : ℕ) → ltb t u ≡ false → u ≤ t
not_ltb t u h = ground arith

positive_is : (n : ℕ) → 0 < n → (n == 0) ≡ false
positive_is n h = ground arith

-- The instants of a flight: each that is set is no earlier than the anchor, and less than a day later.
WithinDay : Instant → Instant → Type 0
WithinDay anchor t = (t ≡ 0) ⊎ ((anchor ≤ t) × (t < anchor + day_ns))

roll-WithinDay :
    (d : Day) (anchor t : Instant)
    → OnDay d anchor
    → (t ≡ 0) ⊎ OnDay d t
    → WithinDay anchor (roll anchor t)
unfolding roll WithinDay
roll-WithinDay d anchor t h (inl e) = inl (rw e refl)
roll-WithinDay d anchor t h (inr k) = elim (Bool-cases (t == 0)) [
  | inl e ↦ inl (rw e ((==_iff t 0).0 e))
  | inr e ↦ elim (Bool-cases (before t anchor)) [
    | inl b ↦ let p : t < anchor = ltb→lt t anchor b in inr (rw (e, b) (omega arith, omega arith))
    | inr b ↦ let p : anchor ≤ t = not_ltb t anchor b in inr (rw (e, b) (omega arith, omega arith))
  ]
]

-- The block times of a flight, and an event inside them.
Inside : Instant → Instant → Instant → Type 0
Inside off on t = (off ≤ t) × (t ≤ on)

in_block_window-Inside :
    (t from to fallback : Instant)
    → 0 < from
    → 0 < to
    → Inside from to fallback
    → Inside from to (in_block_window t from to fallback)
unfolding in_block_window Inside
in_block_window-Inside t from to fallback a b h = ground arith

-- A flight with both block times.
pub record Ordered (i : FlightInstants) : Type 0 where
  pub forward : i.off_block ≤ i.on_block
  pub within_day : i.on_block < i.off_block + day_ns
  pub takeoff_inside : (i.off_block ≤ takeoff_at i) × (takeoff_at i ≤ i.on_block)
  pub landing_inside : (i.off_block ≤ landing_at i) × (landing_at i ≤ i.on_block)

anchored : (off takeoff : Instant) → 0 < off → anchor_of off takeoff ≡ off
anchored off takeoff h = ground arith

Ordered-of :
    (i : FlightInstants)
    → 0 < i.off_block
    → 0 < i.on_block
    → WithinDay i.off_block i.on_block
    → Ordered i
unfolding WithinDay takeoff_at landing_at Inside
Ordered-of i a b (inl e) = absurd (omega (arith, e))
Ordered-of i a b (inr (h, k)) = record {
  forward = h;
  within_day = k;
  takeoff_inside =
      in_block_window-Inside i.takeoff i.off_block i.on_block i.off_block a b (omega arith, h);
  landing_inside =
      in_block_window-Inside i.landing i.off_block i.on_block i.on_block a b (h, omega arith);
}

-- The instants with the off-block time as the anchor.
instants_of-anchored :
    (f : Flight)
    → 0 < instant_on f.date f.off_block_time
    → instants_of f ≡ record {
      off_block = instant_on f.date f.off_block_time;
      takeoff = roll (instant_on f.date f.off_block_time) (instant_on f.date f.departure_time);
      landing = roll (instant_on f.date f.off_block_time) (instant_on f.date f.arrival_time);
      on_block = roll (instant_on f.date f.off_block_time) (instant_on f.date f.on_block_time);
    }
unfolding instants_of
instants_of-anchored f h =
    rw
      (
        anchored (instant_on f.date f.off_block_time) (instant_on f.date f.departure_time) h,
        positive_is (instant_on f.date f.off_block_time) h,
      )
      refl

off_block_lem : (f : Flight) → (instants_of f).off_block ≡ instant_on f.date f.off_block_time
unfolding instants_of
off_block_lem f = ground arith

-- Where off-block and on-block are both set: on-block is no earlier than off-block and less than a
-- day later, and the instants taken for takeoff and landing lie between them.
pub instants_of-Ordered :
    (f : Flight)
    → 0 < (instants_of f).off_block
    → 0 < (instants_of f).on_block
    → Ordered (instants_of f)
instants_of-Ordered f a b =
    let off = instant_on f.date f.off_block_time in
    let on = instant_on f.date f.on_block_time in
    let set : 0 < off = rw (off_block_lem f) at a in
    let shape = instants_of-anchored f set in
    rw shape (
      Ordered-of
        (record {
          off_block = off;
          takeoff = roll off (instant_on f.date f.departure_time);
          landing = roll off (instant_on f.date f.arrival_time);
          on_block = roll off on;
        })
        set (rw shape at b)
        (roll-WithinDay (day_of f.date) off on
          (set_OnDay (day_of f.date) off (instant_on-OnDay f.date f.off_block_time) set)
          (instant_on-OnDay f.date f.on_block_time)))

-- The block minutes against the two instants.
parsed_minutes-instants :
    (off on : Option Instant)
    → 0 < or_zero off
    → 0 < or_zero on
    → parsed_minutes off on ≡ minutes_between (or_zero off) (or_zero on)
unfolding parsed_minutes
parsed_minutes-instants none on a b = absurd (omega (arith, a))
parsed_minutes-instants (some s) none a b = absurd (omega (arith, b))
parsed_minutes-instants (some s) (some t) a b = refl

same_day : (d : Day) (t u : Instant) → OnDay d t → OnDay d u → t < u + day_ns
same_day d t u (a, b) (c, e) = omega arith

roll_set : (off on : Instant) → 0 < roll off on → 0 < on
unfolding roll
roll_set off on h = ground arith

given_minutes-instants :
    (date : Instant) (off on : Option Text)
    → 0 < instant_on date off
    → 0 < instant_on date on
    → given_minutes date off on ≡ minutes_between (instant_on date off) (instant_on date on)
unfolding given_minutes instant_on
given_minutes-instants date none on a b = absurd (omega (arith, a))
given_minutes-instants date (some s) none a b = absurd (omega (arith, b))
given_minutes-instants date (some s) (some t) a b =
    parsed_minutes-instants (parse_time_of_day date s) (parse_time_of_day date t) a b

minutes_between-roll :
    (off on : Instant)
    → 0 < on
    → off < on + day_ns
    → minutes_between off on
      ≡ (if roll off on == off then pos 1440 else pos ((roll off on - off) / minute_ns))
unfolding minutes_between roll
minutes_between-roll off on h k = ground arith

-- Where off-block and on-block are both set, the block minutes are the whole minutes between them,
-- and 1440 where they are the same.
pub block_minutes-instants_of :
    (f : Flight)
    → 0 < (instants_of f).off_block
    → 0 < (instants_of f).on_block
    → block_minutes f ≡ (
        if (instants_of f).on_block == (instants_of f).off_block
        then pos 1440
        else pos (((instants_of f).on_block - (instants_of f).off_block) / minute_ns))
unfolding block_minutes
block_minutes-instants_of f a b =
    let off = instant_on f.date f.off_block_time in
    let on = instant_on f.date f.on_block_time in
    let set : 0 < off = rw (off_block_lem f) at a in
    let shape = instants_of-anchored f set in
    let set_on : 0 < on = roll_set off on (rw shape at b) in
    rw shape (
      given_minutes-instants f.date f.off_block_time f.on_block_time set set_on
      ∙ minutes_between-roll off on set_on (
          same_day (day_of f.date) off on
            (set_OnDay (day_of f.date) off (instant_on-OnDay f.date f.off_block_time) set)
            (set_OnDay (day_of f.date) on (instant_on-OnDay f.date f.on_block_time) set_on)))
