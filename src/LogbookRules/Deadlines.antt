-- ===== src/LogbookRules/Deadlines.antt =====
-- The deadline for editing a flight (Deadline of internal/service/logbookrules/rules.go) is the
-- earliest of the required licences.
use mathlib.Core.Path.{subst}
use ninerlog_api.Base.{
  ◌≤◌, ◌<◌, ◌≡◌, ◌⊎◌, sym, ap, ◌∙◌, refl, Bool, true, false, inl, inr, ◌||◌, ◌==◌, ==_iff, List, [],
  ◌∷◌, All, any, is_empty, arith, if◌then◌else◌,
}
use ninerlog_api.Base.Int.{ℤ}
use ninerlog_api.Clock.{Instant, before}
use ninerlog_api.LogbookRules.Registry.{
  Match, Assessment, window_deadline, earliest_deadline, deadline,
}

earlier_of : Instant → Instant → Instant
earlier_of earliest d = if earliest == 0 || before d earliest then d else earliest

or_true : (b : Bool) → (b || true) ≡ true
or_true b = ground arith

first_of : (d : Instant) → earlier_of 0 d ≡ d
unfolding earlier_of
first_of d = refl

earlier_of_lem :
    (earliest d : Instant)
    → 0 < d
    → (0 < earlier_of earliest d)
      × (earlier_of earliest d ≤ d)
      × ((0 < earliest) → earlier_of earliest d ≤ earliest)
      × ((earlier_of earliest d ≡ d) ⊎ ((0 < earliest) × (earlier_of earliest d ≡ earliest)))
unfolding earlier_of
earlier_of_lem earliest d h = (ground arith, ground arith, ground arith, ground arith)

module _ (flight_date landed_at : Instant) (offset : ℤ) where
  abbrev pub closes : Match → Instant
  closes m = window_deadline m.rule.window flight_date landed_at offset

  loop : List Match → Instant → Instant
  loop ms e = earliest_deadline ms flight_date landed_at offset e

  loop-cons :
      (m : Match) (ms : List Match) (e : Instant)
      → loop (m ∷ ms) e ≡ loop ms (earlier_of e (closes m))
  unfolding loop earliest_deadline earlier_of
  loop-cons m ms e = refl

  loop-nil : (e : Instant) → loop [] e ≡ e
  unfolding loop earliest_deadline
  loop-nil e = refl

  -- The result, from the earliest so far.
  loop_le : (ms : List Match) (e : Instant) → 0 < e → All (λ m. 0 < closes m) ms → loop ms e ≤ e
  loop_le [] e h a = rw (loop-nil e) (omega arith)
  loop_le (m ∷ ms) e h (a, b) =
      let s = earlier_of_lem e (closes m) a in
      let k = loop_le ms (earlier_of e (closes m)) s.0 b in
      let l = s.2 h in rw (loop-cons m ms e) (omega arith)

  loop-All :
      (ms : List Match) (e : Instant)
      → All (λ m. 0 < closes m) ms
      → All (λ m. loop ms e ≤ closes m) ms
  loop-All [] e a = tt
  loop-All (m ∷ ms) e (a, b) =
      let s = earlier_of_lem e (closes m) a in
      let k = loop_le ms (earlier_of e (closes m)) s.0 b in
      (
        rw (loop-cons m ms e) (omega (arith, s.1)),
        subst (λ x. All (λ n. x ≤ closes n) ms) (sym (loop-cons m ms e))
            (loop-All ms (earlier_of e (closes m)) b),
      )

  -- The result is the earliest so far or one of the deadlines.
  OneOf : List Match → Instant → Type 0
  OneOf ms d = any (λ m. d == closes m) ms ≡ true

  one_here : (d : Instant) (m : Match) (ms : List Match) → d ≡ closes m → OneOf (m ∷ ms) d
  unfolding OneOf
  one_here d m ms h = let e = (==_iff d (closes m)).1 h in rw e refl

  one_there : (d : Instant) (m : Match) (ms : List Match) → OneOf ms d → OneOf (m ∷ ms) d
  unfolding OneOf
  one_there d m ms h = rw h (or_true (d == closes m))

  loop-OneOf :
      (ms : List Match) (e : Instant)
      → 0 < e
      → All (λ m. 0 < closes m) ms
      → (loop ms e ≡ e) ⊎ OneOf ms (loop ms e)
  loop-OneOf [] e h a = inl (loop-nil e)
  loop-OneOf (m ∷ ms) e h (a, b) =
      let s = earlier_of_lem e (closes m) a in
      let step = loop-cons m ms e in
      elim (loop-OneOf ms (earlier_of e (closes m)) s.0 b) [
        | inl same ↦ elim s.3 [
          | inl new ↦ inr (one_here (loop (m ∷ ms) e) m ms (step ∙ same ∙ new))
          | inr old ↦ inl (step ∙ same ∙ old.1)
        ]
        | inr later ↦
            inr (one_there (loop (m ∷ ms) e) m ms (subst (λ x. OneOf ms x) (sym step) later))
      ]

  -- From no earliest at all.
  loop-start :
      (m : Match) (ms : List Match)
      → All (λ n. 0 < closes n) (m ∷ ms)
      → OneOf (m ∷ ms) (loop (m ∷ ms) 0)
  loop-start m ms (a, b) =
      let first = first_of (closes m) in
      let step = loop-cons m ms 0 in
      let e = step ∙ ap (λ x. loop ms x) first in
      elim (loop-OneOf ms (closes m) a b) [
        | inl same ↦ one_here (loop (m ∷ ms) 0) m ms (e ∙ same)
        | inr later ↦ one_there (loop (m ∷ ms) 0) m ms (subst (λ x. OneOf ms x) (sym e) later)
      ]

  deadline-loop :
      (a : Assessment)
      → is_empty a.required ≡ false
      → deadline a flight_date landed_at offset ≡ loop a.required 0
  unfolding deadline loop
  deadline-loop a h = rw h refl

  start-OneOf :
      (ms : List Match) → is_empty ms ≡ false → All (λ n. 0 < closes n) ms → OneOf ms (loop ms 0)
  start-OneOf [] h a = absurd (cc h)
  start-OneOf (m ∷ ms) h a = loop-start m ms a

  -- Where a licence requires a window and every window closes after year 1 begins, the deadline is no
  -- later than the end of any required licence's window, and is the end of one of them.
  pub deadline_lem :
      (a : Assessment)
      → is_empty a.required ≡ false
      → All (λ m. 0 < closes m) a.required
      → All (λ m. deadline a flight_date landed_at offset ≤ closes m) a.required
        × (any (λ m. deadline a flight_date landed_at offset == closes m) a.required ≡ true)
  unfolding OneOf
  deadline_lem a some_required positive =
      let e = sym (deadline-loop a some_required) in
      (
        subst (λ x. All (λ m. x ≤ closes m) a.required) e (loop-All a.required 0 positive),
        subst (λ x. any (λ m. x == closes m) a.required ≡ true) e
            (start-OneOf a.required some_required positive),
      )
