-- ===== src/Currency/Lapse/Rounds.antt =====
-- Correctness of lastCurrentDay, for a test that does not fail and is monotone as its comment asks.
use ninerlog_api.Base.{
  ℕ, zero, suc, ◌-◌, ◌≤◌, ◌<◌, ◌≡◌, ◌⊎◌, Bool, true, false, Bool-cases, Option, none, some, inl,
  inr, arith, ltb, ltb→lt,
}
use native.Mathlib.Decide.{dec_lt}
use ninerlog_api.Clock.{Day}
use ninerlog_api.Currency.Lapse.{search_rounds, last_current_day, max_lapse_search_rounds}
use ninerlog_api.Currency.Lapse.Search.{IsLastMet, narrow-IsLastMet}

ltb-false : (a b : ℕ) → ltb a b ≡ false → b ≤ a
ltb-false a b h = ground arith

-- What lastCurrentDay asks of its test: met on a day implies met on every earlier day, and flights
-- that come later do not undo it. `measure` counts what a round can still pass over.
pub record IsMonotone (met : Day → Day → Bool) (measure : Day → ℕ) (floor : Day) : Type 0 where
  pub earlier : (d e u : Day) → d ≤ e → e ≤ u → met e u ≡ true → met d u ≡ true
  pub later : (d u : Day) → d ≤ u → met d d ≡ true → met d u ≡ true
  pub passes :
      (d u : Day)
      → floor ≤ d
      → d ≤ u
      → met d u ≡ true
      → met d d ≡ false
      → measure (d - 1) < measure u
  pub floor_pos : 0 < floor

-- No day from `a` on and up to `b` is current.
abbrev pub NoneCurrent : (Day → Day → Bool) → Day → Day → Type 0
NoneCurrent met a b = (e : Day) → a ≤ e → e ≤ b → met e e ≡ false

-- A right answer for the days up to `until`: the last current day; or none, where there is none or
-- the rounds are too few for what had to be passed over.
abbrev pub Answers : (Day → Day → Bool) → (Day → ℕ) → Day → ℕ → Day → Option (Option Day) → Type 0
Answers met measure floor rounds until none = ⊥
Answers met measure floor rounds until (some none) =
    (rounds ≤ measure until) ⊎ NoneCurrent met floor until
Answers met measure floor rounds until (some (some d)) =
    (floor ≤ d) × (d ≤ until) × (met d d ≡ true) × NoneCurrent met (suc d) until

NoneCurrent-join :
    (met : Day → Day → Bool) (a lo b : Day)
    → NoneCurrent met a (lo - 1)
    → met lo lo ≡ false
    → NoneCurrent met (suc lo) b
    → NoneCurrent met a b
NoneCurrent-join met a lo b below at above e he hb = elim (dec_lt e lo) [
  | yes p ↦ below e he (omega arith)
  | no p ↦ elim (dec_lt lo e) [
    | yes q ↦ above e q hb
    | no q ↦ let same : e ≡ lo = omega arith in rw same at
  ]
]

module _ {met : Day → Day → Bool} {measure : Day → ℕ} {floor : Day}
    (mono : IsMonotone met measure floor) where
  -- A day at which the later flights are of no help ends the days that are current.
  NoneCurrent-from : (d u : Day) → met d u ≡ false → NoneCurrent met d u
  NoneCurrent-from d u h e a b = elim (Bool-cases (met e e)) [
    | inl is ↦ absurd (cc (h, mono.earlier d e u a b (mono.later e u b is)))
    | inr is_not ↦ is_not
  ]

  Answers-extend :
      (rounds lo until : Day)
      → floor ≤ lo
      → lo ≤ until
      → met lo until ≡ true
      → met lo lo ≡ false
      → NoneCurrent met (suc lo) until
      → (r : Option (Option Day)) → Answers met measure floor rounds (lo - 1) r
      → Answers met measure floor (suc rounds) until r
  Answers-extend rounds lo until a b on off above none h = h
  Answers-extend rounds lo until a b on off above (some none) (inl few) =
      inl (omega (arith, mono.passes lo until a b on off))
  Answers-extend rounds lo until a b on off above (some none) (inr no_day) =
      inr (NoneCurrent-join met floor lo until no_day off above)
  Answers-extend rounds lo until a b on off above (some (some d)) (h₀, h₁, h₂, h₃) =
      (h₀, omega arith, h₂, NoneCurrent-join met (suc d) lo until h₃ off above)

  -- What a round finds when the inner loop ends at a day.
  Answers-narrow :
      (rounds until : Day) {r : Option Day}
      → floor ≤ until
      → IsLastMet (λ d. met d until) floor until r
      → (next : (lo : Day)
          → Answers met measure floor rounds
              (lo - 1)
              (search_rounds (λ d u. some (met d u)) floor rounds (lo - 1)))
      → Answers met measure floor (suc rounds) until (elim r [
        | none ↦ none
        | some lo ↦ elim (met lo lo) [
          | true ↦ some (some lo)
          | false ↦ search_rounds (λ d u. some (met d u)) floor rounds (lo - 1)
        ]
      ])
  Answers-narrow rounds until h last next =
      let after : NoneCurrent met (suc last.found) until =
        NoneCurrent-from (suc last.found) until last.not_after in
      elim (Bool-cases (met last.found last.found)) [
        | inl is ↦ rw last.returns (rw is (last.from_lo, omega (arith, last.below_hi), is, after))
        | inr is_not ↦ rw last.returns (
            rw is_not (
              Answers-extend rounds last.found until last.from_lo (omega (arith, last.below_hi))
                last.met_there is_not after _ (next last.found)))
      ]

  floor_lt :
      (until : Day)
      → floor ≤ until
      → met floor until ≡ true
      → met until until ≡ false
      → floor < until
  floor_lt until h on off = elim (dec_lt floor until) [
    | yes p ↦ p
    | no p ↦ let same : floor ≡ until = omega arith in absurd (cc (same, on, off))
  ]

  search_rounds-Answers :
      (rounds until : Day)
      → Answers met measure floor rounds until
          (search_rounds (λ d u. some (met d u)) floor rounds until)
  unfolding search_rounds
  search_rounds-Answers zero until = inl (omega arith)
  search_rounds-Answers (suc rounds) until = elim (Bool-cases (ltb until floor)) [
    | inl out ↦
        rw (out, search_rounds) (inr λ e a b. absurd (omega (arith, ltb→lt until floor out)))
    | inr within ↦ elim (Bool-cases (met until until)) [
      | inl is ↦
          rw (within, is, search_rounds)
            (ltb-false until floor within, omega arith, is, λ e a b. absurd (omega arith))
      | inr is_not ↦ elim (Bool-cases (met floor until)) [
        | inr off ↦ rw (within, is_not, off, search_rounds) (inr (NoneCurrent-from floor until off))
        | inl on ↦
            rw (within, is_not, on, search_rounds)
              (Answers-narrow rounds until (ltb-false until floor within)
                (narrow-IsLastMet (λ d. met d until) (until - floor) floor until (omega arith)
                  (floor_lt until (ltb-false until floor within) on is_not) on is_not)
                (λ lo. search_rounds-Answers rounds (lo - 1)))
      ]
    ]
  ]

-- lastCurrentDay, with a monotone test that does not fail, returns the latest current day from the
-- floor on and before today, and no day only if there is none or if the 64 rounds are too few for
-- what had to be passed over.
pub last_current_day-Answers :
    {met : Day → Day → Bool} {measure : Day → ℕ} {floor : Day}
    → IsMonotone met measure floor
    → (today : Day)
    → Answers met measure floor max_lapse_search_rounds
        (today - 1)
        (last_current_day today floor (λ d u. some (met d u)))
unfolding last_current_day
last_current_day-Answers mono today = search_rounds-Answers mono max_lapse_search_rounds (today - 1)
