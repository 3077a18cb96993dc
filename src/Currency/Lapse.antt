-- ===== src/Currency/Lapse.antt =====
-- The two searches for a lapse date: lastCurrentDay of lapse.go, backwards over the past, and
-- recencyLapseDate of engine.go, forwards from today. Days are midnights, so they are numbered.
pub mod Search
pub mod Forward
pub mod Rounds
use ninerlog_api.Base.{
  ℕ, zero, suc, ◌+◌, ◌-◌, ◌/◌, min, Bool, true, false, Option, none, some, ltb, leb, ◌==◌,
  if◌then◌else◌,
}
use ninerlog_api.Clock.{Day, max_sub_days}

-- spanDays, on midnights a ≤ b.
unfoldable pub span_days : Day → Day → ℕ
span_days a b = min max_sub_days (b - a)

-- The first day that the lapse search considers, 1900-01-01.
abbrev pub lapse_search_floor : Day
lapse_search_floor = 693595

abbrev pub max_lapse_search_rounds : ℕ
max_lapse_search_rounds = 64

-- The inner loop of lastCurrentDay: `lo` is met, `hi` is not. `none` is an error of the test. The
-- span falls by one at least, so hi - lo rounds are enough.
unfoldable pub narrow : (Day → Option Bool) → ℕ → Day → Day → Option Day
unfolding span_days
narrow met_at zero lo hi = some lo
narrow met_at (suc fuel) lo hi = elim (ltb 1 (span_days lo hi)) [
  | false ↦ some lo
  | true ↦
      let mid = lo + span_days lo hi / 2 in
      elim (met_at mid) [
        | none ↦ none
        | some true ↦ narrow met_at fuel mid hi
        | some false ↦ narrow met_at fuel lo mid
      ]
]

-- The outer loop, with the rounds left. The result is the day if there is one; `none` is an error.
unfoldable pub search_rounds :
    (Day → Day → Option Bool) → Day → (rounds : ℕ) → (until : Day) → Option (Option Day)
unfolding narrow
search_rounds met_at floor zero until = some none
search_rounds met_at floor (suc rounds) until = elim (ltb until floor) [
  | true ↦ some none
  | false ↦ elim (met_at until until) [
    | none ↦ none
    | some true ↦ some (some until)
    | some false ↦ elim (met_at floor until) [
      | none ↦ none
      | some false ↦ some none
      | some true ↦ elim (narrow (λ d. met_at d until) (until - floor) floor until) [
        | none ↦ none
        | some lo ↦ elim (met_at lo lo) [
          | none ↦ none
          | some true ↦ some (some lo)
          | some false ↦ search_rounds met_at floor rounds (lo - 1)
        ]
      ]
    ]
  ]
]

unfoldable pub last_current_day : Day → Day → (Day → Day → Option Bool) → Option (Option Day)
unfolding search_rounds
last_current_day today floor met_at = search_rounds met_at floor max_lapse_search_rounds (today - 1)

abbrev pub lapse_after : Option Day → Option Day
lapse_after none = none
lapse_after (some last) = some (last + 1)

-- The loop of recencyLapseDate: `lo` is current, `hi` is not; hi - lo rounds are enough.
unfoldable pub bisect : (ℕ → Bool) → ℕ → ℕ → ℕ → ℕ
bisect current_on zero lo hi = lo
bisect current_on (suc fuel) lo hi = elim (ltb 1 (hi - lo)) [
  | false ↦ lo
  | true ↦
      let mid = (lo + hi) / 2 in
      elim (current_on mid) [
        | true ↦ bisect current_on fuel mid hi
        | false ↦ bisect current_on fuel lo mid
      ]
]

-- recencyLapseDate, for a window of `span` days: the days from today that the rule stays current.
unfoldable pub last_current_offset : (ℕ → Bool) → ℕ → Option ℕ
unfolding bisect
last_current_offset current_on span =
    let hi = span + 1 in
    elim (current_on 0) [
      | false ↦ none
      | true ↦ elim (current_on hi) [ true ↦ none | false ↦ some (bisect current_on hi 0 hi) ]
    ]
