-- ===== src/Currency/FlightReview.antt =====
-- The flight review of faa.go (14 CFR 61.56).
use mathlib.Core.Path.{subst}
use ninerlog_api.Currency.Types.{Status}
use ninerlog_api.Base.{
  refl, Bool-cases, inl, inr, Bool, false, true, ◌≤◌, ◌<◌, ◌≡◌, ◌↔◌, arith, ◌*◌, ℕ, ◌+◌, ◌-◌, not,
  none, some, if◌then◌else◌,
}
use ninerlog_api.Base.Int.{pos, leb_ℤ}
use ninerlog_api.Clock.{
  day_ns, Instant, Day, day_of, midnight, before, sub_days, month_day, month_index,
}
use ninerlog_api.Currency.Types.{
  current, expiring, expired, unknown, flight_review_evaluation_failed,
  flight_review_none_on_record, flight_review_expired, flight_review_expiring,
  flight_review_current, msg_date, msg_days_date, FlightReviewStatus,
}
use ninerlog_api.Currency.Provider.{FlightDataProvider}

-- The last day of the 24th month after that of the review: time.Date with day 0 of the 25th.
unfoldable pub review_expires_on : Instant → Day
unfolding month_day month_index
review_expires_on last_review = month_day (month_index (day_of last_review) + 25) 0 - 1

unfoldable pub faa_flight_review_status : (now last_review : Instant) → FlightReviewStatus
unfolding review_expires_on sub_days
faa_flight_review_status now last_review =
    let completed = day_of last_review in
    let expires = review_expires_on last_review in
    let valid_until = midnight (expires + 1) in
    let days_until_expiry = sub_days valid_until now in
    if not (before now valid_until)
    then record {
      last_completed = some completed;
      expires_on = some expires;
      status = expired;
      message_key = flight_review_expired;
      message_params = msg_date completed;
    }
    else if leb_ℤ days_until_expiry (pos 90)
    then record {
      last_completed = some completed;
      expires_on = some expires;
      status = expiring;
      message_key = flight_review_expiring;
      message_params = msg_days_date days_until_expiry completed;
    }
    else record {
      last_completed = some completed;
      expires_on = some expires;
      status = current;
      message_key = flight_review_current;
      message_params = msg_date completed;
    }

unfoldable pub evaluate_flight_review :
    (wall : Instant) → ℕ → FlightDataProvider → FlightReviewStatus
unfolding faa_flight_review_status
evaluate_flight_review wall user_id dp = elim (dp.get_last_flight_review user_id) [
  | none ↦ record {
    last_completed = none;
    expires_on = none;
    status = unknown;
    message_key = flight_review_evaluation_failed;
    message_params = none;
  }
  | some none ↦ record {
    last_completed = none;
    expires_on = none;
    status = expired;
    message_key = flight_review_none_on_record;
    message_params = none;
  }
  | some (some last_review) ↦ faa_flight_review_status wall last_review
]

-- Fewer than 91 days are left, by the whole days.
soon :
    (now v : Instant) → now < v → (leb_ℤ (sub_days v now) (pos 90) ≡ true) ↔ (v < now + 91 * day_ns)
unfolding sub_days
soon now v h = ground arith

abbrev picked : Bool → Bool → Status
picked gone late = if not gone then expired else if late then expiring else current

picked_lem :
    (now v : Instant) (late : Bool)
    → (now < v → (late ≡ true) ↔ (v < now + 91 * day_ns))
    → let s = picked (before now v) late in
      ((s ≡ expired) ↔ (v ≤ now))
      × ((s ≡ expiring) ↔ ((now < v) × (v < now + 91 * day_ns)))
      × ((s ≡ current) ↔ (now + 91 * day_ns ≤ v))
picked_lem now v true h = ground (arith, h)
picked_lem now v false h = ground (arith, h)

review_picked :
    (now last_review : Instant)
    → let r = faa_flight_review_status now last_review in
      let v = midnight (review_expires_on last_review + 1) in
      (r.expires_on ≡ some (review_expires_on last_review))
      × (picked (before now v) (leb_ℤ (sub_days v now) (pos 90)) ≡ r.status)
unfolding faa_flight_review_status
review_picked now last_review =
    let v : Instant = midnight (review_expires_on last_review + 1) in
    elim (Bool-cases (before now v)) [
      | inr gone ↦ rw (gone, faa_flight_review_status) (refl, refl)
      | inl valid ↦ elim (Bool-cases (leb_ℤ (sub_days v now) (pos 90))) [
        | inl late ↦ rw (valid, late, faa_flight_review_status) (refl, refl)
        | inr early ↦ rw (valid, early, faa_flight_review_status) (refl, refl)
      ]
    ]

review_Splits :
    (now last_review : Instant)
    → let r = faa_flight_review_status now last_review in
      let end_of_validity = midnight (review_expires_on last_review + 1) in
      (r.expires_on ≡ some (review_expires_on last_review))
      × ((r.status ≡ expired) ↔ (end_of_validity ≤ now))
      × ((r.status ≡ expiring) ↔ ((now < end_of_validity) × (end_of_validity < now + 91 * day_ns)))
      × ((r.status ≡ current) ↔ (now + 91 * day_ns ≤ end_of_validity))
review_Splits now last_review =
    let v : Instant = midnight (review_expires_on last_review + 1) in
    let (e, s) = review_picked now last_review in
    let rest =
      (subst
        (λ (x : Status).
          ((x ≡ expired) ↔ (v ≤ now))
          × ((x ≡ expiring) ↔ ((now < v) × (v < now + 91 * day_ns)))
          × ((x ≡ current) ↔ (now + 91 * day_ns ≤ v)))
        s (picked_lem now v (leb_ℤ (sub_days v now) (pos 90)) (soon now v))) in
    (e, rest.0, rest.1, rest.2)

-- The flight review of 14 CFR 61.56, once its date is read: the status is expired exactly from the
-- midnight that ends the expiry date, expiring exactly in the 91 days before it, and current exactly
-- before these; the expiry date reported is the one that review_expires_on computes.
pub faa_flight_review_status_lem :
    (wall last_review : Instant) (user_id : ℕ) (dp : FlightDataProvider)
    → dp.get_last_flight_review user_id ≡ some (some last_review)
    → let r = evaluate_flight_review wall user_id dp in
      let end_of_validity = midnight (review_expires_on last_review + 1) in
      (r.expires_on ≡ some (review_expires_on last_review))
      × ((r.status ≡ expired) ↔ (end_of_validity ≤ wall))
      × ((r.status ≡ expiring)
          ↔ ((wall < end_of_validity) × (end_of_validity < wall + 91 * day_ns)))
      × ((r.status ≡ current) ↔ (wall + 91 * day_ns ≤ end_of_validity))
unfolding evaluate_flight_review
faa_flight_review_status_lem wall last_review user_id dp h =
    rw (h, evaluate_flight_review) (review_Splits wall last_review)
