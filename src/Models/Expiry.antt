-- ===== src/Models/Expiry.antt =====
-- internal/models/expiry.go and the expiry methods of class_rating.go. Expiry values are read from
-- DATE columns, in UTC, so both readings of a calendar date in expiry.go are the one in UTC.
use ninerlog_api.Base.{ℕ, Bool, false, ◌&&◌, Option, none, some}
use ninerlog_api.Base.Int.{ℤ, pos, ltb_ℤ, leb_ℤ}
use ninerlog_api.Clock.{Instant, day_of, midnight, sub_days}
use ninerlog_api.Models.{ClassRating}

unfoldable pub calendar_date : Instant → Instant
calendar_date t = midnight (day_of t)

unfoldable pub days_until_expiry : Instant → Instant → ℤ
unfolding calendar_date sub_days
days_until_expiry expiry now = sub_days (calendar_date expiry) (calendar_date now)

unfoldable pub expired_at : Option Instant → Instant → Bool
unfolding days_until_expiry
expired_at none now = false
expired_at (some expiry) now = ltb_ℤ (days_until_expiry expiry now) (pos 0)

unfoldable pub expiring_within : Option Instant → Instant → ℕ → Bool
unfolding days_until_expiry
expiring_within none now days = false
expiring_within (some expiry) now days =
    let d = days_until_expiry expiry now in leb_ℤ (pos 0) d && leb_ℤ d (pos days)

unfoldable pub is_expired_at : ClassRating → Instant → Bool
unfolding expired_at
is_expired_at cr now = expired_at cr.expiry_date now

unfoldable pub is_expiring_soon_at : ClassRating → Instant → ℕ → Bool
unfolding expiring_within
is_expiring_soon_at cr now days = expiring_within cr.expiry_date now days
