-- ===== src/FlightRules/Names/Matching.antt =====
-- MatchesUser (internal/service/flightrules/names.go) is symmetric and reads the normal forms alone.
use ninerlog_api.Base.{◌≡◌, refl, [], ◌∷◌, arith}
use ninerlog_api.Base.Text.{Text, text_eq}
use ninerlog_api.FlightRules.Names.{normalize_name, matches_user}
use ninerlog_api.FlightRules.Names.Normal.{normalize_name_idem}

text_eq_comm : (s t : Text) → text_eq s t ≡ text_eq t s
unfolding text_eq
text_eq_comm [] [] = refl
text_eq_comm (a ∷ s) (b ∷ t) = ground (arith, text_eq_comm s t)
text_eq_comm [] (b ∷ t) = refl
text_eq_comm (a ∷ s) [] = refl

matches_user_comm : (a b : Text) → matches_user a b ≡ matches_user b a
unfolding matches_user
matches_user_comm a b = let e = text_eq_comm (normalize_name a) (normalize_name b) in ground arith

matches_user-normalize_name :
    (a b : Text) → matches_user (normalize_name a) (normalize_name b) ≡ matches_user a b
unfolding matches_user
matches_user-normalize_name a b = rw (normalize_name_idem a, normalize_name_idem b) refl

-- MatchesUser gives the same answer with its two names exchanged, and reads them through
-- NormalizeName alone: normalised names match exactly when the names do.
pub matches_user_lem :
    (a b : Text)
    → (matches_user a b ≡ matches_user b a)
      × (matches_user (normalize_name a) (normalize_name b) ≡ matches_user a b)
matches_user_lem a b = (matches_user_comm a b, matches_user-normalize_name a b)
