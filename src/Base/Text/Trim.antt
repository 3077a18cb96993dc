-- ===== src/Base/Text/Trim.antt =====
-- A trimmed text is not trimmed to nothing.
use ninerlog_api.Base.{ℕ, ◌≡◌, ◌∙◌, ap, refl, false, Bool-cases, inl, inr, [], ◌∷◌, is_empty, All}
use ninerlog_api.Base.Text.{Text, is_space, trim_left, keep_unless_blank, trim_right, trim_space}

-- The text starts with no white space.
data Started : Text → Type 0 where
  nothing : Started []
  word : {c : ℕ} {s : Text} → is_space c ≡ false → Started (c ∷ s)

trim_left-Started : (s : Text) → Started (trim_left s)
unfolding trim_left
trim_left-Started [] = nothing
trim_left-Started (c ∷ s) = elim (Bool-cases (is_space c)) [
  | inl e ↦ rw e (trim_left-Started s)
  | inr e ↦ rw e (word e)
]

keep-Started : (c : ℕ) (t : Text) → is_space c ≡ false → Started (keep_unless_blank c t)
unfolding keep_unless_blank
keep-Started c [] e = rw e (word e)
keep-Started c (d ∷ r) e = word e

trim_right-Started : {s : Text} → Started s → Started (trim_right s)
unfolding trim_right
trim_right-Started nothing = nothing
trim_right-Started (word {c} {s} e) = keep-Started c (trim_right s) e

Started-trim_left : {s : Text} → Started s → trim_left s ≡ s
unfolding trim_left
Started-trim_left nothing = refl
Started-trim_left (word e) = rw e refl

keep_some : (c : ℕ) (t : Text) → is_space c ≡ false → is_empty (keep_unless_blank c t) ≡ false
unfolding keep_unless_blank
keep_some c [] e = rw e refl
keep_some c (d ∷ r) e = refl

Started-trim_right : {s : Text} → Started s → is_empty (trim_right s) ≡ is_empty s
unfolding trim_right
Started-trim_right nothing = refl
Started-trim_right (word {c} {s} e) = keep_some c (trim_right s) e

pub trim_space_again : (s : Text) → is_empty (trim_space (trim_space s)) ≡ is_empty (trim_space s)
unfolding trim_space
trim_space_again s =
    let t = trim_right-Started (trim_left-Started s) in
    ap (λ u. is_empty (trim_right u)) (Started-trim_left t) ∙ Started-trim_right t

keep_solid : (c : ℕ) (s : Text) → is_space c ≡ false → keep_unless_blank c s ≡ c ∷ s
unfolding keep_unless_blank
keep_solid c [] h = rw h refl
keep_solid c (d ∷ r) h = refl

-- A text without white space is not trimmed.
trim_right-solid : (s : Text) → All (λ c. is_space c ≡ false) s → trim_right s ≡ s
unfolding trim_right
trim_right-solid [] h = refl
trim_right-solid (c ∷ s) (h, hs) = rw (trim_right-solid s hs) (keep_solid c s h)

pub trim_space-solid : (s : Text) → All (λ c. is_space c ≡ false) s → trim_space s ≡ s
unfolding trim_space trim_left
trim_space-solid [] h = trim_right-solid [] h
trim_space-solid (c ∷ s) (h, hs) = rw h (trim_right-solid (c ∷ s) (h, hs))
