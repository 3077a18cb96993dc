-- ===== src/FlightRules/Names/Normal.antt =====
-- NormalizeName (internal/service/flightrules/names.go) is idempotent.
use ninerlog_api.Base.{
  ℕ, ◌≡◌, ◌∙◌, ap, refl, Bool, true, false, Bool-cases, [], ◌∷◌, inl, inr, arith, ◌==◌,
}
use ninerlog_api.Base.Text.{Text, is_space, to_lower_rune}
use ninerlog_api.Base.Text.Lower.{to_lower_rune_idem, is_space-to_lower_rune}
use ninerlog_api.FlightRules.Names.{
  fold_runes, keep_unless_space, trim_right_spaces, normalize_name,
}

-- A name as the loop leaves it: lower case, no white space but spaces, none of them after a blank.
data Clean : Bool → Text → Type 0 where
  nothing : {p : Bool} → Clean p []
  space : {s : Text} → Clean true s → Clean false (32 ∷ s)
  letter :
      {p : Bool} {c : ℕ} {s : Text}
      → is_space c ≡ false
      → to_lower_rune c ≡ c
      → Clean false s
      → Clean p (c ∷ s)

not_32 : (c : ℕ) → is_space c ≡ false → (c == 32) ≡ false
unfolding is_space
not_32 c h = ground arith

fold_runes-Clean : (p : Bool) (s : Text) → Clean p (fold_runes p s)
unfolding fold_runes
fold_runes-Clean p [] = nothing
fold_runes-Clean true (r ∷ s) = elim (Bool-cases (is_space r)) [
  | inl e ↦ rw e (fold_runes-Clean true s)
  | inr e ↦
      rw e (letter (is_space-to_lower_rune r e) (to_lower_rune_idem r) (fold_runes-Clean false s))
]
fold_runes-Clean false (r ∷ s) = elim (Bool-cases (is_space r)) [
  | inl e ↦ rw e (space (fold_runes-Clean true s))
  | inr e ↦
      rw e (letter (is_space-to_lower_rune r e) (to_lower_rune_idem r) (fold_runes-Clean false s))
]

fold_runes-space : (s : Text) → fold_runes false (32 ∷ s) ≡ 32 ∷ fold_runes true s
unfolding fold_runes is_space
fold_runes-space s = refl

fold_runes-letter :
    (p : Bool) (c : ℕ) (s : Text)
    → is_space c ≡ false
    → to_lower_rune c ≡ c
    → fold_runes p (c ∷ s) ≡ c ∷ fold_runes false s
unfolding fold_runes
fold_runes-letter p c s e l = rw (e, l) refl

-- A clean name is a fixed point of the loop.
Clean-fold_runes : {p : Bool} {s : Text} → Clean p s → fold_runes p s ≡ s
unfolding fold_runes
Clean-fold_runes nothing = refl
Clean-fold_runes (space {s} h) = fold_runes-space s ∙ ap (λ t. 32 ∷ t) (Clean-fold_runes h)
Clean-fold_runes (letter {p} {c} {s} e l h) =
    fold_runes-letter p c s e l ∙ ap (λ t. c ∷ t) (Clean-fold_runes h)

-- Both steps keep a name clean when its last spaces are cut.
keep-space : (t : Text) → Clean true t → Clean false (keep_unless_space 32 t)
unfolding keep_unless_space
keep-space [] h = nothing
keep-space (d ∷ r) h = space h

keep-letter :
    (p : Bool) (c : ℕ) (t : Text)
    → is_space c ≡ false
    → to_lower_rune c ≡ c
    → Clean false t
    → Clean p (keep_unless_space c t)
unfolding keep_unless_space
keep-letter p c [] e l h = rw (not_32 c e) (letter e l nothing)
keep-letter p c (d ∷ r) e l h = letter e l h

trim-Clean : {p : Bool} {s : Text} → Clean p s → Clean p (trim_right_spaces s)
unfolding trim_right_spaces
trim-Clean nothing = nothing
trim-Clean (space {s} h) = keep-space (trim_right_spaces s) (trim-Clean h)
trim-Clean (letter {p} {c} {s} e l h) = keep-letter p c (trim_right_spaces s) e l (trim-Clean h)

trim-keep :
    (c : ℕ) (t : Text)
    → trim_right_spaces t ≡ t
    → trim_right_spaces (keep_unless_space c t) ≡ keep_unless_space c t
unfolding keep_unless_space trim_right_spaces
trim-keep c [] h = elim (Bool-cases (c == 32)) [ inl e ↦ rw e refl | inr e ↦ rw (e, e) refl ]
trim-keep c (d ∷ r) h = rw h refl

trim_idem : (s : Text) → trim_right_spaces (trim_right_spaces s) ≡ trim_right_spaces s
unfolding trim_right_spaces
trim_idem [] = refl
trim_idem (c ∷ s) = trim-keep c (trim_right_spaces s) (trim_idem s)

pub normalize_name_idem : (s : Text) → normalize_name (normalize_name s) ≡ normalize_name s
unfolding normalize_name
normalize_name_idem s =
    ap trim_right_spaces (Clean-fold_runes (trim-Clean (fold_runes-Clean true s)))
    ∙ trim_idem (fold_runes true s)
