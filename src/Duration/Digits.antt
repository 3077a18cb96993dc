-- ===== src/Duration/Digits.antt =====
-- The digits that are printed are read back.
use ninerlog_api.Base.{
  ℕ, zero, suc, ◌+◌, ◌-◌, ◌*◌, ◌/◌, ◌%◌, ◌≤◌, ◌<◌, ◌≡◌, ◌∙◌, ap, refl, true, false, Bool-cases, inl,
  inr, ltb, ltb→lt, [], ◌∷◌, ◌++◌, All, arith,
}
use ninerlog_api.Base.Text.{Text}
use ninerlog_api.Duration.{is_digit, digits_onto, decimal, digits_of, after_digits, value}

pub not_ltb : (t u : ℕ) → ltb t u ≡ false → u ≤ t
not_ltb t u h = ground arith

-- One digit, and the last of several.
value_last : (n : ℕ) (out : Text) → ltb n 10 ≡ true → value 0 ((b'0' + n % 10) ∷ out) ≡ value n out
unfolding value
value_last n out e =
    let h : n < 10 = ltb→lt n 10 e in
    let same : 0 * 10 + (b'0' + n % 10 - b'0') ≡ n = omega arith in rw same refl

value_next : (n : ℕ) (out : Text) → value (n / 10) ((b'0' + n % 10) ∷ out) ≡ value n out
unfolding value
value_next n out = let same : n / 10 * 10 + (b'0' + n % 10 - b'0') ≡ n = omega arith in rw same refl

fewer : (n fuel : ℕ) → ltb n 10 ≡ false → n < suc fuel → n / 10 < fuel
fewer n fuel e h = let k : 10 ≤ n = not_ltb n 10 e in omega arith

value-digits_onto :
    (fuel n : ℕ) (out : Text) → n < fuel → value 0 (digits_onto fuel n out) ≡ value n out
unfolding digits_onto
value-digits_onto zero n out h = absurd (omega (arith, h))
value-digits_onto (suc fuel) n out h = elim (Bool-cases (ltb n 10)) [
  | inl e ↦ rw e (value_last n out e)
  | inr e ↦ rw e (
      value-digits_onto fuel (n / 10) ((b'0' + n % 10) ∷ out) (fewer n fuel e h) ∙ value_next n out)
]

pub last_digit : (n : ℕ) → is_digit (b'0' + n % 10) ≡ true
last_digit n = ground arith

unfoldable pub Digits : Text → Type 0
Digits s = All (λ c. is_digit c ≡ true) s

digits_onto-Digits : (fuel n : ℕ) (out : Text) → Digits out → Digits (digits_onto fuel n out)
unfolding Digits digits_onto
digits_onto-Digits zero n out h = h
digits_onto-Digits (suc fuel) n out h = elim (Bool-cases (ltb n 10)) [
  | inl e ↦ rw e (last_digit n, h)
  | inr e ↦ rw e (digits_onto-Digits fuel (n / 10) ((b'0' + n % 10) ∷ out) (last_digit n, h))
]

-- The digits of a text that starts with them.
pub digits_of-append : (s t : Text) → Digits s → digits_of t ≡ [] → digits_of (s ++ t) ≡ s
unfolding Digits digits_of
digits_of-append [] t h k = k
digits_of-append (c ∷ s) t (h, hs) k = rw h (ap (λ x. c ∷ x) (digits_of-append s t hs k))

pub after_digits-append : (s t : Text) → Digits s → after_digits t ≡ t → after_digits (s ++ t) ≡ t
unfolding Digits after_digits
after_digits-append [] t h k = k
after_digits-append (c ∷ s) t (h, hs) k = rw h (after_digits-append s t hs k)

pub decimal-Digits : (n : ℕ) → Digits (decimal n)
unfolding decimal Digits
decimal-Digits n = digits_onto-Digits (suc n) n [] tt

pub value-decimal : (n : ℕ) → value 0 (decimal n) ≡ n
unfolding decimal value
value-decimal n = value-digits_onto (suc n) n [] (omega arith)
