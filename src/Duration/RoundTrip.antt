-- ===== src/Duration/RoundTrip.antt =====
-- ParseDuration reads what FormatColonHM prints (pkg/duration/duration.go).
use ninerlog_api.Base.{
  ℕ, zero, suc, ◌+◌, ◌*◌, ◌/◌, ◌%◌, ◌≤◌, ◌<◌, ◌≡◌, ◌∙◌, ap, refl, true, false, Bool-cases, inl, inr,
  ltb, lt→ltb, ltb→lt, leb, ◌==◌, some, [], ◌∷◌, ◌++◌, All, is_empty, length, arith,
}
use ninerlog_api.Base.Int.{pos}
use ninerlog_api.Base.Text.{Text, is_space}
use ninerlog_api.Base.Text.Trim.{trim_space-solid}
use ninerlog_api.Duration.{
  max_int, is_digit, digits_onto, decimal, padded, format_colon_hm, Floats, digits_of, after_digits,
  value, atoi_or_max, wrap, starts_with_colon, tail_of, match_colon, minutes, count_of, dotted,
  colon_minutes, parse_duration,
}
use ninerlog_api.Duration.Digits.{
  Digits, digits_of-append, after_digits-append, decimal-Digits, value-decimal, not_ltb,
}

digits_of-all : (s : Text) → Digits s → digits_of s ≡ s
unfolding Digits digits_of
digits_of-all [] h = refl
digits_of-all (c ∷ s) (h, hs) = rw h (ap (λ x. c ∷ x) (digits_of-all s hs))

after_digits-all : (s : Text) → Digits s → after_digits s ≡ []
unfolding Digits after_digits
after_digits-all [] h = refl
after_digits-all (c ∷ s) (h, hs) = rw h (after_digits-all s hs)

-- The shape of the two numbers.
one_digit :
    (fuel n : ℕ) (out : Text) → n < 10 → digits_onto (suc fuel) n out ≡ (b'0' + n % 10) ∷ out
unfolding digits_onto
one_digit fuel n out h = let e : ltb n 10 ≡ true = lt→ltb n 10 h in rw e refl

tens :
    (n : ℕ) (out : Text)
    → 10 ≤ n
    → n < 100
    → digits_onto n (n / 10) out ≡ (b'0' + n / 10 % 10) ∷ out
tens zero out h k = absurd (omega (arith, h))
tens (suc fuel) out h k = one_digit fuel (suc fuel / 10) out (omega arith)

-- Two digits, for a number below 60.
record IsPadded (n : ℕ) (s : Text) : Type 0 where
  digits : Digits s
  two : length s ≡ 2
  reads : value 0 s ≡ n

of_digits :
    (n a b : ℕ) → a * 10 + b ≡ n → a < 10 → b < 10 → IsPadded n ((b'0' + a) ∷ (b'0' + b) ∷ [])
unfolding Digits value
of_digits n a b e h k = record {
  digits = (ground arith, (ground arith, tt));
  two = refl;
  reads = omega (arith, e);
}

padded-IsPadded : (n : ℕ) → n < 60 → IsPadded n (padded n)
unfolding padded
padded-IsPadded n h = elim (Bool-cases (ltb n 10)) [
  | inl e ↦
      let k : n < 10 = ltb→lt n 10 e in
      rw e (of_digits n 0 (n % 10) (omega arith) (omega arith) (omega arith))
  | inr e ↦
      let k : 10 ≤ n = not_ltb n 10 e in
      rw (e, tens n ((b'0' + n % 10) ∷ []) k (omega arith))
        (of_digits n (n / 10 % 10) (n % 10) (omega arith) (omega arith) (omega arith))
]

-- The text is made of digits and the colon.
Plain : Text → Type 0
Plain s = All (λ c. ((is_space c ≡ false) × ((c == b',') ≡ false))) s

digit-Plain : (c : ℕ) → is_digit c ≡ true → (is_space c ≡ false) × ((c == b',') ≡ false)
unfolding is_space
digit-Plain c h = (ground arith, ground arith)

Digits-Plain : (s : Text) → Digits s → Plain s
unfolding Digits Plain
Digits-Plain [] h = tt
Digits-Plain (c ∷ s) (h, hs) = (digit-Plain c h, Digits-Plain s hs)

Plain-append : (s t : Text) → Plain s → Plain t → Plain (s ++ t)
unfolding Plain
Plain-append [] t h k = k
Plain-append (c ∷ s) t (h, hs) k = (h, Plain-append s t hs k)

Plain-trim : (s : Text) → Plain s → All (λ c. is_space c ≡ false) s
unfolding Plain
Plain-trim [] h = tt
Plain-trim (c ∷ s) (h, hs) = (h.0, Plain-trim s hs)

Plain-count : (s : Text) → Plain s → count_of b',' s ≡ 0
unfolding Plain count_of
Plain-count [] h = refl
Plain-count (c ∷ s) (h, hs) = rw h.1 (Plain-count s hs)

Plain-dotted : (s : Text) → Plain s → dotted s ≡ s
unfolding dotted
Plain-dotted s h = rw (Plain-count s h) refl

some_text : (s : Text) (c : ℕ) (t : Text) → is_empty (s ++ c ∷ t) ≡ false
some_text [] c t = refl
some_text (d ∷ s) c t = refl

two_some : (s : Text) → length s ≡ 2 → is_empty s ≡ false
two_some [] h = absurd (omega (arith, h))
two_some (c ∷ s) h = refl

-- The colon between hours and minutes.
match_colon-Plain :
    (h m : Text)
    → Digits h
    → is_empty h ≡ false
    → Digits m
    → length m ≡ 2
    → match_colon (h ++ b':' ∷ m) ≡ some (h, m)
unfolding match_colon starts_with_colon tail_of digits_of after_digits
match_colon-Plain h m a e b two =
    rw
      (
        digits_of-append h (b':' ∷ m) a refl,
        after_digits-append h (b':' ∷ m) a refl,
        digits_of-all m b,
        after_digits-all m b,
        e,
        two_some m two,
        two,
      )
      refl

wrap_small : (n : ℕ) → n ≤ max_int → wrap n ≡ pos n
unfolding wrap
wrap_small n h = ground arith

atoi_small : (s : Text) (a : ℕ) → value 0 s ≡ a → a ≤ max_int → atoi_or_max s ≡ a
unfolding atoi_or_max
atoi_small s a e h = rw e (omega arith)

below_60 : (b : ℕ) → b < 60 → leb 60 b ≡ false
below_60 b h = ground arith

colon_minutes-small :
    (h m : Text) (a b : ℕ)
    → value 0 h ≡ a
    → value 0 m ≡ b
    → b < 60
    → a * 60 + b ≤ max_int
    → colon_minutes h m ≡ minutes (pos (a * 60 + b))
unfolding colon_minutes
colon_minutes-small h m a b e g k l =
    rw
      (
        atoi_small h a e (omega arith),
        atoi_small m b g (omega arith),
        below_60 b k,
        wrap_small (a * 60 + b) l,
      )
      refl

parse_duration-Plain :
    (fl : Floats) (s h m : Text)
    → is_empty s ≡ false
    → Plain s
    → match_colon s ≡ some (h, m)
    → parse_duration fl s ≡ colon_minutes h m
unfolding parse_duration
parse_duration-Plain fl s h m e p k =
    rw (trim_space-solid s (Plain-trim s p), e, Plain-dotted s p, k) refl

format_colon_hm-shape :
    (n : ℕ) → format_colon_hm (pos n) ≡ decimal (n / 60) ++ b':' ∷ padded (n % 60)
unfolding format_colon_hm
format_colon_hm-shape n = refl

digits_onto-some : (fuel n : ℕ) (out : Text) → is_empty (digits_onto (suc fuel) n out) ≡ false
unfolding digits_onto
digits_onto-some zero n out = ground arith
digits_onto-some (suc fuel) n out = elim (Bool-cases (ltb n 10)) [
  | inl e ↦ rw e refl
  | inr e ↦ rw e (digits_onto-some fuel (n / 10) ((b'0' + n % 10) ∷ out))
]

decimal-some : (n : ℕ) → is_empty (decimal n) ≡ false
unfolding decimal
decimal-some n = digits_onto-some n n []

colon-Plain : (is_space b':' ≡ false) × ((b':' == b',') ≡ false)
unfolding is_space
colon-Plain = (refl, refl)

colon-Plain_cons : (s : Text) → Plain s → Plain (b':' ∷ s)
unfolding Plain
colon-Plain_cons s h = (colon-Plain, h)

-- ParseDuration reads every number of minutes that FormatColonHM prints, up to the largest int.
pub parse_duration-format_colon_hm :
    (fl : Floats) (n : ℕ)
    → n ≤ max_int
    → parse_duration fl (format_colon_hm (pos n)) ≡ minutes (pos n)
parse_duration-format_colon_hm fl n h =
    let hours = decimal (n / 60) in
    let mins = padded (n % 60) in
    let shape = padded-IsPadded (n % 60) (omega arith) in
    let whole : n / 60 * 60 + n % 60 ≡ n = omega arith in
    ap (parse_duration fl) (format_colon_hm-shape n)
    ∙ parse_duration-Plain fl (hours ++ b':' ∷ mins) hours mins (some_text hours b':' mins)
        (Plain-append hours (b':' ∷ mins) (Digits-Plain hours (decimal-Digits (n / 60)))
          (colon-Plain_cons mins (Digits-Plain mins shape.digits)))
        (match_colon-Plain hours mins (decimal-Digits (n / 60)) (decimal-some (n / 60)) shape.digits
          shape.two)
    ∙ colon_minutes-small hours mins (n / 60) (n % 60) (value-decimal (n / 60)) shape.reads
        (omega arith) (omega arith)
    ∙ ap (λ x. minutes (pos x)) whole
