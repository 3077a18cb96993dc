-- ===== src/UpdateCheck/Antisymmetry.antt =====
-- The order of versions (internal/updatecheck/semver.go) is antisymmetric.
use ninerlog_api.Base.{
  ℕ, ◌≤◌, ◌≡◌, ◌∙◌, ap, sym, refl, Bool, true, false, Bool-cases, inl, inr, Option, none, some,
  List, [], ◌∷◌, All, arith, if◌then◌else◌,
}
use ninerlog_api.Base.Int.{ℤ, pos, pos_part, ◌≤ℤ◌, ◌-ℤ◌, eqb_ℤ}
use ninerlog_api.Base.Text.{Text, text_eq}
use ninerlog_api.Duration.{max_int, atoi, wrap, wrap_ℤ}
use ninerlog_api.UpdateCheck.{
  Version, Sign, below, same, above, sign, text_compare, ident_sign, or_next, split_dots,
  compare_idents, compare_prerelease, number_sign, compare_versions,
}

pub flip : Sign → Sign
flip below = above
flip same = same
flip above = below

flip-text_compare : (s t : Text) → flip (text_compare s t) ≡ text_compare t s
unfolding flip text_compare
flip-text_compare [] [] = refl
flip-text_compare [] (d ∷ t) = refl
flip-text_compare (c ∷ s) [] = refl
flip-text_compare (c ∷ s) (d ∷ t) = ground (arith, flip-text_compare s t)

flip-number_sign : (m n : ℕ) → flip (number_sign m n) ≡ number_sign n m
unfolding flip
flip-number_sign m n = ground arith

flip-or_next : (s r : Sign) → flip (or_next s r) ≡ or_next (flip s) (flip r)
unfolding flip
flip-or_next below r = refl
flip-or_next same r = refl
flip-or_next above r = refl

-- Numbers that are not negative have differences in the range of int.
abbrev pub InRange : ℤ → Type 0
InRange n = (pos 0 ≤ℤ n) × (pos_part n ≤ max_int)

difference_sign :
    (m n : ℤ)
    → InRange m
    → InRange n
    → sign (wrap_ℤ (m -ℤ n)) ≡ number_sign (pos_part m) (pos_part n)
unfolding sign wrap_ℤ wrap ◌-ℤ◌
difference_sign m n h k = ground arith

-- An identifier that is a number, where it is one, is not negative.
abbrev pub NumberInRange : Option ℤ → Type 0
NumberInRange none = Unit
NumberInRange (some n) = InRange n

eqb_comm : (m n : ℤ) → eqb_ℤ m n ≡ eqb_ℤ n m
eqb_comm m n = ground arith

flip-ident_sign :
    (o p : Option ℤ) (a b : Text)
    → NumberInRange o
    → NumberInRange p
    → flip (ident_sign o p a b) ≡ ident_sign p o b a
unfolding flip ident_sign
flip-ident_sign none none a b h k = flip-text_compare a b
flip-ident_sign none (some n) a b h k = refl
flip-ident_sign (some m) none a b h k = refl
flip-ident_sign (some m) (some n) a b h k = elim (Bool-cases (eqb_ℤ m n)) [
  | inl e ↦ rw (e, sym (eqb_comm m n) ∙ e) refl
  | inr e ↦
      rw (e, sym (eqb_comm m n) ∙ e, difference_sign m n h k, difference_sign n m k h)
        (flip-number_sign (pos_part m) (pos_part n))
]

abbrev pub NotNegative : List Text → Type 0
NotNegative ts = All (λ t. NumberInRange (atoi t)) ts

compare_idents-cons :
    (a b : Text) (s t : List Text)
    → compare_idents (a ∷ s) (b ∷ t)
      ≡ or_next (ident_sign (atoi a) (atoi b) a b) (compare_idents s t)
unfolding compare_idents
compare_idents-cons a b s t = refl

flip-compare_idents :
    (s t : List Text)
    → NotNegative s
    → NotNegative t
    → flip (compare_idents s t) ≡ compare_idents t s
unfolding flip compare_idents
flip-compare_idents [] [] h k = refl
flip-compare_idents [] (b ∷ t) h k = refl
flip-compare_idents (a ∷ s) [] h k = refl
flip-compare_idents (a ∷ s) (b ∷ t) (h, hs) (k, ks) =
    flip-or_next (ident_sign (atoi a) (atoi b) a b) (compare_idents s t)
    ∙ ap (λ x. or_next x (flip (compare_idents s t))) (flip-ident_sign (atoi a) (atoi b) a b h k)
    ∙ ap (λ x. or_next (ident_sign (atoi b) (atoi a) b a) x) (flip-compare_idents s t hs ks)

text_eq_comm : (s t : Text) → text_eq s t ≡ text_eq t s
unfolding text_eq
text_eq_comm [] [] = refl
text_eq_comm (a ∷ s) (b ∷ t) = ground (arith, text_eq_comm s t)
text_eq_comm [] (b ∷ t) = refl
text_eq_comm (a ∷ s) [] = refl

flip_if :
    (b c : Bool) (x y : Sign)
    → b ≡ c
    → flip x ≡ y
    → flip (if b then same else x) ≡ (if c then same else y)
unfolding flip
flip_if true c x y e f = rw (sym e) refl
flip_if false c x y e f = rw (sym e) f

flip-compare_prerelease :
    (a b : Text)
    → NotNegative (split_dots a)
    → NotNegative (split_dots b)
    → flip (compare_prerelease a b) ≡ compare_prerelease b a
unfolding flip compare_prerelease text_eq
flip-compare_prerelease [] [] h k = refl
flip-compare_prerelease [] (d ∷ b) h k = refl
flip-compare_prerelease (c ∷ a) [] h k = refl
flip-compare_prerelease (c ∷ a) (d ∷ b) h k =
    let e = text_eq_comm (c ∷ a) (d ∷ b) in
    let f = flip-compare_idents (split_dots (c ∷ a)) (split_dots (d ∷ b)) h k in
    flip_if (text_eq (c ∷ a) (d ∷ b)) (text_eq (d ∷ b) (c ∷ a)) _ _ e f

flip_next :
    (s r : Sign) {s' r' : Sign} → flip s ≡ s' → flip r ≡ r' → flip (or_next s r) ≡ or_next s' r'
flip_next s r e f = flip-or_next s r ∙ rw (e, f) refl

-- compare is antisymmetric on versions whose prerelease identifiers, where they are numbers, are not
-- negative and in the range of int: with the versions exchanged its sign is the opposite one.
pub flip-compare_versions :
    (v w : Version)
    → NotNegative (split_dots v.prerelease)
    → NotNegative (split_dots w.prerelease)
    → flip (compare_versions v w) ≡ compare_versions w v
unfolding compare_versions
flip-compare_versions v w h k =
    flip_next (number_sign v.major w.major) _ (flip-number_sign v.major w.major) (
      flip_next (number_sign v.minor w.minor) _ (flip-number_sign v.minor w.minor) (
        flip_next (number_sign v.patch w.patch) _ (flip-number_sign v.patch w.patch)
          (flip-compare_prerelease v.prerelease w.prerelease h k)))
