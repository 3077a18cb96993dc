-- ===== src/Base/Text/Lower.antt =====
-- unicode.ToLower is idempotent, and makes no white space.
use native.Mathlib.Decide.{dec_le}
use ninerlog_api.Base.{ℕ, ◌≤◌, ◌<◌, ◌≡◌, ◌∙◌, sym, ap, ◌⊎◌, inl, inr, false, arith}
use ninerlog_api.Base.Text.{
  is_space, latin_lower, extended_lower, greek_lower, cyrillic_lower, to_lower_rune,
}

-- Which block a code point is mapped by.
by_latin : (c : ℕ) → c ≤ 0xFF → to_lower_rune c ≡ latin_lower c
unfolding to_lower_rune
by_latin c h = ground arith

by_extended : (c : ℕ) → 0xFF < c → c ≤ 0x17F → to_lower_rune c ≡ extended_lower c
unfolding to_lower_rune
by_extended c h k = ground arith

by_greek : (c : ℕ) → 0x17F < c → c ≤ 0x3FF → to_lower_rune c ≡ greek_lower c
unfolding to_lower_rune
by_greek c h k = ground arith

by_cyrillic : (c : ℕ) → 0x3FF < c → to_lower_rune c ≡ cyrillic_lower c
unfolding to_lower_rune
by_cyrillic c h = ground arith

latin_stays :
    (c : ℕ) → c ≤ 0xFF → (latin_lower c ≤ 0xFF) × (latin_lower (latin_lower c) ≡ latin_lower c)
unfolding latin_lower
latin_stays c h = ground arith

-- U+0130 and U+0178 go to Latin-1, the others stay.
extended_stays :
    (c : ℕ)
    → 0xFF < c
    → c ≤ 0x17F
    → ((extended_lower c ≤ 0xFF) × (latin_lower (extended_lower c) ≡ extended_lower c))
      ⊎ ((0xFF < extended_lower c)
          × (extended_lower c ≤ 0x17F)
          × (extended_lower (extended_lower c) ≡ extended_lower c))
unfolding extended_lower latin_lower
extended_stays c h k = ground arith

greek_stays :
    (c : ℕ)
    → 0x17F < c
    → c ≤ 0x3FF
    → (0x17F < greek_lower c)
      × (greek_lower c ≤ 0x3FF)
      × (greek_lower (greek_lower c) ≡ greek_lower c)
unfolding greek_lower
greek_stays c h k = ground arith

cyrillic_stays :
    (c : ℕ)
    → 0x3FF < c
    → (0x3FF < cyrillic_lower c) × (cyrillic_lower (cyrillic_lower c) ≡ cyrillic_lower c)
unfolding cyrillic_lower
cyrillic_stays c h = ground arith

-- The four blocks of code points.
data Block (c : ℕ) : Type 0 where
  latin : c ≤ 0xFF → Block c
  extended : 0xFF < c → c ≤ 0x17F → Block c
  greek : 0x17F < c → c ≤ 0x3FF → Block c
  cyrillic : 0x3FF < c → Block c

placed : (c : ℕ) → Block c
placed c = elim (dec_le c 0xFF) [
  | yes h ↦ latin h
  | no h ↦ elim (dec_le c 0x17F) [
    | yes k ↦ extended (omega arith) k
    | no k ↦ elim (dec_le c 0x3FF) [ yes l ↦ greek (omega arith) l | no l ↦ cyrillic (omega arith) ]
  ]
]

-- A letter that a block leaves as it is.
kept :
    (c d : ℕ)
    → to_lower_rune c ≡ d
    → to_lower_rune d ≡ d
    → to_lower_rune (to_lower_rune c) ≡ to_lower_rune c
kept c d e f = ap to_lower_rune e ∙ f ∙ sym e

pub to_lower_rune_idem : (c : ℕ) → to_lower_rune (to_lower_rune c) ≡ to_lower_rune c
to_lower_rune_idem c = elim (placed c) [
  | latin h ↦
      let (b, e) = latin_stays c h in
      kept c (latin_lower c) (by_latin c h) (by_latin (latin_lower c) b ∙ e)
  | extended h k ↦ kept c (extended_lower c) (by_extended c h k) (elim (extended_stays c h k) [
    | inl (b, e) ↦ by_latin (extended_lower c) b ∙ e
    | inr (a, b, e) ↦ by_extended (extended_lower c) a b ∙ e
  ])
  | greek h k ↦
      let (a, b, e) = greek_stays c h k in
      kept c (greek_lower c) (by_greek c h k) (by_greek (greek_lower c) a b ∙ e)
  | cyrillic h ↦
      let (a, e) = cyrillic_stays c h in
      kept c (cyrillic_lower c) (by_cyrillic c h) (by_cyrillic (cyrillic_lower c) a ∙ e)
]

latin_no_space : (c : ℕ) → c ≤ 0xFF → is_space c ≡ false → is_space (latin_lower c) ≡ false
unfolding latin_lower is_space
latin_no_space c h k = ground arith

extended_no_space : (c : ℕ) → 0xFF < c → c ≤ 0x17F → is_space (extended_lower c) ≡ false
unfolding extended_lower is_space
extended_no_space c h k = ground arith

-- There is no white space among the letters of these blocks.
letters : (c : ℕ) → 0x17F < c → c ≤ 0x167F → is_space c ≡ false
unfolding is_space
letters c h k = ground arith

cyrillic_kept : (c : ℕ) → 0x45F < c → cyrillic_lower c ≡ c
unfolding cyrillic_lower
cyrillic_kept c h = ground arith

cyrillic_bound : (c : ℕ) → 0x3FF < c → c ≤ 0x45F → cyrillic_lower c ≤ 0x45F
unfolding cyrillic_lower
cyrillic_bound c h k = ground arith

pub is_space-to_lower_rune : (c : ℕ) → is_space c ≡ false → is_space (to_lower_rune c) ≡ false
is_space-to_lower_rune c n = elim (placed c) [
  | latin h ↦ ap is_space (by_latin c h) ∙ latin_no_space c h n
  | extended h k ↦ ap is_space (by_extended c h k) ∙ extended_no_space c h k
  | greek h k ↦
      let (a, b, e) = greek_stays c h k in
      ap is_space (by_greek c h k) ∙ letters (greek_lower c) a (omega arith)
  | cyrillic h ↦ ap is_space (by_cyrillic c h) ∙ elim (dec_le c 0x45F) [
    | yes k ↦
        let low = cyrillic_bound c h k in
        let high = (cyrillic_stays c h).0 in letters (cyrillic_lower c) (omega arith) (omega arith)
    | no k ↦ ap is_space (cyrillic_kept c (omega arith)) ∙ n
  ]
]
