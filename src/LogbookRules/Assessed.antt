-- ===== src/LogbookRules/Assessed.antt =====
-- Assess (internal/service/logbookrules/rules.go) against the rules of the licences taken singly.
use mathlib.Core.List.{append_assoc, append-nil}
use ninerlog_api.Base.{
  ◌≡◌, ◌∙◌, sym, ap, refl, Bool, true, false, ◌⊎◌, ◌||◌, Option, none, some, inl, inr, List, [],
  ◌∷◌, ◌++◌, any, is_empty, arith, if◌then◌else◌,
}
use ninerlog_api.Base.Text.{Text, codes, to_upper, trim_space, text_eq, equal_fold}
use ninerlog_api.LogbookRules.Terms.{is_de_ul, is_at_national}
use ninerlog_api.LogbookRules.Registry.{
  Window, window_flight_day, window_hours_48, Requirement, requirement_none, requirement_suggested,
  requirement_required, Licence, Rule, Match, Assessment, is_flight_day, required_rule,
  suggested_rule, no_rule, rule_for, shorter, note_rule, assess_from, no_assessment, assess,
}

abbrev pub is_required : Requirement → Bool
is_required requirement_required = true
is_required _ = false

abbrev pub is_suggested : Requirement → Bool
is_suggested requirement_suggested = true
is_suggested _ = false

-- The licences whose rule passes a test, with their rules, in the order of the licences.
unfoldable pub matching : (Requirement → Bool) → List Licence → List Match
matching p [] = []
matching p (l ∷ ls) =
    let rest = matching p ls in
    if p (rule_for l).requirement then (record { licence = l; rule = rule_for l }) ∷ rest else rest

-- The shortest window: that of the flight day if some licence asks for it.
unfoldable pub shortest : List Match → Option Window
shortest ms =
    if any (λ m. is_flight_day m.rule.window) ms
    then some window_flight_day
    else if is_empty ms
    then none
    else some window_hours_48

abbrev matched : Licence → Match
matched l = record { licence = l; rule = rule_for l }

-- A rule that is required has a window.
HasWindow : Rule → Type 0
HasWindow r =
    is_required r.requirement ≡ true
    → (r.window ≡ some window_flight_day) ⊎ (r.window ≡ some window_hours_48)

either : (b : Bool) (x y : Rule) → HasWindow x → HasWindow y → HasWindow (if b then x else y)
either true x y p q = p
either false x y p q = q

silent : HasWindow no_rule
unfolding HasWindow
silent h = absurd (cc h)

suggests : (b : Text) → HasWindow (suggested_rule b)
unfolding HasWindow
suggests b h = absurd (cc h)

asks_day : (b : Text) → HasWindow (required_rule window_flight_day b)
unfolding HasWindow
asks_day b h = inl refl

asks_hours :
    (b : Text)
    → HasWindow (record (required_rule window_hours_48 b) { downward_only_overrides = true })
unfolding HasWindow
asks_hours b h = inr refl

rule_for-HasWindow : (l : Licence) → HasWindow (rule_for l)
unfolding rule_for
rule_for-HasWindow l =
    let c = to_upper (trim_space l.issuing_country) in
    either (is_empty c) _ _ silent (
      either (text_eq c (codes "CH")) _ _ (asks_hours _) (
        either (text_eq c (codes "DE")) _ _
          (either (is_de_ul l.regulatory_authority l.license_type) _ _ (suggests _) (asks_day _))
          (either (text_eq c (codes "AT")) _ _
            (either (is_at_national l.license_type) _ _ (asks_day _) (suggests _))
            (either (text_eq c (codes "AU")) _ _ (asks_day _) (
              either (text_eq c (codes "NZ")) _ _ (asks_day _) (
                either (text_eq c (codes "JP")) _ _ (asks_day _) (
                  either (text_eq c (codes "UY")) _ _ (asks_day _) (
                    either (text_eq c (codes "DK")) _ _ (suggests _) (
                      either (text_eq c (codes "BR")) _ _ (suggests _) (
                        either (text_eq c (codes "GB")) _ _ (suggests _) (
                          either (text_eq c (codes "US")) _ _ (suggests _) (
                            either (equal_fold (trim_space l.regulatory_authority) (codes "EASA")) _
                              _ (suggests _) silent))))))))))))

any_snoc :
    (p : Match → Bool) (ms : List Match) (m : Match) → any p (ms ++ m ∷ []) ≡ (any p ms || p m)
any_snoc p [] m = ground arith
any_snoc p (n ∷ ms) m = ground (arith, any_snoc p ms m)

snoc_some : (ms : List Match) (m : Match) → is_empty (ms ++ m ∷ []) ≡ false
snoc_some [] m = refl
snoc_some (n ∷ ms) m = refl

-- Without licences, nobody asks for the flight day.
any_of_none : (p : Match → Bool) (ms : List Match) → is_empty ms ≡ true → any p ms ≡ false
any_of_none p [] h = refl
any_of_none p (m ∷ ms) h = absurd (cc h)

shorter_cases :
    (asked none_yet : Bool) (w : Option Window)
    → (w ≡ some window_flight_day) ⊎ (w ≡ some window_hours_48)
    → (none_yet ≡ true → asked ≡ false)
    → shorter
        (if asked then some window_flight_day else if none_yet then none else some window_hours_48)
        w
      ≡ (if asked || is_flight_day w then some window_flight_day else some window_hours_48)
unfolding shorter
shorter_cases true true w (inl e) h = absurd (cc (h refl))
shorter_cases true true w (inr e) h = absurd (cc (h refl))
shorter_cases true false w (inl e) h = refl
shorter_cases true false w (inr e) h = refl
shorter_cases false true w (inl e) h = rw e refl
shorter_cases false true w (inr e) h = rw e refl
shorter_cases false false w (inl e) h = rw e refl
shorter_cases false false w (inr e) h = rw e refl

-- One required licence more.
shortest-snoc :
    (ms : List Match) (m : Match)
    → (m.rule.window ≡ some window_flight_day) ⊎ (m.rule.window ≡ some window_hours_48)
    → shorter (shortest ms) m.rule.window ≡ shortest (ms ++ m ∷ [])
unfolding shorter shortest
shortest-snoc ms m w =
    shorter_cases (any (λ n. is_flight_day n.rule.window) ms) (is_empty ms) m.rule.window w
      (any_of_none (λ n. is_flight_day n.rule.window) ms)
    ∙ rw (any_snoc (λ n. is_flight_day n.rule.window) ms m, snoc_some ms m) refl

-- What has been assessed, and the licences still to come.
record Accounts (ls : List Licence) (a r : Assessment) : Type 0 where
  required : r.required ≡ a.required ++ matching is_required ls
  suggested : r.suggested ≡ a.suggested ++ matching is_suggested ls
  window : r.window ≡ shortest r.required
  overrides : r.overrides_downward_only ≡ (
      a.overrides_downward_only
      || any (λ m. m.rule.downward_only_overrides) (matching is_required ls))

assess_from-cons :
    (l : Licence) (ls : List Licence) (a : Assessment)
    → assess_from (l ∷ ls) a ≡ assess_from ls (note_rule (rule_for l).requirement (matched l) a)
unfolding assess_from
assess_from-cons l ls a = refl

or_assoc : (a b c : Bool) → ((a || b) || c) ≡ (a || (b || c))
or_assoc a b c = ground arith

or_false : (a : Bool) → a ≡ (a || false)
or_false a = ground arith

Accounts-step :
    (q : Requirement) (l : Licence) (ls : List Licence) (a r : Assessment)
    → q ≡ (rule_for l).requirement
    → Accounts ls (note_rule q (matched l) a) r
    → Accounts (l ∷ ls) a r
unfolding note_rule matching
Accounts-step requirement_required l ls a r e h = record {
  required =
      h.required
      ∙ append_assoc a.required (matched l ∷ []) (matching is_required ls)
      ∙ rw (sym e) refl;
  suggested = rw (sym e) h.suggested;
  window = h.window;
  overrides =
      h.overrides
      ∙ or_assoc a.overrides_downward_only (rule_for l).downward_only_overrides _
      ∙ rw (sym e) refl;
}
Accounts-step requirement_suggested l ls a r e h = record {
  required = rw (sym e) h.required;
  suggested =
      h.suggested
      ∙ append_assoc a.suggested (matched l ∷ []) (matching is_suggested ls)
      ∙ rw (sym e) refl;
  window = h.window;
  overrides = rw (sym e) h.overrides;
}
Accounts-step requirement_none l ls a r e h = record {
  required = rw (sym e) h.required;
  suggested = rw (sym e) h.suggested;
  window = h.window;
  overrides = rw (sym e) h.overrides;
}

note_rule-window :
    (q : Requirement) (l : Licence) (a : Assessment)
    → q ≡ (rule_for l).requirement
    → a.window ≡ shortest a.required
    → (note_rule q (matched l) a).window ≡ shortest (note_rule q (matched l) a).required
unfolding note_rule HasWindow
note_rule-window requirement_required l a e h =
    ap (λ w. shorter w (rule_for l).window) h
    ∙ shortest-snoc a.required (matched l) (rule_for-HasWindow l (rw (sym e) refl))
note_rule-window requirement_suggested l a e h = h
note_rule-window requirement_none l a e h = h

assess_from-Accounts :
    (ls : List Licence) (a : Assessment)
    → a.window ≡ shortest a.required
    → Accounts ls a (assess_from ls a)
unfolding assess_from matching
assess_from-Accounts [] a h = record {
  required = sym (append-nil a.required);
  suggested = sym (append-nil a.suggested);
  window = h;
  overrides = or_false a.overrides_downward_only;
}
assess_from-Accounts (l ∷ ls) a h =
    Accounts-step (rule_for l).requirement l ls a
      (assess_from ls (note_rule (rule_for l).requirement (matched l) a)) refl
      (assess_from-Accounts ls (note_rule (rule_for l).requirement (matched l) a)
        (note_rule-window (rule_for l).requirement l a refl h))

start : none ≡ shortest []
unfolding shortest
start = refl

assemble :
    (a : Assessment) (r s : List Match) (w : Option Window) (o : Bool)
    → a.required ≡ r
    → a.suggested ≡ s
    → a.window ≡ w
    → a.overrides_downward_only ≡ o
    → a ≡ record { required = r; suggested = s; window = w; overrides_downward_only = o }
assemble a r s w o h₀ h₁ h₂ h₃ = rw (sym h₀, sym h₁, sym h₂, sym h₃) refl

-- The assessment of all licences from the rule of each: the required and the suggested licences in
-- their order, the shortest window among the required, and whether one of these limits overrides.
pub assess_lem :
    (ls : List Licence)
    → assess ls ≡ record {
      required = matching is_required ls;
      suggested = matching is_suggested ls;
      window = shortest (matching is_required ls);
      overrides_downward_only = any (λ m. m.rule.downward_only_overrides) (matching is_required ls);
    }
unfolding assess
assess_lem ls =
    let h = assess_from-Accounts ls no_assessment start in
    assemble (assess_from ls no_assessment) (matching is_required ls) (matching is_suggested ls) _ _
      h.required h.suggested (h.window ∙ ap shortest h.required) h.overrides
