-- ===== src/Witnesses/Rules.antt =====
-- The theorems on PIC names and on the logbook rules, applied to concrete data.
use ninerlog_api.Base.{
  ◌||◌, true, false, ◌≡◌, ◌≤◌, ◌==◌, refl, List, [], ◌∷◌, All, any, is_empty, arith,
}
use ninerlog_api.Base.Int.{pos}
use ninerlog_api.Base.Text.{codes, text_eq}
use ninerlog_api.Clock.{midnight}
use ninerlog_api.FlightRules.PicName.{resolve_pic_name_for_save, display_pic_name}
use ninerlog_api.FlightRules.PicName.Saved.{pic_name_lem}
use ninerlog_api.FlightRules.LegacyCrew.{LegacyCrewInput, infer_legacy_crew}
use ninerlog_api.FlightRules.LegacyCrew.Completeness.{listed, names, infer_legacy_crew_lem}
use ninerlog_api.Base.{ℕ, ◌*◌, none}
use ninerlog_api.Duration.{Floats, format_colon_hm, minutes, parse_duration}
use ninerlog_api.Duration.RoundTrip.{parse_duration-format_colon_hm}
use ninerlog_api.LogbookRules.Registry.{
  Licence, rule_for, flight_day_end, window_deadline, assess, deadline,
}
use ninerlog_api.LogbookRules.Deadlines.{closes, deadline_lem}
use ninerlog_api.LogbookRules.Assessed.{matching, shortest, is_required, is_suggested, assess_lem}
use ninerlog_api.Witnesses.Flight.{user, other_pic, with_crew}

pic_name_lem_example :
    (resolve_pic_name_for_save
        (record (with_crew (other_pic ∷ [])) {
          pic_name = resolve_pic_name_for_save (with_crew (other_pic ∷ [])) user;
        })
        user
      ≡ resolve_pic_name_for_save (with_crew (other_pic ∷ [])) user)
    × (is_empty (display_pic_name (with_crew (other_pic ∷ [])) user)
        ≡ (with_crew (other_pic ∷ [])).is_simulator)
pic_name_lem_example = pic_name_lem (with_crew (other_pic ∷ [])) user

abbrev swiss : Licence
swiss = record {
  id = 1;
  regulatory_authority = codes "FOCA";
  license_type = codes "PPL";
  issuing_country = codes "ch";
}

abbrev australian : Licence
australian = record {
  id = 2;
  regulatory_authority = codes "CASA";
  license_type = codes "PPL";
  issuing_country = codes "AU";
}

abbrev both : List Licence
both = swiss ∷ australian ∷ []

assess_lem_example : assess both ≡ record {
  required = matching is_required both;
  suggested = matching is_suggested both;
  window = shortest (matching is_required both);
  overrides_downward_only = any (λ m. m.rule.downward_only_overrides) (matching is_required both);
}
assess_lem_example = assess_lem both

deadline_lem_example :
    All
      (λ m.
        deadline (assess both) (midnight 739000) (midnight 739001) (pos 10)
        ≤ closes (midnight 739000) (midnight 739001) (pos 10) m)
      (assess both).required
    × (any
          (λ m.
            deadline (assess both) (midnight 739000) (midnight 739001) (pos 10)
            == closes (midnight 739000) (midnight 739001) (pos 10) m)
          (assess both).required
        ≡ true)
unfolding assess rule_for text_eq window_deadline flight_day_end
deadline_lem_example =
    deadline_lem (midnight 739000) (midnight 739001) (pos 10) (assess both) refl
      (omega arith, (omega arith, tt))

-- A training flight whose instructor is named apart from the first person.
abbrev row : LegacyCrewInput
row = record {
  person1 = codes " Bessie Coleman ";
  person2 = codes "Amelia Earhart";
  person3 = [];
  person4 = [];
  person5 = [];
  person6 = codes "Guest";
  person1_role = [];
  person2_role = codes "SIC";
  person3_role = [];
  person4_role = [];
  person5_role = [];
  person6_role = codes "observer";
  instructor_name = codes "Hanna";
  has_dual_received = false;
  has_dual_given = false;
}

infer_legacy_crew_lem_example :
    All (λ n. (is_empty n || listed (infer_legacy_crew row) n) ≡ true) (names row)
    × All (λ m. is_empty m.name ≡ false) (infer_legacy_crew row)
infer_legacy_crew_lem_example = infer_legacy_crew_lem row

-- No float is read: the colon format does without.
abbrev no_floats : Floats
no_floats = record {
  Float = ℕ;
  zero_hours = 0;
  parse_float = λ s. none;
  parse_float_anyway = λ s. 0;
  is_below_zero = λ x. false;
  decimal_hours_to_minutes = λ x. pos (x * 60);
}

parse_duration-format_colon_hm_example :
    parse_duration no_floats (format_colon_hm (pos 754)) ≡ minutes (pos 754)
parse_duration-format_colon_hm_example = parse_duration-format_colon_hm no_floats 754 (omega arith)
