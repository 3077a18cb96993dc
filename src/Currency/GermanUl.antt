-- ===== src/Currency/GermanUl.antt =====
-- The German ultralight rules of german_ul.go (LuftPersV §45).
use ninerlog_api.Base.{Bool, true, false, Option, none, some, List, [], ◌∷◌, if◌then◌else◌}
use ninerlog_api.Base.Text.{codes, text_eq, to_upper, trim_space}
use ninerlog_api.Models.{
  ClassType, sep_land, tmg, gyro, UlKind, three_axis, weight_shift, gyroplane, helicopter,
  powered_paraglider, sailplane, kind_eq, ClassRating, License,
}
use ninerlog_api.Models.Ultralight.{aircraft_kinds_for_rating}
use ninerlog_api.Currency.Types.{
  total_time, pic_time, landings_key, training_flight, minutes, landings, RuleText, ul_luftpersv,
  ul_luftpersv_helicopter, ul_gyroplane, ul_trike_dulv, ul_trike_daec, ul_powered_paraglider,
  ul_sailplane,
}
use ninerlog_api.Currency.Engine.{
  m_total_minutes, m_pic_minutes, m_instructor_minutes, m_landings, ReqSpec, req_spec, rolling,
  scope_class_group, UlCredit, RatingRule, recency_finalize,
}

unfoldable pub rating_ul_kind : ClassRating → UlKind
rating_ul_kind rating = elim rating.ul_kind [ none ↦ three_axis | some k ↦ k ]

unfoldable pub german_ul_native_credit : ClassRating → List ClassType → Option UlCredit
unfolding rating_ul_kind aircraft_kinds_for_rating
german_ul_native_credit rating classes =
    let kind = rating_ul_kind rating in
    some (record {
      sel = record {
        kinds = aircraft_kinds_for_rating kind;
        include_unspecified = true;
        min_mtom_kg = 0;
      };
      native = true;
      counts_towed = kind_eq kind sailplane;
    })

unfoldable pub german_ul_sep_tmg_classes : ClassRating → List ClassRating → List ClassType
german_ul_sep_tmg_classes rating peers = sep_land ∷ tmg ∷ []

unfoldable pub german_ul_gyro_classes : ClassRating → List ClassRating → List ClassType
german_ul_gyro_classes rating peers = gyro ∷ []

unfoldable pub german_ul_no_classes : ClassRating → List ClassRating → List ClassType
german_ul_no_classes rating peers = []

-- What the seven rules share: a class group, the rating's own ultralights, and a window in years.
abbrev ul_rule :
    RuleText
    → Bool
    → (ClassRating → List ClassRating → List ClassType)
    → Bool
    → List ReqSpec
    → Bool
    → RatingRule
ul_rule description two_years group no_dual reqs with_check = record {
  spec = record {
    description = description;
    window = if two_years then rolling 2 0 0 else rolling 1 0 0;
    scope = scope_class_group group;
    counts_towed = false;
    classes_no_dual = no_dual;
    ul_credit = german_ul_native_credit;
    base_reqs = reqs;
  };
  finalize = recency_finalize with_check;
}

abbrev pub three_axis_reqs : List ReqSpec
three_axis_reqs =
    req_spec total_time m_total_minutes 720 minutes
    ∷ req_spec pic_time m_pic_minutes 360 minutes
    ∷ req_spec landings_key m_landings 12 landings
    ∷ req_spec training_flight m_instructor_minutes 60 minutes
    ∷ []

unfoldable pub german_ul_rule : RatingRule
unfolding german_ul_native_credit german_ul_sep_tmg_classes recency_finalize
german_ul_rule = ul_rule ul_luftpersv true german_ul_sep_tmg_classes true three_axis_reqs true

unfoldable pub german_ul_helicopter_rule : RatingRule
unfolding german_ul_native_credit german_ul_no_classes recency_finalize
german_ul_helicopter_rule =
    ul_rule ul_luftpersv_helicopter false german_ul_no_classes false
      (req_spec total_time m_total_minutes 360 minutes
        ∷ req_spec landings_key m_landings 6 landings
        ∷ req_spec training_flight m_instructor_minutes 60 minutes
        ∷ [])
      true

unfoldable pub german_ul_gyroplane_rule : RatingRule
unfolding german_ul_native_credit german_ul_gyro_classes recency_finalize
german_ul_gyroplane_rule =
    ul_rule ul_gyroplane true german_ul_gyro_classes true three_axis_reqs true

unfoldable pub german_ul_trike_dulv_rule : RatingRule
unfolding german_ul_native_credit german_ul_no_classes recency_finalize
german_ul_trike_dulv_rule =
    ul_rule ul_trike_dulv true german_ul_no_classes false
      (req_spec pic_time m_pic_minutes 720 minutes ∷ []) false

unfoldable pub german_ul_trike_daec_rule : RatingRule
unfolding german_ul_native_credit german_ul_no_classes recency_finalize
german_ul_trike_daec_rule =
    ul_rule ul_trike_daec true german_ul_no_classes false
      (req_spec total_time m_total_minutes 720 minutes
        ∷ req_spec landings_key m_landings 12 landings
        ∷ [])
      false

unfoldable pub german_ul_powered_paraglider_rule : RatingRule
unfolding german_ul_native_credit german_ul_no_classes recency_finalize
german_ul_powered_paraglider_rule =
    ul_rule ul_powered_paraglider true german_ul_no_classes false
      (req_spec landings_key m_landings 30 landings ∷ []) false

unfoldable pub german_ul_sailplane_rule : RatingRule
unfolding german_ul_native_credit german_ul_no_classes recency_finalize
german_ul_sailplane_rule =
    ul_rule ul_sailplane false german_ul_no_classes false
      (req_spec landings_key m_landings 5 landings ∷ []) false

unfoldable pub german_ul_select_rule : UlKind → License → RatingRule
unfolding text_eq to_upper trim_space
german_ul_select_rule helicopter license = german_ul_helicopter_rule
german_ul_select_rule gyroplane license = german_ul_gyroplane_rule
german_ul_select_rule weight_shift license =
    if text_eq (to_upper (trim_space license.regulatory_authority)) (codes "DAEC")
    then german_ul_trike_daec_rule
    else german_ul_trike_dulv_rule
german_ul_select_rule powered_paraglider license = german_ul_powered_paraglider_rule
german_ul_select_rule sailplane license = german_ul_sailplane_rule
german_ul_select_rule kind license = german_ul_rule
