-- ===== src/Currency/Easa/Select.antt =====
-- The choice of a rule: easaSelectRule of easa.go, with the licence type tests, and otherSelectRule
-- of other.go.
use ninerlog_api.Base.{Bool, false, ◌||◌, [], if◌then◌else◌}
use ninerlog_api.Base.Text.{Text, codes, text_eq, to_upper, trim_space}
use ninerlog_api.Models.{
  ClassType, sep_land, sep_sea, mep_land, mep_sea, set_land, set_sea, tmg, ir, glider, ul, gyro,
  class_eq, ClassRating, License,
}
use ninerlog_api.Currency.Types.{rating_no_expiry_date_manual, other_expiry}
use ninerlog_api.Currency.Engine.{no_window, scope_by_class, RatingRule, no_ul_credit}
use ninerlog_api.Currency.Easa.Revalidation.{
  easa_sep_tmg_rule, easa_mep_set_rule, easa_ir_rule, easa_expiry_only_rule, expiry_only_finalize,
}
use ninerlog_api.Currency.Easa.Recency.{easa_lapl_rule, easa_gpl_rule}
use ninerlog_api.Currency.Easa.Sailplane.{easa_spl_rule}
use ninerlog_api.Currency.Easa.SplTmg.{easa_spl_tmg_rule}

unfoldable pub is_easa_lapl_a : Text → Bool
unfolding text_eq to_upper trim_space
is_easa_lapl_a license_type =
    let lt = to_upper (trim_space license_type) in
    text_eq lt (codes "LAPL") || text_eq lt (codes "LAPL(A)")

unfoldable pub is_easa_sailplane : Text → Bool
unfolding text_eq to_upper trim_space
is_easa_sailplane license_type =
    let lt = to_upper (trim_space license_type) in
    text_eq lt (codes "SPL") || text_eq lt (codes "LAPL(S)")

unfoldable pub is_gpl : Text → Bool
unfolding text_eq to_upper trim_space
is_gpl license_type = text_eq (to_upper (trim_space license_type)) (codes "GPL")

-- The last switch, for PPL, CPL and ATPL.
revalidation_rule : ClassType → RatingRule
revalidation_rule sep_land = easa_sep_tmg_rule
revalidation_rule sep_sea = easa_sep_tmg_rule
revalidation_rule tmg = easa_sep_tmg_rule
revalidation_rule mep_land = easa_mep_set_rule
revalidation_rule mep_sea = easa_mep_set_rule
revalidation_rule set_land = easa_mep_set_rule
revalidation_rule set_sea = easa_mep_set_rule
revalidation_rule _ = easa_expiry_only_rule

-- The part of the choice that reads the licence type.
licence_rule : ClassType → Text → RatingRule
unfolding is_easa_lapl_a is_easa_sailplane revalidation_rule
licence_rule ct lt =
    if is_easa_lapl_a lt
    then easa_lapl_rule
    else if is_easa_sailplane lt
    then (if class_eq ct tmg then easa_spl_tmg_rule else easa_spl_rule)
    else revalidation_rule ct

select_by_class : ClassType → Text → RatingRule
unfolding licence_rule
select_by_class ir lt = easa_ir_rule
select_by_class glider lt = easa_spl_rule
select_by_class gyro lt = easa_gpl_rule
select_by_class ul lt = easa_expiry_only_rule
select_by_class ct lt = licence_rule ct lt

unfoldable pub easa_select_rule : ClassRating → License → RatingRule
unfolding select_by_class
easa_select_rule rating license = select_by_class rating.class_type (to_upper license.license_type)

unfoldable pub other_expiry_rule : RatingRule
unfolding expiry_only_finalize
other_expiry_rule = record {
  spec = record {
    description = other_expiry;
    window = no_window;
    scope = scope_by_class;
    counts_towed = false;
    classes_no_dual = false;
    ul_credit = no_ul_credit;
    base_reqs = [];
  };
  finalize = expiry_only_finalize rating_no_expiry_date_manual;
}

unfoldable pub other_select_rule : ClassRating → RatingRule
other_select_rule rating =
    if class_eq rating.class_type glider then easa_spl_rule else other_expiry_rule
