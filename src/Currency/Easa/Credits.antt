-- ===== src/Currency/Easa/Credits.antt =====
-- credited_classes.go, and the ultralight credit of gpl.go.
use ninerlog_api.Base.{
  Bool, false, Option, none, some, List, [], ◌∷◌, ◌&&◌, ◌||◌, any, is_empty, if◌then◌else◌,
}
use ninerlog_api.Models.{
  ClassType, sep_land, sep_sea, mep_land, mep_sea, set_land, set_sea, tmg, class_eq, UlKind,
  gyroplane, ClassRating,
}
use ninerlog_api.Models.Ultralight.{valid_aircraft_ul_kinds, part_fcl_class}
use ninerlog_api.Currency.Engine.{UlCredit}

unfoldable pub easa_aeroplane_classes : List ClassType
easa_aeroplane_classes = sep_land ∷ sep_sea ∷ mep_land ∷ mep_sea ∷ set_land ∷ set_sea ∷ tmg ∷ []

unfoldable pub easa_lapl_classes : ClassRating → List ClassRating → List ClassType
unfolding easa_aeroplane_classes
easa_lapl_classes rating peers = easa_aeroplane_classes

unfoldable pub has_class : List ClassRating → ClassType → Bool
has_class ratings ct = any (λ r. class_eq r.class_type ct) ratings

unfoldable pub contains_class : List ClassType → ClassType → Bool
contains_class classes ct = any (λ c. class_eq c ct) classes

unfoldable pub easa_sep_tmg_classes : ClassRating → List ClassRating → List ClassType
unfolding has_class
easa_sep_tmg_classes rating peers =
    if (class_eq rating.class_type sep_land || class_eq rating.class_type tmg)
      && has_class peers sep_land
      && has_class peers tmg
    then sep_land ∷ tmg ∷ []
    else rating.class_type ∷ []

-- The test of the loop of easaAnnexICredit.
credits_kind : List ClassType → UlKind → Bool
unfolding part_fcl_class contains_class
credits_kind classes k = elim (part_fcl_class k) [
  | none ↦ false
  | some ct ↦ contains_class classes ct
]

select_kinds : List ClassType → List UlKind → List UlKind
unfolding credits_kind
select_kinds classes [] = []
select_kinds classes (k ∷ ks) =
    if credits_kind classes k then k ∷ select_kinds classes ks else select_kinds classes ks

unfoldable pub easa_annex_i_credit : ClassRating → List ClassType → Option UlCredit
unfolding select_kinds valid_aircraft_ul_kinds
easa_annex_i_credit rating classes =
    let kinds = select_kinds classes valid_aircraft_ul_kinds in
    if is_empty kinds
    then none
    else some (record {
      sel = record { kinds = kinds; include_unspecified = false; min_mtom_kg = 0 };
      native = false;
      counts_towed = false;
    })

unfoldable pub gpl_annex_i_credit : ClassRating → List ClassType → Option UlCredit
gpl_annex_i_credit rating classes = some (record {
  sel = record { kinds = gyroplane ∷ []; include_unspecified = false; min_mtom_kg = 450 };
  native = false;
  counts_towed = false;
})
