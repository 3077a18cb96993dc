-- ===== src/Models/Ultralight.antt =====
-- internal/models/ultralight.go and NormalizeULKind of class_rating.go.
use ninerlog_api.Base.{Bool, Option, none, some, List, [], ◌∷◌, any, if◌then◌else◌}
use ninerlog_api.Models.{
  ClassType, sep_land, tmg, ul, class_eq, UlKind, three_axis, three_axis_motorglider, weight_shift,
  gyroplane, helicopter, powered_paraglider, sailplane, kind_eq, ClassRating,
}

unfoldable pub valid_aircraft_ul_kinds : List UlKind
valid_aircraft_ul_kinds =
    three_axis ∷ three_axis_motorglider ∷ weight_shift ∷ gyroplane ∷ helicopter ∷ powered_paraglider
    ∷ sailplane ∷ []

unfoldable pub valid_rating_ul_kinds : List UlKind
valid_rating_ul_kinds =
    three_axis ∷ weight_shift ∷ gyroplane ∷ helicopter ∷ powered_paraglider ∷ sailplane ∷ []

unfoldable pub contains_ul_kind : List UlKind → UlKind → Bool
contains_ul_kind kinds k = any (λ v. kind_eq v k) kinds

unfoldable pub part_fcl_class : UlKind → Option ClassType
part_fcl_class three_axis = some sep_land
part_fcl_class three_axis_motorglider = some tmg
part_fcl_class _ = none

unfoldable pub aircraft_kinds_for_rating : UlKind → List UlKind
aircraft_kinds_for_rating three_axis = three_axis ∷ three_axis_motorglider ∷ []
aircraft_kinds_for_rating k = k ∷ []

-- `none` is ErrInvalidULKind.
unfoldable pub normalize_ul_kind : ClassRating → Option ClassRating
unfolding contains_ul_kind valid_rating_ul_kinds
normalize_ul_kind cr =
    if class_eq cr.class_type ul
    then elim cr.ul_kind [
      | none ↦ some cr
      | some k ↦ if contains_ul_kind valid_rating_ul_kinds k then some cr else none
    ]
    else some (record cr { ul_kind = none })
