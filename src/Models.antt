-- ===== src/Models.antt =====
-- The records of internal/models that the services read: class types, ultralight kinds, class
-- ratings and licences. An identifier (uuid) is a number. Notes and the creation and update stamps
-- are left out: no modelled function reads them.
pub mod Expiry
pub mod Ultralight
use ninerlog_api.Base.{ℕ, Bool, Option, List, []}
use ninerlog_api.Base.Text.{Text}
use ninerlog_api.Base.{◌==◌}
use ninerlog_api.Clock.{Instant}

-- The valid class types (ValidClassTypes); the database column admits no other text.
pub data ClassType : Type 0 where
  sep_land sep_sea mep_land mep_sea set_land set_sea tmg ir other glider ul gyro : ClassType

-- The place of a class type among the constants, to compare two of them by.
abbrev class_code : ClassType → ℕ
class_code = elim [
  | sep_land ↦ 0
  | sep_sea ↦ 1
  | mep_land ↦ 2
  | mep_sea ↦ 3
  | set_land ↦ 4
  | set_sea ↦ 5
  | tmg ↦ 6
  | ir ↦ 7
  | other ↦ 8
  | glider ↦ 9
  | ul ↦ 10
  | gyro ↦ 11
]

abbrev pub class_eq : ClassType → ClassType → Bool
class_eq a b = class_code a == class_code b

pub data UlKind : Type 0 where
  three_axis three_axis_motorglider weight_shift gyroplane helicopter powered_paraglider : UlKind
  sailplane : UlKind

abbrev kind_code : UlKind → ℕ
kind_code = elim [
  | three_axis ↦ 0
  | three_axis_motorglider ↦ 1
  | weight_shift ↦ 2
  | gyroplane ↦ 3
  | helicopter ↦ 4
  | powered_paraglider ↦ 5
  | sailplane ↦ 6
]

abbrev pub kind_eq : UlKind → UlKind → Bool
kind_eq a b = kind_code a == kind_code b

pub record ClassRating : Type 0 where
  pub id : ℕ
  pub license_id : ℕ
  pub class_type : ClassType
  pub ul_kind : Option UlKind
  pub issue_date : Instant
  pub expiry_date : Option Instant

pub record License : Type 0 where
  pub id : ℕ
  pub user_id : ℕ
  pub regulatory_authority : Text
  pub license_type : Text
  pub issue_date : Instant
