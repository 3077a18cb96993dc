-- ===== src/Currency/Types.antt =====
-- types.go and messages.go: the results of an evaluation and the keys that they carry. A key is a
-- constructor named after the source's constant, less the prefix Msg or ReqKey. A formatted date is
-- its day (Clock.antt), and a requirement's floating-point amounts are the integers they come from.
use ninerlog_api.Base.{ℕ, Bool, Option, none, some, List}
use ninerlog_api.Base.Int.{ℤ}
use ninerlog_api.Base.Text.{Text}
use ninerlog_api.Clock.{Instant, Day}
use ninerlog_api.Models.{ClassType, UlKind}

pub data Status : Type 0 where
  current expiring expired unknown : Status

pub data MsgKey : Type 0 where
  no_message : MsgKey
  rating_no_expiry_date rating_no_expiry_date_manual rating_evaluation_failed : MsgKey
  rating_expired rating_expiring rating_valid_until rating_window_not_open : MsgKey
  rating_revalidation_not_met rating_revalidation_not_met_prof_check : MsgKey
  rating_revalidation_expiring_met rating_revalidation_current : MsgKey
  rating_recency_not_met rating_recency_current rating_sfcl_tmg_exempt : MsgKey
  rating_ir_hours_and_check_not_met rating_ir_hours_not_met rating_ir_check_not_met : MsgKey
  rating_ir_current rating_ir_lapsed_safety_pilot rating_ir_expired_ipc : MsgKey
  rating_ir_not_applicable rating_pax_not_current rating_pax_day_current_night_no : MsgKey
  rating_pax_current_day_night rating_glider_not_current rating_glider_current : MsgKey
  pax_evaluation_failed pax_not_current pax_current_day_no_night : MsgKey
  pax_current_day_night_ir_waived pax_current_day_night pax_day_current_night_not : MsgKey
  pax_current_privilege_separat pax_gpl_experience_not_met : MsgKey
  flight_review_evaluation_failed flight_review_none_on_record : MsgKey
  flight_review_expired flight_review_expiring flight_review_current : MsgKey
  requirement_progress requirement_prof_check_completed requirement_prof_check_missing : MsgKey
  launch_method_progress : MsgKey

pub data ReqKey : Type 0 where
  total_time pic_time ifr_time landings_key day_landings_key night_landings_key : ReqKey
  refresher_training training_flight proficiency_check approaches_key holds_key : ReqKey
  route_sectors launches_key launches_and_landing sep_land_time sep_land_landings : ReqKey
  sep_sea_time sep_sea_landings flight_time training_flights_key tmg_time : ReqKey
  tmg_landings tmg_training_flight : ReqKey

pub data ReqUnit : Type 0 where
  minutes landings flights check approaches holds launches : ReqUnit

-- The rule descriptions: one constructor for each text, with the key that goes with it where the
-- source gives one.
pub data RuleText : Type 0 where
  easa_sep_tmg easa_mep_set easa_ir easa_expiry_only easa_lapl easa_spl easa_spl_tmg : RuleText
  easa_gpl other_expiry faa_pax_day_night faa_ir faa_ir_lapsed faa_ir_ipc faa_glider : RuleText
  faa_no_ir faa_pax_day_only easa_pax easa_spl_pax easa_spl_tmg_pax ul_pax : RuleText
  ul_luftpersv ul_luftpersv_helicopter ul_gyroplane ul_trike_dulv ul_trike_daec : RuleText
  ul_powered_paraglider ul_sailplane : RuleText

pub record MessageParams : Type 0 where
  pub days : Option ℤ
  pub needed : Option ℤ
  pub date : Option Day

abbrev pub msg_days : ℤ → Option MessageParams
msg_days d = some (record { days = some d; needed = none; date = none })

abbrev pub msg_needed : ℤ → Option MessageParams
msg_needed n = some (record { days = none; needed = some n; date = none })

abbrev pub msg_date : Day → Option MessageParams
msg_date d = some (record { days = none; needed = none; date = some d })

abbrev pub msg_days_date : ℤ → Day → Option MessageParams
msg_days_date n d = some (record { days = some n; needed = none; date = some d })

pub record Progress : Type 0 where
  pub total_minutes : ℕ
  pub pic_minutes : ℕ
  pub ifr_minutes : ℕ
  pub instructor_minutes : ℕ
  pub night_minutes : ℕ
  pub landings : ℕ
  pub day_landings : ℕ
  pub night_landings : ℕ
  pub flights : ℕ
  pub approaches : ℕ
  pub holds : ℕ
  pub launches : ℕ
  pub training_flights : ℕ
  pub longest_training_flight_minutes : ℕ

abbrev pub no_progress : Progress
no_progress = record {
  total_minutes = 0;
  pic_minutes = 0;
  ifr_minutes = 0;
  instructor_minutes = 0;
  night_minutes = 0;
  landings = 0;
  day_landings = 0;
  night_landings = 0;
  flights = 0;
  approaches = 0;
  holds = 0;
  launches = 0;
  training_flights = 0;
  longest_training_flight_minutes = 0;
}

pub record Requirement : Type 0 where
  pub name_key : ReqKey
  pub met : Bool
  pub amount : ℕ  -- Current
  pub required : ℕ
  pub req_unit : ReqUnit
  pub message_key : MsgKey
  pub message_params : Option MessageParams

pub data LaunchMethod : Type 0 where
  winch car aerotow self_launch bungee : LaunchMethod

pub record LaunchMethodCurrency : Type 0 where
  pub method : LaunchMethod
  pub launch_count : ℕ  -- Launches
  pub required : ℕ
  pub met : Bool
  pub message_key : MsgKey

pub record ClassRatingCurrency : Type 0 where
  pub class_rating_id : ℕ
  pub class_type : ClassType
  pub license_id : ℕ
  pub regulatory_authority : Text
  pub license_type : Text
  pub status : Option Status
  pub expiry_date : Option Day
  pub window_opens_at : Option Day
  pub window_open : Bool
  pub recency_expires_on : Option Day
  pub lapsed_on : Option Instant
  pub message_key : MsgKey
  pub message_params : Option MessageParams
  pub rule_description : RuleText
  pub progress : Option Progress
  pub requirements : List Requirement
  pub launch_method_currency : List LaunchMethodCurrency
  pub counted_classes : List ClassType
  pub credited_ul_kinds : List UlKind

pub record PassengerCurrency : Type 0 where
  pub class_type : ClassType
  pub ul_kind : Option UlKind
  pub regulatory_authority : Text
  pub day_status : Option Status
  pub night_status : Option Status
  pub day_landings : ℕ
  pub night_landings : ℕ
  pub day_required : ℕ
  pub night_required : ℕ
  pub night_privilege : Bool
  pub day_expires_on : Option Day
  pub night_expires_on : Option Day
  pub day_lapsed_on : Option Instant
  pub night_lapsed_on : Option Instant
  pub lapse_unknown : Bool
  pub message_key : MsgKey
  pub message_params : Option MessageParams
  pub rule_description : RuleText

pub record FlightReviewStatus : Type 0 where
  pub last_completed : Option Day
  pub expires_on : Option Day
  pub status : Status
  pub message_key : MsgKey
  pub message_params : Option MessageParams

-- The setMsg methods, with the status that the code sets beside each call.
abbrev pub conclude :
    ClassRatingCurrency → Status → MsgKey → Option MessageParams → ClassRatingCurrency
conclude r s key params = record r { status = some s; message_key = key; message_params = params }

abbrev pub set_pax_msg : PassengerCurrency → MsgKey → Option MessageParams → PassengerCurrency
set_pax_msg r key params = record r { message_key = key; message_params = params }
