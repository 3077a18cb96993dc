-- ===== src/Currency/Service/Keys.antt =====
-- The passenger keys of service.go: two that key_eq finds equal are equal.
use ninerlog_api.Base.{◌≡◌, refl, ap, Bool, true, Option, none, some, ◌&&◌, arith}
use ninerlog_api.Base.Text.{text_eq, text_eq-eq}
use ninerlog_api.Models.{ClassType, class_eq, UlKind, kind_eq}
use ninerlog_api.Currency.Service.{kind_option_eq, PassengerKey, key_eq}

pub class_eq-eq : (a b : ClassType) → class_eq a b ≡ true → a ≡ b
class_eq-eq a b h = ground arith

kind_eq-eq : (a b : UlKind) → kind_eq a b ≡ true → a ≡ b
kind_eq-eq a b h = ground arith

kind_option_eq-eq : (a b : Option UlKind) → kind_option_eq a b ≡ true → a ≡ b
kind_option_eq-eq none none h = refl
kind_option_eq-eq (some a) (some b) h = ap some (kind_eq-eq a b h)
kind_option_eq-eq none (some b) h = absurd (cc h)
kind_option_eq-eq (some a) none h = absurd (cc h)

three : (a b c : Bool) → a && b && c ≡ true → (a ≡ true) × (b ≡ true) × (c ≡ true)
three a b c h = ground arith

-- The fields of two equal keys.
pub key_eq-eq :
    (j k : PassengerKey)
    → key_eq j k ≡ true
    → (j.class_type ≡ k.class_type) × (j.authority ≡ k.authority) × (j.kind ≡ k.kind)
key_eq-eq j k h =
    let (c, a, u) =
      three (class_eq j.class_type k.class_type) (text_eq j.authority k.authority)
        (kind_option_eq j.kind k.kind) h in
    (
      class_eq-eq j.class_type k.class_type c,
      text_eq-eq j.authority k.authority a,
      kind_option_eq-eq j.kind k.kind u,
    )
