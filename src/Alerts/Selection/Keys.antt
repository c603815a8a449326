-- ===== src/Alerts/Selection/Keys.antt =====
-- packages/core/src/alerts/alert-engine.ts: the keys of `alertKey`.
use Prim.Native.String.{◌++◌}
use text.Mathlib.TextLemmas.{append-nil, append_cancel_left}
use mafuta.Base.{
  String, true, Option, none, some, ◌==◌, ◌≡◌, refl, sym, ◌∙◌, ap, if◌then◌else◌, template,
}
use mafuta.Ids.{is_identifier}
use mafuta.Ids.Distinct.{is_identifier-colon}
use mafuta.Memory.Keys.{has_no_colon, joined, joined_injective}
use mafuta.Domain.Alert.{
  AlertType, alert_type_text, low_stock, critical_stock, device_offline, stale_data, probe_quality,
  candidate_delivery, candidate_unexplained_decrease, water_level,
}
use mafuta.Alerts.Selection.{alert_key, tank_part}

-- No tank, or one whose id has the form of an identifier and is not the word for no tank.
abbrev pub IsTank : Option String → Type 0
IsTank none = Unit
IsTank (some id) = (is_identifier id ≡ true) × ¬ (id ≡ "tenant")

type_of : String → AlertType
type_of text =
    if text == "low_stock"
    then low_stock
    else if text == "critical_stock"
    then critical_stock
    else if text == "device_offline"
    then device_offline
    else if text == "stale_data"
    then stale_data
    else if text == "probe_quality"
    then probe_quality
    else if text == "candidate_delivery"
    then candidate_delivery
    else if text == "candidate_unexplained_decrease"
    then candidate_unexplained_decrease
    else water_level

type_of-alert_type_text : (type : AlertType) → type_of (alert_type_text type) ≡ type
unfolding type_of
type_of-alert_type_text low_stock = refl
type_of-alert_type_text critical_stock = refl
type_of-alert_type_text device_offline = refl
type_of-alert_type_text stale_data = refl
type_of-alert_type_text probe_quality = refl
type_of-alert_type_text candidate_delivery = refl
type_of-alert_type_text candidate_unexplained_decrease = refl
type_of-alert_type_text water_level = refl

same_type : (a b : AlertType) → alert_type_text a ≡ alert_type_text b → a ≡ b
same_type a b e = sym (type_of-alert_type_text a) ∙ (ap type_of e ∙ type_of-alert_type_text b)

has_no_colon-tank_part : (t : Option String) → IsTank t → has_no_colon (tank_part t) ≡ true
unfolding has_no_colon
has_no_colon-tank_part none tank = refl
has_no_colon-tank_part (some id) tank = is_identifier-colon id tank.0

same_tank : (t u : Option String) → IsTank t → IsTank u → tank_part t ≡ tank_part u → t ≡ u
same_tank none none h k e = refl
same_tank none (some id) h k e = absurd (k.1 (sym e))
same_tank (some id) none h k e = absurd (h.1 e)
same_tank (some id) (some other) h k e = ap (λ x. some x) e

alert_key-joined :
    (t : Option String) (type : AlertType)
    → alert_key t type ≡ joined (tank_part t) (alert_type_text type)
unfolding alert_key template
alert_key-joined t type = ap (λ x. tank_part t ++ (":" ++ x)) (append-nil (alert_type_text type))

-- Two keys are the same only for the same tank and the same type.
pub alert_key-injective :
    (t u : Option String) (a b : AlertType)
    → IsTank t
    → IsTank u
    → alert_key t a ≡ alert_key u b
    → (t ≡ u) × (a ≡ b)
alert_key-injective t u a b h k e =
    let whole = sym (alert_key-joined t a) ∙ (e ∙ alert_key-joined u b) in
    let part =
      joined_injective (tank_part t) (tank_part u) (alert_type_text a) (alert_type_text b)
        (has_no_colon-tank_part t h) (has_no_colon-tank_part u k) whole in
    let rest =
      append_cancel_left (tank_part t) _ _
        (whole ∙ ap (λ x. joined x (alert_type_text b)) (sym part)) in
    (same_tank t u h k part, same_type a b (append_cancel_left ":" _ _ rest))
