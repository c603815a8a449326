-- ===== src/Tests/Ledger.antt =====
-- An event and a delivery that are written to the database and read back.
use mafuta.Base.{String, Option, some, none, ◌≡◌, refl}
use mafuta.Base.Int.{ℤ, pos, negsuc}
use mafuta.Base.Ratio.{Ratio, of_ℕ}
use mafuta.Domain.Quantity.{litres_string, format_litres}
use mafuta.Domain.Quantity.Decimal.{decimal_text, decimal_value}
use mafuta.Base.Text.{text_take, pad_start}
use mafuta.Runtime.{Runtime}
use mafuta.Domain.Event.{FuelEvent}
use mafuta.Domain.Delivery.{Delivery}
use mafuta.Prisma.{DecimalLike, to_number, to_number_or_null}
use mafuta.Prisma.Events.{
  FuelEventRow, evidence_to_json, to_prisma_fuel_event_input, to_domain_fuel_event,
}
use mafuta.Prisma.Deliveries.{DeliveryRow, to_prisma_delivery_input, to_domain_delivery}
use mafuta.Prisma.Stored.Events.{to_domain_fuel_event-stored}
use mafuta.Prisma.Stored.Deliveries.{to_domain_delivery-stored}
use mafuta.Tests.Samples.{rt, rise}

-- The text of the instant of every date of the runtime, a runtime that writes whole numbers in
-- decimal, and a reader of decimals.
abbrev noon : String
noon = "2023-11-14T22:13:20.000Z"

abbrev whole_text : ℤ → String
unfolding decimal_text
whole_text (pos n) = decimal_text n
whole_text (negsuc n) = "-"

abbrev decimals : Runtime
decimals = record rt { int_text = whole_text }

or_zero : Option Ratio → Ratio
or_zero none = of_ℕ 0
or_zero (some value) = value

value_of_decimal : String → Ratio
unfolding or_zero
value_of_decimal text = or_zero (decimal_value text)

value_of_decimal_lem :
    (s : String) (value : Ratio) → decimal_value s ≡ some value → value_of_decimal s ≡ value
unfolding value_of_decimal or_zero
value_of_decimal_lem s value found = rw (found, or_zero) refl

abbrev noon_rise : FuelEvent
noon_rise = record rise { window_start = noon; window_end = noon }

abbrev event_row : FuelEventRow
unfolding evidence_to_json
event_row = record {
  id = "evt-1";
  tenant_id = "acme";
  tank_id = "tank-1";
  type = noon_rise.type;
  status = noon_rise.status;
  confidence = DecimalLike.number (of_ℕ 1);
  volume_change_litres = DecimalLike.text "500.000";
  window_start = pos 1700000000000;
  window_end = pos 1700000000000;
  evidence = evidence_to_json noon_rise.evidence;
  notes = none;
  decided_by_user_id = none;
  decided_at = none;
  created_at = pos 1700000000000;
  updated_at = pos 1700000000000;
}

to_domain_fuel_event-stored_example :
    to_domain_fuel_event decimals value_of_decimal event_row
    ≡ some (record noon_rise { created_at = noon; updated_at = noon })
unfolding event_row to_prisma_fuel_event_input to_number to_number_or_null litres_string
    format_litres text_take pad_start decimal_text whole_text
to_domain_fuel_event-stored_example =
    to_domain_fuel_event-stored decimals value_of_decimal (λ n. refl) value_of_decimal_lem noon_rise
      event_row
      (record {
        same_id = refl;
        same_tenant_id = refl;
        same_tank_id = refl;
        same_type = refl;
        same_status = refl;
        same_confidence = refl;
        same_volume = refl;
        same_window_start = refl;
        same_window_end = refl;
        same_evidence = refl;
        same_notes = refl;
        same_decided_by = refl;
        same_decided_at = refl;
      })
      (pos 1700000000000, refl, refl) (pos 1700000000000, refl, refl) tt

-- 500 litres were measured, the document says 510.
abbrev drop : Delivery
drop = record {
  id = "dlv-1";
  tenant_id = "acme";
  tank_id = "tank-1";
  fuel_event_id = some "evt-1";
  measured_volume_ml = pos 500000;
  recorded_volume_ml = pos 510000;
  reference = some "note 7";
  supplier = some "Mafuta";
  confirmed_by = "amina";
  confirmed_at = noon;
  created_at = noon;
}

abbrev delivery_row : DeliveryRow
delivery_row = record {
  id = "dlv-1";
  tenant_id = "acme";
  tank_id = "tank-1";
  fuel_event_id = some "evt-1";
  volume_litres = DecimalLike.text "510.000";
  reference = some "note 7";
  supplier = none;
  confirmed_by_user_id = "amina";
  confirmed_at = pos 1700000000000;
  created_at = pos 1700000000000;
}

to_domain_delivery-stored_example :
    to_domain_delivery decimals value_of_decimal delivery_row
    ≡ record drop { measured_volume_ml = pos 510000; supplier = none; created_at = noon }
unfolding to_prisma_delivery_input to_number to_number_or_null litres_string format_litres text_take
    pad_start decimal_text whole_text
to_domain_delivery-stored_example =
    to_domain_delivery-stored decimals value_of_decimal (λ n. refl) value_of_decimal_lem drop
      delivery_row
      (record {
        same_id = refl;
        same_tenant_id = refl;
        same_tank_id = refl;
        same_event_id = refl;
        same_volume = refl;
        same_reference = refl;
        same_confirmed_by = refl;
        same_confirmed_at = refl;
        no_supplier = refl;
      })
      (pos 1700000000000, refl, refl)
