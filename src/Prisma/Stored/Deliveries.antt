-- ===== src/Prisma/Stored/Deliveries.antt =====
-- packages/core/src/adapters/prisma/mappers.ts: a delivery that is written and read.
use mafuta.Base.{ℕ, String, none, some, ◌≡◌, ◌∙◌, ap, arith}
use mafuta.Base.Int.{pos}
use mafuta.Base.Ratio.{Ratio, math_round, mul_ratio}
use mafuta.Runtime.{Runtime}
use mafuta.Domain.Quantity.Decimal.{decimal_text, decimal_value}
use mafuta.Domain.Quantity.Written.{decimal_value-litres_string}
use mafuta.Domain.Delivery.{Delivery}
use mafuta.Prisma.{to_number}
use mafuta.Prisma.Events.{column_ml}
use mafuta.Prisma.Deliveries.{
  DeliveryRow, DeliveryInput, to_domain_delivery, to_prisma_delivery_input,
}
use mafuta.Prisma.Stored.{IsIso, to_iso-written}
use mafuta.Prisma.Stored.Events.{column_ml_lem}

module _ (number_of : String → Ratio) where
  pub record IsStored (input : DeliveryInput) (row : DeliveryRow) : Type 0 where
    pub same_id : row.id ≡ input.id
    pub same_tenant_id : row.tenant_id ≡ input.tenant_id
    pub same_tank_id : row.tank_id ≡ input.tank_id
    pub same_event_id : row.fuel_event_id ≡ input.fuel_event_id
    -- The column has the value of the text that was written.
    pub same_volume : to_number number_of row.volume_litres ≡ number_of input.volume_litres
    pub same_reference : row.reference ≡ input.reference
    pub same_confirmed_by : row.confirmed_by_user_id ≡ input.confirmed_by_user_id
    pub same_confirmed_at : input.confirmed_at ≡ some row.confirmed_at
    -- The table has no such column.
    pub no_supplier : row.supplier ≡ none

module _ (rt : Runtime) (number_of : String → Ratio)
    (shows : (n : ℕ) → rt.int_text (pos n) ≡ decimal_text n)
    (reads : (s : String) (value : Ratio)
      → decimal_value s ≡ some value
      → number_of s ≡ value) where
  -- When String writes whole numbers in decimal and Number reads the value of every decimal, a
  -- delivery whose date of confirmation toISOString made, written to a row which holds the columns
  -- written, its volume being of the value of the text written, and no supplier, is read back with
  -- its recorded volume in the place of the measured one, no supplier and the date of creation of
  -- the row, and otherwise the same.
  pub to_domain_delivery-stored :
      (delivery : Delivery) (row : DeliveryRow)
      → IsStored number_of (to_prisma_delivery_input rt delivery) row
      → IsIso rt delivery.confirmed_at
      → to_domain_delivery rt number_of row ≡ record delivery {
        measured_volume_ml = delivery.recorded_volume_ml;
        supplier = none;
        created_at = rt.to_iso row.created_at;
      }
  unfolding to_domain_delivery to_prisma_delivery_input column_ml
  to_domain_delivery-stored delivery row stored iso =
      let confirmed_at =
        to_iso-written rt delivery.confirmed_at row.confirmed_at stored.same_confirmed_at iso in
      let volume =
        ap (λ r. math_round (mul_ratio r (record { num = pos 1000; den_pred = 0 })))
          (stored.same_volume
            ∙ reads _ _ (decimal_value-litres_string rt shows delivery.recorded_volume_ml))
        ∙ column_ml_lem delivery.recorded_volume_ml in
      ground (arith, confirmed_at, volume)
