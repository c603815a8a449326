-- ===== src/Prisma/Deliveries.antt =====
-- packages/core/src/adapters/prisma/mappers.ts: deliveries. The input has one volume and no supplier.
use mafuta.Base.{String, Option}
use mafuta.Base.Int.{ℤ}
use mafuta.Base.Ratio.{Ratio}
use mafuta.Runtime.{Runtime}
use mafuta.Domain.Quantity.{litres_string}
use mafuta.Domain.Delivery.{Delivery}
use mafuta.Prisma.{DecimalLike, to_date}
use mafuta.Prisma.Events.{column_ml}

pub record DeliveryRow : Type 0 where
  pub id : String
  pub tenant_id : String
  pub tank_id : String
  pub fuel_event_id : Option String
  pub volume_litres : DecimalLike
  pub reference : Option String
  pub supplier : Option String
  pub confirmed_by_user_id : String
  pub confirmed_at : ℤ
  pub created_at : ℤ

unfoldable pub to_domain_delivery : Runtime → (String → Ratio) → DeliveryRow → Delivery
unfolding column_ml
to_domain_delivery rt number_of row =
    let volume_ml = column_ml number_of row.volume_litres in
    record {
      id = row.id;
      tenant_id = row.tenant_id;
      tank_id = row.tank_id;
      fuel_event_id = row.fuel_event_id;
      measured_volume_ml = volume_ml;
      recorded_volume_ml = volume_ml;
      reference = row.reference;
      supplier = row.supplier;
      confirmed_by = row.confirmed_by_user_id;
      confirmed_at = rt.to_iso row.confirmed_at;
      created_at = rt.to_iso row.created_at;
    }

pub record DeliveryInput : Type 0 where
  pub id : String
  pub tenant_id : String
  pub tank_id : String
  pub fuel_event_id : Option String
  pub volume_litres : String
  pub reference : Option String
  pub confirmed_by_user_id : String
  pub confirmed_at : Option ℤ

unfoldable pub to_prisma_delivery_input : Runtime → Delivery → DeliveryInput
unfolding litres_string
to_prisma_delivery_input rt delivery = record {
  id = delivery.id;
  tenant_id = delivery.tenant_id;
  tank_id = delivery.tank_id;
  fuel_event_id = delivery.fuel_event_id;
  volume_litres = litres_string rt delivery.recorded_volume_ml;
  reference = delivery.reference;
  confirmed_by_user_id = delivery.confirmed_by;
  confirmed_at = to_date rt delivery.confirmed_at;
}
