-- ===== src/Domain/Delivery.antt =====
-- packages/core/src/domain/delivery.ts
use mafuta.Base.{String, Option}
use mafuta.Base.Int.{ℤ, ◌-ℤ◌}

pub record Delivery : Type 0 where
  pub id : String
  pub tenant_id : String
  pub tank_id : String
  pub fuel_event_id : Option String
  pub measured_volume_ml : ℤ
  pub recorded_volume_ml : ℤ
  pub reference : Option String
  pub supplier : Option String
  pub confirmed_by : String
  pub confirmed_at : String
  pub created_at : String

unfoldable pub delivery_variance_ml : Delivery → ℤ
delivery_variance_ml delivery = delivery.recorded_volume_ml -ℤ delivery.measured_volume_ml
