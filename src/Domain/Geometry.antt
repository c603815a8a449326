-- ===== src/Domain/Geometry.antt =====
-- packages/core/src/domain/geometry.ts: from a level to a volume and back.
use mafuta.Base.{ℕ, zero, suc, List, [], ◌∷◌, none, some, get_last?, if◌then◌else◌}
use mafuta.Base.Ratio.{
  Ratio, of_ℕ, lt_ratio, le_ratio, add_ratio, sub_ratio, mul_ratio, div_ratio, min_ratio, max_ratio,
  neg_ratio,
}
use mafuta.Runtime.{Runtime}

pub record StrappingPoint : Type 0 where
  pub level_mm : Ratio
  pub volume_litres : Ratio

pub data TankGeometry : Type 0 where
  vertical_cylinder : (diameter_mm height_mm : Ratio) → TankGeometry
  horizontal_cylinder : (diameter_mm length_mm : Ratio) → TankGeometry
  strapping_table : (points : List StrappingPoint) → TankGeometry

abbrev mm3_per_litre : Ratio
mm3_per_litre = of_ℕ 1000000

-- The loop of `strappingVolume` over neighbouring points.
unfoldable pub strapping_loop : StrappingPoint → List StrappingPoint → Ratio → Ratio → Ratio
unfolding add_ratio sub_ratio mul_ratio div_ratio
strapping_loop lower [] level_mm fallback = fallback
strapping_loop lower (upper ∷ rest) level_mm fallback =
    let later = strapping_loop upper rest level_mm fallback in
    let span_mm = sub_ratio upper.level_mm lower.level_mm in
    let ratio = div_ratio (sub_ratio level_mm lower.level_mm) span_mm in
    if le_ratio level_mm upper.level_mm
    then (if le_ratio span_mm (of_ℕ 0)
        then upper.volume_litres
        else add_ratio lower.volume_litres
            (mul_ratio ratio (sub_ratio upper.volume_litres lower.volume_litres)))
    else later

unfoldable pub strapping_volume : List StrappingPoint → Ratio → Ratio
unfolding strapping_loop
strapping_volume [] level_mm = of_ℕ 0
strapping_volume (first ∷ rest) level_mm = elim (get_last? (first ∷ rest)) [
  | none ↦ of_ℕ 0
  | some last ↦
      if le_ratio level_mm first.level_mm
      then first.volume_litres
      else if le_ratio last.level_mm level_mm
      then last.volume_litres
      else strapping_loop first rest level_mm last.volume_litres
]

unfoldable pub max_level_mm : TankGeometry → Ratio
max_level_mm (vertical_cylinder diameter_mm height_mm) = height_mm
max_level_mm (horizontal_cylinder diameter_mm length_mm) = diameter_mm
max_level_mm (strapping_table points) = elim (get_last? points) [
  | none ↦ of_ℕ 0
  | some last ↦ last.level_mm
]

module _ (rt : Runtime) where
  unfoldable pub circular_segment_area : Ratio → Ratio → Ratio
  unfolding sub_ratio mul_ratio div_ratio min_ratio max_ratio neg_ratio
  circular_segment_area radius_mm fill_height_mm =
      let h = min_ratio (max_ratio fill_height_mm (of_ℕ 0)) (mul_ratio radius_mm (of_ℕ 2)) in
      let distance_from_centre = sub_ratio radius_mm h in
      let angle = rt.acos (
        min_ratio (of_ℕ 1)
          (max_ratio (neg_ratio (of_ℕ 1)) (div_ratio distance_from_centre radius_mm))) in
      let triangle_term = mul_ratio distance_from_centre (
        rt.sqrt (
          max_ratio (of_ℕ 0) (
            sub_ratio (mul_ratio radius_mm radius_mm)
              (mul_ratio distance_from_centre distance_from_centre)))) in
      sub_ratio (mul_ratio (mul_ratio radius_mm radius_mm) angle) triangle_term

  -- `(Math.PI * radius * radius * length) / MM3_PER_LITRE`
  unfoldable pub cylinder_litres : Ratio → Ratio → Ratio
  unfolding mul_ratio div_ratio
  cylinder_litres diameter_mm length_mm =
      let radius = div_ratio diameter_mm (of_ℕ 2) in
      div_ratio (mul_ratio (mul_ratio (mul_ratio rt.pi radius) radius) length_mm) mm3_per_litre

  unfoldable pub tank_capacity_litres : TankGeometry → Ratio
  unfolding cylinder_litres
  tank_capacity_litres (vertical_cylinder diameter_mm height_mm) =
      cylinder_litres diameter_mm height_mm
  tank_capacity_litres (horizontal_cylinder diameter_mm length_mm) =
      cylinder_litres diameter_mm length_mm
  tank_capacity_litres (strapping_table points) = elim (get_last? points) [
    | none ↦ of_ℕ 0
    | some last ↦ last.volume_litres
  ]

  volume_at_clamped : TankGeometry → Ratio → Ratio
  unfolding cylinder_litres circular_segment_area strapping_volume mul_ratio div_ratio
  volume_at_clamped (vertical_cylinder diameter_mm height_mm) clamped =
      cylinder_litres diameter_mm clamped
  volume_at_clamped (horizontal_cylinder diameter_mm length_mm) clamped =
      let radius = div_ratio diameter_mm (of_ℕ 2) in
      div_ratio (mul_ratio (circular_segment_area radius clamped) length_mm) mm3_per_litre
  volume_at_clamped (strapping_table points) clamped = strapping_volume points clamped

  unfoldable pub volume_at_level_litres : TankGeometry → Ratio → Ratio
  unfolding volume_at_clamped max_level_mm min_ratio
  volume_at_level_litres geometry level_mm =
      if le_ratio level_mm (of_ℕ 0)
      then of_ℕ 0
      else volume_at_clamped geometry (min_ratio level_mm (max_level_mm geometry))

  -- The bisection of `levelForVolumeLitres`, with the rounds left.
  bisect : TankGeometry → Ratio → ℕ → Ratio → Ratio → Ratio
  unfolding volume_at_level_litres add_ratio div_ratio
  bisect geometry litres zero low high = div_ratio (add_ratio low high) (of_ℕ 2)
  bisect geometry litres (suc rounds) low high =
      let middle = div_ratio (add_ratio low high) (of_ℕ 2) in
      let below = lt_ratio (volume_at_level_litres geometry middle) litres in
      bisect geometry litres rounds (if below then middle else low) (if below then high else middle)

  unfoldable pub level_for_volume_litres : TankGeometry → Ratio → Ratio
  unfolding bisect tank_capacity_litres max_level_mm
  level_for_volume_litres geometry litres =
      if le_ratio litres (of_ℕ 0)
      then of_ℕ 0
      else if le_ratio (tank_capacity_litres geometry) litres
      then max_level_mm geometry
      else bisect geometry litres 60 (of_ℕ 0) (max_level_mm geometry)
