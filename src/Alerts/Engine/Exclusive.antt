-- ===== src/Alerts/Engine/Exclusive.antt =====
-- packages/core/src/alerts/alert-engine.ts: the drafts on the stock of a tank.
use mafuta.Base.{
  List, [], ◌∷◌, ◌++◌, Bool, true, false, ◌&&◌, ◌||◌, ◌≡◌, refl, arith, any, if◌then◌else◌,
  get_last?, inl, inr, Bool-cases, Option-cases, ℕ, String, get_or, map, filter,
}
use mafuta.Base.Int.{ℤ}
use mafuta.Base.Ratio.{Ratio, le_ratio, lt_ratio}
use mafuta.Runtime.{Runtime}
use mafuta.Domain.Tank.{TankThresholds, fill_percent_ml}
use mafuta.Domain.Reading.{TankReading, net_volume_ml, is_suspect}
use mafuta.Domain.Alert.{AlertDraft, low_stock, critical_stock}
use mafuta.Alerts.Engine.{
  AlertEvaluationInput, stock_drafts, water_drafts, suspect_drafts, fault_drafts, stale_drafts,
  age_minutes_of, is_faulty, reading_drafts, evaluate_device_alerts, drafts_from_missing_data,
  evaluate_tank_alerts, usable_readings, offline_draft, raises_offline, TankDeviceOnTank,
  default_consecutive_invalid_for_fault,
}

abbrev pub is_low : AlertDraft → Bool
is_low d = elim d.type [ low_stock ↦ true | _ ↦ false ]

abbrev pub is_critical : AlertDraft → Bool
is_critical d = elim d.type [ critical_stock ↦ true | _ ↦ false ]

any-append :
    {A : Type 0} (p : A → Bool) (xs ys : List A) → any p (xs ++ ys) ≡ (any p xs || any p ys)
any-append p [] ys = refl
any-append p (x ∷ xs) ys = ground (arith, any-append p xs ys)

-- Neither a low nor a critical stock.
abbrev IsSilent : List AlertDraft → Type 0
IsSilent drafts = (any is_low drafts ≡ false) × (any is_critical drafts ≡ false)

IsSilent-append : (xs ys : List AlertDraft) → IsSilent xs → IsSilent ys → IsSilent (xs ++ ys)
IsSilent-append xs ys h k = (
  ground (arith, any-append is_low xs ys, h, k),
  ground (arith, any-append is_critical xs ys, h, k),
)

IsSilent-if : (b : Bool) (d : AlertDraft) → IsSilent (d ∷ []) → IsSilent (if b then d ∷ [] else [])
IsSilent-if true d h = h
IsSilent-if false d h = (refl, refl)

module _ (rt : Runtime) where
  water_drafts-IsSilent :
      (thresholds : TankThresholds) (r : TankReading) → IsSilent (water_drafts rt thresholds r)
  unfolding water_drafts
  water_drafts-IsSilent thresholds r =
      IsSilent-if (le_ratio thresholds.water_alarm_mm r.water_level_mm) _ (refl, refl)

  suspect_drafts-IsSilent : (r : TankReading) → IsSilent (suspect_drafts rt r)
  unfolding suspect_drafts
  suspect_drafts-IsSilent r = IsSilent-if (is_suspect r.quality) _ (refl, refl)

  fault_drafts-IsSilent :
      (n : ℕ) (rs : List TankReading) (r : TankReading) → IsSilent (fault_drafts rt n rs r)
  unfolding fault_drafts
  fault_drafts-IsSilent n rs r = IsSilent-if (is_faulty n rs) _ (refl, refl)

  stale_drafts-IsSilent :
      (thresholds : TankThresholds) (r : TankReading) (now : ℤ)
      → IsSilent (stale_drafts rt thresholds r now)
  unfolding stale_drafts
  stale_drafts-IsSilent thresholds r now = elim (Option-cases (age_minutes_of rt r now)) [
    | inl unknown ↦ rw (stale_drafts, unknown) (refl, refl)
    | inr (age, known) ↦
        rw (stale_drafts, known)
          (IsSilent-if (lt_ratio thresholds.stale_after_minutes age) _ (refl, refl))
  ]

  offline_draft-IsSilent :
      (input : AlertEvaluationInput) (xs : List TankDeviceOnTank)
      → IsSilent (map (λ e. offline_draft rt input e.device) xs)
  unfolding offline_draft
  offline_draft-IsSilent input [] = (refl, refl)
  offline_draft-IsSilent input (x ∷ xs) = offline_draft-IsSilent input xs

  -- Low or critical, and not both.
  abbrev pub IsExclusive : List AlertDraft → Type 0
  IsExclusive drafts = (any is_low drafts && any is_critical drafts) ≡ false

  stock_drafts-IsExclusive :
      (thresholds : TankThresholds) (r : TankReading) (percent : Ratio)
      → IsExclusive (stock_drafts rt thresholds r percent)
  unfolding stock_drafts
  stock_drafts-IsExclusive thresholds r percent =
      elim (Bool-cases (le_ratio percent thresholds.critical_low_percent)) [
        | inl at_most ↦ rw at_most refl
        | inr above ↦ elim (Bool-cases (le_ratio percent thresholds.low_percent)) [
          | inl low ↦ rw (above, low) refl
          | inr enough ↦ rw (above, enough) refl
        ]
      ]

  IsExclusive-append :
      (xs ys zs : List AlertDraft)
      → IsSilent xs
      → IsExclusive ys
      → IsSilent zs
      → IsExclusive (xs ++ (ys ++ zs))
  IsExclusive-append xs ys zs h e k = ground (
    arith,
    any-append is_low xs (ys ++ zs),
    any-append is_low ys zs,
    any-append is_critical xs (ys ++ zs),
    any-append is_critical ys zs,
    h,
    e,
    k,
  )

  reading_drafts-IsExclusive :
      (input : AlertEvaluationInput) (xs : List AlertDraft) (latest : TankReading)
      → IsSilent xs
      → IsExclusive (xs ++ reading_drafts rt input latest)
  unfolding reading_drafts
  reading_drafts-IsExclusive input xs latest h =
      let thresholds = input.tank.thresholds in
      let fault_threshold =
        get_or input.consecutive_invalid_for_fault default_consecutive_invalid_for_fault in
      let percent = fill_percent_ml input.tank (net_volume_ml latest) in
      let stock = stock_drafts rt thresholds latest percent in
      let water = water_drafts rt thresholds latest in
      let doubtful = suspect_drafts rt latest in
      let faulty = fault_drafts rt fault_threshold input.readings latest in
      let old = stale_drafts rt thresholds latest input.now in
      IsExclusive-append xs stock (water ++ (doubtful ++ (faulty ++ old))) h
        (stock_drafts-IsExclusive thresholds latest percent)
        (IsSilent-append water (doubtful ++ (faulty ++ old))
          (water_drafts-IsSilent thresholds latest)
          (IsSilent-append doubtful (faulty ++ old) (suspect_drafts-IsSilent latest) (
            IsSilent-append faulty old (fault_drafts-IsSilent fault_threshold input.readings latest)
              (stale_drafts-IsSilent thresholds latest input.now))))

  drafts_from_missing_data-IsSilent :
      (input : AlertEvaluationInput) (s : String) → IsSilent (drafts_from_missing_data rt input s)
  unfolding drafts_from_missing_data
  drafts_from_missing_data-IsSilent input s =
      IsSilent-if (is_faulty default_consecutive_invalid_for_fault input.readings) _ (refl, refl)

  evaluate_device_alerts-IsSilent :
      (input : AlertEvaluationInput) → IsSilent (evaluate_device_alerts rt input)
  unfolding evaluate_device_alerts
  evaluate_device_alerts-IsSilent input = offline_draft-IsSilent input (
      filter (λ e. raises_offline rt e.device input.now input.device_offline_after_minutes)
        input.assigned_devices)

  -- The evaluation of a tank never drafts a low stock alert and a critical stock alert together.
  pub evaluate_tank_alerts-IsExclusive :
      (input : AlertEvaluationInput) → IsExclusive (evaluate_tank_alerts rt input).drafts
  unfolding evaluate_tank_alerts
  evaluate_tank_alerts-IsExclusive input =
      elim (Option-cases (get_last? (usable_readings rt input.readings))) [
        | inl unusable ↦
            rw (evaluate_tank_alerts, unusable)
              (IsExclusive-append (evaluate_device_alerts rt input) []
                (drafts_from_missing_data rt input "no usable readings")
                (evaluate_device_alerts-IsSilent input) refl
                (drafts_from_missing_data-IsSilent input "no usable readings"))
        | inr (latest, last) ↦
            rw (evaluate_tank_alerts, last)
              (reading_drafts-IsExclusive input (evaluate_device_alerts rt input) latest
                (evaluate_device_alerts-IsSilent input))
      ]
