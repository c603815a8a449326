-- ===== src/Events/Detection/Justified.antt =====
-- packages/core/src/events/detection.ts: what stands behind each detected event.
use mafuta.Base.{
  Option, some, none, Bool, true, false, not, List, [], ◌∷◌, ◌++◌, ◌≡◌, refl, subst, filter, length,
  ltb, get_last?, if◌then◌else◌, All, All-append, inl, inr, Option-cases, ◌⊎◌, ◌==◌,
}
use mafuta.Base.Int.{pos, ltb_ℤ, leb_ℤ, ◌-ℤ◌}
use mafuta.Base.Ratio.{Ratio}
use mafuta.Runtime.{Runtime}
use mafuta.Domain.Tank.{Tank}
use mafuta.Domain.Quantity.{litres_to_ml}
use mafuta.Domain.Reading.{TankReading, is_invalid}
use mafuta.Domain.Event.{FuelEvent, candidate_delivery, candidate_unexplained_decrease}
use mafuta.Events.Detection.{
  FuelEventDraft, is_duplicate, delivery_from_window, detect_in_window, delivery_draft, reduce,
  highest_of, lowest_of, detect_delivery_candidate, decrease_between, decrease_draft,
  decrease_of_pair, minutes_between, to_list, detect_decrease_candidate, detect_tank_events,
}

none_not_some : {A : Type 0} {a : A} → none ≡ some a → ⊥
none_not_some e = cc

some_injective : {A : Type 0} {a b : A} → some a ≡ some b → a ≡ b
some_injective e = cc

-- What has passed a test that gives nothing.
passed :
    {A : Type 0} (b : Bool) (x : Option A) (a : A)
    → (if b then none else x) ≡ some a
    → (b ≡ false) × (x ≡ some a)
passed true x a e = cc
passed false x a e = (refl, e)

module _ (rt : Runtime) (tank : Tank) (events : List FuelEvent) where
  -- The draft is about the latest reading, which no event of its kind covers that was not rejected.
  abbrev IsNew : TankReading → FuelEventDraft → Type 0
  IsNew latest d =
      (d.evidence.last_reading_id ≡ some latest.id) × (is_duplicate d.type latest.id events ≡ false)

  -- A delivery has risen to the threshold of the tank.
  abbrev IsDelivery : TankReading → FuelEventDraft → Type 0
  IsDelivery latest d =
      IsNew latest d
      × (d.type ≡ candidate_delivery)
      × (ltb_ℤ d.volume_change_ml (litres_to_ml tank.thresholds.delivery_litres) ≡ false)

  -- A decrease has lost something.
  abbrev IsDecrease : TankReading → FuelEventDraft → Type 0
  IsDecrease latest d =
      IsNew latest d
      × (d.type ≡ candidate_unexplained_decrease)
      × (leb_ℤ (d.evidence.volume_before_ml -ℤ d.evidence.volume_after_ml) (pos 0) ≡ false)

  delivery_from_window-IsDelivery :
      (first : TankReading) (rest : List TankReading) (latest : TankReading) (d : FuelEventDraft)
      → delivery_from_window rt tank first rest latest events ≡ some d
      → IsDelivery latest d
  unfolding delivery_from_window delivery_draft
  delivery_from_window-IsDelivery first rest latest d e =
      let (enough, e₁) = passed _ _ d e in
      let highest = reduce highest_of first rest in
      let (top, e₂) = passed (not (highest.id == latest.id)) _ d e₁ in
      let (new, e₃) = passed _ _ d e₂ in
      subst (IsDelivery latest)
        {x = delivery_draft rt tank (first ∷ rest) (reduce lowest_of first rest) latest}
        (some_injective e₃) ((refl, new), refl, enough)

  detect_in_window-IsDelivery :
      (window : List TankReading) (latest : TankReading) (d : FuelEventDraft)
      → detect_in_window rt tank window latest events ≡ some d
      → IsDelivery latest d
  unfolding detect_in_window
  detect_in_window-IsDelivery [] latest d e = absurd (none_not_some e)
  detect_in_window-IsDelivery (x ∷ []) latest d e = absurd (none_not_some e)
  detect_in_window-IsDelivery (x ∷ y ∷ rest) latest d e =
      delivery_from_window-IsDelivery x (y ∷ rest) latest d e

  detect_delivery_candidate-IsDelivery :
      (usable : List TankReading) (d : FuelEventDraft)
      → detect_delivery_candidate rt tank usable events ≡ some d
      → (latest : TankReading) × (get_last? usable ≡ some latest) × IsDelivery latest d
  unfolding detect_delivery_candidate
  detect_delivery_candidate-IsDelivery usable d e = elim (Option-cases (get_last? usable)) [
    | inl empty ↦ absurd (none_not_some (rw (detect_delivery_candidate, empty) at e))
    | inr (latest, last) ↦ (
      latest,
      last,
      detect_in_window-IsDelivery _ latest d (rw (detect_delivery_candidate, last) at e),
    )
  ]

  decrease_between-IsDecrease :
      (previous latest : TankReading) (minutes : Ratio) (d : FuelEventDraft)
      → decrease_between rt tank previous latest events minutes ≡ some d
      → IsDecrease latest d
  unfolding decrease_between decrease_draft
  decrease_between-IsDecrease previous latest minutes d e =
      let (long, e₁) = passed _ _ d e in
      let (lost, e₂) = passed _ _ d e₁ in
      let (fast, e₃) = passed _ _ d e₂ in
      let (new, e₄) = passed _ _ d e₃ in
      subst (IsDecrease latest) (some_injective e₄) ((refl, new), refl, lost)

  decrease_of_pair-IsDecrease :
      (previous latest : TankReading) (d : FuelEventDraft)
      → decrease_of_pair rt tank previous latest events ≡ some d
      → IsDecrease latest d
  unfolding decrease_of_pair
  decrease_of_pair-IsDecrease previous latest d e =
      elim (Option-cases (minutes_between rt previous latest)) [
        | inl unknown ↦ absurd (none_not_some (rw (decrease_of_pair, unknown) at e))
        | inr (minutes, known) ↦
            decrease_between-IsDecrease previous latest minutes d
              (rw (decrease_of_pair, known) at e)
      ]

  detect_decrease_candidate-IsDecrease :
      (usable : List TankReading) (d : FuelEventDraft)
      → detect_decrease_candidate rt tank usable events ≡ some d
      → (latest : TankReading) × (get_last? usable ≡ some latest) × IsDecrease latest d
  unfolding detect_decrease_candidate
  detect_decrease_candidate-IsDecrease [] d e = absurd (none_not_some e)
  detect_decrease_candidate-IsDecrease (x ∷ []) d e = absurd (none_not_some e)
  detect_decrease_candidate-IsDecrease (x ∷ y ∷ []) d e =
      (y, refl, decrease_of_pair-IsDecrease x y d e)
  detect_decrease_candidate-IsDecrease (x ∷ y ∷ z ∷ rest) d e =
      detect_decrease_candidate-IsDecrease (y ∷ z ∷ rest) d e

  -- What the latest usable reading says for a draft.
  abbrev pub IsJustified : List TankReading → FuelEventDraft → Type 0
  IsJustified readings d =
      (latest : TankReading) × (get_last? (filter (λ r. not (is_invalid r.quality)) readings)
        ≡ some latest)
      × (IsDelivery latest d ⊎ IsDecrease latest d)

  optional-All :
      (P : FuelEventDraft → Type 0) (o : Option FuelEventDraft)
      → ((d : FuelEventDraft) → o ≡ some d → P d)
      → All P (to_list rt o)
  optional-All P none h = tt
  optional-All P (some d) h = (h d refl, tt)

  -- Every event detected from a tank's readings is about the latest reading that is not invalid, and
  -- no event of its type that was not rejected covers that reading already; it is a candidate
  -- delivery whose rise reaches the tank's threshold, or a candidate decrease whose volume has
  -- fallen.
  pub detect_tank_events-IsJustified :
      (readings : List TankReading)
      → All (IsJustified readings) (detect_tank_events rt tank readings events)
  unfolding detect_tank_events
  detect_tank_events-IsJustified readings =
      let usable = filter (λ r. not (is_invalid r.quality)) readings in
      elim (ltb (length usable) 2)
        as (λ b. All (IsJustified readings) (
          if b
          then []
          else to_list rt (detect_delivery_candidate rt tank usable events)
            ++ to_list rt (detect_decrease_candidate rt tank usable events))) [
              | true ↦ tt
              | false ↦
                  All-append (IsJustified readings) _ _
                    (optional-All (IsJustified readings) _ (λ d e.
                      let (latest, last, is) = detect_delivery_candidate-IsDelivery usable d e in
                      (latest, last, inl is)))
                    (optional-All (IsJustified readings) _ (λ d e.
                      let (latest, last, is) = detect_decrease_candidate-IsDecrease usable d e in
                      (latest, last, inr is)))
            ]
