-- ===== src/Alerts/Selection/Complete.antt =====
-- packages/core/src/alerts/alert-engine.ts: which drafts and alerts are selected.
use mafuta.Base.{
  String, Bool, true, not, List, ◌==◌, any, ◌≡◌, refl, sym, All, Among, Among-filter, ◌↔◌, inl, inr,
  eq_iff, Bool-cases, any-some, any-Among, All-Among,
}
use mathlib.Core.Path.{ap₂}
use mafuta.Domain.Alert.{Alert, AlertDraft}
use mafuta.Alerts.Selection.{
  alert_key, key_of_draft, key_of_alert, select_new_alert_drafts, select_resolved_alerts,
}
use mafuta.Alerts.Selection.Keys.{IsTank, alert_key-injective}

-- An alert and a draft of the same tank and type.
abbrev pub Matches : Alert → AlertDraft → Type 0
Matches alert draft = (alert.tank_id ≡ draft.tank_id) × (alert.type ≡ draft.type)

same_key_iff :
    (alert : Alert) (draft : AlertDraft)
    → IsTank alert.tank_id
    → IsTank draft.tank_id
    → ((key_of_alert alert == key_of_draft draft) ≡ true) ↔ Matches alert draft
same_key_iff alert draft h k = (
  λ same.
      alert_key-injective alert.tank_id draft.tank_id alert.type draft.type h k
        ((eq_iff _ _).0 same),
  λ (tank, type). (eq_iff _ _).1 (ap₂ alert_key tank type),
)

not-any :
    {A : Type 0} (p : A → Bool) (xs : List A)
    → (not (any p xs) ≡ true) ↔ ¬ ((x : A) × Among x xs × (p x ≡ true))
not-any p xs = elim (Bool-cases (any p xs)) [
  | inl some_x ↦
      (λ none_x. cc (rw some_x at none_x), λ none_x. absurd (none_x (any-some p xs some_x)))
  | inr no_x ↦
      (λ _ (x, among, passes). cc (rw (any-Among p x xs among passes) at no_x), λ _. rw no_x refl)
]

pub turned : (s t : String) → (s == t) ≡ true → (t == s) ≡ true
turned s t h = (eq_iff t s).1 (sym ((eq_iff s t).0 h))

module _ (drafts : List AlertDraft) (alerts : List Alert)
    (of_drafts : All (λ draft. IsTank draft.tank_id) drafts)
    (of_alerts : All (λ alert. IsTank alert.tank_id) alerts) where
  new_iff :
      (draft : AlertDraft)
      → Among draft (select_new_alert_drafts drafts alerts)
        ↔ (Among draft drafts × ¬ ((alert : Alert) × Among alert alerts × Matches alert draft))
  unfolding select_new_alert_drafts
  new_iff draft =
      let kept =
        Among-filter (λ c. not (any (λ a. key_of_alert a == key_of_draft c) alerts)) draft drafts in
      let free = not-any (λ a. key_of_alert a == key_of_draft draft) alerts in
      let same = λ (alert : Alert) (among : Among alert alerts) (here : Among draft drafts).
        same_key_iff alert draft (All-Among _ alert alerts of_alerts among)
          (All-Among _ draft drafts of_drafts here) in
      (
        λ chosen.
            let (here, fresh) = kept.0 chosen in
            (
              here,
              λ (alert, among, match). free.0 fresh (alert, among, (same alert among here).1 match),
            ),
        λ (here, unmatched). kept.1 (
          here,
          free.1 λ (alert, among, key). unmatched (alert, among, (same alert among here).0 key),
        ),
      )

  over_iff :
      (alert : Alert)
      → Among alert (select_resolved_alerts drafts alerts)
        ↔ (Among alert alerts × ¬ ((draft : AlertDraft) × Among draft drafts × Matches alert draft))
  unfolding select_resolved_alerts
  over_iff alert =
      let kept =
        Among-filter (λ a. not (any (λ c. key_of_draft c == key_of_alert a) drafts)) alert alerts in
      let free = not-any (λ c. key_of_draft c == key_of_alert alert) drafts in
      let same = λ (draft : AlertDraft) (among : Among draft drafts) (here : Among alert alerts).
        same_key_iff alert draft (All-Among _ alert alerts of_alerts here)
          (All-Among _ draft drafts of_drafts among) in
      (
        λ chosen.
            let (here, stale) = kept.0 chosen in
            (
              here,
              λ (draft, among, match).
                  free.0 stale (draft, among, turned _ _ ((same draft among here).1 match)),
            ),
        λ (here, unmatched). kept.1 (
          here,
          free.1 λ (draft, among, key).
              unmatched (draft, among, (same draft among here).0 (turned _ _ key)),
        ),
      )

  -- For drafts and open alerts of no tank or of tanks whose ids are identifiers other than the word
  -- for no tank: a draft is selected as new exactly if it is among the drafts and no open alert is
  -- of its tank and type, and an open alert is selected as over exactly if it is among the open
  -- alerts and no draft is of its tank and type.
  pub selections_iff :
      ((draft : AlertDraft)
        → Among draft (select_new_alert_drafts drafts alerts)
          ↔ (Among draft drafts × ¬ ((alert : Alert) × Among alert alerts × Matches alert draft)))
      × ((alert : Alert)
          → Among alert (select_resolved_alerts drafts alerts) ↔ (
              Among alert alerts
              × ¬ ((draft : AlertDraft) × Among draft drafts × Matches alert draft)))
  selections_iff = (new_iff, over_iff)
