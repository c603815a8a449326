-- ===== src/Services/Rules/Settled.antt =====
-- packages/core/src/services/ingest-service.ts: the alerts that are open after the drafts of an
-- evaluation have been applied.
use mafuta.Base.{Bool, List, ◌==◌, ◌≡◌, Among, ◌↔◌, ◌⊎◌}
use mafuta.Runtime.{Runtime}
use mafuta.Domain.Alert.{Alert, AlertDraft}
use mafuta.Memory.Alerts
use mafuta.Alerts.Selection.{
  key_of_draft, key_of_alert, select_new_alert_drafts, select_resolved_alerts,
}

-- Each draft has an alert of its key, and each alert a draft.
abbrev Paired : List AlertDraft → List Alert → Type 0
Paired drafts alerts =
    ((draft : AlertDraft)
      → Among draft drafts
      → (alert : Alert) × Among alert alerts × (key_of_alert alert ≡ key_of_draft draft))
    × ((alert : Alert)
        → Among alert alerts
        → (draft : AlertDraft) × Among draft drafts × (key_of_alert alert ≡ key_of_draft draft))

module _ (drafts : List AlertDraft) (open_alerts raised later : List Alert)
    (paired : Paired (select_new_alert_drafts drafts open_alerts) raised)
    (next : (a : Alert)
      → Among a later ↔ (
          Among a raised
          ⊎ (Among a open_alerts × ¬ Among a (select_resolved_alerts drafts open_alerts)))) where
  key_of : AlertDraft → Alert → Bool
  key_of draft alert = key_of_alert alert == key_of_draft draft

  draft_of : Alert → AlertDraft → Bool
  draft_of alert draft = key_of_draft draft == key_of_alert alert
