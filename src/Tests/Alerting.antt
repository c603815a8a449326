-- ===== src/Tests/Alerting.antt =====
-- Which alerts an evaluation raises and resolves.
use mafuta.Base.{true, false, eq_iff, none, some, List, [], ◌∷◌, ◌≡◌, refl, String, Among, ◌↔◌}
use mafuta.Base.Int.{pos}
use mafuta.Effect.{Result}
use mafuta.Ids.{is_identifier}
use mafuta.Domain.Alert.{Alert, AlertDraft, AlertType, AlertSeverity}
use mafuta.Memory.{World}
use mafuta.Alerts.Selection.{select_new_alert_drafts, select_resolved_alerts}
use mafuta.Alerts.Selection.Complete.{Matches, selections_iff}
use mafuta.Services.Rules.{apply_drafts}
use mafuta.Tests.Samples.{rt, empty_world, low_alert, value_of}

abbrev stale_draft : AlertDraft
stale_draft = record {
  tank_id = some "tank-1";
  type = AlertType.stale_data;
  severity = AlertSeverity.warning;
  message = "old";
  reading_id = none;
  metrics = [];
}

not_tenant : ¬ (◌≡◌ {A = String} "tank-1" "tenant")
not_tenant e = let same : false ≡ true = (eq_iff _ _).1 e in cc

selections_iff_example :
    ((draft : AlertDraft)
      → Among draft (select_new_alert_drafts (stale_draft ∷ []) (low_alert ∷ [])) ↔ (
          Among draft (stale_draft ∷ [])
          × ¬ ((alert : Alert) × Among alert (low_alert ∷ []) × Matches alert draft)))
    × ((alert : Alert)
        → Among alert (select_resolved_alerts (stale_draft ∷ []) (low_alert ∷ [])) ↔ (
            Among alert (low_alert ∷ [])
            × ¬ ((draft : AlertDraft) × Among draft (stale_draft ∷ []) × Matches alert draft)))
unfolding is_identifier
selections_iff_example =
    selections_iff (stale_draft ∷ []) (low_alert ∷ []) ((refl, not_tenant), tt)
      ((refl, not_tenant), tt)

-- The draft is raised, and the open alert is over.
abbrev applied : Result (List Alert × List Alert) × World
applied = apply_drafts rt "acme" (pos 1700000000000) (stale_draft ∷ []) (low_alert ∷ []) empty_world

abbrev raised : List Alert
raised = (value_of ([], []) applied.0).0
