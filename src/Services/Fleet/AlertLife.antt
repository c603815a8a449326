-- ===== src/Services/Fleet/AlertLife.antt =====
-- packages/core/src/services/fleet-service.ts: the states of an alert.
use mafuta.Base.{String, true, not, Option, some, ◌≡◌, refl, sym, ◌∙◌, ap, subst}
use mafuta.Base.Dict.{get}
use mafuta.Runtime.{Runtime}
use mafuta.Effect.{ok, err, ◌>>=◌}
use mafuta.Effect.Ok.{bind-ok, ensure-ok, require-ok, gets-ok}
use mafuta.Domain.Alert.{Alert, AlertStatus, opened, acknowledged, resolved, same_alert_status}
use mafuta.Memory.{World, scoped_key}
use mafuta.Memory.Saved.{owned-ok, get-set_itself}
use mafuta.Memory.Alerts
use mafuta.Services.Events.{or_null}
use mafuta.Services.Fleet.{
  require_alert, already_resolved, acknowledge_alert, resolve_alert, acknowledged_alert,
  resolved_alert, with_note,
}

still_open : (s : AlertStatus) → not (same_alert_status s resolved) ≡ true → ¬ (s ≡ resolved)
still_open opened e h = cc
still_open acknowledged e h = cc
still_open resolved e h = cc

module _ (rt : Runtime) (t id : String) where
  pub resolved_refused :
      (alert : Alert) (w : World) (remark : Option String) (actor : String)
      → get (scoped_key t id) w.store.alerts ≡ some alert
      → alert.status ≡ resolved
      → (acknowledge_alert rt t id remark actor w ≡ (err (already_resolved id), w))
        × (resolve_alert rt t id remark actor w ≡ (err (already_resolved id), w))
  unfolding acknowledge_alert resolve_alert require_alert Alerts.find_by_id ◌>>=◌
  resolved_refused alert w remark actor found over = (rw (found, over) refl, rw (found, over) refl)

  require_alert-ok :
      (w v : World) (alert : Alert)
      → require_alert t id w ≡ (ok alert, v)
      → get (scoped_key t id) w.store.alerts ≡ some alert
  unfolding require_alert Alerts.find_by_id
  require_alert-ok w v alert e =
      let (found, u, read, rest) = bind-ok _ _ w v alert e in
      (gets-ok _ found w u read).0 ∙ (require-ok found _ u v alert rest).0

  update-ok :
      (x y : Alert) (w v : World)
      → Alerts.update t x w ≡ (ok y, v)
      → (x.tenant_id ≡ t) × (y ≡ x) × (get (scoped_key t x.id) v.store.alerts ≡ some x)
  unfolding Alerts.update Alerts.put
  update-ok x y w v e =
      let (mine, same, state) = owned-ok x.tenant_id t _ _ x y w v e in
      (
        mine,
        same,
        subst (λ z. get (scoped_key t x.id) z.store.alerts ≡ some x) (sym state)
            (get-set_itself _ x w.store.alerts),
      )

  module _ (remark : Option String) (actor : String) where
    -- A resolution that returns found an alert of the tenant that was not resolved; the alert it
    -- gives is the one found, now resolved, with the actor and the time, acknowledged by them too
    -- unless it was before, with the remark added to its message, and is stored under its id.
    pub resolve_alert-ok :
        (w v : World) (a : Alert)
        → resolve_alert rt t id remark actor w ≡ (ok a, v)
        → (alert : Alert) × (at : String) × (get (scoped_key t id) w.store.alerts ≡ some alert)
          × ¬ (alert.status ≡ resolved)
          × (alert.tenant_id ≡ t)
          × (a ≡ record alert {
            status = resolved;
            resolved_at = some at;
            resolved_by = some actor;
            acknowledged_at = or_null alert.acknowledged_at (some at);
            acknowledged_by = or_null alert.acknowledged_by (some actor);
            updated_at = at;
            message = with_note alert.message remark;
          })
          × (get (scoped_key t alert.id) v.store.alerts ≡ some a)
    unfolding resolve_alert resolved_alert
    resolve_alert-ok w v a e =
        let (alert, w₁, e₁, f₁) = bind-ok _ _ w v a e in
        let (u₂, w₂, e₂, f₂) = bind-ok _ _ w₁ v a f₁ in
        let (at, w₃, e₃, f₃) = bind-ok _ _ w₂ v a f₂ in
        let (mine, same, stored) = update-ok _ a w₃ v f₃ in
        (
          alert,
          rt.to_iso at,
          require_alert-ok w w₁ alert e₁,
          still_open alert.status (ensure-ok _ _ w₁ w₂ u₂ e₂).0,
          mine,
          same,
          stored ∙ ap (λ x. some x) (sym same),
        )

    -- An acknowledgement that returns found an alert that was not resolved; the alert it gives is
    -- acknowledged, keeps the time and the person of an earlier acknowledgement if there was one,
    -- and is stored under its id.
    pub acknowledge_alert-ok :
        (w v : World) (a : Alert)
        → acknowledge_alert rt t id remark actor w ≡ (ok a, v)
        → (alert : Alert) × (at : String) × (get (scoped_key t id) w.store.alerts ≡ some alert)
          × ¬ (alert.status ≡ resolved)
          × (a.status ≡ acknowledged)
          × (a.acknowledged_at ≡ or_null alert.acknowledged_at (some at))
          × (a.acknowledged_by ≡ or_null alert.acknowledged_by (some actor))
          × (get (scoped_key t alert.id) v.store.alerts ≡ some a)
    unfolding acknowledge_alert acknowledged_alert
    acknowledge_alert-ok w v a e =
        let (alert, w₁, e₁, f₁) = bind-ok _ _ w v a e in
        let (u₂, w₂, e₂, f₂) = bind-ok _ _ w₁ v a f₁ in
        let (at, w₃, e₃, f₃) = bind-ok _ _ w₂ v a f₂ in
        let (mine, same, stored) = update-ok _ a w₃ v f₃ in
        (
          alert,
          rt.to_iso at,
          require_alert-ok w w₁ alert e₁,
          still_open alert.status (ensure-ok _ _ w₁ w₂ u₂ e₂).0,
          ap (λ x. x.status) same,
          ap (λ x. x.acknowledged_at) same,
          ap (λ x. x.acknowledged_by) same,
          stored ∙ ap (λ x. some x) (sym same),
        )
