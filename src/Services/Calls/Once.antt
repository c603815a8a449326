-- ===== src/Services/Calls/Once.antt =====
-- packages/core/src/services: second decisions on an event or an alert.
use mafuta.Base.{String, Option, some, ◌≡◌, sym, ap, ◌∙◌, subst}
use mathlib.Core.Path.{Path}
use mafuta.Base.Dict.{get, get-Entries}
use mafuta.Runtime.{Runtime}
use mafuta.Effect.{ok, err}
use mafuta.Domain.Event.{FuelEventStatus, candidate, confirmed}
use mafuta.Domain.Alert.{Alert}
use mafuta.Memory.{World, scoped_key}
use mafuta.Services.Events.{ConfirmEventInput, ConfirmEventResult, already_decided, confirm, reject}
use mafuta.Services.Events.Decisions.{confirm-ok, decided_refused}
use mafuta.Services.Fleet.{already_resolved, acknowledge_alert, resolve_alert}
use mafuta.Services.Fleet.AlertLife.{resolve_alert-ok, resolved_refused}
use mafuta.Services.Calls.Keyed.{IsKeyed}

confirmed_not_candidate : ¬ (Path FuelEventStatus confirmed candidate)
confirmed_not_candidate e = cc

module _ (rt : Runtime) (t id : String) where
  -- After a confirmation of an event has returned, from a store whose entities stand under their own
  -- keys, any further confirmation or rejection of that event is refused as already decided and
  -- leaves the state as it is.
  pub confirm_once :
      (input : ConfirmEventInput) (actor : String) (w v : World) (r : ConfirmEventResult)
      → IsKeyed w.store
      → confirm rt t id input actor w ≡ (ok r, v)
      → (again : ConfirmEventInput) (other remark : String)
      → (confirm rt t id again other v ≡ (err (already_decided id r.event), v))
        × (reject rt t id remark other v ≡ (err (already_decided id r.event), v))
  unfolding IsKeyed
  confirm_once input actor w v r keyed e again other remark =
      let (
        event,
        at,
        found,
        is,
        kind,
        measured,
        recorded,
        (owner, changed, made, variance, stored, kept),
      ) =
        confirm-ok rt t id input actor w v r e in
      let at_key = get-Entries _ _ event w.store.events keyed.6 found in
      let here =
        subst (λ k. get k v.store.events ≡ some r.event)
          (sym (at_key ∙ ap (λ s. scoped_key s event.id) owner)) stored in
      decided_refused rt t id r.event v again other remark here
        (λ h. confirmed_not_candidate (sym (ap (λ x. x.status) changed) ∙ h))

  -- After an alert has been resolved, from a store whose entities stand under their own keys, any
  -- further acknowledgement or resolution of it is refused as already resolved and leaves the state
  -- as it is.
  pub resolve_alert_final :
      (remark : Option String) (actor : String) (w v : World) (a : Alert)
      → IsKeyed w.store
      → resolve_alert rt t id remark actor w ≡ (ok a, v)
      → (again : Option String) (other : String)
      → (acknowledge_alert rt t id again other v ≡ (err (already_resolved id), v))
        × (resolve_alert rt t id again other v ≡ (err (already_resolved id), v))
  unfolding IsKeyed
  resolve_alert_final remark actor w v a keyed e again other =
      let (alert, at, found, unresolved, owner, changed, stored) =
        resolve_alert-ok rt t id remark actor w v a e in
      let at_key = get-Entries _ _ alert w.store.alerts keyed.3 found in
      let here =
        subst (λ k. get k v.store.alerts ≡ some a)
          (sym (at_key ∙ ap (λ s. scoped_key s alert.id) owner)) stored in
      resolved_refused rt t id a v again other here (ap (λ x. x.status) changed)
