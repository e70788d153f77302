-- ===== src/Reconcile/Status.antt =====
-- The functions of internal/controller/conditions.go as writes to the policy.
use zalando_vertical_autosca.Common.{String, Bool, Option, none, some}
use zalando_vertical_autosca.Api.{ConditionStatus, MaintenanceRecord, MaintenanceStatus}
use zalando_vertical_autosca.Platform.{Platform}
use zalando_vertical_autosca.Monad.{M, pure, ◌>>=◌, ◌>>◌, get, modify_policy, now}
use zalando_vertical_autosca.Conditions.{
  set_condition_list, add_record, find_in_progress_record, modify_in_progress, finish_record,
  with_conditions, with_history,
}

module _ (P : Platform) where
  -- `SetCondition`
  unfoldable pub set_condition : String → ConditionStatus → String → String → M P Bool
  set_condition type status reason message = do
    t ← now P
    policy ← get
    let r =
        set_condition_list t policy.generation policy.status.conditions type status reason message
    modify_policy (with_conditions r.0)
    pure r.1

  -- `addMaintenanceRecord`
  unfoldable pub add_maintenance_record : MaintenanceRecord → M P (Unit {0})
  add_maintenance_record r =
      modify_policy λ p. with_history (add_record p.status.maintenance_history r) p

  unfoldable pub mark_found : Option MaintenanceRecord → MaintenanceStatus → String → M P (Unit {0})
  mark_found none status reason = pure tt
  mark_found (some _) status reason = do
    t ← now P
    modify_policy λ p.
        with_history
          (modify_in_progress (finish_record t status reason) p.status.maintenance_history) p

  -- `markRecordCompleted`
  unfoldable pub mark_record_completed : MaintenanceStatus → String → M P (Unit {0})
  mark_record_completed status reason = do
    policy ← get
    mark_found (find_in_progress_record policy.status.maintenance_history) status reason
