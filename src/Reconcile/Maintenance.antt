-- ===== src/Reconcile/Maintenance.antt =====
-- A maintenance run: its start, its phases, and its ends.
use zalando_vertical_autosca.Common.{
  String, ◌<>◌, Bool, true, false, Option, none, some, List, [], ◌∷◌, if◌then◌else◌,
}
use zalando_vertical_autosca.Common.Int.{ℤ, pos, ◌+ℤ◌, ltb_ℤ, div_trunc, mod_trunc, wrap64}
use zalando_vertical_autosca.Common.Errors.{Result, ok, err, wrapped, GoError, error_string}
use zalando_vertical_autosca.Api.{
  PostgresMemoryPolicy, MaintenanceRecord, MaintenancePhase, in_progress, completed, failed,
  patch_applied, post_actions_triggered, other_phase, condition_true, condition_false,
  condition_maintenance_in_progress, condition_last_maintenance_failed, reason_maintenance_timeout,
  PostActionSpec,
}
use zalando_vertical_autosca.Platform.{Platform}
use zalando_vertical_autosca.Monad.{M, pure, ◌>>=◌, ◌>>◌, get, modify_policy, now, record_event}
use zalando_vertical_autosca.Conditions.{modify_in_progress, with_history}
use zalando_vertical_autosca.Window.{WindowResult, requeue_after}
use zalando_vertical_autosca.Vpa.{VpaRecommendation}
use zalando_vertical_autosca.Parameters.{calculate_postgres_parameters}
use zalando_vertical_autosca.Zalando.{is_cluster_healthy}
use zalando_vertical_autosca.Zalando.Patch.{patch_resources}
use zalando_vertical_autosca.PostActions.{trigger_post_actions, are_post_actions_complete}
use zalando_vertical_autosca.Reconcile.Status.{
  set_condition, add_maintenance_record, mark_record_completed,
}

-- `ctrl.Result` with its error.
abbrev pub Outcome : Type 0
Outcome = Result ℤ

abbrev pub five_minutes : ℤ
five_minutes = pos 300000000000

abbrev pub thirty_seconds : ℤ
thirty_seconds = pos 30000000000

module _ {Q : Type 0} (milli_value : Q → ℤ) where
  -- `cpuCores`: millicores in whole cores, rounded up.
  unfoldable pub cpu_cores : VpaRecommendation Q → ℤ
  cpu_cores rec = elim (rec.cpu) [
    | none ↦ pos 0
    | some cpu ↦
        let millis = milli_value cpu in
        let cores = div_trunc millis (pos 1000) in
        if ltb_ℤ (pos 0) (mod_trunc millis 1000) then wrap64 (cores +ℤ pos 1) else cores
  ]

module _ (P : Platform) where
  open P use {quantities, runtime, templates}

  -- `calculatePGParams`
  unfoldable pub calculate_pg_params :
      PostgresMemoryPolicy quantities.Quantity → ℤ → ℤ → Result (List (String × String))
  calculate_pg_params policy memory_bytes cpu =
      calculate_postgres_parameters templates runtime policy.spec.postgres_parameters memory_bytes
        cpu

  -- `failMaintenance`
  unfoldable pub fail_maintenance : String → M P Outcome
  fail_maintenance reason = do
    mark_record_completed P failed reason
    _ ← set_condition P condition_maintenance_in_progress condition_false "MaintenanceFailed" reason
    _ ← set_condition P condition_last_maintenance_failed condition_true "MaintenanceFailed" reason
    record_event P "Warning" "MaintenanceFailed" reason
    pure (ok five_minutes)

  unfoldable pub set_current_memory : Option quantities.Quantity → M P (Unit {0})
  set_current_memory q =
      modify_policy λ p. record p { status = record (p.status) { current_memory = q } }

  -- The common end of a run that succeeded: `reason` and `message` differ by the caller.
  unfoldable pub mark_success : quantities.Quantity → String → String → M P (Unit {0})
  mark_success memory reason message = do
    set_current_memory (some memory)
    mark_record_completed P completed reason
    _ ←
        set_condition P condition_maintenance_in_progress condition_false "MaintenanceCompleted"
          message
    _ ←
        set_condition P condition_last_maintenance_failed condition_false "MaintenanceSucceeded"
          "last maintenance run succeeded"
    pure tt

  unfoldable pub parse_failed : String → GoError → String
  parse_failed applied e =
      "parsing applied memory " <> runtime.quote applied <> ": " <> error_string e

  unfoldable pub complete_parsed :
      Result quantities.Quantity → String → WindowResult → ℤ → M P Outcome
  complete_parsed (err e) applied window_result t = fail_maintenance (parse_failed applied e)
  complete_parsed (ok memory) applied window_result t = do
    mark_success memory "" "maintenance completed successfully"
    policy ← get
    record_event P "Normal" "MaintenanceCompleted" (
        "maintenance completed: applied memory="
        <> quantities.text memory
        <> " to cluster "
        <> runtime.quote policy.spec.target_cluster)
    pure (ok (requeue_after window_result t))

  -- `completeMaintenance`
  unfoldable pub complete_maintenance : MaintenanceRecord → WindowResult → ℤ → M P Outcome
  complete_maintenance r window_result t =
      complete_parsed (quantities.parse r.applied_memory) r.applied_memory window_result t

  unfoldable pub grace_parsed : Result quantities.Quantity → String → M P Outcome
  grace_parsed (err e) applied = fail_maintenance (parse_failed applied e)
  grace_parsed (ok memory) applied = do
    mark_success memory "completed after window expired" "maintenance completed (grace period)"
    record_event P "Normal" "MaintenanceCompleted"
        "maintenance completed after window expired (grace period)"
    pure (ok five_minutes)

  -- `postActionsDone` of `handleWindowExpired`, by the record's phase.
  unfoldable pub post_actions_done : MaintenancePhase → List PostActionSpec → M P (Result Bool)
  post_actions_done post_actions_triggered actions = are_post_actions_complete P actions
  post_actions_done patch_applied [] = pure (ok true)
  post_actions_done patch_applied (_ ∷ _) = pure (ok false)
  post_actions_done (other_phase _) actions = pure (ok true)

  -- The rest of `handleWindowExpired` once the post-actions have been asked.
  unfoldable pub expired_done : MaintenanceRecord → Result Bool → M P Outcome
  expired_done r (err _) = fail_maintenance reason_maintenance_timeout
  expired_done r (ok false) = fail_maintenance reason_maintenance_timeout
  expired_done r (ok true) = grace_parsed (quantities.parse r.applied_memory) r.applied_memory

  unfoldable pub expired_healthy : MaintenanceRecord → Result Bool → M P Outcome
  expired_healthy r (err _) = fail_maintenance reason_maintenance_timeout
  expired_healthy r (ok false) = fail_maintenance reason_maintenance_timeout
  expired_healthy r (ok true) = do
    policy ← get
    done ← post_actions_done r.phase policy.spec.post_actions
    expired_done r done

  -- `handleWindowExpired`
  unfoldable pub handle_window_expired : MaintenanceRecord → M P Outcome
  handle_window_expired r = do
    policy ← get
    healthy ← is_cluster_healthy P policy.namespace policy.spec.target_cluster
    expired_healthy r healthy

  -- `record.Phase = …`, a write through the pointer to the first record in progress.
  unfoldable pub set_phase : MaintenancePhase → M P (Unit {0})
  set_phase phase = modify_policy λ p.
      with_history
        (modify_in_progress (λ r. record r { phase = phase }) p.status.maintenance_history) p

  unfoldable pub phase_triggered : Result (Unit {0}) → M P Outcome
  phase_triggered (err e) = fail_maintenance ("triggering post-actions: " <> error_string e)
  phase_triggered (ok _) = do set_phase post_actions_triggered; pure (ok thirty_seconds)

  -- The first phase, once the cluster is healthy.
  unfoldable pub trigger_or_complete :
      MaintenanceRecord → WindowResult → ℤ → List PostActionSpec → M P Outcome
  trigger_or_complete r window_result t [] = complete_maintenance r window_result t
  trigger_or_complete r window_result t (a ∷ actions) = do
    answer ← trigger_post_actions P (a ∷ actions)
    phase_triggered answer

  unfoldable pub patched_healthy : MaintenanceRecord → WindowResult → ℤ → Result Bool → M P Outcome
  patched_healthy r window_result t (err e) = pure (err (wrapped "checking cluster health" e))
  patched_healthy r window_result t (ok false) = pure (ok thirty_seconds)
  patched_healthy r window_result t (ok true) = do
    policy ← get
    trigger_or_complete r window_result t policy.spec.post_actions

  unfoldable pub triggered_done : MaintenanceRecord → WindowResult → ℤ → Result Bool → M P Outcome
  triggered_done r window_result t (err e) =
      pure (err (wrapped "checking post-action completion" e))
  triggered_done r window_result t (ok false) = pure (ok thirty_seconds)
  triggered_done r window_result t (ok true) = complete_maintenance r window_result t

  unfoldable pub monitor_phase :
      MaintenancePhase → MaintenanceRecord → WindowResult → ℤ → M P Outcome
  monitor_phase patch_applied r window_result t = do
    policy ← get
    healthy ← is_cluster_healthy P policy.namespace policy.spec.target_cluster
    patched_healthy r window_result t healthy
  monitor_phase post_actions_triggered r window_result t = do
    policy ← get
    done ← are_post_actions_complete P policy.spec.post_actions
    triggered_done r window_result t done
  monitor_phase (other_phase phase) r window_result t =
      fail_maintenance ("unknown maintenance phase " <> runtime.quote phase)

  -- `monitorMaintenance`
  unfoldable pub monitor_maintenance : MaintenanceRecord → WindowResult → ℤ → M P Outcome
  monitor_maintenance r window_result t = monitor_phase r.phase r window_result t

  unfoldable pub previous_text : Option quantities.Quantity → String
  previous_text none = ""
  previous_text (some q) = quantities.text q

  unfoldable pub started : String → VpaRecommendation quantities.Quantity → M P Outcome
  started previous rec = do
    _ ←
        set_condition P condition_maintenance_in_progress condition_true "MaintenanceStarted"
          "maintenance run has started"
    t ← now P
    add_maintenance_record P (record {
      started_at = t;
      completed_at = none;
      status = in_progress;
      phase = patch_applied;
      reason = "";
      previous_memory = previous;
      applied_memory = quantities.text rec.memory;
    })
    policy ← get
    record_event P "Normal" "MaintenanceStarted" (
        "maintenance started: applying memory="
        <> quantities.text rec.memory
        <> " to cluster "
        <> runtime.quote policy.spec.target_cluster)
    pure (ok thirty_seconds)

  unfoldable pub start_patched :
      String → VpaRecommendation quantities.Quantity → Result (Unit {0}) → M P Outcome
  start_patched previous rec (err e) = fail_maintenance ("patching Zalando CR: " <> error_string e)
  start_patched previous rec (ok _) = started previous rec

  unfoldable pub start_with_params :
      String → VpaRecommendation quantities.Quantity → Result (List (String × String)) → M P Outcome
  start_with_params previous rec (err e) =
      fail_maintenance ("calculating PG parameters: " <> error_string e)
  start_with_params previous rec (ok pg_params) = do
    answer ← patch_resources P rec pg_params
    start_patched previous rec answer

  -- `startMaintenance`
  unfoldable pub start_maintenance :
      VpaRecommendation quantities.Quantity → Option quantities.Quantity → M P Outcome
  start_maintenance rec current_memory = do
    policy ← get
    start_with_params (previous_text current_memory) rec (
        calculate_pg_params policy (quantities.value rec.memory)
          (cpu_cores quantities.milli_value rec))
