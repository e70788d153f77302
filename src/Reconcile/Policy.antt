-- ===== src/Reconcile/Policy.antt =====
-- `reconcilePolicy` and `Reconcile`.
use zalando_vertical_autosca.Common.{
  String, ◌<>◌, Bool, true, false, not, ◌&&◌, Option, none, some, List, [], if◌then◌else◌,
}
use zalando_vertical_autosca.Common.Int.{ℤ, pos, ltb_ℤ}
use zalando_vertical_autosca.Common.Errors.{
  Result, ok, err, api, recommendation, plain, wrapped, GoError, is_not_found,
}
use zalando_vertical_autosca.Float64.{Float64, of_int, mul, div, to_int64}
use zalando_vertical_autosca.Api.{
  PostgresMemoryPolicy, MaintenanceRecord, skipped, other_phase, condition_true, condition_false,
  condition_maintenance_in_progress, condition_vpa_recommendation_ready, reason_cluster_unhealthy,
}
use zalando_vertical_autosca.Platform.{Platform}
use zalando_vertical_autosca.Monad.{
  M, Exec, returned, panicked, Call, pure, ◌>>=◌, ◌>>◌, get, modify_policy, now, record_event,
}
use zalando_vertical_autosca.Conditions.{
  is_condition_true_list, find_in_progress_record, has_completed_in_window,
}
use zalando_vertical_autosca.Window.{WindowResult, evaluate, requeue_after, minute}
use zalando_vertical_autosca.Vpa.{VpaRecommendation, read_recommendation}
use zalando_vertical_autosca.Zalando.{get_current_memory, is_cluster_healthy}
use zalando_vertical_autosca.Zalando.Gates.{ChangeGateResult, evaluate_change_gates}
use zalando_vertical_autosca.Zalando.Patch.{patch_resources}
use zalando_vertical_autosca.Reconcile.Status.{set_condition, add_maintenance_record}
use zalando_vertical_autosca.Reconcile.Maintenance.{
  Outcome, five_minutes, cpu_cores, calculate_pg_params, start_maintenance, monitor_maintenance,
  handle_window_expired,
}

-- The CPU of the bootstrap: 100 millicores for each gibibyte, and 100 at least.
unfoldable pub bootstrap_millis : (Float64 → ℤ) → ℤ → ℤ
bootstrap_millis out_of_range mem_bytes =
    let cpu_millis =
      to_int64 out_of_range
        (mul (div (of_int mem_bytes) (of_int (pos 1073741824))) (of_int (pos 100))) in
    if ltb_ℤ cpu_millis (pos 100) then pos 100 else cpu_millis

module _ (P : Platform) where
  open P use {quantities, gronx, runtime, client}

  unfoldable pub skipped_record : ℤ → String → MaintenanceRecord
  skipped_record t reason = record {
    started_at = t;
    completed_at = none;
    status = skipped;
    phase = other_phase "";
    reason = reason;
    previous_memory = "";
    applied_memory = "";
  }

  unfoldable pub bootstrap_patched :
      quantities.Quantity → quantities.Quantity → Result (Unit {0}) → M P Outcome
  bootstrap_patched memory cpu (err e) = pure (err (wrapped "applying initial memory" e))
  bootstrap_patched memory cpu (ok _) = do
    modify_policy λ p. record p { status = record (p.status) { current_memory = some memory } }
    policy ← get
    record_event P "Normal" "InitialMemoryApplied" (
        "applied initial memory="
        <> quantities.text memory
        <> " cpu="
        <> quantities.text cpu
        <> " to cluster "
        <> runtime.quote policy.spec.target_cluster
        <> " (no prior resources set)")
    pure (ok minute)

  unfoldable pub bootstrap_with :
      quantities.Quantity → quantities.Quantity → Result (List (String × String)) → M P Outcome
  bootstrap_with memory cpu (err e) =
      pure (err (wrapped "calculating PG parameters for bootstrap" e))
  bootstrap_with memory cpu (ok pg_params) = do
    answer ← patch_resources P (record { memory = memory; cpu = some cpu }) pg_params
    bootstrap_patched memory cpu answer

  -- Step 1 with a cluster that has no memory set: apply the initial memory.
  unfoldable pub bootstrap : quantities.Quantity → M P Outcome
  bootstrap memory = do
    policy ← get
    let mem_bytes = quantities.value memory
    let cpu = quantities.new_milli_quantity (bootstrap_millis runtime.out_of_range mem_bytes)
    bootstrap_with memory cpu (
        calculate_pg_params P policy mem_bytes
          (cpu_cores quantities.milli_value (record { memory = memory; cpu = some cpu })))

  -- A gate has blocked the run.
  unfoldable pub blocked_by : ChangeGateResult → WindowResult → ℤ → M P Outcome
  blocked_by gate window_result t = do
    record_event P "Normal" gate.reason gate.message
    started_at ← now P
    add_maintenance_record P (skipped_record started_at gate.reason)
    _ ← set_condition P condition_maintenance_in_progress condition_false gate.reason gate.message
    pure (ok (requeue_after window_result t))

  -- Steps 5 and 6.
  unfoldable pub change_gates :
      VpaRecommendation quantities.Quantity
      → Option quantities.Quantity
      → WindowResult
      → ℤ
      → M P Outcome
  change_gates rec none window_result t = start_maintenance P rec none
  change_gates rec (some current) window_result t = do
    modify_policy λ p. record p { status = record (p.status) { current_memory = some current } }
    policy ← get
    let gate =
        evaluate_change_gates quantities runtime current rec.memory (some policy.spec.safety_gates)
    if gate.blocked then blocked_by gate window_result t else start_maintenance P rec (some current)

  -- Step 4, once the cluster has been asked.
  unfoldable pub health_gate :
      VpaRecommendation quantities.Quantity
      → Option quantities.Quantity
      → WindowResult
      → ℤ
      → Result Bool
      → M P Outcome
  health_gate rec current window_result t (err e) = pure (err (wrapped "checking cluster health" e))
  health_gate rec current window_result t (ok true) = change_gates rec current window_result t
  health_gate rec current window_result t (ok false) = do
    policy ← get
    record_event P "Warning" reason_cluster_unhealthy (
        "cluster "
        <> runtime.quote policy.spec.target_cluster
        <> " is not healthy; skipping maintenance")
    started_at ← now P
    add_maintenance_record P (skipped_record started_at reason_cluster_unhealthy)
    pure (ok (requeue_after window_result t))

  unfoldable pub safety_gates :
      VpaRecommendation quantities.Quantity
      → Option quantities.Quantity
      → WindowResult
      → ℤ
      → M P Outcome
  safety_gates rec current window_result t = do
    policy ← get
    if policy.spec.safety_gates.require_healthy_cluster
        then (do
          healthy ← is_cluster_healthy P policy.namespace policy.spec.target_cluster
          health_gate rec current window_result t healthy)
        else change_gates rec current window_result t

  -- Step 3b: at most one update in a window, and none outside.
  unfoldable pub window_guard :
      VpaRecommendation quantities.Quantity
      → Option quantities.Quantity
      → WindowResult
      → ℤ
      → M P Outcome
  window_guard rec current window_result t = do
    policy ← get
    if window_result.in_window
          && has_completed_in_window policy.status.maintenance_history window_result.next_open
              window_result.window_end
        then pure (ok (requeue_after window_result t))
        else if not window_result.in_window
        then pure (ok (requeue_after window_result t))
        else safety_gates rec current window_result t

  -- Step 3, once the record in progress has been looked up.
  unfoldable pub in_progress_step :
      VpaRecommendation quantities.Quantity
      → Option quantities.Quantity
      → WindowResult
      → ℤ
      → Option MaintenanceRecord
      → M P Outcome
  in_progress_step rec current window_result t (some r) =
      if not window_result.in_window
      then handle_window_expired P r
      else monitor_maintenance P r window_result t
  in_progress_step rec current window_result t none = do
    _ ←
        set_condition P condition_maintenance_in_progress condition_false "StaleConditionCleared"
          "no in-progress record found"
    window_guard rec current window_result t

  -- Step 3.
  unfoldable pub maintenance_step :
      VpaRecommendation quantities.Quantity
      → Option quantities.Quantity
      → WindowResult
      → ℤ
      → M P Outcome
  maintenance_step rec current window_result t = do
    policy ← get
    if is_condition_true_list policy.status.conditions condition_maintenance_in_progress
        then in_progress_step rec current window_result t
            (find_in_progress_record policy.status.maintenance_history)
        else window_guard rec current window_result t

  unfoldable pub window_evaluated :
      VpaRecommendation quantities.Quantity
      → Option quantities.Quantity
      → ℤ
      → Result WindowResult
      → M P Outcome
  window_evaluated rec current t (err e) = pure (err (wrapped "evaluating maintenance window" e))
  window_evaluated rec current t (ok window_result) = maintenance_step rec current window_result t

  -- The second step 2: evaluate the maintenance window.
  unfoldable pub window_step :
      VpaRecommendation quantities.Quantity → Option quantities.Quantity → M P Outcome
  window_step rec current = do
    t ← now P
    policy ← get
    window_evaluated rec current t (
        evaluate gronx runtime policy.spec.maintenance_window.cron
          policy.spec.maintenance_window.timeout_minutes t)

  -- An error of the reader: a `*RecommendationError` is expected, any other is returned.
  unfoldable pub recommendation_failed : GoError → M P Outcome
  recommendation_failed (recommendation reason message) = do
    _ ← set_condition P condition_vpa_recommendation_ready condition_false reason message
    record_event P "Warning" reason message
    pure (ok five_minutes)
  recommendation_failed (api reason message) =
      pure (err (wrapped "reading VPA recommendation" (api reason message)))
  recommendation_failed (wrapped context e) =
      pure (err (wrapped "reading VPA recommendation" (wrapped context e)))
  recommendation_failed (plain message) =
      pure (err (wrapped "reading VPA recommendation" (plain message)))

  unfoldable pub recommended :
      Option quantities.Quantity → Result (VpaRecommendation quantities.Quantity) → M P Outcome
  recommended current (err e) = recommendation_failed e
  recommended current (ok rec) = do
    _ ←
        set_condition P condition_vpa_recommendation_ready condition_true "Ready"
          "VPA recommendation is available"
    modify_policy λ p. record p { status = record (p.status) { memory_target = some rec.memory } }
    window_step rec current

  -- Step 2: sync the recommendation.
  unfoldable pub vpa_step : Option quantities.Quantity → M P Outcome
  vpa_step current = do rec ← read_recommendation P; recommended current rec

  -- With no memory set: the bootstrap, if the policy has an initial memory.
  unfoldable pub initial_step : Option quantities.Quantity → M P Outcome
  initial_step none = vpa_step none
  initial_step (some q) = bootstrap q

  unfoldable pub memory_read : Result (Option quantities.Quantity) → M P Outcome
  memory_read (err e) = pure (err (wrapped "reading current memory for bootstrap check" e))
  memory_read (ok (some current)) = vpa_step (some current)
  memory_read (ok none) = do policy ← get; initial_step policy.spec.initial_memory

  -- `reconcilePolicy`
  unfoldable pub reconcile_policy : M P Outcome
  reconcile_policy = do
    policy ← get
    current ← get_current_memory P policy.namespace policy.spec.target_cluster
    memory_read current

  -- How `Reconcile` ends: with its result, or by a panic.
  pub data Finished : Type 0 where
    finished : Outcome → client.World → List (Call P) → Finished
    crashed : client.World → List (Call P) → Finished

  -- The error of a failed status patch shows only if there is no other.
  abbrev pub status_patched : Outcome → Result (Unit {0}) → Outcome
  status_patched (err e) _ = err e
  status_patched (ok after) (err e) = err e
  status_patched (ok after) (ok _) = ok after

  abbrev pub persist : PostgresMemoryPolicy quantities.Quantity → Exec P Outcome → Finished
  persist base (panicked s) = crashed s.world s.trace
  persist base (returned outcome s) =
      let (answer, w) = client.patch_status s.world s.policy base in
      finished (status_patched outcome answer) w s.trace

  -- `Reconcile`
  unfoldable pub reconcile : String → String → client.World → Finished
  reconcile namespace name world =
      let (answer, w) = client.get_policy world namespace name in
      elim answer [
        | err e ↦ finished (if is_not_found e then ok (pos 0) else err e) w []
        | ok policy ↦
            persist policy (reconcile_policy (record { world = w; policy = policy; trace = [] }))
      ]
