-- ===== src/Reconcile/Gating.antt =====
-- What a reconcile asks of the postgresql resource, from the gates to the guard of the window.
use zalando_vertical_autosca.Common.{
  String, inl, inr, Bool, true, false, not, ◌&&◌, Option, none, some, arith, if◌then◌else◌,
}
use zalando_vertical_autosca.Common.Int.{ℤ}
use zalando_vertical_autosca.Common.Errors.{Result, ok, err}
use zalando_vertical_autosca.Api.{
  MaintenanceRecord, ConditionStatus, condition_false, condition_maintenance_in_progress,
}
use zalando_vertical_autosca.Platform.{Platform}
use zalando_vertical_autosca.Monad.{State, bind_exec, pure, now, record_event}
use zalando_vertical_autosca.Monad.Post.{Post, Post-bind, Post-map, Post-if}
use zalando_vertical_autosca.Conditions.{
  has_completed_in_window, find_in_progress_record, is_condition_true_list,
}
use zalando_vertical_autosca.Window.{WindowResult, requeue_after}
use zalando_vertical_autosca.Vpa.{VpaRecommendation}
use zalando_vertical_autosca.Zalando.{is_cluster_healthy}
use zalando_vertical_autosca.Zalando.Gates.{evaluate_change_gates}
use zalando_vertical_autosca.Zalando.Reads.{is_cluster_healthy-OnlyReads}
use zalando_vertical_autosca.Reconcile.Status.{set_condition, add_maintenance_record}
use zalando_vertical_autosca.Reconcile.Effects.{
  handle_window_expired-IsSilent, monitor_maintenance-IsSilent,
}
use zalando_vertical_autosca.Reconcile.Once.{blocked_by-IsSilent}
use zalando_vertical_autosca.Reconcile.Maintenance.{
  start_maintenance, handle_window_expired, monitor_maintenance,
}
use zalando_vertical_autosca.Reconcile.Policy.{
  blocked_by, change_gates, health_gate, safety_gates, window_guard, in_progress_step,
  maintenance_step,
}
use zalando_vertical_autosca.Reconcile.Intents.{
  IsRecommended, IsUpdated, Still, Still-Reads, Still-IsUpdated, start_maintenance-IsUpdated,
}

module _ (P : Platform) (s : State P) where
  open P use {quantities, gronx, runtime}

  pub set_condition-Still :
      (N : State P → Type 0) (u : State P) (type : String) (status : ConditionStatus)
      (reason message : String)
      → Still P s u
      → Post N (λ _ v. Still P s v) (set_condition P type status reason message u)
  unfolding set_condition now
  set_condition-Still N u type status reason message k = ground arith

  module _ (rec : VpaRecommendation quantities.Quantity) (source : IsRecommended P s rec)
      (w : WindowResult) (t : ℤ) where
    change_gates-IsUpdated :
        (u : State P) (current : Option quantities.Quantity)
        → Still P s u
        → IsUpdated P s (change_gates P rec current w t u)
    unfolding change_gates
    change_gates-IsUpdated u none k = start_maintenance-IsUpdated P s u rec none k (inr source)
    change_gates-IsUpdated u (some current) k =
        let v : State P = record u {
          policy = record (u.policy) {
            status = record (u.policy.status) { current_memory = some current };
          };
        } in
        let k' : Still P s v = record {
          same_updates = k.same_updates;
          same_spec = k.same_spec;
          same_namespace = k.same_namespace;
        } in
        let gate =
          evaluate_change_gates quantities runtime current rec.memory
            (some v.policy.spec.safety_gates) in
        Post-if _ _ gate.blocked (blocked_by P gate w t) (start_maintenance P rec (some current)) v
          (λ _. Still-IsUpdated P s v _ k' (blocked_by-IsSilent P w t rec v gate))
          (λ _. start_maintenance-IsUpdated P s v rec (some current) k' (inr source))

    health_gate-IsUpdated :
        (u : State P) (current : Option quantities.Quantity) (healthy : Result Bool)
        → Still P s u
        → IsUpdated P s (health_gate P rec current w t healthy u)
    unfolding health_gate add_maintenance_record now record_event
    health_gate-IsUpdated u current (err e) k = inl k.same_updates
    health_gate-IsUpdated u current (ok true) k = change_gates-IsUpdated u current k
    health_gate-IsUpdated u current (ok false) k = inl k.same_updates

    safety_gates-IsUpdated :
        (u : State P) (current : Option quantities.Quantity)
        → Still P s u
        → IsUpdated P s (safety_gates P rec current w t u)
    unfolding safety_gates
    safety_gates-IsUpdated u current k =
        Post-if _ _ u.policy.spec.safety_gates.require_healthy_cluster
          (λ v.
            bind_exec (is_cluster_healthy P u.policy.namespace u.policy.spec.target_cluster v)
              (health_gate P rec current w t))
          (change_gates P rec current w t) u
          (λ _.
            Post-bind _ _ _ (is_cluster_healthy P u.policy.namespace u.policy.spec.target_cluster u)
              (health_gate P rec current w t)
              (Post-map _ _ _ _
                (is_cluster_healthy P u.policy.namespace u.policy.spec.target_cluster u)
                (is_cluster_healthy-OnlyReads P u _ _) (λ v bad. absurd bad)
                (λ _ v r. Still-Reads P s u v k r))
              (λ healthy v h. health_gate-IsUpdated v current healthy h))
          (λ _. change_gates-IsUpdated u current k)

    window_guard-IsUpdated :
        (u : State P) (current : Option quantities.Quantity)
        → Still P s u
        → IsUpdated P s (window_guard P rec current w t u)
    unfolding window_guard
    window_guard-IsUpdated u current k =
        let done =
          has_completed_in_window u.policy.status.maintenance_history w.next_open w.window_end in
        let rest = safety_gates P rec current w t in
        let wait = pure {P = P} (ok (requeue_after w t)) in
        Post-if _ _ (w.in_window && done) wait (if not w.in_window then wait else rest) u
          (λ _. inl k.same_updates)
          (λ _.
            Post-if _ _ (not w.in_window) wait rest u (λ _. inl k.same_updates)
              (λ _. safety_gates-IsUpdated u current k))

    in_progress_step-IsUpdated :
        (u : State P) (current : Option quantities.Quantity) (r : Option MaintenanceRecord)
        → Still P s u
        → IsUpdated P s (in_progress_step P rec current w t r u)
    unfolding in_progress_step
    in_progress_step-IsUpdated u current (some r) k =
        Post-if _ _ (not w.in_window) (handle_window_expired P r) (monitor_maintenance P r w t) u
          (λ _. Still-IsUpdated P s u _ k (handle_window_expired-IsSilent P u r))
          (λ _. Still-IsUpdated P s u _ k (monitor_maintenance-IsSilent P r w t u))
    in_progress_step-IsUpdated u current none k =
        Post-bind _ _ _
          (set_condition P condition_maintenance_in_progress condition_false "StaleConditionCleared"
            "no in-progress record found" u)
          (λ _. window_guard P rec current w t)
          (set_condition-Still _ u condition_maintenance_in_progress condition_false
            "StaleConditionCleared" "no in-progress record found" k)
          (λ _ v h. window_guard-IsUpdated v current h)

    pub maintenance_step-IsUpdated :
        (u : State P) (current : Option quantities.Quantity)
        → Still P s u
        → IsUpdated P s (maintenance_step P rec current w t u)
    unfolding maintenance_step
    maintenance_step-IsUpdated u current k =
        Post-if _ _
          (is_condition_true_list u.policy.status.conditions condition_maintenance_in_progress)
          (in_progress_step P rec current w t
            (find_in_progress_record u.policy.status.maintenance_history))
          (window_guard P rec current w t) u (λ _. in_progress_step-IsUpdated u current _ k)
          (λ _. window_guard-IsUpdated u current k)
