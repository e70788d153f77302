-- ===== src/Reconcile/Refinement.antt =====
-- A reconcile refines the state machine of the history.
use zalando_vertical_autosca.Common.{
  ◌≡◌, refl, ◌∙◌, sym, ap, inl, inr, String, Bool, true, false, not, ◌&&◌, Option, none, some, List,
  arith, if◌then◌else◌,
}
use zalando_vertical_autosca.Common.Int.{ℤ}
use zalando_vertical_autosca.Common.Errors.{
  Result, ok, err, api, recommendation, wrapped, plain, GoError,
}
use zalando_vertical_autosca.Api.{
  PostgresMemoryPolicySpec, MaintenanceRecord, ConditionStatus, condition_true, condition_false,
  condition_vpa_recommendation_ready,
}
use zalando_vertical_autosca.Platform.{Platform}
use zalando_vertical_autosca.Monad.{State, pure, now, record_event}
use zalando_vertical_autosca.Monad.Post.{Post-if}
use zalando_vertical_autosca.Monad.Trace.{Sees}
use zalando_vertical_autosca.Conditions.{
  set_condition_list, find_in_progress_record, has_completed_in_window,
}
use zalando_vertical_autosca.Conditions.History.{find_in_progress-none}
use zalando_vertical_autosca.Window.{WindowResult, evaluate, requeue_after}
use zalando_vertical_autosca.Vpa.{VpaRecommendation, read_recommendation}
use zalando_vertical_autosca.Vpa.Reads.{read_recommendation-OnlyReads}
use zalando_vertical_autosca.Reconcile.Status.{set_condition}
use zalando_vertical_autosca.Reconcile.Maintenance.{handle_window_expired, monitor_maintenance}
use zalando_vertical_autosca.Reconcile.Policy.{
  safety_gates, window_guard, in_progress_step, maintenance_step, window_evaluated, window_step,
  recommendation_failed, recommended, vpa_step,
}
use zalando_vertical_autosca.Reconcile.Runs.{set_other-Runs, same_status-Runs}
use zalando_vertical_autosca.Reconcile.Coherence.{
  Stage, Waiting, IsAdvanced, Waiting-same_policy, Waiting-Advanced, Reads-IsAdvanced,
}
use zalando_vertical_autosca.Reconcile.Monitoring.{
  handle_window_expired-IsAdvanced, monitor_maintenance-IsAdvanced,
}
use zalando_vertical_autosca.Reconcile.Starts.{safety_gates-IsAdvanced}

module _ (P : Platform) (spec : PostgresMemoryPolicySpec P.quantities.Quantity)
    (old : List MaintenanceRecord) where
  open P use {quantities, gronx, runtime}

  -- The writes beside the history and the condition MaintenanceInProgress.
  Stage-ready :
      (n : _) (b : Bool) (s u : State P) (t : ℤ) (status : ConditionStatus)
      (reason message : String)
      → u.policy.status.conditions
        ≡ (set_condition_list t s.policy.generation s.policy.status.conditions
            condition_vpa_recommendation_ready status reason message).0
      → u.policy.status.maintenance_history ≡ s.policy.status.maintenance_history
      → u.policy.spec ≡ s.policy.spec
      → Stage P spec old n b s
      → Stage P spec old n b u
  Stage-ready n b s u t status reason message e e' e'' h = record {
    runs = same_status-Runs n b _ u.policy e e' (
        set_other-Runs n b s.policy h.runs t s.policy.generation condition_vpa_recommendation_ready
          status reason message refl);
    kept = e' ∙ h.kept;
    same_spec = e'' ∙ h.same_spec;
  }

  Waiting-ready :
      (s u : State P) (t : ℤ) (status : ConditionStatus) (reason message : String)
      → u.policy.status.conditions
        ≡ (set_condition_list t s.policy.generation s.policy.status.conditions
            condition_vpa_recommendation_ready status reason message).0
      → u.policy.status.maintenance_history ≡ s.policy.status.maintenance_history
      → u.policy.spec ≡ s.policy.spec
      → Waiting P spec old s
      → Waiting P spec old u
  Waiting-ready s u t status reason message e e' e'' (inl h) =
      inl (Stage-ready 0 false s u t status reason message e e' e'' h)
  Waiting-ready s u t status reason message e e' e'' (inr h) =
      inr (Stage-ready 1 true s u t status reason message e e' e'' h)

  module _ (rec : VpaRecommendation quantities.Quantity) (current : Option quantities.Quantity)
      (t : ℤ) (w : WindowResult)
      (found : evaluate gronx runtime spec.maintenance_window.cron
          spec.maintenance_window.timeout_minutes t
        ≡ ok w) where
    window_guard-IsAdvanced :
        (s : State P)
        → Stage P spec old 0 false s
        → Sees t s.trace
        → IsAdvanced P spec old (window_guard P rec current w t s)
    unfolding window_guard
    window_guard-IsAdvanced s h seen =
        let wait = pure {P = P} (ok (requeue_after w t)) in
        let rest = safety_gates P rec current w t in
        let stay = Waiting-Advanced P spec old s (inl h) in
        Post-if _ _
          (w.in_window
            && has_completed_in_window s.policy.status.maintenance_history w.next_open w.window_end)
          wait (if not w.in_window then wait else rest) s (λ _. stay)
          (λ fresh.
            Post-if _ _ (not w.in_window) wait rest s (λ _. stay)
              (λ inside.
                safety_gates-IsAdvanced P spec old t
                  (
                    w,
                    found,
                    ground arith,
                    ap (λ history. has_completed_in_window history w.next_open w.window_end)
                          (sym h.kept)
                        ∙ ground arith,
                  )
                  w s rec current (record { stage = h; seen = seen })))

    in_progress_step-IsAdvanced :
        (s : State P) (o : Option MaintenanceRecord)
        → find_in_progress_record s.policy.status.maintenance_history ≡ o
        → Stage P spec old 1 true s
        → IsAdvanced P spec old (in_progress_step P rec current w t o s)
    unfolding in_progress_step find_in_progress_record
    in_progress_step-IsAdvanced s (some r) e h =
        Post-if _ _ (not w.in_window) (handle_window_expired P r) (monitor_maintenance P r w t) s
          (λ _. handle_window_expired-IsAdvanced P spec old s r h)
          (λ _. monitor_maintenance-IsAdvanced P spec old r w t s h)
    in_progress_step-IsAdvanced s none absent h =
        let zero_left = find_in_progress-none s.policy.status.maintenance_history absent in
        absurd (omega (arith, zero_left, h.runs.number))

    maintenance_step-IsAdvanced :
        (s : State P)
        → Waiting P spec old s
        → Sees t s.trace
        → IsAdvanced P spec old (maintenance_step P rec current w t s)
    unfolding maintenance_step
    maintenance_step-IsAdvanced s (inl h) seen = rw h.runs.flag (window_guard-IsAdvanced s h seen)
    maintenance_step-IsAdvanced s (inr h) seen =
        rw h.runs.flag (in_progress_step-IsAdvanced s _ refl h)

  Waiting-spec : (s : State P) → Waiting P spec old s → s.policy.spec ≡ spec
  Waiting-spec s (inl h) = h.same_spec
  Waiting-spec s (inr h) = h.same_spec

  module _ (current : Option quantities.Quantity) where
    window_evaluated-IsAdvanced :
        (s : State P) (rec : VpaRecommendation quantities.Quantity) (t : ℤ)
        (r : Result WindowResult)
        → evaluate gronx runtime spec.maintenance_window.cron
            spec.maintenance_window.timeout_minutes t
          ≡ r
        → Waiting P spec old s
        → Sees t s.trace
        → IsAdvanced P spec old (window_evaluated P rec current t r s)
    unfolding window_evaluated
    window_evaluated-IsAdvanced s rec t (err e) found h seen = Waiting-Advanced P spec old s h
    window_evaluated-IsAdvanced s rec t (ok w) found h seen =
        maintenance_step-IsAdvanced rec current t w found s h seen

    window_step-IsAdvanced :
        (s : State P) (rec : VpaRecommendation quantities.Quantity)
        → Waiting P spec old s
        → IsAdvanced P spec old (window_step P rec current s)
    unfolding window_step now
    window_step-IsAdvanced s rec h =
        window_evaluated-IsAdvanced _ rec _ _
          (ap
            (λ (p : PostgresMemoryPolicySpec quantities.Quantity).
              evaluate gronx runtime p.maintenance_window.cron p.maintenance_window.timeout_minutes
                (P.client.now s.world).0)
            (sym (Waiting-spec s h)))
          (Waiting-same_policy P spec old s _ h refl) (inl refl)

    recommendation_failed-IsAdvanced :
        (s : State P) (e : GoError)
        → Waiting P spec old s
        → IsAdvanced P spec old (recommendation_failed P e s)
    unfolding recommendation_failed set_condition now record_event
    recommendation_failed-IsAdvanced s (recommendation reason message) h =
        Waiting-Advanced P spec old _
          (Waiting-ready s _ _ condition_false reason message refl refl refl h)
    recommendation_failed-IsAdvanced s (api reason message) h = Waiting-Advanced P spec old s h
    recommendation_failed-IsAdvanced s (wrapped context e) h = Waiting-Advanced P spec old s h
    recommendation_failed-IsAdvanced s (plain message) h = Waiting-Advanced P spec old s h

    recommended-IsAdvanced :
        (s : State P) (r : Result (VpaRecommendation quantities.Quantity))
        → Waiting P spec old s
        → IsAdvanced P spec old (recommended P current r s)
    unfolding recommended set_condition now
    recommended-IsAdvanced s (err e) h = recommendation_failed-IsAdvanced s e h
    recommended-IsAdvanced s (ok rec) h = window_step-IsAdvanced _ rec (
        Waiting-ready s _ (P.client.now s.world).0 condition_true "Ready"
          "VPA recommendation is available" refl refl refl h)

    pub vpa_step-IsAdvanced :
        (s : State P) → Waiting P spec old s → IsAdvanced P spec old (vpa_step P current s)
    unfolding vpa_step
    vpa_step-IsAdvanced s h =
        Reads-IsAdvanced P spec old s (read_recommendation P s) (recommended P current)
          (read_recommendation-OnlyReads P s)
          (λ r u k. recommended-IsAdvanced u r (Waiting-same_policy P spec old s u h k.same_policy))
