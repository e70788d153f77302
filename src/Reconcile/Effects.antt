-- ===== src/Reconcile/Effects.antt =====
-- The parts of a reconcile that never patch the postgresql resource, and those that patch it at
-- most once.
use zalando_vertical_autosca.Common.{String, Bool, true, false, List, [], ◌∷◌, arith}
use zalando_vertical_autosca.Common.Int.{ℤ}
use zalando_vertical_autosca.Common.Errors.{Result, ok, err}
use zalando_vertical_autosca.Api.{
  PostActionSpec, MaintenanceRecord, MaintenancePhase, MaintenanceStatus, ConditionStatus,
  patch_applied, post_actions_triggered, other_phase,
}
use zalando_vertical_autosca.Platform.{Platform}
use zalando_vertical_autosca.Monad.{State, now, record_event}
use zalando_vertical_autosca.Monad.Trace.{Silent-refl, IsSilent, IsSilent-bind, OnlyReads-IsSilent}
use zalando_vertical_autosca.Window.{WindowResult}
use zalando_vertical_autosca.PostActions.{trigger_post_actions, are_post_actions_complete}
use zalando_vertical_autosca.PostActions.Laws.{
  trigger_post_actions-OnlyReads, are_post_actions_complete-OnlyReads,
}
use zalando_vertical_autosca.Zalando.{is_cluster_healthy}
use zalando_vertical_autosca.Zalando.Reads.{is_cluster_healthy-OnlyReads}
use zalando_vertical_autosca.Reconcile.Status.{set_condition, mark_record_completed, mark_found}
use zalando_vertical_autosca.Reconcile.Maintenance.{
  fail_maintenance, set_current_memory, mark_success, complete_maintenance, complete_parsed,
  grace_parsed, post_actions_done, expired_done, expired_healthy, handle_window_expired, set_phase,
  phase_triggered, trigger_or_complete, patched_healthy, triggered_done, monitor_phase,
  monitor_maintenance,
}

module _ (P : Platform) (s : State P) where
  open P use {quantities}

  pub set_condition-IsSilent :
      (type : String) (status : ConditionStatus) (reason message : String)
      → IsSilent s (set_condition P type status reason message s)
  unfolding set_condition now
  set_condition-IsSilent type status reason message = ground arith

  mark_record_completed-IsSilent :
      (status : MaintenanceStatus) (reason : String)
      → IsSilent s (mark_record_completed P status reason s)
  unfolding mark_record_completed mark_found now
  mark_record_completed-IsSilent status reason = ground arith

  pub fail_maintenance-IsSilent : (reason : String) → IsSilent s (fail_maintenance P reason s)
  unfolding fail_maintenance mark_record_completed mark_found set_condition now record_event
  fail_maintenance-IsSilent reason = ground arith

  mark_success-IsSilent :
      (memory : quantities.Quantity) (reason message : String)
      → IsSilent s (mark_success P memory reason message s)
  unfolding mark_success set_current_memory mark_record_completed mark_found set_condition now
  mark_success-IsSilent memory reason message = ground arith

module _ (P : Platform) where
  open P use {quantities}

  -- A success, and the event that reports it.
  complete_parsed-IsSilent :
      (s : State P) (r : Result quantities.Quantity) (applied : String) (w : WindowResult) (t : ℤ)
      → IsSilent s (complete_parsed P r applied w t s)
  unfolding complete_parsed record_event
  complete_parsed-IsSilent s (err e) applied w t = fail_maintenance-IsSilent P s _
  complete_parsed-IsSilent s (ok memory) applied w t =
      ground (arith, mark_success-IsSilent P s memory "" "maintenance completed successfully")

  complete_maintenance-IsSilent :
      (s : State P) (r : MaintenanceRecord) (w : WindowResult) (t : ℤ)
      → IsSilent s (complete_maintenance P r w t s)
  unfolding complete_maintenance
  complete_maintenance-IsSilent s r w t = complete_parsed-IsSilent s _ _ w t

  grace_parsed-IsSilent :
      (s : State P) (r : Result quantities.Quantity) (applied : String)
      → IsSilent s (grace_parsed P r applied s)
  unfolding grace_parsed record_event
  grace_parsed-IsSilent s (err e) applied = fail_maintenance-IsSilent P s _
  grace_parsed-IsSilent s (ok memory) applied = ground (
    arith,
    mark_success-IsSilent P s memory "completed after window expired"
        "maintenance completed (grace period)",
  )

  post_actions_done-IsSilent :
      (s : State P) (phase : MaintenancePhase) (actions : List PostActionSpec)
      → IsSilent s (post_actions_done P phase actions s)
  unfolding post_actions_done
  post_actions_done-IsSilent s post_actions_triggered actions =
      OnlyReads-IsSilent s _ (are_post_actions_complete-OnlyReads P actions s)
  post_actions_done-IsSilent s patch_applied [] = Silent-refl s
  post_actions_done-IsSilent s patch_applied (_ ∷ _) = Silent-refl s
  post_actions_done-IsSilent s (other_phase _) actions = Silent-refl s

  expired_done-IsSilent :
      (s : State P) (r : MaintenanceRecord) (done : Result Bool)
      → IsSilent s (expired_done P r done s)
  unfolding expired_done
  expired_done-IsSilent s r (err _) = fail_maintenance-IsSilent P s _
  expired_done-IsSilent s r (ok false) = fail_maintenance-IsSilent P s _
  expired_done-IsSilent s r (ok true) = grace_parsed-IsSilent s _ _

  expired_healthy-IsSilent :
      (s : State P) (r : MaintenanceRecord) (healthy : Result Bool)
      → IsSilent s (expired_healthy P r healthy s)
  unfolding expired_healthy
  expired_healthy-IsSilent s r (err _) = fail_maintenance-IsSilent P s _
  expired_healthy-IsSilent s r (ok false) = fail_maintenance-IsSilent P s _
  expired_healthy-IsSilent s r (ok true) =
      IsSilent-bind s (post_actions_done P r.phase s.policy.spec.post_actions s) (expired_done P r)
        (post_actions_done-IsSilent s r.phase s.policy.spec.post_actions)
        (λ done t. expired_done-IsSilent t r done)

  cluster-IsSilent :
      (s : State P) (namespace name : String) → IsSilent s (is_cluster_healthy P namespace name s)
  cluster-IsSilent s namespace name =
      OnlyReads-IsSilent s _ (is_cluster_healthy-OnlyReads P s namespace name)

  -- `handleWindowExpired`, however it ends, does not patch the postgresql resource, so that
  -- nothing is reverted, and the clock readings made before it are kept.
  pub handle_window_expired-IsSilent :
      (s : State P) (r : MaintenanceRecord) → IsSilent s (handle_window_expired P r s)
  unfolding handle_window_expired
  handle_window_expired-IsSilent s r =
      IsSilent-bind s (is_cluster_healthy P s.policy.namespace s.policy.spec.target_cluster s)
        (expired_healthy P r) (cluster-IsSilent s _ _)
        (λ healthy t. expired_healthy-IsSilent t r healthy)

  phase_triggered-IsSilent :
      (s : State P) (r : Result (Unit {0})) → IsSilent s (phase_triggered P r s)
  unfolding phase_triggered set_phase
  phase_triggered-IsSilent s (err e) = fail_maintenance-IsSilent P s _
  phase_triggered-IsSilent s (ok _) = ground arith

  module _ (r : MaintenanceRecord) (w : WindowResult) (t : ℤ) where
    trigger_or_complete-IsSilent :
        (s : State P) (actions : List PostActionSpec)
        → IsSilent s (trigger_or_complete P r w t actions s)
    unfolding trigger_or_complete
    trigger_or_complete-IsSilent s [] = complete_maintenance-IsSilent s r w t
    trigger_or_complete-IsSilent s (a ∷ actions) =
        IsSilent-bind s (trigger_post_actions P (a ∷ actions) s) (phase_triggered P)
          (OnlyReads-IsSilent s _ (trigger_post_actions-OnlyReads P (a ∷ actions) s))
          (λ answer u. phase_triggered-IsSilent u answer)

    patched_healthy-IsSilent :
        (s : State P) (healthy : Result Bool) → IsSilent s (patched_healthy P r w t healthy s)
    unfolding patched_healthy
    patched_healthy-IsSilent s (err e) = Silent-refl s
    patched_healthy-IsSilent s (ok false) = Silent-refl s
    patched_healthy-IsSilent s (ok true) = trigger_or_complete-IsSilent s _

    triggered_done-IsSilent :
        (s : State P) (done : Result Bool) → IsSilent s (triggered_done P r w t done s)
    unfolding triggered_done
    triggered_done-IsSilent s (err e) = Silent-refl s
    triggered_done-IsSilent s (ok false) = Silent-refl s
    triggered_done-IsSilent s (ok true) = complete_maintenance-IsSilent s r w t

    monitor_phase-IsSilent :
        (s : State P) (phase : MaintenancePhase) → IsSilent s (monitor_phase P phase r w t s)
    unfolding monitor_phase
    monitor_phase-IsSilent s patch_applied =
        IsSilent-bind s (is_cluster_healthy P s.policy.namespace s.policy.spec.target_cluster s)
          (patched_healthy P r w t) (cluster-IsSilent s _ _)
          (λ healthy u. patched_healthy-IsSilent u healthy)
    monitor_phase-IsSilent s post_actions_triggered =
        IsSilent-bind s (are_post_actions_complete P s.policy.spec.post_actions s)
          (triggered_done P r w t)
          (OnlyReads-IsSilent s _ (are_post_actions_complete-OnlyReads P _ s))
          (λ done u. triggered_done-IsSilent u done)
    monitor_phase-IsSilent s (other_phase phase) = fail_maintenance-IsSilent P s _

    -- `monitorMaintenance`, however it ends, does not patch the postgresql resource, and the clock
    -- readings made before it are kept.
    pub monitor_maintenance-IsSilent : (s : State P) → IsSilent s (monitor_maintenance P r w t s)
    unfolding monitor_maintenance
    monitor_maintenance-IsSilent s = monitor_phase-IsSilent s r.phase
