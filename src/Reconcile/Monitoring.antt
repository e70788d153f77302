-- ===== src/Reconcile/Monitoring.antt =====
-- A run in progress, inside its window and after it.
use zalando_vertical_autosca.Common.{
  refl, ◌∙◌, sym, ap, inl, inr, Bool, true, false, List, [], ◌∷◌, String,
}
use zalando_vertical_autosca.Common.Int.{ℤ}
use zalando_vertical_autosca.Common.Errors.{Result, ok, err}
use zalando_vertical_autosca.Api.{
  PostgresMemoryPolicySpec, MaintenanceRecord, MaintenancePhase, PostActionSpec, completed,
  patch_applied, post_actions_triggered, other_phase,
}
use zalando_vertical_autosca.Platform.{Platform}
use zalando_vertical_autosca.Monad.{State, record_event}
use zalando_vertical_autosca.Monad.Post.{Post-bind}
use zalando_vertical_autosca.Monad.Trace.{OnlyReads, Reads-refl}
use zalando_vertical_autosca.Conditions.{modify_in_progress}
use zalando_vertical_autosca.Conditions.History.{in_progress_count}
use zalando_vertical_autosca.Window.{WindowResult}
use zalando_vertical_autosca.PostActions.{trigger_post_actions, are_post_actions_complete}
use zalando_vertical_autosca.PostActions.Laws.{
  trigger_post_actions-OnlyReads, are_post_actions_complete-OnlyReads,
}
use zalando_vertical_autosca.Zalando.{is_cluster_healthy}
use zalando_vertical_autosca.Zalando.Reads.{is_cluster_healthy-OnlyReads}
use zalando_vertical_autosca.Reconcile.Maintenance.{
  mark_success, complete_maintenance, complete_parsed, grace_parsed, post_actions_done,
  expired_done, expired_healthy, handle_window_expired, set_phase, phase_triggered,
  trigger_or_complete, patched_healthy, triggered_done, monitor_phase, monitor_maintenance,
}
use zalando_vertical_autosca.Reconcile.Runs.{keep-Runs}
use zalando_vertical_autosca.Reconcile.Progress.{triggered}
use zalando_vertical_autosca.Reconcile.Coherence.{
  Stage, IsAdvanced, Stage-Reads, Waiting-Advanced, Reads-IsAdvanced,
}
use zalando_vertical_autosca.Reconcile.Ends.{Ended-Advanced, fail-IsAdvanced, mark_success-Ended}

pub post_actions_done-OnlyReads :
    (P : Platform) (s : State P) (phase : MaintenancePhase) (actions : List PostActionSpec)
    → OnlyReads s (post_actions_done P phase actions s)
unfolding post_actions_done
post_actions_done-OnlyReads P s post_actions_triggered actions =
    are_post_actions_complete-OnlyReads P actions s
post_actions_done-OnlyReads P s patch_applied [] = Reads-refl s
post_actions_done-OnlyReads P s patch_applied (_ ∷ _) = Reads-refl s
post_actions_done-OnlyReads P s (other_phase _) actions = Reads-refl s

module _ (P : Platform) (spec : PostgresMemoryPolicySpec P.quantities.Quantity)
    (old : List MaintenanceRecord) where
  open P use {quantities}

  -- One run is in progress, and nothing has been written yet.
  abbrev Running : State P → Type 0
  Running = Stage P spec old 1 true

  complete_parsed-IsAdvanced :
      (s : State P) (r : Result quantities.Quantity) (applied : String) (w : WindowResult) (t : ℤ)
      → Running s
      → IsAdvanced P spec old (complete_parsed P r applied w t s)
  unfolding complete_parsed record_event
  complete_parsed-IsAdvanced s (err e) applied w t h = fail-IsAdvanced P spec old s _ h
  complete_parsed-IsAdvanced s (ok memory) applied w t h =
      Post-bind _ _ _ (mark_success P memory "" "maintenance completed successfully" s) _
        (mark_success-Ended P spec old s memory "" "maintenance completed successfully" h)
        (λ _ u e. Ended-Advanced P spec old s _ completed (inl refl) h (record {
          runs = e.runs;
          same_spec = e.same_spec;
          at = e.at;
          reason = e.reason;
          written = e.written;
        }))

  grace_parsed-IsAdvanced :
      (s : State P) (r : Result quantities.Quantity) (applied : String)
      → Running s
      → IsAdvanced P spec old (grace_parsed P r applied s)
  unfolding grace_parsed record_event
  grace_parsed-IsAdvanced s (err e) applied h = fail-IsAdvanced P spec old s _ h
  grace_parsed-IsAdvanced s (ok memory) applied h =
      Post-bind _ _ _
        (mark_success P memory "completed after window expired"
          "maintenance completed (grace period)" s)
        _
        (mark_success-Ended P spec old s memory "completed after window expired"
          "maintenance completed (grace period)" h)
        (λ _ u e. Ended-Advanced P spec old s _ completed (inl refl) h (record {
          runs = e.runs;
          same_spec = e.same_spec;
          at = e.at;
          reason = e.reason;
          written = e.written;
        }))

  expired_done-IsAdvanced :
      (s : State P) (r : MaintenanceRecord) (done : Result Bool)
      → Running s
      → IsAdvanced P spec old (expired_done P r done s)
  unfolding expired_done
  expired_done-IsAdvanced s r (err e) h = fail-IsAdvanced P spec old s _ h
  expired_done-IsAdvanced s r (ok false) h = fail-IsAdvanced P spec old s _ h
  expired_done-IsAdvanced s r (ok true) h = grace_parsed-IsAdvanced s _ _ h

  expired_healthy-IsAdvanced :
      (s : State P) (r : MaintenanceRecord) (healthy : Result Bool)
      → Running s
      → IsAdvanced P spec old (expired_healthy P r healthy s)
  unfolding expired_healthy
  expired_healthy-IsAdvanced s r (err e) h = fail-IsAdvanced P spec old s _ h
  expired_healthy-IsAdvanced s r (ok false) h = fail-IsAdvanced P spec old s _ h
  expired_healthy-IsAdvanced s r (ok true) h =
      Reads-IsAdvanced P spec old s (post_actions_done P r.phase s.policy.spec.post_actions s)
        (expired_done P r) (post_actions_done-OnlyReads P s r.phase s.policy.spec.post_actions)
        (λ done u k. expired_done-IsAdvanced u r done (Stage-Reads P spec old 1 true s u h k))

  pub handle_window_expired-IsAdvanced :
      (s : State P) (r : MaintenanceRecord)
      → Running s
      → IsAdvanced P spec old (handle_window_expired P r s)
  unfolding handle_window_expired
  handle_window_expired-IsAdvanced s r h =
      Reads-IsAdvanced P spec old s
        (is_cluster_healthy P s.policy.namespace s.policy.spec.target_cluster s)
        (expired_healthy P r) (is_cluster_healthy-OnlyReads P s _ _)
        (λ healthy u k.
          expired_healthy-IsAdvanced u r healthy (Stage-Reads P spec old 1 true s u h k))

  phase_triggered-IsAdvanced :
      (s : State P) (answer : Result (Unit {0}))
      → Running s
      → IsAdvanced P spec old (phase_triggered P answer s)
  unfolding phase_triggered set_phase
  phase_triggered-IsAdvanced s (err e) h = fail-IsAdvanced P spec old s _ h
  phase_triggered-IsAdvanced s (ok _) h = record {
    coherent = inr (keep-Runs 1 true s.policy h.runs _ (λ r. refl));
    same_spec = h.same_spec;
    progress =
        triggered (ap in_progress_count (sym h.kept) ∙ h.runs.number)
          (ap (modify_in_progress (λ r. record r { phase = post_actions_triggered })) h.kept);
  }

  module _ (r : MaintenanceRecord) (w : WindowResult) (t : ℤ) where
    complete_maintenance-IsAdvanced :
        (s : State P) → Running s → IsAdvanced P spec old (complete_maintenance P r w t s)
    unfolding complete_maintenance
    complete_maintenance-IsAdvanced s h = complete_parsed-IsAdvanced s _ _ w t h

    trigger_or_complete-IsAdvanced :
        (s : State P) (actions : List PostActionSpec)
        → Running s
        → IsAdvanced P spec old (trigger_or_complete P r w t actions s)
    unfolding trigger_or_complete
    trigger_or_complete-IsAdvanced s [] h = complete_maintenance-IsAdvanced s h
    trigger_or_complete-IsAdvanced s (a ∷ actions) h =
        Reads-IsAdvanced P spec old s (trigger_post_actions P (a ∷ actions) s) (phase_triggered P)
          (trigger_post_actions-OnlyReads P (a ∷ actions) s)
          (λ answer u k.
            phase_triggered-IsAdvanced u answer (Stage-Reads P spec old 1 true s u h k))

    patched_healthy-IsAdvanced :
        (s : State P) (healthy : Result Bool)
        → Running s
        → IsAdvanced P spec old (patched_healthy P r w t healthy s)
    unfolding patched_healthy
    patched_healthy-IsAdvanced s (err e) h = Waiting-Advanced P spec old s (inr h)
    patched_healthy-IsAdvanced s (ok false) h = Waiting-Advanced P spec old s (inr h)
    patched_healthy-IsAdvanced s (ok true) h = trigger_or_complete-IsAdvanced s _ h

    triggered_done-IsAdvanced :
        (s : State P) (done : Result Bool)
        → Running s
        → IsAdvanced P spec old (triggered_done P r w t done s)
    unfolding triggered_done
    triggered_done-IsAdvanced s (err e) h = Waiting-Advanced P spec old s (inr h)
    triggered_done-IsAdvanced s (ok false) h = Waiting-Advanced P spec old s (inr h)
    triggered_done-IsAdvanced s (ok true) h = complete_maintenance-IsAdvanced s h

    monitor_phase-IsAdvanced :
        (s : State P) (phase : MaintenancePhase)
        → Running s
        → IsAdvanced P spec old (monitor_phase P phase r w t s)
    unfolding monitor_phase
    monitor_phase-IsAdvanced s patch_applied h =
        Reads-IsAdvanced P spec old s
          (is_cluster_healthy P s.policy.namespace s.policy.spec.target_cluster s)
          (patched_healthy P r w t) (is_cluster_healthy-OnlyReads P s _ _)
          (λ healthy u k.
            patched_healthy-IsAdvanced u healthy (Stage-Reads P spec old 1 true s u h k))
    monitor_phase-IsAdvanced s post_actions_triggered h =
        Reads-IsAdvanced P spec old s (are_post_actions_complete P s.policy.spec.post_actions s)
          (triggered_done P r w t)
          (are_post_actions_complete-OnlyReads P s.policy.spec.post_actions s)
          (λ done u k. triggered_done-IsAdvanced u done (Stage-Reads P spec old 1 true s u h k))
    monitor_phase-IsAdvanced s (other_phase phase) h = fail-IsAdvanced P spec old s _ h

    pub monitor_maintenance-IsAdvanced :
        (s : State P) → Running s → IsAdvanced P spec old (monitor_maintenance P r w t s)
    unfolding monitor_maintenance
    monitor_maintenance-IsAdvanced s h = monitor_phase-IsAdvanced s r.phase h
