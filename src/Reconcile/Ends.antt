-- ===== src/Reconcile/Ends.antt =====
-- The ends of a run: it fails, or succeeds, or its window has expired.
use zalando_vertical_autosca.Common.{
  ◌≡◌, refl, ◌∙◌, sym, ap, ◌⊎◌, inl, inr, String, Bool, true, false, Option, none, some, List,
  arith,
}
use zalando_vertical_autosca.Common.Int.{ℤ}
use zalando_vertical_autosca.Api.{
  PostgresMemoryPolicySpec, MaintenanceRecord, MaintenanceStatus, completed, failed, condition_true,
  condition_false,
}
use zalando_vertical_autosca.Platform.{Platform}
use zalando_vertical_autosca.Monad.{State, now, record_event}
use zalando_vertical_autosca.Monad.Post.{Post, Post-bind}
use zalando_vertical_autosca.Conditions.{
  is_in_progress, find_in_progress_record, modify_in_progress, finish_record,
}
use zalando_vertical_autosca.Conditions.History.{
  in_progress_count, find_in_progress-none, find_in_progress-some,
}
use zalando_vertical_autosca.Reconcile.Status.{set_condition, mark_record_completed, mark_found}
use zalando_vertical_autosca.Reconcile.Maintenance.{
  fail_maintenance, set_current_memory, mark_success,
}
use zalando_vertical_autosca.Reconcile.Runs.{
  Runs, set_in_progress-Runs, set_other-Runs, finish-Runs, same_status-Runs,
}
use zalando_vertical_autosca.Reconcile.Progress.{ended}
use zalando_vertical_autosca.Reconcile.Coherence.{Stage, Advanced, IsAdvanced}

-- The two ends.
abbrev pub IsEnd : MaintenanceStatus → Type 0
IsEnd status = (status ≡ completed) ⊎ (status ≡ failed)

IsEnd-finish :
    (status : MaintenanceStatus)
    → IsEnd status
    → (t : ℤ) (reason : String) (r : MaintenanceRecord)
    → is_in_progress (finish_record t status reason r) ≡ false
IsEnd-finish status (inl e) t reason r = rw e
IsEnd-finish status (inr e) t reason r = rw e

module _ (P : Platform) (spec : PostgresMemoryPolicySpec P.quantities.Quantity)
    (old : List MaintenanceRecord) where
  open P use {quantities}

  -- The record in progress has been finished.
  pub record Ended (b : Bool) (status : MaintenanceStatus) (u : State P) : Type 0 where
    pub runs : Runs 0 b u.policy
    pub same_spec : u.policy.spec ≡ spec
    pub at : ℤ
    pub reason : String
    pub written :
        u.policy.status.maintenance_history
        ≡ modify_in_progress (finish_record at status reason) old

  pub Ended-Advanced :
      (s u : State P) (status : MaintenanceStatus)
      → IsEnd status
      → Stage P spec old 1 true s
      → Ended false status u
      → Advanced P spec old u
  Ended-Advanced s u status final h e = record {
    coherent = inl e.runs;
    same_spec = e.same_spec;
    progress =
        ended e.at status e.reason (ap in_progress_count (sym h.kept) ∙ h.runs.number) final
          e.written;
  }

  module _ (s : State P) (status : MaintenanceStatus) (reason : String) (final : IsEnd status) where
    mark_found-Ended :
        (o : Option MaintenanceRecord)
        → find_in_progress_record s.policy.status.maintenance_history ≡ o
        → Stage P spec old 1 true s
        → Post (λ _. ⊥) (λ _ u. Ended true status u) (mark_found P o status reason s)
    unfolding mark_found now find_in_progress_record
    mark_found-Ended none absent h =
        let zero_left = find_in_progress-none s.policy.status.maintenance_history absent in
        absurd (omega (arith, zero_left, h.runs.number))
    mark_found-Ended (some r) found h = record {
      runs =
          finish-Runs 1 true s.policy h.runs (P.client.now s.world).0 status reason
            (IsEnd-finish status final (P.client.now s.world).0 reason);
      same_spec = h.same_spec;
      at = (P.client.now s.world).0;
      reason = reason;
      written =
          ap (modify_in_progress (finish_record (P.client.now s.world).0 status reason)) h.kept;
    }

    pub mark_record_completed-Ended :
        Stage P spec old 1 true s
        → Post (λ _. ⊥) (λ _ u. Ended true status u) (mark_record_completed P status reason s)
    unfolding mark_record_completed
    mark_record_completed-Ended h = mark_found-Ended _ refl h

    mark_found-Stage :
        (o : Option MaintenanceRecord)
        → find_in_progress_record s.policy.status.maintenance_history ≡ o
        → Stage P spec old 0 false s
        → Post (λ _. ⊥) (λ _ u. Stage P spec old 0 false u) (mark_found P o status reason s)
    unfolding mark_found now find_in_progress_record
    mark_found-Stage none absent h = h
    mark_found-Stage (some r) found h =
        let one_left = find_in_progress-some s.policy.status.maintenance_history r found in
        absurd (omega (arith, one_left, h.runs.number))

    pub mark_record_completed-Stage :
        Stage P spec old 0 false s
        → Post
            (λ _. ⊥)
            (λ _ u. Stage P spec old 0 false u)
            (mark_record_completed P status reason s)
    unfolding mark_record_completed
    mark_record_completed-Stage h = mark_found-Stage _ refl h

  -- A run that fails, and a failure before a run has begun.
  pub fail-IsAdvanced :
      (s : State P) (reason : String)
      → Stage P spec old 1 true s
      → IsAdvanced P spec old (fail_maintenance P reason s)
  unfolding fail_maintenance set_condition now record_event
  fail-IsAdvanced s reason h =
      Post-bind _ _ _ (mark_record_completed P failed reason s) _
        (mark_record_completed-Ended s failed reason (inr refl) h)
        (λ _ u e. Ended-Advanced s _ failed (inr refl) h (record {
          runs =
              set_other-Runs 0 false _
                (set_in_progress-Runs 0 true u.policy e.runs _ _ condition_false "MaintenanceFailed"
                  reason)
                _ _ "LastMaintenanceFailed" condition_true "MaintenanceFailed" reason refl;
          same_spec = e.same_spec;
          at = e.at;
          reason = e.reason;
          written = e.written;
        }))

  pub fail_start-Stage :
      (s : State P) (reason : String)
      → Stage P spec old 0 false s
      → Post (λ _. ⊥) (λ _ u. Stage P spec old 0 false u) (fail_maintenance P reason s)
  unfolding fail_maintenance set_condition now record_event
  fail_start-Stage s reason h =
      Post-bind _ _ _ (mark_record_completed P failed reason s) _
        (mark_record_completed-Stage s failed reason (inr refl) h)
        (λ _ u e. record {
          runs =
              set_other-Runs 0 false _
                (set_in_progress-Runs 0 false u.policy e.runs _ _ condition_false
                  "MaintenanceFailed" reason)
                _ _ "LastMaintenanceFailed" condition_true "MaintenanceFailed" reason refl;
          kept = e.kept;
          same_spec = e.same_spec;
        })

  pub mark_success-Ended :
      (s : State P) (memory : quantities.Quantity) (reason message : String)
      → Stage P spec old 1 true s
      → Post (λ _. ⊥) (λ _ u. Ended false completed u) (mark_success P memory reason message s)
  unfolding mark_success set_current_memory set_condition now
  mark_success-Ended s memory reason message h =
      Post-bind _ _ _ (mark_record_completed P completed reason _) _
        (mark_record_completed-Ended _ completed reason (inl refl) (record {
          runs = same_status-Runs 1 true s.policy _ refl refl h.runs;
          kept = h.kept;
          same_spec = h.same_spec;
        }))
        (λ _ u e. record {
          runs =
              set_other-Runs 0 false _
                (set_in_progress-Runs 0 true u.policy e.runs _ _ condition_false
                  "MaintenanceCompleted" message)
                _ _ "LastMaintenanceFailed" condition_false "MaintenanceSucceeded"
                "last maintenance run succeeded" refl;
          same_spec = e.same_spec;
          at = e.at;
          reason = e.reason;
          written = e.written;
        })
