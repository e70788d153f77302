-- ===== src/Reconcile/Closing.antt =====
-- How a run is closed: the record, the conditions and the answer of the calls that end a run.
use mathlib.Core.Path.{subst}
use zalando_vertical_autosca.Common.{sym, ◌≡◌, refl, inl, inr, Bool, true, false, String, ap}
use zalando_vertical_autosca.Common.Int.{ℤ}
use zalando_vertical_autosca.Common.Errors.{Result, ok}
use zalando_vertical_autosca.Api.{
  MaintenanceStatus, completed, failed, condition_last_maintenance_failed, condition_true,
  condition_false,
}
use zalando_vertical_autosca.Platform.{Platform}
use zalando_vertical_autosca.Monad.{State, now, record_event}
use zalando_vertical_autosca.Monad.Post.{Post, Post-bind}
use zalando_vertical_autosca.Conditions.{is_condition_true_list, modify_in_progress, finish_record}
use zalando_vertical_autosca.Conditions.Laws.{is_condition_true-set_condition}
use zalando_vertical_autosca.Reconcile.Status.{set_condition, mark_record_completed}
use zalando_vertical_autosca.Reconcile.Maintenance.{
  Outcome, five_minutes, fail_maintenance, mark_success, set_current_memory,
}
use zalando_vertical_autosca.Reconcile.Runs.{
  Runs, set_in_progress-Runs, set_other-Runs, same_status-Runs,
}
use zalando_vertical_autosca.Reconcile.Ends.{mark_record_completed-Ended}

abbrev pub is_failed : MaintenanceStatus → Bool
is_failed failed = true
is_failed _ = false

module _ {P : Platform} where
  -- The one run in progress in `s` has been given the status, and the conditions say so. The next
  -- reconcile is due `after` that time.
  pub record Closes (status : MaintenanceStatus) (after : ℤ) (s : State P) (outcome : Outcome)
      (u : State P) : Type 0 where
    pub runs : Runs 0 false u.policy
    pub at : ℤ
    pub reason : String
    pub written :
        u.policy.status.maintenance_history
        ≡ modify_in_progress (finish_record at status reason) s.policy.status.maintenance_history
    pub says_so :
        is_condition_true_list u.policy.status.conditions condition_last_maintenance_failed
        ≡ is_failed status
    pub asks_again : outcome ≡ ok after

module _ (P : Platform) where
  open P use {quantities}

  pub fail-Closes :
      (s u : State P) (why : String)
      → u.policy ≡ s.policy
      → Runs 1 true s.policy
      → Post (λ _. ⊥) (Closes failed five_minutes s) (fail_maintenance P why u)
  unfolding fail_maintenance set_condition now record_event
  fail-Closes s u why same h =
      Post-bind _ _ _ (mark_record_completed P failed why u) _
        (mark_record_completed-Ended P s.policy.spec s.policy.status.maintenance_history u failed
          why (inr refl)
          (record {
            runs = subst (λ p. Runs 1 true p) (sym same) h;
            kept = ap (λ p. p.status.maintenance_history) same;
            same_spec = ap (λ p. p.spec) same;
          }))
        (λ _ v e. record {
          runs =
              set_other-Runs 0 false _
                (set_in_progress-Runs 0 true v.policy e.runs _ _ condition_false "MaintenanceFailed"
                  why)
                _ _ "LastMaintenanceFailed" condition_true "MaintenanceFailed" why refl;
          at = e.at;
          reason = e.reason;
          written = e.written;
          says_so =
              is_condition_true-set_condition _ _ condition_last_maintenance_failed condition_true
                "MaintenanceFailed" why _ condition_last_maintenance_failed;
          asks_again = refl;
        })

  pub mark_success-Closes :
      (s u : State P) (memory : quantities.Quantity) (why message : String)
      → u.policy ≡ s.policy
      → Runs 1 true s.policy
      → Post
          (λ _. ⊥)
          (λ _ v. (after : ℤ) → Closes completed after s (ok after) v)
          (mark_success P memory why message u)
  unfolding mark_success set_current_memory set_condition now
  mark_success-Closes s u memory why message same h =
      Post-bind _ _ _ (mark_record_completed P completed why _) _
        (mark_record_completed-Ended P s.policy.spec s.policy.status.maintenance_history _ completed
          why (inl refl)
          (record {
            runs =
                same_status-Runs 1 true s.policy _ (ap (λ p. p.status.conditions) same)
                  (ap (λ p. p.status.maintenance_history) same) h;
            kept = ap (λ p. p.status.maintenance_history) same;
            same_spec = ap (λ p. p.spec) same;
          }))
        (λ _ v e after. record {
          runs =
              set_other-Runs 0 false _
                (set_in_progress-Runs 0 true v.policy e.runs _ _ condition_false
                  "MaintenanceCompleted" message)
                _ _ "LastMaintenanceFailed" condition_false "MaintenanceSucceeded"
                "last maintenance run succeeded" refl;
          at = e.at;
          reason = e.reason;
          written = e.written;
          says_so =
              is_condition_true-set_condition _ _ condition_last_maintenance_failed condition_false
                "MaintenanceSucceeded" "last maintenance run succeeded" _
                condition_last_maintenance_failed;
          asks_again = refl;
        })

  -- How a run that is due to end does: completed if the cluster is healthy, the post-actions are
  -- done, and the applied memory is a quantity; else failed.
  abbrev pub verdict : Result Bool → Result Bool → Result quantities.Quantity → MaintenanceStatus
  verdict (ok true) (ok true) (ok _) = completed
  verdict _ _ _ = failed
