-- ===== src/Reconcile/Beginning.antt =====
-- `startMaintenance`: a run begins if the cluster's patch is accepted, and else leaves no record.
use mathlib.Core.Path.{subst}
use zalando_vertical_autosca.Common.{
  ◌≤◌, ◌+◌, ◌≡◌, refl, sym, ap, inr, true, false, String, List, Option, none,
}
use zalando_vertical_autosca.Common.Int.{ℤ}
use zalando_vertical_autosca.Common.Errors.{Result, ok, err, GoError}
use zalando_vertical_autosca.Api.{
  MaintenanceRecord, in_progress, failed, patch_applied, condition_last_maintenance_failed,
  condition_true, condition_false,
}
use zalando_vertical_autosca.Platform.{Platform}
use zalando_vertical_autosca.Monad.{State, returned, now, record_event}
use zalando_vertical_autosca.Monad.Post.{Post, Post-bind, Post-returned}
use zalando_vertical_autosca.Monad.Trace.{patches, Sees}
use zalando_vertical_autosca.Conditions.{is_condition_true_list, add_record}
use zalando_vertical_autosca.Conditions.Laws.{is_condition_true-set_condition}
use zalando_vertical_autosca.Vpa.{VpaRecommendation}
use zalando_vertical_autosca.Zalando.Patch.{patch_resources}
use zalando_vertical_autosca.Zalando.Patch.Laws.{patch_resources-once}
use zalando_vertical_autosca.Reconcile.Status.{
  set_condition, add_maintenance_record, mark_record_completed,
}
use zalando_vertical_autosca.Reconcile.Maintenance.{
  Outcome, five_minutes, thirty_seconds, cpu_cores, calculate_pg_params, fail_maintenance,
  previous_text, started, start_patched, start_with_params, start_maintenance,
}
use zalando_vertical_autosca.Reconcile.Runs.{Runs, set_in_progress-Runs, set_other-Runs, add-Runs}
use zalando_vertical_autosca.Reconcile.Ends.{mark_record_completed-Stage}

module _ (P : Platform) (rec : VpaRecommendation P.quantities.Quantity)
    (current : Option P.quantities.Quantity) where
  open P use {quantities}

  -- The record of a run that began at an instant.
  abbrev pub begun : ℤ → MaintenanceRecord
  begun at = record {
    started_at = at;
    completed_at = none;
    status = in_progress;
    phase = patch_applied;
    reason = "";
    previous_memory = previous_text P current;
    applied_memory = quantities.text rec.memory;
  }

  -- A run in its first phase has been added to the history, with the memory that it applies.
  pub record Begins (s : State P) (outcome : Outcome) (u : State P) : Type 0 where
    pub runs : Runs 1 true u.policy
    pub at : ℤ
    pub added :
        u.policy.status.maintenance_history
        ≡ add_record s.policy.status.maintenance_history (begun at)
    pub asks_again : outcome ≡ ok thirty_seconds

  -- No run is in progress, the history is as it was, and the conditions tell of the failure.
  pub record FailsToBegin (s : State P) (outcome : Outcome) (u : State P) : Type 0 where
    pub runs : Runs 0 false u.policy
    pub kept : u.policy.status.maintenance_history ≡ s.policy.status.maintenance_history
    pub says_so :
        is_condition_true_list u.policy.status.conditions condition_last_maintenance_failed ≡ true
    pub asks_again : outcome ≡ ok five_minutes

  -- By the answer to the patch.
  abbrev pub Answers : Result (Unit {0}) → State P → Outcome → State P → Type 0
  Answers (ok _) = Begins
  Answers (err _) = FailsToBegin

  fail-FailsToBegin :
      (s u : State P) (why : String)
      → u.policy ≡ s.policy
      → Runs 0 false s.policy
      → Post (λ _. ⊥) (FailsToBegin s) (fail_maintenance P why u)
  unfolding fail_maintenance set_condition now record_event
  fail-FailsToBegin s u why same h =
      Post-bind _ _ _ (mark_record_completed P failed why u) _
        (mark_record_completed-Stage P s.policy.spec s.policy.status.maintenance_history u failed
          why (inr refl)
          (record {
            runs = subst (λ p. Runs 0 false p) (sym same) h;
            kept = ap (λ p. p.status.maintenance_history) same;
            same_spec = ap (λ p. p.spec) same;
          }))
        (λ _ v e. record {
          runs =
              set_other-Runs 0 false _
                (set_in_progress-Runs 0 false v.policy e.runs _ _ condition_false
                  "MaintenanceFailed" why)
                _ _ "LastMaintenanceFailed" condition_true "MaintenanceFailed" why refl;
          kept = e.kept;
          says_so =
              is_condition_true-set_condition _ _ condition_last_maintenance_failed condition_true
                "MaintenanceFailed" why _ condition_last_maintenance_failed;
          asks_again = refl;
        })

  started-Begins :
      (s u : State P)
      → u.policy ≡ s.policy
      → Runs 0 false s.policy
      → Post (λ _. ⊥) (Begins s) (started P (previous_text P current) rec u)
  unfolding started set_condition now add_maintenance_record record_event
  started-Begins s u same h = record {
    runs =
        add-Runs 0 true _
          (set_in_progress-Runs 0 false u.policy (subst (λ p. Runs 0 false p) (sym same) h) _ _
            condition_true "MaintenanceStarted" "maintenance run has started")
          _ refl;
    at = (P.client.now (P.client.now u.world).1).0;
    added =
        ap
          (λ p.
            add_record p.status.maintenance_history
              (begun (P.client.now (P.client.now u.world).1).0))
          same;
    asks_again = refl;
  }

  start_patched-Answers :
      (s u : State P) (answer : Result (Unit {0}))
      → u.policy ≡ s.policy
      → Runs 0 false s.policy
      → Post (λ _. ⊥) (Answers answer s) (start_patched P (previous_text P current) rec answer u)
  unfolding start_patched
  start_patched-Answers s u (ok _) same h = started-Begins s u same h
  start_patched-Answers s u (err e) same h = fail-FailsToBegin s u _ same h

  start_with_params-Answers :
      (s u : State P) (params : List (String × String)) (answer : Result (Unit {0}))
      → Runs 0 false s.policy
      → patch_resources P rec params s ≡ returned answer u
      → Post
          (λ _. ⊥)
          (Answers answer s)
          (start_with_params P (previous_text P current) rec (ok params) s)
  unfolding start_with_params
  start_with_params-Answers s u params answer h patched =
      let kept =
        (Post-returned (λ _. ⊥)
          (λ _ z.
            (z.policy ≡ s.policy)
            × (patches z.trace ≤ patches s.trace + 1)
            × ((t : ℤ) → Sees t s.trace → Sees t z.trace))
          _ (patch_resources-once P s rec params) patched).0 in
      rw patched (start_patched-Answers s u answer kept h)

  -- When no run is in progress and the parameters can be computed, startMaintenance begins a run if
  -- the patch of the postgresql resource is accepted: its record is added to the history, the
  -- condition MaintenanceInProgress is true, and the next reconcile is due in thirty seconds. If the
  -- patch fails, the history is as it was, no run is in progress, the condition
  -- LastMaintenanceFailed is true, and the next reconcile is due in five minutes.
  pub start_maintenance-Answers :
      (s u : State P) (params : List (String × String)) (answer : Result (Unit {0}))
      → Runs 0 false s.policy
      → calculate_pg_params P s.policy
          (quantities.value rec.memory)
          (cpu_cores quantities.milli_value rec)
        ≡ ok params
      → patch_resources P rec params s ≡ returned answer u
      → Post (λ _. ⊥) (Answers answer s) (start_maintenance P rec current s)
  unfolding start_maintenance
  start_maintenance-Answers s u params answer h computed patched =
      rw computed (start_with_params-Answers s u params answer h patched)

  -- When no run is in progress and the parameters cannot be computed, startMaintenance leaves the
  -- history as it was and asks to be called in five minutes: no run is in progress, and the condition
  -- LastMaintenanceFailed is true.
  pub start_maintenance-FailsToBegin :
      (s : State P) (e : GoError)
      → Runs 0 false s.policy
      → calculate_pg_params P s.policy
          (quantities.value rec.memory)
          (cpu_cores quantities.milli_value rec)
        ≡ err e
      → Post (λ _. ⊥) (FailsToBegin s) (start_maintenance P rec current s)
  unfolding start_maintenance start_with_params
  start_maintenance-FailsToBegin s e h failed_to = rw failed_to (fail-FailsToBegin s s _ refl h)
