-- ===== src/Reconcile/Starts.antt =====
-- A run that starts, and a run that a gate skips.
use zalando_vertical_autosca.Common.{
  ◌≡◌, refl, ◌∙◌, sym, ap, inl, inr, String, Bool, true, false, Option, none, some, List,
}
use zalando_vertical_autosca.Common.Int.{ℤ}
use zalando_vertical_autosca.Common.Errors.{Result, ok, err}
use zalando_vertical_autosca.Api.{
  PostgresMemoryPolicySpec, MaintenanceRecord, condition_true, condition_false,
}
use zalando_vertical_autosca.Platform.{Platform}
use zalando_vertical_autosca.Monad.{State, M, bind_exec, now, record_event}
use zalando_vertical_autosca.Monad.Post.{Post-bind, Post-map, Post-if}
use zalando_vertical_autosca.Monad.Trace.{Sees}
use zalando_vertical_autosca.Conditions.{add_record}
use zalando_vertical_autosca.Conditions.History.{in_progress_count}
use zalando_vertical_autosca.Window.{WindowResult}
use zalando_vertical_autosca.Vpa.{VpaRecommendation}
use zalando_vertical_autosca.Zalando.{is_cluster_healthy}
use zalando_vertical_autosca.Zalando.Reads.{is_cluster_healthy-OnlyReads}
use zalando_vertical_autosca.Zalando.Gates.{ChangeGateResult}
use zalando_vertical_autosca.Zalando.Patch.{patch_resources}
use zalando_vertical_autosca.Zalando.Patch.Laws.{patch_resources-once}
use zalando_vertical_autosca.Reconcile.Status.{set_condition, add_maintenance_record}
use zalando_vertical_autosca.Reconcile.Maintenance.{
  fail_maintenance, started, start_patched, start_with_params, start_maintenance,
}
use zalando_vertical_autosca.Reconcile.Policy.{
  skipped_record, blocked_by, change_gates, health_gate, safety_gates,
}
use zalando_vertical_autosca.Reconcile.Runs.{set_in_progress-Runs, add-Runs, same_status-Runs}
use zalando_vertical_autosca.Reconcile.Progress.{Admits, skips, starts}
use zalando_vertical_autosca.Reconcile.Coherence.{
  Stage, IsAdvanced, Stage-same_policy, Waiting-Advanced, Reads-IsAdvanced,
}
use zalando_vertical_autosca.Reconcile.Ends.{fail_start-Stage}

add_record-same :
    (history old : List MaintenanceRecord) (r : MaintenanceRecord)
    → history ≡ old
    → add_record history r ≡ add_record old r
add_record-same history old r e = ap (λ h. add_record h r) e

module _ (P : Platform) (spec : PostgresMemoryPolicySpec P.quantities.Quantity)
    (old : List MaintenanceRecord) where
  open P use {quantities}

  -- A patch, and a continuation that advances.
  pub patched-IsAdvanced :
      {B : Type 0} (s : State P) (rec : VpaRecommendation quantities.Quantity)
      (params : List (String × String)) (f : Result (Unit {0}) → M P B)
      → ((a : Result (Unit {0})) (u : State P)
          → u.policy ≡ s.policy
          → ((t : ℤ) → Sees t s.trace → Sees t u.trace)
          → IsAdvanced P spec old (f a u))
      → IsAdvanced P spec old (bind_exec (patch_resources P rec params s) f)
  patched-IsAdvanced s rec params f k =
      Post-bind _ _ _ (patch_resources P rec params s) f (patch_resources-once P s rec params)
        (λ a u (same, _, readings). k a u same readings)

  module _ (t : ℤ) (admits : Admits P spec.maintenance_window old t) where
    -- No run is in progress, and at `t`, which has been read, the window admits one.
    pub record Admitted (u : State P) : Type 0 where
      pub stage : Stage P spec old 0 false u
      pub seen : Sees t u.trace

    Admitted-later :
        (s u : State P)
        → Admitted s
        → u.policy ≡ s.policy
        → ((t : ℤ) → Sees t s.trace → Sees t u.trace)
        → Admitted u
    Admitted-later s u h same readings = record {
      stage = Stage-same_policy P spec old 0 false s u h.stage same;
      seen = readings t h.seen;
    }

    started-IsAdvanced :
        (s : State P) (previous : String) (rec : VpaRecommendation quantities.Quantity)
        → Admitted s
        → IsAdvanced P spec old (started P previous rec s)
    unfolding started set_condition now add_maintenance_record record_event
    started-IsAdvanced s previous rec h = record {
      coherent = inr (
          add-Runs 0 true _
            (set_in_progress-Runs 0 false s.policy h.stage.runs _ _ condition_true
              "MaintenanceStarted" "maintenance run has started")
            _ refl);
      same_spec = h.stage.same_spec;
      progress =
          starts t _ (ap in_progress_count (sym h.stage.kept) ∙ h.stage.runs.number) admits
            (inr (inl (refl, inr h.seen))) refl refl (add_record-same _ _ _ h.stage.kept);
    }

    fail_start-IsAdvanced :
        (s : State P) (reason : String)
        → Admitted s
        → IsAdvanced P spec old (fail_maintenance P reason s)
    fail_start-IsAdvanced s reason h =
        Post-map _ _ _ _ (fail_maintenance P reason s)
          (fail_start-Stage P spec old s reason h.stage) (λ _ bad. bad)
          (λ _ u k. Waiting-Advanced P spec old u (inl k))

    start_patched-IsAdvanced :
        (s : State P) (previous : String) (rec : VpaRecommendation quantities.Quantity)
        (answer : Result (Unit {0}))
        → Admitted s
        → IsAdvanced P spec old (start_patched P previous rec answer s)
    unfolding start_patched
    start_patched-IsAdvanced s previous rec (err e) h = fail_start-IsAdvanced s _ h
    start_patched-IsAdvanced s previous rec (ok _) h = started-IsAdvanced s previous rec h

    start_with_params-IsAdvanced :
        (s : State P) (previous : String) (rec : VpaRecommendation quantities.Quantity)
        (params : Result (List (String × String)))
        → Admitted s
        → IsAdvanced P spec old (start_with_params P previous rec params s)
    unfolding start_with_params
    start_with_params-IsAdvanced s previous rec (err e) h = fail_start-IsAdvanced s _ h
    start_with_params-IsAdvanced s previous rec (ok params) h =
        patched-IsAdvanced s rec params (start_patched P previous rec) (λ answer u same readings.
          start_patched-IsAdvanced u previous rec answer (Admitted-later s u h same readings))

    start_maintenance-IsAdvanced :
        (s : State P) (rec : VpaRecommendation quantities.Quantity)
        (current : Option quantities.Quantity)
        → Admitted s
        → IsAdvanced P spec old (start_maintenance P rec current s)
    unfolding start_maintenance
    start_maintenance-IsAdvanced s rec current h = start_with_params-IsAdvanced s _ rec _ h

    module _ (w : WindowResult) where
      blocked_by-IsAdvanced :
          (s : State P) (gate : ChangeGateResult)
          → Admitted s
          → IsAdvanced P spec old (blocked_by P gate w t s)
      unfolding blocked_by skipped_record set_condition now add_maintenance_record record_event
      blocked_by-IsAdvanced s gate h = record {
        coherent = inl (
            set_in_progress-Runs 0 false _ (add-Runs 0 false s.policy h.stage.runs _ refl) _ _
              condition_false gate.reason gate.message);
        same_spec = h.stage.same_spec;
        progress =
            skips t _ (ap in_progress_count (sym h.stage.kept) ∙ h.stage.runs.number) admits
              (inr (inl (refl, inr h.seen))) refl (add_record-same _ _ _ h.stage.kept);
      }

      change_gates-IsAdvanced :
          (s : State P) (rec : VpaRecommendation quantities.Quantity)
          (current : Option quantities.Quantity)
          → Admitted s
          → IsAdvanced P spec old (change_gates P rec current w t s)
      unfolding change_gates
      change_gates-IsAdvanced s rec none h = start_maintenance-IsAdvanced s rec none h
      change_gates-IsAdvanced s rec (some current) h =
          let h' : Admitted (record s {
            policy = record (s.policy) {
              status = record (s.policy.status) { current_memory = some current };
            };
          }) =
            record {
              stage = record {
                runs = same_status-Runs 0 false s.policy _ refl refl h.stage.runs;
                kept = h.stage.kept;
                same_spec = h.stage.same_spec;
              };
              seen = h.seen;
            } in
          Post-if _ _ _ (blocked_by P _ w t) (start_maintenance P rec (some current)) _
            (λ _. blocked_by-IsAdvanced _ _ h')
            (λ _. start_maintenance-IsAdvanced _ rec (some current) h')

      health_gate-IsAdvanced :
          (s : State P) (rec : VpaRecommendation quantities.Quantity)
          (current : Option quantities.Quantity) (healthy : Result Bool)
          → Admitted s
          → IsAdvanced P spec old (health_gate P rec current w t healthy s)
      unfolding health_gate skipped_record now add_maintenance_record record_event
      health_gate-IsAdvanced s rec current (err e) h = Waiting-Advanced P spec old s (inl h.stage)
      health_gate-IsAdvanced s rec current (ok true) h = change_gates-IsAdvanced s rec current h
      health_gate-IsAdvanced s rec current (ok false) h = record {
        coherent = inl (add-Runs 0 false s.policy h.stage.runs _ refl);
        same_spec = h.stage.same_spec;
        progress =
            skips t _ (ap in_progress_count (sym h.stage.kept) ∙ h.stage.runs.number) admits
              (inl (refl, inr h.seen)) refl (add_record-same _ _ _ h.stage.kept);
      }

      pub safety_gates-IsAdvanced :
          (s : State P) (rec : VpaRecommendation quantities.Quantity)
          (current : Option quantities.Quantity)
          → Admitted s
          → IsAdvanced P spec old (safety_gates P rec current w t s)
      unfolding safety_gates
      safety_gates-IsAdvanced s rec current h =
          Post-if _ _ s.policy.spec.safety_gates.require_healthy_cluster _
            (change_gates P rec current w t) s
            (λ _.
              Reads-IsAdvanced P spec old s
                (is_cluster_healthy P s.policy.namespace s.policy.spec.target_cluster s)
                (health_gate P rec current w t) (is_cluster_healthy-OnlyReads P s _ _)
                (λ healthy u k.
                  health_gate-IsAdvanced u rec current healthy
                    (Admitted-later s u h k.same_policy k.silent.kept_readings)))
            (λ _. change_gates-IsAdvanced s rec current h)
