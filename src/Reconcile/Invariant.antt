-- ===== src/Reconcile/Invariant.antt =====
-- A whole reconcile: it refines the state machine of the history and keeps the status coherent.
use mathlib.Core.Path.{subst}
use zalando_vertical_autosca.Common.{◌≡◌, refl, sym, inl, inr, String, Option, none, some, List}
use zalando_vertical_autosca.Common.Errors.{Result, ok, err}
use zalando_vertical_autosca.Api.{PostgresMemoryPolicySpec, MaintenanceRecord}
use zalando_vertical_autosca.Platform.{Platform}
use zalando_vertical_autosca.Monad.{State, Exec, returned, panicked, bind_exec, record_event}
use zalando_vertical_autosca.Monad.Post.{Post, Post-map}
use zalando_vertical_autosca.Monad.Trace.{ReadsOrPanics}
use zalando_vertical_autosca.Zalando.{get_current_memory}
use zalando_vertical_autosca.Zalando.Reads.{get_current_memory-ReadsOrPanics}
use zalando_vertical_autosca.Reconcile.Policy.{
  bootstrap_patched, bootstrap_with, bootstrap, initial_step, memory_read, reconcile_policy,
}
use zalando_vertical_autosca.Reconcile.Runs.{same_status-Runs}
use zalando_vertical_autosca.Reconcile.Progress.{Progress}
use zalando_vertical_autosca.Reconcile.Coherence.{
  CoherentPolicy, Stage, Waiting, Advanced, IsAdvanced, Waiting-same_policy, Waiting-Advanced,
}
use zalando_vertical_autosca.Reconcile.Starts.{patched-IsAdvanced}
use zalando_vertical_autosca.Reconcile.Refinement.{vpa_step-IsAdvanced}

module _ (P : Platform) (spec : PostgresMemoryPolicySpec P.quantities.Quantity)
    (old : List MaintenanceRecord) where
  open P use {quantities}

  Stage-memory :
      (n : _) (b : _) (s : State P) (q : Option quantities.Quantity)
      → Stage P spec old n b s
      → Stage P spec old n b (record s {
        policy = record (s.policy) { status = record (s.policy.status) { current_memory = q } };
      })
  Stage-memory n b s q h = record {
    runs = same_status-Runs n b s.policy _ refl refl h.runs;
    kept = h.kept;
    same_spec = h.same_spec;
  }

  bootstrap_patched-IsAdvanced :
      (s : State P) (memory cpu : quantities.Quantity) (answer : Result (Unit {0}))
      → Waiting P spec old s
      → IsAdvanced P spec old (bootstrap_patched P memory cpu answer s)
  unfolding bootstrap_patched record_event
  bootstrap_patched-IsAdvanced s memory cpu (err e) h = Waiting-Advanced P spec old s h
  bootstrap_patched-IsAdvanced s memory cpu (ok _) (inl h) =
      Waiting-Advanced P spec old _
        (Waiting-same_policy P spec old _ _ (inl (Stage-memory _ _ s (some memory) h)) refl)
  bootstrap_patched-IsAdvanced s memory cpu (ok _) (inr h) =
      Waiting-Advanced P spec old _
        (Waiting-same_policy P spec old _ _ (inr (Stage-memory _ _ s (some memory) h)) refl)

  bootstrap_with-IsAdvanced :
      (s : State P) (memory cpu : quantities.Quantity) (params : Result (List (String × String)))
      → Waiting P spec old s
      → IsAdvanced P spec old (bootstrap_with P memory cpu params s)
  unfolding bootstrap_with
  bootstrap_with-IsAdvanced s memory cpu (err e) h = Waiting-Advanced P spec old s h
  bootstrap_with-IsAdvanced s memory cpu (ok params) h =
      patched-IsAdvanced P spec old s (record { memory = memory; cpu = some cpu }) params
        (bootstrap_patched P memory cpu)
        (λ answer u same readings.
          bootstrap_patched-IsAdvanced u memory cpu answer
            (Waiting-same_policy P spec old s u h same))

  initial_step-IsAdvanced :
      (s : State P) (o : Option quantities.Quantity)
      → Waiting P spec old s
      → IsAdvanced P spec old (initial_step P o s)
  unfolding initial_step bootstrap
  initial_step-IsAdvanced s none h = vpa_step-IsAdvanced P spec old none s h
  initial_step-IsAdvanced s (some q) h = bootstrap_with-IsAdvanced s q _ _ h

  memory_read-IsAdvanced :
      (s : State P) (r : Result (Option quantities.Quantity))
      → Waiting P spec old s
      → IsAdvanced P spec old (memory_read P r s)
  unfolding memory_read
  memory_read-IsAdvanced s (err e) h = Waiting-Advanced P spec old s h
  memory_read-IsAdvanced s (ok (some current)) h = vpa_step-IsAdvanced P spec old (some current) s h
  memory_read-IsAdvanced s (ok none) h = initial_step-IsAdvanced s _ h

module _ (P : Platform) (s : State P) (h : CoherentPolicy s.policy) where
  open P use {quantities}

  at_start : Waiting P s.policy.spec s.policy.status.maintenance_history s
  at_start = elim h [
    | inl runs ↦ inl (record { runs = runs; kept = refl; same_spec = refl })
    | inr runs ↦ inr (record { runs = runs; kept = refl; same_spec = refl })
  ]

  after_memory-Advanced :
      (e : Exec P (Result (Option quantities.Quantity)))
      → ReadsOrPanics s e
      → Post
          (λ u. (u.policy ≡ s.policy) × (e ≡ panicked u))
          (λ _ u. Advanced P s.policy.spec s.policy.status.maintenance_history u)
          (bind_exec e (memory_read P))
  after_memory-Advanced (returned r u) reads =
      Post-map _ _ _ _ (memory_read P r u)
        (memory_read-IsAdvanced P s.policy.spec s.policy.status.maintenance_history u r
          (Waiting-same_policy P _ _ s u at_start reads.same_policy))
        (λ _ bad. absurd bad) (λ _ v k. k)
  after_memory-Advanced (panicked u) reads = (reads.same_policy, refl)

  reconcile_policy-Advanced :
      Post
        (λ u.
          (u.policy ≡ s.policy)
          × (get_current_memory P s.policy.namespace s.policy.spec.target_cluster s ≡ panicked u))
        (λ _ u. Advanced P s.policy.spec s.policy.status.maintenance_history u)
        (reconcile_policy P s)
  unfolding reconcile_policy
  reconcile_policy-Advanced =
      after_memory-Advanced (get_current_memory P s.policy.namespace s.policy.spec.target_cluster s)
        (get_current_memory-ReadsOrPanics P s _ _)

module _ (P : Platform) (s : State P) where
  open P use {quantities}

  -- From a coherent status, a reconcile that returns leaves the spec as it was, and moves the
  -- history as the state machine of the history allows. If it panics, it does so where it reads the
  -- cluster's memory, with the policy as it was.
  pub reconcile_policy-Progress :
      CoherentPolicy s.policy
      → Post
          (λ u.
            (u.policy ≡ s.policy)
            × (get_current_memory P s.policy.namespace s.policy.spec.target_cluster s ≡ panicked u))
          (λ _ u.
            (u.policy.spec ≡ s.policy.spec)
            × Progress P s.policy.spec u.trace s.policy.status.maintenance_history
                u.policy.status.maintenance_history)
          (reconcile_policy P s)
  reconcile_policy-Progress h =
      Post-map _ _ _ _ (reconcile_policy P s) (reconcile_policy-Advanced P s h) (λ _ k. k)
        (λ _ u k. (k.same_spec, k.progress))

  -- If a status is coherent, it still is after a reconcile, however that ends: the types of the
  -- conditions are distinct, the history has ten records at most, one of them at most is in
  -- progress, and the condition MaintenanceInProgress is true exactly when one is.
  pub reconcile_policy-Coherent :
      CoherentPolicy s.policy
      → Post (λ u. CoherentPolicy u.policy) (λ _ u. CoherentPolicy u.policy) (reconcile_policy P s)
  reconcile_policy-Coherent h =
      Post-map _ _ _ _ (reconcile_policy P s) (reconcile_policy-Advanced P s h)
        (λ u (same, _). subst (λ p. CoherentPolicy p) (sym same) h) (λ _ u k. k.coherent)
