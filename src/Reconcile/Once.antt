-- ===== src/Reconcile/Once.antt =====
-- The steps of a reconcile that patch the postgresql resource at most once.
use zalando_vertical_autosca.Common.{
  ◌+◌, ◌≤◌, String, refl, Bool, true, false, Option, none, some, List, arith,
}
use zalando_vertical_autosca.Common.Int.{ℤ}
use zalando_vertical_autosca.Common.Errors.{Result, ok, err}
use zalando_vertical_autosca.Platform.{Platform}
use zalando_vertical_autosca.Monad.{
  State, Exec, returned, panicked, M, bind_exec, now, record_event,
}
use zalando_vertical_autosca.Monad.Post.{Post, Post-bind, Post-map, Post-if}
use zalando_vertical_autosca.Monad.Trace.{patches, Sees, Silent, Silent-refl, IsSilent, OnlyReads}
use zalando_vertical_autosca.Window.{WindowResult}
use zalando_vertical_autosca.Vpa.{VpaRecommendation}
use zalando_vertical_autosca.Zalando.{is_cluster_healthy}
use zalando_vertical_autosca.Zalando.Gates.{ChangeGateResult, evaluate_change_gates}
use zalando_vertical_autosca.Zalando.Reads.{is_cluster_healthy-OnlyReads}
use zalando_vertical_autosca.Zalando.Patch.{patch_resources}
use zalando_vertical_autosca.Zalando.Patch.Laws.{patch_resources-once}
use zalando_vertical_autosca.Reconcile.Status.{set_condition, add_maintenance_record}
use zalando_vertical_autosca.Reconcile.Effects.{fail_maintenance-IsSilent}
use zalando_vertical_autosca.Reconcile.Maintenance.{
  started, start_patched, start_with_params, start_maintenance,
}
use zalando_vertical_autosca.Reconcile.Policy.{
  bootstrap_patched, bootstrap_with, bootstrap, blocked_by, change_gates, health_gate, safety_gates,
}

module _ {P : Platform} where
  -- From `s` to `s'` the postgresql resource was patched once at most.
  pub record Once (s s' : State P) : Type 0 where
    pub one_patch : patches s'.trace ≤ patches s.trace + 1
    pub kept_readings : (t : ℤ) → Sees t s.trace → Sees t s'.trace

  abbrev pub IsOnce : {A : Type 0} → State P → Exec P A → Type 0
  IsOnce s = Post (λ s'. Once s s') (λ _ s'. Once s s')

  Silent-Once : (s t u : State P) → Silent s t → Once t u → Once s u
  Silent-Once s t u h k = record {
    one_patch = omega (arith, h.same_patches, k.one_patch);
    kept_readings = λ i seen. k.kept_readings i (h.kept_readings i seen);
  }

  Once-Silent : (s t u : State P) → Once s t → Silent t u → Once s u
  Once-Silent s t u h k = record {
    one_patch = omega (arith, h.one_patch, k.same_patches);
    kept_readings = λ i seen. k.kept_readings i (h.kept_readings i seen);
  }

  Silent→Once : (s t : State P) → Silent s t → Once s t
  Silent→Once s t h = record {
    one_patch = omega (arith, h.same_patches);
    kept_readings = h.kept_readings;
  }

  pub IsSilent-IsOnce : {A : Type 0} (s : State P) (e : Exec P A) → IsSilent s e → IsOnce s e
  IsSilent-IsOnce s (returned a t) h = Silent→Once s t h
  IsSilent-IsOnce s (panicked t) h = Silent→Once s t h

  IsOnce-after : {A : Type 0} (s t : State P) (e : Exec P A) → Silent s t → IsOnce t e → IsOnce s e
  IsOnce-after s t (returned a u) h k = Silent-Once s t u h k
  IsOnce-after s t (panicked u) h k = Silent-Once s t u h k

  -- Reads, as the first part of a longer run.
  IsSilent-IsOnce_reads :
      {A : Type 0} (s : State P) (e : Exec P A)
      → OnlyReads s e
      → Post (λ s'. Once s s') (λ _ s'. Silent s s') e
  IsSilent-IsOnce_reads s (returned a t) h = h.silent
  IsSilent-IsOnce_reads s (panicked t) h = absurd h

  IsSilent-after :
      {A : Type 0} (s t : State P) (e : Exec P A) → Once s t → IsSilent t e → IsOnce s e
  IsSilent-after s t (returned a u) h k = Once-Silent s t u h k
  IsSilent-after s t (panicked u) h k = Once-Silent s t u h k

module _ (P : Platform) where
  open P use {quantities}

  abbrev with_current_memory : State P → quantities.Quantity → State P
  with_current_memory s q = record s {
    policy = record (s.policy) { status = record (s.policy.status) { current_memory = some q } };
  }

  -- A patch of the postgresql resource with what follows it.
  patch_then :
      {A : Type 0} (s : State P) (rec : VpaRecommendation quantities.Quantity)
      (pg_params : List (String × String)) (f : Result (Unit {0}) → M P A)
      → ((r : Result (Unit {0})) (t : State P) → IsSilent t (f r t))
      → IsOnce s (bind_exec (patch_resources P rec pg_params s) f)
  patch_then s rec pg_params f k =
      Post-bind _ _ _ (patch_resources P rec pg_params s) f
        (Post-map (λ _. ⊥) (λ s'. Once s s') _ (λ _ s'. Once s s')
          (patch_resources P rec pg_params s) (patch_resources-once P s rec pg_params)
          (λ t h. absurd h) (λ a t h. record { one_patch = h.1; kept_readings = h.2 }))
        (λ r t h. IsSilent-after s t (f r t) h (k r t))

  started-IsSilent :
      (s : State P) (previous : String) (rec : VpaRecommendation quantities.Quantity)
      → IsSilent s (started P previous rec s)
  unfolding started set_condition add_maintenance_record now record_event
  started-IsSilent s previous rec = ground arith

  pub start_patched-IsSilent :
      (s : State P) (previous : String) (rec : VpaRecommendation quantities.Quantity)
      (r : Result (Unit {0}))
      → IsSilent s (start_patched P previous rec r s)
  unfolding start_patched
  start_patched-IsSilent s previous rec (err e) = fail_maintenance-IsSilent P s _
  start_patched-IsSilent s previous rec (ok _) = started-IsSilent s previous rec

  start_with_params-IsOnce :
      (s : State P) (previous : String) (rec : VpaRecommendation quantities.Quantity)
      (r : Result (List (String × String)))
      → IsOnce s (start_with_params P previous rec r s)
  unfolding start_with_params
  start_with_params-IsOnce s previous rec (err e) =
      IsSilent-IsOnce s _ (fail_maintenance-IsSilent P s _)
  start_with_params-IsOnce s previous rec (ok pg_params) =
      patch_then s rec pg_params (start_patched P previous rec)
        (λ r t. start_patched-IsSilent t previous rec r)

  start_maintenance-IsOnce :
      (s : State P) (rec : VpaRecommendation quantities.Quantity)
      (current : Option quantities.Quantity)
      → IsOnce s (start_maintenance P rec current s)
  unfolding start_maintenance
  start_maintenance-IsOnce s rec current = start_with_params-IsOnce s _ rec _

  pub bootstrap_patched-IsSilent :
      (s : State P) (memory cpu : quantities.Quantity) (r : Result (Unit {0}))
      → IsSilent s (bootstrap_patched P memory cpu r s)
  unfolding bootstrap_patched record_event
  bootstrap_patched-IsSilent s memory cpu (err e) = Silent-refl s
  bootstrap_patched-IsSilent s memory cpu (ok _) = ground arith

  bootstrap_with-IsOnce :
      (s : State P) (memory cpu : quantities.Quantity) (r : Result (List (String × String)))
      → IsOnce s (bootstrap_with P memory cpu r s)
  unfolding bootstrap_with
  bootstrap_with-IsOnce s memory cpu (err e) = Silent→Once s s (Silent-refl s)
  bootstrap_with-IsOnce s memory cpu (ok pg_params) =
      patch_then s (record { memory = memory; cpu = some cpu }) pg_params
        (bootstrap_patched P memory cpu) (λ r t. bootstrap_patched-IsSilent t memory cpu r)

  pub bootstrap-IsOnce :
      (s : State P) (memory : quantities.Quantity) → IsOnce s (bootstrap P memory s)
  unfolding bootstrap
  bootstrap-IsOnce s memory = bootstrap_with-IsOnce s memory _ _

  module _ (w : WindowResult) (t : ℤ) (rec : VpaRecommendation quantities.Quantity) where
    pub blocked_by-IsSilent :
        (s : State P) (gate : ChangeGateResult) → IsSilent s (blocked_by P gate w t s)
    unfolding blocked_by set_condition add_maintenance_record now record_event
    blocked_by-IsSilent s gate = ground arith

    change_gates-IsOnce :
        (s : State P) (current : Option quantities.Quantity)
        → IsOnce s (change_gates P rec current w t s)
    unfolding change_gates
    change_gates-IsOnce s none = start_maintenance-IsOnce s rec none
    change_gates-IsOnce s (some current) =
        let u : State P = with_current_memory s current in
        let gate =
          evaluate_change_gates quantities P.runtime current rec.memory
            (some u.policy.spec.safety_gates) in
        IsOnce-after s u _
          (record { same_patches = refl; same_updates = refl; kept_readings = λ i seen. seen })
          (Post-if _ _ gate.blocked (blocked_by P gate w t) (start_maintenance P rec (some current))
            u (λ _. IsSilent-IsOnce u _ (blocked_by-IsSilent u gate))
            (λ _. start_maintenance-IsOnce u rec (some current)))

    health_gate-IsOnce :
        (s : State P) (current : Option quantities.Quantity) (healthy : Result Bool)
        → IsOnce s (health_gate P rec current w t healthy s)
    unfolding health_gate add_maintenance_record now record_event
    health_gate-IsOnce s current (err e) = Silent→Once s s (Silent-refl s)
    health_gate-IsOnce s current (ok true) = change_gates-IsOnce s current
    health_gate-IsOnce s current (ok false) = ground arith

    pub safety_gates-IsOnce :
        (s : State P) (current : Option quantities.Quantity)
        → IsOnce s (safety_gates P rec current w t s)
    unfolding safety_gates
    safety_gates-IsOnce s current =
        Post-if _ _ s.policy.spec.safety_gates.require_healthy_cluster
          (λ u.
            bind_exec (is_cluster_healthy P s.policy.namespace s.policy.spec.target_cluster u)
              (health_gate P rec current w t))
          (change_gates P rec current w t) s
          (λ _.
            Post-bind _ _ _ (is_cluster_healthy P s.policy.namespace s.policy.spec.target_cluster s)
              (health_gate P rec current w t)
              (IsSilent-IsOnce_reads s _ (is_cluster_healthy-OnlyReads P s _ _))
              (λ healthy u h. IsOnce-after s u _ h (health_gate-IsOnce u current healthy)))
          (λ _. change_gates-IsOnce s current)
