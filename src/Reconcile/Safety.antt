-- ===== src/Reconcile/Safety.antt =====
-- When a reconcile may patch the postgresql resource.
use zalando_vertical_autosca.Common.{
  ◌+◌, ◌≤◌, ◌≡◌, refl, sym, ap, inl, inr, Option, none, some, arith,
}
use zalando_vertical_autosca.Common.Int.{ℤ}
use zalando_vertical_autosca.Common.Errors.{
  Result, ok, err, api, recommendation, wrapped, plain, GoError,
}
use zalando_vertical_autosca.Api.{
  PostgresMemoryPolicySpec, condition_true, condition_vpa_recommendation_ready,
}
use zalando_vertical_autosca.Platform.{Platform}
use zalando_vertical_autosca.Monad.{State, Exec, returned, panicked, bind_exec, now, record_event}
use zalando_vertical_autosca.Monad.Post.{Post, Post-bind, Post-map}
use zalando_vertical_autosca.Monad.Trace.{patches, Sees, Silent, ReadsOrPanics, Reads}
use zalando_vertical_autosca.Window.{WindowResult, evaluate}
use zalando_vertical_autosca.Vpa.{VpaRecommendation, read_recommendation}
use zalando_vertical_autosca.Vpa.Reads.{read_recommendation-OnlyReads}
use zalando_vertical_autosca.Zalando.{get_current_memory}
use zalando_vertical_autosca.Zalando.Reads.{get_current_memory-ReadsOrPanics}
use zalando_vertical_autosca.Reconcile.Status.{set_condition}
use zalando_vertical_autosca.Reconcile.Once.{IsOnce, bootstrap-IsOnce}
use zalando_vertical_autosca.Reconcile.Policy.{
  window_evaluated, window_step, recommendation_failed, recommended, vpa_step, initial_step,
  memory_read, reconcile_policy,
}
use zalando_vertical_autosca.Reconcile.Permission.{
  MayBootstrap, Permitted, IsPermitted, Kept, Kept-trans_Reads, Kept-trans, Kept-refl,
  set_condition-Kept, maintenance_step-IsPermitted,
}

module _ (P : Platform) where
  open P use {quantities, gronx, runtime}

  module _ (s : State P) (current : Option quantities.Quantity) where
    abbrev with_memory_target : State P → quantities.Quantity → State P
    with_memory_target v q = record v {
      policy = record (v.policy) { status = record (v.policy.status) { memory_target = some q } };
    }

    window_evaluated-IsPermitted :
        (u : State P) (rec : VpaRecommendation quantities.Quantity) (t : ℤ)
        (r : Result WindowResult)
        → evaluate gronx runtime s.policy.spec.maintenance_window.cron
            s.policy.spec.maintenance_window.timeout_minutes t
          ≡ r
        → Kept P s u
        → Sees t u.trace
        → IsPermitted P s (window_evaluated P rec current t r u)
    unfolding window_evaluated
    window_evaluated-IsPermitted u rec t (err e) found k seen = inl k.silent.same_patches
    window_evaluated-IsPermitted u rec t (ok w) found k seen =
        maintenance_step-IsPermitted P s t w found rec current u k seen

    window_step-IsPermitted :
        (u : State P) (rec : VpaRecommendation quantities.Quantity)
        → Kept P s u
        → IsPermitted P s (window_step P rec current u)
    unfolding window_step now
    window_step-IsPermitted u rec k =
        window_evaluated-IsPermitted _ rec _ _
          (ap
            (λ (p : PostgresMemoryPolicySpec quantities.Quantity).
              evaluate gronx runtime p.maintenance_window.cron p.maintenance_window.timeout_minutes
                (P.client.now u.world).0)
            (sym k.same_spec))
          (record {
            silent = record {
              same_patches = k.silent.same_patches;
              same_updates = k.silent.same_updates;
              kept_readings = λ i seen. inr (k.silent.kept_readings i seen);
            };
            same_spec = k.same_spec;
            same_history = k.same_history;
          })
          (inl refl)

    recommendation_failed-IsPermitted :
        (u : State P) (e : GoError) → Kept P s u → IsPermitted P s (recommendation_failed P e u)
    unfolding recommendation_failed set_condition now record_event
    recommendation_failed-IsPermitted u (recommendation reason message) k =
        inl k.silent.same_patches
    recommendation_failed-IsPermitted u (api reason message) k = inl k.silent.same_patches
    recommendation_failed-IsPermitted u (wrapped context e) k = inl k.silent.same_patches
    recommendation_failed-IsPermitted u (plain message) k = inl k.silent.same_patches

    recommended-IsPermitted :
        (u : State P) (r : Result (VpaRecommendation quantities.Quantity))
        → Kept P s u
        → IsPermitted P s (recommended P current r u)
    unfolding recommended
    recommended-IsPermitted u (err e) k = recommendation_failed-IsPermitted u e k
    recommended-IsPermitted u (ok rec) k =
        Post-bind _ _ _
          (set_condition P condition_vpa_recommendation_ready condition_true "Ready"
            "VPA recommendation is available" u)
          (λ _ v. window_step P rec current (with_memory_target v rec.memory))
          (set_condition-Kept P _ u condition_vpa_recommendation_ready condition_true "Ready"
            "VPA recommendation is available")
          (λ _ v h. window_step-IsPermitted _ rec (
            let h' = Kept-trans P s u v k h in
            record {
              silent = record {
                same_patches = h'.silent.same_patches;
                same_updates = h'.silent.same_updates;
                kept_readings = h'.silent.kept_readings;
              };
              same_spec = h'.same_spec;
              same_history = h'.same_history;
            }))

    vpa_step-IsPermitted : (u : State P) → Kept P s u → IsPermitted P s (vpa_step P current u)
    unfolding vpa_step
    vpa_step-IsPermitted u k =
        Post-bind _ _ _ (read_recommendation P u) (recommended P current)
          (Post-map _ _ _ _ (read_recommendation P u) (read_recommendation-OnlyReads P u)
            (λ v bad. absurd bad) (λ _ v r. Kept-trans_Reads P s u v k r))
          (λ r v h. recommended-IsPermitted v r h)

  module _ (s : State P) where
    bootstrap-IsPermitted :
        {A : Type 0} (u : State P) (e : Exec P A)
        → MayBootstrap P s
        → Silent s u
        → IsOnce u e
        → IsPermitted P s e
    bootstrap-IsPermitted u (returned a v) may h k =
        inr (omega (arith, h.same_patches, k.one_patch), inl may)
    bootstrap-IsPermitted u (panicked v) may h k = omega (arith, h.same_patches, k.one_patch)

    initial_step-IsPermitted :
        (u : State P) (o : Option quantities.Quantity)
        → get_current_memory P s.policy.namespace s.policy.spec.target_cluster s
          ≡ returned (ok none) u
        → s.policy.spec.initial_memory ≡ o
        → Reads s u
        → IsPermitted P s (initial_step P o u)
    unfolding initial_step
    initial_step-IsPermitted u none found e k =
        vpa_step-IsPermitted s none u (Kept-trans_Reads P s s u (Kept-refl P s) k)
    initial_step-IsPermitted u (some q) found e k =
        bootstrap-IsPermitted u _ (q, u, e, found) k.silent (bootstrap-IsOnce P u q)

    memory_read-IsPermitted :
        (u : State P) (r : Result (Option quantities.Quantity))
        → get_current_memory P s.policy.namespace s.policy.spec.target_cluster s ≡ returned r u
        → Reads s u
        → IsPermitted P s (memory_read P r u)
    unfolding memory_read
    memory_read-IsPermitted u (err e) found k = inl k.silent.same_patches
    memory_read-IsPermitted u (ok (some current)) found k =
        vpa_step-IsPermitted s (some current) u (Kept-trans_Reads P s s u (Kept-refl P s) k)
    memory_read-IsPermitted u (ok none) found k =
        initial_step-IsPermitted u _ found (ap (λ p. p.spec.initial_memory) (sym k.same_policy)) k

    after_memory :
        (e : Exec P (Result (Option quantities.Quantity)))
        → get_current_memory P s.policy.namespace s.policy.spec.target_cluster s ≡ e
        → ReadsOrPanics s e
        → IsPermitted P s (bind_exec e (memory_read P))
    after_memory (returned r u) found k = memory_read-IsPermitted u r found k
    after_memory (panicked u) found k = omega (arith, k.silent.same_patches)

  -- A reconcile that returns has left the postgresql resource alone, or has patched it once: to
  -- bootstrap a cluster without memory from the policy's initial memory, or because at an instant
  -- that it read from the clock the maintenance window was open and no maintenance that started in
  -- that window had been completed. If it panics it has patched once at most.
  pub reconcile_policy-Permitted :
      (s : State P)
      → Post
          (λ s'. patches s'.trace ≤ patches s.trace + 1)
          (λ _ s'. Permitted P s s')
          (reconcile_policy P s)
  unfolding reconcile_policy
  reconcile_policy-Permitted s =
      after_memory s (get_current_memory P s.policy.namespace s.policy.spec.target_cluster s) refl
        (get_current_memory-ReadsOrPanics P s _ _)
