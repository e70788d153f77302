-- ===== src/Tests/Histories.antt =====
-- Examples for the history of the runs.
use zalando_vertical_autosca.Common.{[], ◌∷◌, ◌≡◌, refl, arith, inl}
use zalando_vertical_autosca.Monad.{panicked}
use zalando_vertical_autosca.Monad.Post.{Post}
use zalando_vertical_autosca.Conditions.{is_condition_true_list}
use zalando_vertical_autosca.Zalando.{get_current_memory}
use zalando_vertical_autosca.Reconcile.Policy.{reconcile_policy}
use zalando_vertical_autosca.Reconcile.Coherence.{CoherentPolicy}
use zalando_vertical_autosca.Reconcile.Progress.{Progress}
use zalando_vertical_autosca.Reconcile.Invariant.{
  reconcile_policy-Coherent, reconcile_policy-Progress,
}
use zalando_vertical_autosca.Tests.Sample.{old_record, policy_spec, start}
use zalando_vertical_autosca.Tests.World.{small_platform}

-- No run is in progress at the start, and the reconcile begins one.
idle_at_start : CoherentPolicy start.policy
unfolding is_condition_true_list
idle_at_start = inl (record { distinct = tt; short = omega arith; number = refl; flag = refl })

reconcile_policy-Coherent_example :
    Post
      (λ u. CoherentPolicy u.policy)
      (λ _ u. CoherentPolicy u.policy)
      (reconcile_policy small_platform start)
reconcile_policy-Coherent_example = reconcile_policy-Coherent small_platform start idle_at_start

reconcile_policy-Progress_example :
    Post
      (λ u.
        (u.policy ≡ start.policy)
        × (get_current_memory small_platform "ns" "db" start ≡ panicked u))
      (λ _ u.
        (u.policy.spec ≡ policy_spec)
        × Progress small_platform policy_spec u.trace
            (old_record ∷ [])
            u.policy.status.maintenance_history)
      (reconcile_policy small_platform start)
reconcile_policy-Progress_example = reconcile_policy-Progress small_platform start idle_at_start
