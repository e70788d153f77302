-- ===== src/PostActions/Laws.antt =====
-- Triggering and polling post-actions reads the cluster and patches workloads, and nothing else.
use zalando_vertical_autosca.Common.{String, Bool, true, false, List, [], ◌∷◌, arith, if◌then◌else◌}
use zalando_vertical_autosca.Common.Errors.{Result, ok, err, GoError}
use zalando_vertical_autosca.Api.{PostActionSpec, ActionTargetRef}
use zalando_vertical_autosca.Platform.{Platform}
use zalando_vertical_autosca.Monad.{
  State, M, pure, now, get_deployment, get_stateful_set, get_daemon_set, patch_workload,
}
use zalando_vertical_autosca.Monad.Trace.{OnlyReads, OnlyReads-bind, Reads-refl, now-OnlyReads}
use zalando_vertical_autosca.PostActions.{
  got, trigger_error, namespace_of, restart_patch, restart_target, trigger_rollout_restart, trigger,
  trigger_post_actions, is_target_ready, is_rollout_complete, is_complete,
  are_post_actions_complete,
}

module _ {P : Platform} where
  OnlyReads-if :
      {A : Type 0} (s : State P) (b : Bool) (m k : M P A)
      → OnlyReads s (m s)
      → OnlyReads s (k s)
      → OnlyReads s ((if b then m else k) s)
  OnlyReads-if s true m k h h' = h
  OnlyReads-if s false m k h h' = h'

  OnlyReads-got :
      {A B : Type 0} (s : State P) (f : GoError → M P B) (g : A → M P B) (r : Result A)
      → ((e : GoError) → OnlyReads s (f e s))
      → ((a : A) → OnlyReads s (g a s))
      → OnlyReads s (got f g r s)
  OnlyReads-got s f g (ok a) h h' = h' a
  OnlyReads-got s f g (err e) h h' = h e

module _ (P : Platform) where
  restart_target-OnlyReads :
      (s : State P) (target : ActionTargetRef) (namespace raw : String)
      → OnlyReads s (restart_target P target namespace raw s)
  unfolding restart_target get_deployment get_stateful_set get_daemon_set patch_workload
  restart_target-OnlyReads s target namespace raw = ground arith

  is_target_ready-OnlyReads :
      (s : State P) (target : ActionTargetRef) (namespace : String)
      → OnlyReads s (is_target_ready P target namespace s)
  unfolding is_target_ready get_deployment get_stateful_set get_daemon_set
  is_target_ready-OnlyReads s target namespace = ground arith

  trigger_rollout_restart-OnlyReads :
      (s : State P) (target : ActionTargetRef) → OnlyReads s (trigger_rollout_restart P target s)
  unfolding trigger_rollout_restart namespace_of
  trigger_rollout_restart-OnlyReads s target =
      OnlyReads-bind s (now P s) (λ t. restart_target P target _ (restart_patch P t))
        (now-OnlyReads P s) (λ t u. restart_target-OnlyReads u target _ (restart_patch P t))

  trigger-OnlyReads : (s : State P) (action : PostActionSpec) → OnlyReads s (trigger P action s)
  unfolding trigger
  trigger-OnlyReads s action =
      ground (arith, trigger_rollout_restart-OnlyReads s action.target, Reads-refl s)

  -- `TriggerPostActions` returns, leaves the policy as it was, does not patch the
  -- postgresql resource, and keeps the clock readings made before it.
  pub trigger_post_actions-OnlyReads :
      (actions : List PostActionSpec) (s : State P) → OnlyReads s (trigger_post_actions P actions s)
  unfolding trigger_post_actions
  trigger_post_actions-OnlyReads [] s = Reads-refl s
  trigger_post_actions-OnlyReads (action ∷ actions) s =
      OnlyReads-bind s (trigger P action s)
        (got (λ e. pure (trigger_error P action e)) (λ _. trigger_post_actions P actions))
        (trigger-OnlyReads s action)
        (λ answer t.
          OnlyReads-got t (λ e. pure (trigger_error P action e))
            (λ _. trigger_post_actions P actions) answer (λ e. Reads-refl t)
            (λ _. trigger_post_actions-OnlyReads actions t))

  is_rollout_complete-OnlyReads :
      (s : State P) (target : ActionTargetRef) → OnlyReads s (is_rollout_complete P target s)
  unfolding is_rollout_complete namespace_of
  is_rollout_complete-OnlyReads s target = is_target_ready-OnlyReads s target _

  is_complete-OnlyReads :
      (s : State P) (action : PostActionSpec) → OnlyReads s (is_complete P action s)
  unfolding is_complete
  is_complete-OnlyReads s action =
      ground (arith, is_rollout_complete-OnlyReads s action.target, Reads-refl s)

  -- So does `ArePostActionsComplete`.
  pub are_post_actions_complete-OnlyReads :
      (actions : List PostActionSpec) (s : State P)
      → OnlyReads s (are_post_actions_complete P actions s)
  unfolding are_post_actions_complete
  are_post_actions_complete-OnlyReads [] s = Reads-refl s
  are_post_actions_complete-OnlyReads (action ∷ actions) s =
      OnlyReads-bind s (is_complete P action s)
        (got (λ e. pure (err e))
          (λ done. if done then are_post_actions_complete P actions else pure (ok false)))
        (is_complete-OnlyReads s action)
        (λ answer t.
          OnlyReads-got t (λ e. pure (err e))
            (λ done. if done then are_post_actions_complete P actions else pure (ok false)) answer
            (λ e. Reads-refl t)
            (λ done.
              OnlyReads-if t done (are_post_actions_complete P actions) (pure (ok false))
                (are_post_actions_complete-OnlyReads actions t) (Reads-refl t)))
