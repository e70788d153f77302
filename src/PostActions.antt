-- ===== src/PostActions.antt =====
-- internal/controller/postactions.go: the non-blocking post-actions, which trigger a rollout
-- restart of each target and later ask whether all rollouts are complete.
pub mod Laws
pub mod Order
pub mod Calls
pub mod Triggers
pub mod Readiness
pub mod Blocking
use zalando_vertical_autosca.Common.{
  ℕ, String, ◌<>◌, Bool, true, false, ◌&&◌, Option, none, some, List, [], ◌∷◌, str_eq,
  if◌then◌else◌,
}
use zalando_vertical_autosca.Common.Int.{ℤ, pos, eqb_ℤ}
use zalando_vertical_autosca.Common.Errors.{Result, ok, err, plain, wrapped, wrap_error, GoError}
use zalando_vertical_autosca.Api.{
  PostActionSpec, ActionTargetRef, post_action_rollout_restart, Deployment, StatefulSet, DaemonSet,
}
use zalando_vertical_autosca.Platform.{Platform}
use zalando_vertical_autosca.Monad.{
  M, State, pure, ◌>>=◌, get, now, get_deployment, get_stateful_set, get_daemon_set, patch_workload,
}

abbrev pub rollout_restart_annotation : String
rollout_restart_annotation = "kubectl.kubernetes.io/restartedAt"

-- `desired := int32(1)`, or the replicas that are set.
abbrev pub desired_replicas : Option ℤ → ℤ
desired_replicas none = pos 1
desired_replicas (some n) = n

unfoldable pub is_deployment_ready : Deployment → Bool
is_deployment_ready d =
    eqb_ℤ d.updated_replicas (desired_replicas d.replicas)
    && eqb_ℤ d.available_replicas (desired_replicas d.replicas)

unfoldable pub is_stateful_set_ready : StatefulSet → Bool
is_stateful_set_ready d =
    eqb_ℤ d.updated_replicas (desired_replicas d.replicas)
    && eqb_ℤ d.ready_replicas (desired_replicas d.replicas)

unfoldable pub is_daemon_set_ready : DaemonSet → Bool
is_daemon_set_ready d =
    eqb_ℤ d.updated_number_scheduled d.desired_number_scheduled
    && eqb_ℤ d.number_ready d.desired_number_scheduled

-- An error of a get, or what follows it.
abbrev pub got {ℓ} : {A : Type 0} {B : Type ℓ} → (GoError → B) → (A → B) → Result A → B
got on_error on_value (err e) = on_error e
got on_error on_value (ok a) = on_value a

module _ (P : Platform) where
  open P use {runtime}

  -- The namespace of a target: its own, or the policy's.
  unfoldable pub namespace_of : ActionTargetRef → M P String
  namespace_of target = do
    policy ← get
    pure (if str_eq target.namespace "" then policy.namespace else target.namespace)

  unfoldable pub restart_patch : ℤ → String
  restart_patch restarted_at =
      "{\"spec\":{\"template\":{\"metadata\":{\"annotations\":{"
      <> runtime.quote rollout_restart_annotation
      <> ":"
      <> runtime.quote (runtime.rfc3339 restarted_at)
      <> "}}}}}"

  get_error : String → String → String → GoError → Result (Unit {0})
  get_error kind namespace name e =
      err (wrapped ("getting " <> kind <> " " <> namespace <> "/" <> name) e)

  -- The `switch` of `triggerRolloutRestart`.
  unfoldable pub restart_target : ActionTargetRef → String → String → M P (Result (Unit {0}))
  unfolding get_error
  restart_target target namespace raw =
      if str_eq target.kind "Deployment"
      then (do
        answer ← get_deployment P namespace target.name
        got (λ e. pure (get_error "Deployment" namespace target.name e))
            (λ _. patch_workload P "Deployment" namespace target.name raw) answer)
      else if str_eq target.kind "StatefulSet"
      then (do
        answer ← get_stateful_set P namespace target.name
        got (λ e. pure (get_error "StatefulSet" namespace target.name e))
            (λ _. patch_workload P "StatefulSet" namespace target.name raw) answer)
      else if str_eq target.kind "DaemonSet"
      then (do
        answer ← get_daemon_set P namespace target.name
        got (λ e. pure (get_error "DaemonSet" namespace target.name e))
            (λ _. patch_workload P "DaemonSet" namespace target.name raw) answer)
      else pure (err (plain ("unsupported target kind " <> runtime.quote target.kind)))

  -- `triggerRolloutRestart`
  unfoldable pub trigger_rollout_restart : ActionTargetRef → M P (Result (Unit {0}))
  trigger_rollout_restart target = do
    namespace ← namespace_of target
    restarted_at ← now P
    restart_target target namespace (restart_patch restarted_at)

  unknown_action {ℓ} : {A : Type ℓ} → String → Result A
  unknown_action action = err (plain ("unknown post-action type " <> runtime.quote action))

  -- `trigger`
  unfoldable pub trigger : PostActionSpec → M P (Result (Unit {0}))
  unfolding unknown_action
  trigger action =
      if str_eq action.action post_action_rollout_restart
      then trigger_rollout_restart action.target
      else pure (unknown_action action.action)

  trigger_error : PostActionSpec → GoError → Result (Unit {0})
  trigger_error action e = err (
      wrapped
        ("triggering post-action " <> action.action <> " on " <> action.target.kind <> "/"
          <> action.target.name)
        e)

  -- `TriggerPostActions`: stops at the first failure.
  unfoldable pub trigger_post_actions : List PostActionSpec → M P (Result (Unit {0}))
  unfolding trigger_error
  trigger_post_actions [] = pure (ok tt)
  trigger_post_actions (action ∷ actions) =
      let rest = trigger_post_actions actions in
      (do answer ← trigger action; got (λ e. pure (trigger_error action e)) (λ _. rest) answer)

  ready_error : String → String → String → GoError → Result Bool
  ready_error kind namespace name e =
      err (wrapped ("getting " <> kind <> " " <> namespace <> "/" <> name) e)

  -- The `switch` of `isRolloutComplete`.
  unfoldable pub is_target_ready : ActionTargetRef → String → M P (Result Bool)
  unfolding ready_error
  is_target_ready target namespace =
      if str_eq target.kind "Deployment"
      then (do
        answer ← get_deployment P namespace target.name
        pure (
            got (ready_error "Deployment" namespace target.name) (λ d. ok (is_deployment_ready d))
              answer))
      else if str_eq target.kind "StatefulSet"
      then (do
        answer ← get_stateful_set P namespace target.name
        pure (
            got (ready_error "StatefulSet" namespace target.name)
              (λ d. ok (is_stateful_set_ready d)) answer))
      else if str_eq target.kind "DaemonSet"
      then (do
        answer ← get_daemon_set P namespace target.name
        pure (
            got (ready_error "DaemonSet" namespace target.name) (λ d. ok (is_daemon_set_ready d))
              answer))
      else pure (err (plain ("unsupported target kind " <> runtime.quote target.kind)))

  -- `isRolloutComplete`
  unfoldable pub is_rollout_complete : ActionTargetRef → M P (Result Bool)
  is_rollout_complete target = do namespace ← namespace_of target; is_target_ready target namespace

  -- `isComplete`
  unfoldable pub is_complete : PostActionSpec → M P (Result Bool)
  unfolding unknown_action
  is_complete action =
      if str_eq action.action post_action_rollout_restart
      then is_rollout_complete action.target
      else pure (unknown_action action.action)

  -- `ArePostActionsComplete`: stops at the first error, and at the first target that is not ready.
  unfoldable pub are_post_actions_complete : List PostActionSpec → M P (Result Bool)
  are_post_actions_complete [] = pure (ok true)
  are_post_actions_complete (action ∷ actions) =
      let rest = are_post_actions_complete actions in
      (do
        answer ← is_complete action
        got (λ e. pure (err e)) (λ done. if done then rest else pure (ok false)) answer)
