-- ===== src/PostActions/Blocking.antt =====
-- internal/controller/postactions.go: the blocking post-actions, which restart one target after
-- another and poll each until it is ready. A loop runs on fuel, one unit for each round; `none`
-- means that the fuel ran out.
pub mod Waits
pub mod Polls
pub mod Restarts
use zalando_vertical_autosca.Common.{
  ℕ, zero, suc, String, ◌<>◌, Bool, true, false, Option, none, some, List, [], ◌∷◌, str_eq,
  if◌then◌else◌,
}
use zalando_vertical_autosca.Common.Int.{ℤ, pos}
use zalando_vertical_autosca.Common.Errors.{Result, ok, err, plain, wrapped, GoError}
use zalando_vertical_autosca.Api.{PostActionSpec, ActionTargetRef, post_action_rollout_restart}
use zalando_vertical_autosca.Platform.{Platform}
use zalando_vertical_autosca.Monad.{
  M, pure, ◌>>=◌, now, get_deployment, get_stateful_set, get_daemon_set, patch_workload,
}
use zalando_vertical_autosca.Context.{Ending, Contexts, derive_ctx, ctx_done, ctx_wait}
use zalando_vertical_autosca.PostActions.{
  got, namespace_of, restart_patch, is_deployment_ready, is_stateful_set_ready, is_daemon_set_ready,
}

-- 10 minutes, and the 5 seconds between two polls.
abbrev pub rollout_restart_timeout : ℤ
rollout_restart_timeout = pos 600000000000

abbrev pub poll_interval : ℤ
poll_interval = pos 5000000000

module _ (P : Platform) (contexts : Contexts P) where
  open contexts use {Ctx}
  open P use {runtime}

  unfoldable pub timed_out : String → String → String → GoError → Ending
  timed_out kind namespace name e = some (
      err (
        wrapped ("timed out waiting for " <> kind <> " " <> namespace <> "/" <> name <> " rollout")
          e))

  unfoldable pub polling_failed : String → String → String → GoError → Ending
  polling_failed kind namespace name e =
      some (err (wrapped ("polling " <> kind <> " " <> namespace <> "/" <> name) e))

  -- The common loop of `waitDeploymentReady`, `waitStatefulSetReady` and `waitDaemonSetReady`,
  -- which differ in the kind, the object that they get and the test that they put to it.
  unfoldable pub wait_ready :
      {A : Type 0}
      → ℕ
      → Ctx
      → String
      → String
      → String
      → (String → String → M P (Result A))
      → (A → Bool)
      → M P Ending
  wait_ready zero ctx kind namespace name fetch ready = pure none
  wait_ready (suc fuel) ctx kind namespace name fetch ready =
      let rest = wait_ready fuel ctx kind namespace name fetch ready in
      let pause = (do
        timer ← ctx_wait P contexts ctx poll_interval
        elim timer [ some e ↦ pure (timed_out kind namespace name e) | none ↦ rest ]) in
      let poll = (do
        answer ← fetch namespace name
        got (λ e. pure (polling_failed kind namespace name e))
            (λ obj. if ready obj then pure (some (ok tt)) else pause) answer) in
      (do
        expired ← ctx_done P contexts ctx
        elim expired [ some e ↦ pure (timed_out kind namespace name e) | none ↦ poll ])

  unfoldable pub wait_deployment_ready : ℕ → Ctx → String → String → M P Ending
  wait_deployment_ready fuel ctx namespace name =
      wait_ready fuel ctx "Deployment" namespace name (get_deployment P) is_deployment_ready

  unfoldable pub wait_stateful_set_ready : ℕ → Ctx → String → String → M P Ending
  wait_stateful_set_ready fuel ctx namespace name =
      wait_ready fuel ctx "StatefulSet" namespace name (get_stateful_set P) is_stateful_set_ready

  unfoldable pub wait_daemon_set_ready : ℕ → Ctx → String → String → M P Ending
  wait_daemon_set_ready fuel ctx namespace name =
      wait_ready fuel ctx "DaemonSet" namespace name (get_daemon_set P) is_daemon_set_ready

  -- The common body of `rolloutRestartDeployment` and its two kin: get the object, patch it, and
  -- wait for it in a context with the timeout.
  unfoldable pub restart_and_wait :
      {A : Type 0}
      → Ctx
      → String
      → String
      → String
      → String
      → (String → String → M P (Result A))
      → (Ctx → String → String → M P Ending)
      → M P Ending
  restart_and_wait ctx kind namespace name raw fetch wait_for =
      let wait_in = (do
        timeout_ctx ← derive_ctx P contexts ctx rollout_restart_timeout
        wait_for timeout_ctx namespace name) in
      let apply = (do
        answer ← patch_workload P kind namespace name raw
        got
            (λ e.
              pure
                (some (err (wrapped ("patching " <> kind <> " " <> namespace <> "/" <> name) e))))
            (λ _. wait_in) answer) in
      (do
        answer ← fetch namespace name
        got
            (λ e.
              pure (some (err (wrapped ("getting " <> kind <> " " <> namespace <> "/" <> name) e))))
            (λ _. apply) answer)

  unfoldable pub rollout_restart_deployment : ℕ → Ctx → String → String → String → M P Ending
  rollout_restart_deployment fuel ctx namespace name raw =
      restart_and_wait ctx "Deployment" namespace name raw (get_deployment P)
        (wait_deployment_ready fuel)

  unfoldable pub rollout_restart_stateful_set : ℕ → Ctx → String → String → String → M P Ending
  rollout_restart_stateful_set fuel ctx namespace name raw =
      restart_and_wait ctx "StatefulSet" namespace name raw (get_stateful_set P)
        (wait_stateful_set_ready fuel)

  unfoldable pub rollout_restart_daemon_set : ℕ → Ctx → String → String → String → M P Ending
  rollout_restart_daemon_set fuel ctx namespace name raw =
      restart_and_wait ctx "DaemonSet" namespace name raw (get_daemon_set P)
        (wait_daemon_set_ready fuel)

  -- The `switch` of `rolloutRestart`.
  unfoldable pub rollout_restart_target : ℕ → Ctx → ActionTargetRef → String → String → M P Ending
  rollout_restart_target fuel ctx target namespace raw =
      if str_eq target.kind "Deployment"
      then rollout_restart_deployment fuel ctx namespace target.name raw
      else if str_eq target.kind "StatefulSet"
      then rollout_restart_stateful_set fuel ctx namespace target.name raw
      else if str_eq target.kind "DaemonSet"
      then rollout_restart_daemon_set fuel ctx namespace target.name raw
      else pure (
          some (
            err (
              plain (
                "unsupported target kind "
                <> runtime.quote target.kind
                <> ": must be one of Deployment, StatefulSet, DaemonSet"))))

  -- `rolloutRestart`
  unfoldable pub rollout_restart : ℕ → Ctx → ActionTargetRef → M P Ending
  rollout_restart fuel ctx target = do
    namespace ← namespace_of P target
    restarted_at ← now P
    rollout_restart_target fuel ctx target namespace (restart_patch P restarted_at)

  -- `dispatch`
  unfoldable pub dispatch : ℕ → Ctx → PostActionSpec → M P Ending
  dispatch fuel ctx action =
      if str_eq action.action post_action_rollout_restart
      then rollout_restart fuel ctx action.target
      else pure (some (err (plain ("unknown post-action type " <> runtime.quote action.action))))

  unfoldable pub execute_failed : PostActionSpec → GoError → Ending
  execute_failed action e = some (
      err (
        wrapped
          ("post-action " <> action.action <> " on " <> action.target.kind <> "/"
            <> action.target.name)
          e))

  -- `Execute`: stops at the first failure.
  unfoldable pub execute : ℕ → Ctx → List PostActionSpec → M P Ending
  execute fuel ctx [] = pure (some (ok tt))
  execute fuel ctx (action ∷ actions) =
      let rest = execute fuel ctx actions in
      (do
        ending ← dispatch fuel ctx action
        elim ending [
          | none ↦ pure none
          | some answer ↦ got (λ e. pure (execute_failed action e)) (λ _. rest) answer
        ])
