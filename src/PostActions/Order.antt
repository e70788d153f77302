-- ===== src/PostActions/Order.antt =====
-- The order of what the post-actions do, as read off the trace of calls, the newest first.
use zalando_vertical_autosca.Common.{◌≡◌, String, true, List, ◌∷◌, [], str_eq, if◌then◌else◌}
use zalando_vertical_autosca.Common.Int.{ℤ}
use zalando_vertical_autosca.Common.Errors.{ok}
use zalando_vertical_autosca.Api.{PostActionSpec, ActionTargetRef}
use zalando_vertical_autosca.Platform.{Platform}
use zalando_vertical_autosca.Monad.{
  Call, patched_workload, got_deployment, got_stateful_set, got_daemon_set,
}
use zalando_vertical_autosca.Monad.Order.{Newest}
use zalando_vertical_autosca.PostActions.{
  restart_patch, is_deployment_ready, is_stateful_set_ready, is_daemon_set_ready,
}

-- The namespace of a target of a policy in the namespace `own`.
abbrev pub target_namespace : String → ActionTargetRef → String
target_namespace own target = if str_eq target.namespace "" then own else target.namespace

module _ {P : Platform} where
  -- The list's steps, each from where the one before ended.
  pub data InOrder (R : PostActionSpec → List (Call P) → List (Call P) → Type 0)
      : List PostActionSpec → List (Call P) → List (Call P) → Type 0 where
    nothing : {base : List (Call P)} → InOrder R [] base base
    next :
        {action : PostActionSpec} {actions : List PostActionSpec} {base mid final : List (Call P)}
        → R action base mid
        → InOrder R actions mid final
        → InOrder R (action ∷ actions) base final

module _ (P : Platform) (own : String) where
  -- The target was patched for a restart at some instant, and the server took the patch.
  abbrev pub IsRestart : PostActionSpec → Call P → Type 0
  IsRestart action (patched_workload kind namespace name raw (ok _)) =
      (kind ≡ action.target.kind)
      × (namespace ≡ target_namespace own action.target)
      × (name ≡ action.target.name)
      × ((t : ℤ) × (raw ≡ restart_patch P t))
  IsRestart action _ = ⊥

  -- The server answered with the target, and it was ready.
  abbrev pub IsReadyAnswer : PostActionSpec → Call P → Type 0
  IsReadyAnswer action (got_deployment namespace name (ok d)) =
      (action.target.kind ≡ "Deployment")
      × (namespace ≡ target_namespace own action.target)
      × (name ≡ action.target.name)
      × (is_deployment_ready d ≡ true)
  IsReadyAnswer action (got_stateful_set namespace name (ok d)) =
      (action.target.kind ≡ "StatefulSet")
      × (namespace ≡ target_namespace own action.target)
      × (name ≡ action.target.name)
      × (is_stateful_set_ready d ≡ true)
  IsReadyAnswer action (got_daemon_set namespace name (ok d)) =
      (action.target.kind ≡ "DaemonSet")
      × (namespace ≡ target_namespace own action.target)
      × (name ≡ action.target.name)
      × (is_daemon_set_ready d ≡ true)
  IsReadyAnswer action _ = ⊥

  abbrev pub Triggered : PostActionSpec → List (Call P) → List (Call P) → Type 0
  Triggered action = Newest (IsRestart action)

  abbrev pub SeenReady : PostActionSpec → List (Call P) → List (Call P) → Type 0
  SeenReady action = Newest (IsReadyAnswer action)

  -- Restarted, and afterwards seen ready.
  abbrev pub Restarted : PostActionSpec → List (Call P) → List (Call P) → Type 0
  Restarted action base final =
      (mid : List (Call P)) × Triggered action base mid × SeenReady action mid final
