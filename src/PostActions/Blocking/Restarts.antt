-- ===== src/PostActions/Blocking/Restarts.antt =====
-- A blocking execution that succeeds has restarted the targets one after another, each once the one
-- before was seen ready.
use mathlib.Core.Path.{subst}
use zalando_vertical_autosca.Common.{
  ◌≡◌, refl, sym, ap, ◌∙◌, String, List, ◌∷◌, [], str_eq, eq_iff, inl, inr,
}
use zalando_vertical_autosca.Common.Int.{ℤ}
use zalando_vertical_autosca.Common.Errors.{Result, ok, Result-cases}
use zalando_vertical_autosca.Api.{PostActionSpec, post_action_rollout_restart}
use zalando_vertical_autosca.Platform.{Platform}
use zalando_vertical_autosca.Monad.{
  State, returned, M, now, get_deployment, get_stateful_set, get_daemon_set, patch_workload,
}
use zalando_vertical_autosca.Monad.Post.{Post-bind, Post-map, Post-if, Post-returned}
use zalando_vertical_autosca.PostActions.{
  is_deployment_ready, is_stateful_set_ready, is_daemon_set_ready, namespace_of, restart_patch,
}
use zalando_vertical_autosca.Monad.Order.{Extends, same, more, newest, Extends-trans}
use zalando_vertical_autosca.PostActions.Order.{InOrder, nothing, next, SeenReady, target_namespace}
use zalando_vertical_autosca.PostActions.Calls.{
  Does, GoesOn, get_deployment-GoesOn, get_stateful_set-GoesOn, get_daemon_set-GoesOn,
}
use zalando_vertical_autosca.PostActions.Triggers.{patched-IsRestart}
use zalando_vertical_autosca.PostActions.Order.{Restarted}
use zalando_vertical_autosca.Common.{ℕ, some, Option-cases, some-none}
use zalando_vertical_autosca.Context.{Ending, Contexts, derive_ctx}
use zalando_vertical_autosca.PostActions.Blocking.{
  wait_deployment_ready, wait_stateful_set_ready, wait_daemon_set_ready, restart_and_wait,
  rollout_restart_deployment, rollout_restart_stateful_set, rollout_restart_daemon_set,
  rollout_restart_target, rollout_restart, dispatch, execute, execute_failed,
}
use zalando_vertical_autosca.PostActions.Blocking.Polls.{
  failed, wait_ready-Does, get_deployment-Polls, get_stateful_set-Polls, get_daemon_set-Polls,
}

module _ (P : Platform) (contexts : Contexts P) where
  open contexts use {Ctx}

  restart_and_wait-Does :
      {A : Type 0} (own : String) (action : PostActionSpec) (kind : String) (t : ℤ)
      (fetch : String → String → M P (Result A)) (wait_for : Ctx → String → String → M P Ending)
      (s u : State P)
      → action.target.kind ≡ kind
      → (u.policy ≡ s.policy) × Extends s.trace u.trace
      → ((namespace name : String) → GoesOn u (fetch namespace name u))
      → ((ctx : Ctx) (v : State P)
          → Does
              (some (ok tt))
              (SeenReady P own action)
              v
              (wait_for ctx (target_namespace own action.target) action.target.name v))
      → (ctx : Ctx)
      → Does (some (ok tt)) (Restarted P own action) s (
          restart_and_wait P contexts ctx kind
            (target_namespace own action.target)
            action.target.name
            (restart_patch P t)
            fetch
            wait_for
            u)
  unfolding restart_and_wait patch_workload derive_ctx
  restart_and_wait-Does own action kind t fetch wait_for s u same_kind (e, k) goes waits ctx =
      Post-bind _ _ _ (fetch _ _ u) _ (goes _ _) (λ answer v (e', k'). elim (Result-cases answer) [
        | inr (_, is_err) ↦ rw is_err (e' ∙ e, λ bad. absurd (failed bad))
        | inl (_, is_ok) ↦
            rw is_ok
              (elim (Result-cases
                (P.client.patch_workload v.world kind (target_namespace own action.target)
                  action.target.name (restart_patch P t)).0) [
                    | inr (_, unpatched) ↦ rw unpatched (e' ∙ e, λ bad. absurd (failed bad))
                    | inl (_, patched) ↦ rw patched (
                        Post-map _ _ _ _ (wait_for _ _ _ _) (waits _ _) (λ _ bad. bad)
                          (λ r z (e'', seen). (
                            e'' ∙ e' ∙ e,
                            λ done. (
                              _,
                              newest (patched-IsRestart P own action kind t (ok tt) same_kind refl)
                                  (Extends-trans _ _ _ k k'),
                              seen done,
                            ),
                          )))
                  ])
      ])

  rollout_restart_target-Does :
      (fuel : ℕ) (ctx : Ctx) (own : String) (action : PostActionSpec) (t : ℤ) (s u : State P)
      → (u.policy ≡ s.policy) × Extends s.trace u.trace
      → Does (some (ok tt)) (Restarted P own action) s (
          rollout_restart_target P contexts fuel ctx action.target
            (target_namespace own action.target)
            (restart_patch P t)
            u)
  unfolding rollout_restart_target rollout_restart_deployment rollout_restart_stateful_set
      rollout_restart_daemon_set wait_deployment_ready wait_stateful_set_ready wait_daemon_set_ready
  rollout_restart_target-Does fuel ctx own action t s u h =
      Post-if _ _ (str_eq action.target.kind "Deployment") _ _ u
        (λ is.
          restart_and_wait-Does own action "Deployment" t (get_deployment P) _ s u
            ((eq_iff _ _).0 is) h (λ namespace name. get_deployment-GoesOn P namespace name u)
            (λ c v.
              wait_ready-Does P contexts _ "Deployment" _ _ (get_deployment P) is_deployment_ready
                (λ w. get_deployment-Polls P contexts own action w ((eq_iff _ _).0 is)) fuel c v)
            ctx)
        (λ _.
          Post-if _ _ (str_eq action.target.kind "StatefulSet") _ _ u
            (λ is.
              restart_and_wait-Does own action "StatefulSet" t (get_stateful_set P) _ s u
                ((eq_iff _ _).0 is) h (λ namespace name. get_stateful_set-GoesOn P namespace name u)
                (λ c v.
                  wait_ready-Does P contexts _ "StatefulSet" _ _ (get_stateful_set P)
                    is_stateful_set_ready
                    (λ w. get_stateful_set-Polls P contexts own action w ((eq_iff _ _).0 is)) fuel c
                    v)
                ctx)
            (λ _.
              Post-if _ _ (str_eq action.target.kind "DaemonSet") _ _ u
                (λ is.
                  restart_and_wait-Does own action "DaemonSet" t (get_daemon_set P) _ s u
                    ((eq_iff _ _).0 is) h
                    (λ namespace name. get_daemon_set-GoesOn P namespace name u)
                    (λ c v.
                      wait_ready-Does P contexts _ "DaemonSet" _ _ (get_daemon_set P)
                        is_daemon_set_ready
                        (λ w. get_daemon_set-Polls P contexts own action w ((eq_iff _ _).0 is)) fuel
                        c v)
                    ctx)
                (λ _. (h.0, λ bad. absurd (failed bad)))))

  dispatch-Does :
      (fuel : ℕ) (ctx : Ctx) (action : PostActionSpec) (s : State P)
      → Does
          (some (ok tt))
          (Restarted P s.policy.namespace action)
          s
          (dispatch P contexts fuel ctx action s)
  unfolding dispatch rollout_restart namespace_of now
  dispatch-Does fuel ctx action s =
      Post-if _ _ (str_eq action.action post_action_rollout_restart) _ _ s
        (λ _.
          rollout_restart_target-Does fuel ctx s.policy.namespace action _ s _ (refl, more same))
        (λ _. (refl, λ bad. absurd (failed bad)))

  execute-Does :
      (fuel : ℕ) (ctx : Ctx) (actions : List PostActionSpec) (s : State P)
      → Does
          (some (ok tt))
          (InOrder (Restarted P s.policy.namespace) actions)
          s
          (execute P contexts fuel ctx actions s)
  unfolding execute execute_failed
  execute-Does fuel ctx [] s = (refl, λ _. nothing)
  execute-Does fuel ctx (action ∷ actions) s =
      Post-bind _ _ _ (dispatch P contexts fuel ctx action s) _ (dispatch-Does fuel ctx action s)
        (λ ending u (e, k). elim (Option-cases ending) [
          | inl ran_out ↦ rw ran_out (e, λ bad. absurd (some-none (sym bad)))
          | inr (answer, ended) ↦ rw ended (elim (Result-cases answer) [
            | inr (_, is_err) ↦ rw is_err (e, λ bad. absurd (failed bad))
            | inl (_, is_ok) ↦ rw is_ok (
                Post-map _ _ _ _ (execute P contexts fuel ctx actions u)
                  (execute-Does fuel ctx actions u) (λ _ bad. bad)
                  (λ r v (e', k'). (
                    e' ∙ e,
                    λ done. next (k (ended ∙ ap (λ a. some a) is_ok)) (
                        subst (λ p. InOrder (Restarted P p.namespace) actions u.trace v.trace) e
                          (k' done)),
                  )))
          ])
        ])

  -- If `Execute` succeeds, it has restarted the targets of all actions in their order. Each was
  -- answered for as ready by the server after its patch, and before the next target was patched.
  pub execute-InOrder :
      (fuel : ℕ) (ctx : Ctx) (actions : List PostActionSpec) (s u : State P)
      → execute P contexts fuel ctx actions s ≡ returned (some (ok tt)) u
      → InOrder (Restarted P s.policy.namespace) actions s.trace u.trace
  execute-InOrder fuel ctx actions s u e =
      (Post-returned (λ _. ⊥)
          (λ r v.
            (v.policy ≡ s.policy)
            × (r ≡ some (ok tt) → InOrder (Restarted P s.policy.namespace) actions s.trace v.trace))
          _ (execute-Does fuel ctx actions s) e).1
        refl
