-- ===== src/PostActions/Triggers.antt =====
-- `TriggerPostActions`, when it succeeds, has restarted every target.
use mathlib.Core.Path.{subst}
use zalando_vertical_autosca.Common.{
  ◌≡◌, refl, sym, ◌∙◌, String, List, ◌∷◌, [], str_eq, eq_iff, inl, inr,
}
use zalando_vertical_autosca.Common.Int.{ℤ}
use zalando_vertical_autosca.Common.Errors.{err-ok, Result, ok, err, Result-cases}
use zalando_vertical_autosca.Api.{PostActionSpec, post_action_rollout_restart}
use zalando_vertical_autosca.Platform.{Platform}
use zalando_vertical_autosca.Monad.{
  State, patched_workload, returned, M, pure, bind_exec, now, get_deployment, get_stateful_set,
  get_daemon_set, patch_workload,
}
use zalando_vertical_autosca.Monad.Post.{Post-bind, Post-map, Post-if, Post-returned}
use zalando_vertical_autosca.PostActions.{
  get_error, unknown_action, got, namespace_of, restart_patch, restart_target,
  trigger_rollout_restart, trigger, trigger_post_actions, trigger_error,
}
use zalando_vertical_autosca.Monad.Order.{Extends, same, more, newest, Extends-trans}
use zalando_vertical_autosca.PostActions.Order.{
  InOrder, nothing, next, IsRestart, Triggered, target_namespace,
}
use zalando_vertical_autosca.PostActions.Calls.{
  Does, GoesOn, get_deployment-GoesOn, get_stateful_set-GoesOn, get_daemon_set-GoesOn,
}

module _ (P : Platform) where
  pub patched-IsRestart :
      (own : String) (action : PostActionSpec) (kind : String) (t : ℤ) (r : Result (Unit {0}))
      → action.target.kind ≡ kind
      → r ≡ ok tt
      → IsRestart P own action (
          patched_workload kind
            (target_namespace own action.target)
            action.target.name
            (restart_patch P t)
            r)
  patched-IsRestart own action kind t (ok tt) same_kind h = (sym same_kind, refl, refl, (t, refl))
  patched-IsRestart own action kind t (err e) same_kind h = absurd (err-ok h)

  -- Get a target and patch it.
  get_and_patch-Does :
      {A : Type 0} (own : String) (action : PostActionSpec) (kind : String) (t : ℤ) (s u : State P)
      (fetch : String → String → M P (Result A))
      → action.target.kind ≡ kind
      → (u.policy ≡ s.policy) × Extends s.trace u.trace
      → ((namespace name : String) → GoesOn u (fetch namespace name u))
      → Does (ok tt) (Triggered P own action) s (
          bind_exec (fetch (target_namespace own action.target) action.target.name u) (
            got
              (λ e.
                pure (get_error P kind (target_namespace own action.target) action.target.name e))
              (λ _.
                patch_workload P kind
                  (target_namespace own action.target)
                  action.target.name
                  (restart_patch P t))))
  unfolding patch_workload get_error
  get_and_patch-Does own action kind t s u fetch same_kind (e, k) h =
      Post-bind _ _ _ (fetch _ _ u) _ (h _ _) (λ answer v (e', k'). elim (Result-cases answer) [
        | inl (_, is_ok) ↦ rw is_ok (
          e' ∙ e,
          λ done.
              newest (patched-IsRestart own action kind t _ same_kind done)
                (Extends-trans _ _ _ k k'),
        )
        | inr (_, is_err) ↦ rw is_err (e' ∙ e, λ bad. absurd (err-ok bad))
      ])

  restart_target-Does :
      (own : String) (action : PostActionSpec) (t : ℤ) (s u : State P)
      → (u.policy ≡ s.policy) × Extends s.trace u.trace
      → Does (ok tt) (Triggered P own action) s (
          restart_target P action.target (target_namespace own action.target) (restart_patch P t) u)
  unfolding restart_target get_error
  restart_target-Does own action t s u h =
      Post-if _ _ (str_eq action.target.kind "Deployment") _ _ u
        (λ is.
          get_and_patch-Does own action "Deployment" t s u (get_deployment P) ((eq_iff _ _).0 is) h
            (λ namespace name. get_deployment-GoesOn P namespace name u))
        (λ _.
          Post-if _ _ (str_eq action.target.kind "StatefulSet") _ _ u
            (λ is.
              get_and_patch-Does own action "StatefulSet" t s u (get_stateful_set P)
                ((eq_iff _ _).0 is) h
                (λ namespace name. get_stateful_set-GoesOn P namespace name u))
            (λ _.
              Post-if _ _ (str_eq action.target.kind "DaemonSet") _ _ u
                (λ is.
                  get_and_patch-Does own action "DaemonSet" t s u (get_daemon_set P)
                    ((eq_iff _ _).0 is) h
                    (λ namespace name. get_daemon_set-GoesOn P namespace name u))
                (λ _. (h.0, λ bad. absurd (err-ok bad)))))

  trigger-Does :
      (action : PostActionSpec) (s : State P)
      → Does (ok tt) (Triggered P s.policy.namespace action) s (trigger P action s)
  unfolding trigger trigger_rollout_restart namespace_of now unknown_action
  trigger-Does action s =
      Post-if _ _ (str_eq action.action post_action_rollout_restart) _ _ s
        (λ _. restart_target-Does s.policy.namespace action _ s _ (refl, more same))
        (λ _. (refl, λ bad. absurd (err-ok bad)))

  trigger_post_actions-Does :
      (actions : List PostActionSpec) (s : State P)
      → Does
          (ok tt)
          (InOrder (Triggered P s.policy.namespace) actions)
          s
          (trigger_post_actions P actions s)
  unfolding trigger_post_actions trigger_error
  trigger_post_actions-Does [] s = (refl, λ _. nothing)
  trigger_post_actions-Does (action ∷ actions) s =
      Post-bind _ _ _ (trigger P action s) _ (trigger-Does action s) (λ answer u (e, k).
        elim (Result-cases answer) [
          | inl (_, is_ok) ↦ rw is_ok (
              Post-map _ _ _ _ (trigger_post_actions P actions u)
                (trigger_post_actions-Does actions u) (λ _ bad. bad)
                (λ r v (e', k'). (
                  e' ∙ e,
                  λ done. next (k is_ok) (
                      subst (λ p. InOrder (Triggered P p.namespace) actions u.trace v.trace) e
                        (k' done)),
                )))
          | inr (_, is_err) ↦ rw is_err (e, λ bad. absurd (err-ok bad))
        ])

  -- If `TriggerPostActions` succeeds, it has restarted the targets of all actions, in their order,
  -- and nothing was called after the last patch.
  pub trigger_post_actions-InOrder :
      (actions : List PostActionSpec) (s u : State P)
      → trigger_post_actions P actions s ≡ returned (ok tt) u
      → InOrder (Triggered P s.policy.namespace) actions s.trace u.trace
  trigger_post_actions-InOrder actions s u e =
      (Post-returned (λ _. ⊥)
          (λ r v.
            (v.policy ≡ s.policy)
            × (r ≡ ok tt → InOrder (Triggered P s.policy.namespace) actions s.trace v.trace))
          _ (trigger_post_actions-Does actions s) e).1
        refl
