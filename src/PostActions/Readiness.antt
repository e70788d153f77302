-- ===== src/PostActions/Readiness.antt =====
-- `ArePostActionsComplete`, when it says so, has seen every target ready.
use mathlib.Core.Path.{subst}
use zalando_vertical_autosca.Common.{
  ◌≡◌, ◌≢◌, refl, ap, ◌∙◌, String, Bool, true, List, ◌∷◌, [], str_eq, eq_iff, inl, inr,
}
use zalando_vertical_autosca.Common.Errors.{err-ok, Result, ok, err, Result-cases, GoError}
use zalando_vertical_autosca.Api.{
  Deployment, StatefulSet, DaemonSet, PostActionSpec, post_action_rollout_restart,
}
use zalando_vertical_autosca.Platform.{Platform}
use zalando_vertical_autosca.Monad.{
  State, got_deployment, got_stateful_set, got_daemon_set, returned, get_deployment,
  get_stateful_set, get_daemon_set,
}
use zalando_vertical_autosca.Monad.Post.{Post-bind, Post-map, Post-if, Post-returned}
use zalando_vertical_autosca.PostActions.{
  is_deployment_ready, is_stateful_set_ready, is_daemon_set_ready, ready_error, unknown_action, got,
  namespace_of, is_target_ready, is_rollout_complete, is_complete, are_post_actions_complete,
}
use zalando_vertical_autosca.Monad.Order.{same, newest}
use zalando_vertical_autosca.PostActions.Order.{
  InOrder, nothing, next, IsReadyAnswer, SeenReady, target_namespace,
}
use zalando_vertical_autosca.PostActions.Calls.{Does}

module _ (P : Platform) where
  deployment-IsReadyAnswer :
      (own : String) (action : PostActionSpec) (r : Result Deployment) (k : GoError → Result Bool)
      → ((e : GoError) → k e ≢ ok true)
      → action.target.kind ≡ "Deployment"
      → got k (λ d. ok (is_deployment_ready d)) r ≡ ok true
      → IsReadyAnswer P own action
          (got_deployment (target_namespace own action.target) action.target.name r)
  deployment-IsReadyAnswer own action (ok d) k h e done = (e, refl, refl, cc)
  deployment-IsReadyAnswer own action (err bad) k h e done = absurd (h bad done)

  stateful_set-IsReadyAnswer :
      (own : String) (action : PostActionSpec) (r : Result StatefulSet) (k : GoError → Result Bool)
      → ((e : GoError) → k e ≢ ok true)
      → action.target.kind ≡ "StatefulSet"
      → got k (λ d. ok (is_stateful_set_ready d)) r ≡ ok true
      → IsReadyAnswer P own action
          (got_stateful_set (target_namespace own action.target) action.target.name r)
  stateful_set-IsReadyAnswer own action (ok d) k h e done = (e, refl, refl, cc)
  stateful_set-IsReadyAnswer own action (err bad) k h e done = absurd (h bad done)

  daemon_set-IsReadyAnswer :
      (own : String) (action : PostActionSpec) (r : Result DaemonSet) (k : GoError → Result Bool)
      → ((e : GoError) → k e ≢ ok true)
      → action.target.kind ≡ "DaemonSet"
      → got k (λ d. ok (is_daemon_set_ready d)) r ≡ ok true
      → IsReadyAnswer P own action
          (got_daemon_set (target_namespace own action.target) action.target.name r)
  daemon_set-IsReadyAnswer own action (ok d) k h e done = (e, refl, refl, cc)
  daemon_set-IsReadyAnswer own action (err bad) k h e done = absurd (h bad done)

  ready_error_lem :
      (kind namespace name : String) (e : GoError) → ready_error P kind namespace name e ≢ ok true
  unfolding ready_error
  ready_error_lem kind namespace name e = err-ok

  is_target_ready-Does :
      (own : String) (action : PostActionSpec) (s : State P)
      → Does
          (ok true)
          (SeenReady P own action)
          s
          (is_target_ready P action.target (target_namespace own action.target) s)
  unfolding is_target_ready get_deployment get_stateful_set get_daemon_set
  is_target_ready-Does own action s =
      Post-if _ _ (str_eq action.target.kind "Deployment") _ _ s
        (λ is. (
          refl,
          λ done.
              newest
                (deployment-IsReadyAnswer own action _ _ (ready_error_lem _ _ _) ((eq_iff _ _).0 is)
                  done)
                same,
        ))
        (λ _.
          Post-if _ _ (str_eq action.target.kind "StatefulSet") _ _ s
            (λ is. (
              refl,
              λ done.
                  newest
                    (stateful_set-IsReadyAnswer own action _ _ (ready_error_lem _ _ _)
                      ((eq_iff _ _).0 is) done)
                    same,
            ))
            (λ _.
              Post-if _ _ (str_eq action.target.kind "DaemonSet") _ _ s
                (λ is. (
                  refl,
                  λ done.
                      newest
                        (daemon_set-IsReadyAnswer own action _ _ (ready_error_lem _ _ _)
                          ((eq_iff _ _).0 is) done)
                        same,
                ))
                (λ _. (refl, λ bad. absurd (err-ok bad)))))

  is_complete-Does :
      (action : PostActionSpec) (s : State P)
      → Does (ok true) (SeenReady P s.policy.namespace action) s (is_complete P action s)
  unfolding is_complete is_rollout_complete namespace_of unknown_action
  is_complete-Does action s =
      Post-if _ _ (str_eq action.action post_action_rollout_restart) _ _ s
        (λ _. is_target_ready-Does s.policy.namespace action s)
        (λ _. (refl, λ bad. absurd (err-ok bad)))

  are_post_actions_complete-Does :
      (actions : List PostActionSpec) (s : State P)
      → Does
          (ok true)
          (InOrder (SeenReady P s.policy.namespace) actions)
          s
          (are_post_actions_complete P actions s)
  unfolding are_post_actions_complete
  are_post_actions_complete-Does [] s = (refl, λ _. nothing)
  are_post_actions_complete-Does (action ∷ actions) s =
      Post-bind _ _ _ (is_complete P action s) _ (is_complete-Does action s) (λ answer u (e, k).
        elim (Result-cases answer) [
          | inl (done, is_ok) ↦ rw is_ok (
              Post-if _ _ done _ _ u
                (λ is_done.
                  Post-map _ _ _ _ (are_post_actions_complete P actions u)
                    (are_post_actions_complete-Does actions u) (λ _ bad. bad)
                    (λ r v (e', k'). (
                      e' ∙ e,
                      λ all_done. next (k (is_ok ∙ ap (λ b. ok b) is_done)) (
                          subst (λ p. InOrder (SeenReady P p.namespace) actions u.trace v.trace) e
                            (k' all_done)),
                    )))
                (λ _. (e, λ bad. absurd (cc))))
          | inr (_, is_err) ↦ rw is_err (e, λ bad. absurd (err-ok bad))
        ])

  -- If `ArePostActionsComplete` answers that all actions are complete, the server answered for
  -- every target in turn, in the order of the actions, with an object that was ready.
  pub are_post_actions_complete-InOrder :
      (actions : List PostActionSpec) (s u : State P)
      → are_post_actions_complete P actions s ≡ returned (ok true) u
      → InOrder (SeenReady P s.policy.namespace) actions s.trace u.trace
  are_post_actions_complete-InOrder actions s u e =
      (Post-returned (λ _. ⊥)
          (λ r v.
            (v.policy ≡ s.policy)
            × (r ≡ ok true → InOrder (SeenReady P s.policy.namespace) actions s.trace v.trace))
          _ (are_post_actions_complete-Does actions s) e).1
        refl
