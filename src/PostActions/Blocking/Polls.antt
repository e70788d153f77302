-- ===== src/PostActions/Blocking/Polls.antt =====
-- Polling that succeeds has seen the target ready.
use zalando_vertical_autosca.Common.{◌≡◌, ◌≢◌, refl, sym, ◌∙◌, String, Bool, true, inl, inr}
use zalando_vertical_autosca.Common.Errors.{Result, ok, err, Result-cases, GoError}
use zalando_vertical_autosca.Api.{PostActionSpec}
use zalando_vertical_autosca.Platform.{Platform}
use zalando_vertical_autosca.Monad.{
  State, Call, Exec, M, get_deployment, get_stateful_set, get_daemon_set,
}
use zalando_vertical_autosca.Monad.Post.{Post, Post-bind, Post-map, Post-if}
use zalando_vertical_autosca.PostActions.{
  is_deployment_ready, is_stateful_set_ready, is_daemon_set_ready,
}
use zalando_vertical_autosca.Monad.Order.{Extends, same, more, Newest, newest, Newest-earlier}
use zalando_vertical_autosca.PostActions.Order.{IsReadyAnswer, target_namespace}
use zalando_vertical_autosca.PostActions.Calls.{Does}
use zalando_vertical_autosca.Common.{ℕ, zero, suc, some, Option-cases, some-none}
use zalando_vertical_autosca.Context.{Contexts, ctx_done, ctx_wait}
use zalando_vertical_autosca.PostActions.Blocking.{
  poll_interval, wait_ready, timed_out, polling_failed,
}

pub failed : {e : GoError} {a : Unit {0}} → some (err e) ≢ some (ok a)
failed = cc

module _ (P : Platform) (contexts : Contexts P) where
  open contexts use {Ctx}

  -- An answer to a poll: a ready object is an answer of the kind `Q`.
  abbrev pub Polls :
      {A : Type 0} → (Call P → Type 0) → (A → Bool) → State P → Exec P (Result A) → Type 0
  Polls {A = A} Q ready s =
      Post (λ _. ⊥)
        (λ r u.
          (u.policy ≡ s.policy)
          × Extends s.trace u.trace
          × ((a : A) → r ≡ ok a → ready a ≡ true → Newest Q s.trace u.trace))

  pub wait_ready-Does :
      {A : Type 0} (Q : Call P → Type 0) (kind namespace name : String)
      (fetch : String → String → M P (Result A)) (ready : A → Bool)
      → ((u : State P) → Polls Q ready u (fetch namespace name u))
      → (fuel : ℕ) (ctx : Ctx) (s : State P)
      → Does
          (some (ok tt))
          (Newest Q)
          s
          (wait_ready P contexts fuel ctx kind namespace name fetch ready s)
  unfolding wait_ready ctx_done ctx_wait timed_out polling_failed
  wait_ready-Does Q kind namespace name fetch ready polls zero ctx s =
      (refl, λ bad. absurd (some-none (sym bad)))
  wait_ready-Does Q kind namespace name fetch ready polls (suc fuel) ctx s =
      elim (Option-cases (contexts.done s.world ctx).0) [
        | inr (_, is_done) ↦ rw is_done (refl, λ bad. absurd (failed bad))
        | inl not_done ↦ rw not_done (
            Post-bind _ _ _ (fetch namespace name _) _ (polls _)
              (λ answer u (same_policy, on, answered). elim (Result-cases answer) [
                | inr (_, is_err) ↦ rw is_err (same_policy, λ bad. absurd (failed bad))
                | inl (obj, is_ok) ↦ rw is_ok (
                    Post-if _ _ (ready obj) _ _ u
                      (λ is_ready. (same_policy, λ _. answered obj is_ok is_ready))
                      (λ _. elim (Option-cases (contexts.wait u.world ctx poll_interval).0) [
                        | inr (_, stopped) ↦ rw stopped (same_policy, λ bad. absurd (failed bad))
                        | inl fired ↦ rw fired (
                            Post-map _ _ _ _
                              (wait_ready P contexts fuel ctx kind namespace name fetch ready _)
                              (wait_ready-Does Q kind namespace name fetch ready polls fuel ctx _)
                              (λ _ bad. bad)
                              (λ r v (e, k).
                                (e ∙ same_policy, λ done. Newest-earlier Q _ _ _ on (k done))))
                      ]))
              ]))
      ]

  -- The three readings, as polls.
  pub get_deployment-Polls :
      (own : String) (action : PostActionSpec) (s : State P)
      → action.target.kind ≡ "Deployment"
      → Polls
          (IsReadyAnswer P own action)
          is_deployment_ready
          s
          (get_deployment P (target_namespace own action.target) action.target.name s)
  unfolding get_deployment
  get_deployment-Polls own action s e =
      (refl, more same, λ a is_ok is_ready. newest (rw is_ok (e, refl, refl, is_ready)) same)

  pub get_stateful_set-Polls :
      (own : String) (action : PostActionSpec) (s : State P)
      → action.target.kind ≡ "StatefulSet"
      → Polls
          (IsReadyAnswer P own action)
          is_stateful_set_ready
          s
          (get_stateful_set P (target_namespace own action.target) action.target.name s)
  unfolding get_stateful_set
  get_stateful_set-Polls own action s e =
      (refl, more same, λ a is_ok is_ready. newest (rw is_ok (e, refl, refl, is_ready)) same)

  pub get_daemon_set-Polls :
      (own : String) (action : PostActionSpec) (s : State P)
      → action.target.kind ≡ "DaemonSet"
      → Polls
          (IsReadyAnswer P own action)
          is_daemon_set_ready
          s
          (get_daemon_set P (target_namespace own action.target) action.target.name s)
  unfolding get_daemon_set
  get_daemon_set-Polls own action s e =
      (refl, more same, λ a is_ok is_ready. newest (rw is_ok (e, refl, refl, is_ready)) same)
