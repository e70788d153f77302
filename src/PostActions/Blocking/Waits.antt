-- ===== src/PostActions/Blocking/Waits.antt =====
-- The waits end in time, and a wait that succeeds has seen its target ready.
use zalando_vertical_autosca.Common.{
  ℕ, zero, suc, ◌*◌, ◌≡◌, ◌≢◌, String, Bool, none, some, List, [], ◌∷◌, arith, str_eq, Option-cases,
  some-none, inl, inr,
}
use zalando_vertical_autosca.Common.Int.{pos, ◌+ℤ◌, ◌≤ℤ◌, +ℤ_parts}
use zalando_vertical_autosca.Common.Errors.{Result, ok, err, GoError}
use zalando_vertical_autosca.Api.{PostActionSpec, post_action_rollout_restart}
use zalando_vertical_autosca.Platform.{Platform}
use zalando_vertical_autosca.Monad.{
  State, Exec, M, bind_exec, pure, now, get_deployment, get_stateful_set, get_daemon_set,
  patch_workload,
}
use zalando_vertical_autosca.Monad.Post.{Post, Post-bind, Post-if}
use zalando_vertical_autosca.Context.{Ending, Contexts, KeepsTime, derive_ctx, ctx_done, ctx_wait}
use zalando_vertical_autosca.PostActions.{got, namespace_of}
use zalando_vertical_autosca.PostActions.Blocking.{
  poll_interval, rollout_restart_timeout, wait_ready, wait_deployment_ready,
  wait_stateful_set_ready, wait_daemon_set_ready, restart_and_wait, rollout_restart_deployment,
  rollout_restart_stateful_set, rollout_restart_daemon_set, rollout_restart_target, rollout_restart,
  dispatch, execute, timed_out, polling_failed, execute_failed,
}

-- Rounds of a wait: ten minutes of five seconds, and one more.
abbrev pub rounds : ℕ
rounds = 121

module _ {P : Platform} where
  -- A call on fuel that returns, and has not run out of it.
  abbrev pub Ends : Exec P Ending → Type 0
  Ends = Post (λ _. ⊥) (λ ending _. ending ≢ none)

  Ends-got :
      {A : Type 0} (s : State P) (f : GoError → M P Ending) (g : A → M P Ending) (r : Result A)
      → ((e : GoError) → Ends (f e s))
      → ((a : A) → Ends (g a s))
      → Ends (got f g r s)
  Ends-got s f g (ok a) h k = k a
  Ends-got s f g (err e) h k = h e

module _ (P : Platform) (contexts : Contexts P) (time : KeepsTime P contexts) where
  open contexts use {Ctx}
  open time use {clock, expires}

  -- A pause between two polls.
  pause-Ends :
      (s : State P) (ctx : Ctx) (k : GoError → Ending) (rest : M P Ending)
      → ((e : GoError) → k e ≢ none)
      → ((v : State P) → (clock s.world +ℤ poll_interval) ≤ℤ clock v.world → Ends (rest v))
      → Ends (
          bind_exec
            (ctx_wait P contexts ctx poll_interval s)
            (λ timer. elim timer [ some e ↦ pure (k e) | none ↦ rest ]))
  unfolding ctx_wait
  pause-Ends s ctx k rest over go =
      elim (Option-cases (contexts.wait s.world ctx poll_interval).0) [
        | inr (e, stopped) ↦ rw stopped (over e)
        | inl fired ↦ rw fired (go _ (time.wait_fires s.world ctx poll_interval fired))
      ]

  module _ {A : Type 0} (kind namespace name : String) (fetch : String → String → M P (Result A))
      (ready : A → Bool)
      (later : (s : State P)
        → Post (λ _. ⊥) (λ _ u. clock s.world ≤ℤ clock u.world) (fetch namespace name s)) where
    round-Ends :
        (fuel : ℕ) (ctx : Ctx) (s : State P)
        → ((contexts.done s.world ctx).0 ≡ none
            → (v : State P) → (clock s.world +ℤ poll_interval) ≤ℤ clock v.world
            → Ends (wait_ready P contexts fuel ctx kind namespace name fetch ready v))
        → Ends (wait_ready P contexts (suc fuel) ctx kind namespace name fetch ready s)
    unfolding wait_ready ctx_done timed_out polling_failed
    round-Ends fuel ctx s go = elim (Option-cases (contexts.done s.world ctx).0) [
      | inr (e, is_done) ↦ rw is_done some-none
      | inl not_done ↦ rw not_done (
          Post-bind _ _ _
            (fetch namespace name (record s { world = (contexts.done s.world ctx).1 })) _ (later _)
            (λ answer u k.
              Ends-got u _ _ answer (λ e. some-none)
                (λ obj.
                  Post-if _ _ (ready obj) _ _ u (λ _. some-none)
                    (λ _.
                      pause-Ends u ctx (timed_out P contexts kind namespace name) _ (λ e. some-none)
                        (λ v h. go not_done v (
                          omega (
                            arith,
                            time.done_later s.world ctx,
                            k,
                            h,
                            +ℤ_parts (clock s.world) poll_interval,
                            +ℤ_parts (clock u.world) poll_interval,
                          )))))))
    ]

    -- With `fuel` intervals left until the context expires, one round more is enough.
    wait_ready-Ends :
        (fuel : ℕ) (ctx : Ctx) (s : State P)
        → expires ctx ≤ℤ (clock s.world +ℤ pos (fuel * 5000000000))
        → Ends (wait_ready P contexts (suc fuel) ctx kind namespace name fetch ready s)
    wait_ready-Ends zero ctx s h = round-Ends zero ctx s (λ not_done v k. absurd (
        time.done_expired s.world ctx
          (omega (arith, h, +ℤ_parts (clock s.world) (pos (0 * 5000000000)))) not_done))
    wait_ready-Ends (suc fuel) ctx s h = round-Ends (suc fuel) ctx s (λ not_done v k.
        wait_ready-Ends fuel ctx v (
          omega (
            arith,
            h,
            k,
            +ℤ_parts (clock s.world) (pos (suc fuel * 5000000000)),
            +ℤ_parts (clock s.world) poll_interval,
            +ℤ_parts (clock v.world) (pos (fuel * 5000000000)),
          )))

  get_deployment-later :
      (namespace name : String) (s : State P)
      → Post (λ _. ⊥) (λ _ u. clock s.world ≤ℤ clock u.world) (get_deployment P namespace name s)
  unfolding get_deployment
  get_deployment-later namespace name s = time.deployment_later s.world namespace name

  get_stateful_set-later :
      (namespace name : String) (s : State P)
      → Post (λ _. ⊥) (λ _ u. clock s.world ≤ℤ clock u.world) (get_stateful_set P namespace name s)
  unfolding get_stateful_set
  get_stateful_set-later namespace name s = time.stateful_set_later s.world namespace name

  get_daemon_set-later :
      (namespace name : String) (s : State P)
      → Post (λ _. ⊥) (λ _ u. clock s.world ≤ℤ clock u.world) (get_daemon_set P namespace name s)
  unfolding get_daemon_set
  get_daemon_set-later namespace name s = time.daemon_set_later s.world namespace name

  -- Ten minutes are a hundred and twenty intervals.
  derive_ctx-expires :
      (ctx : Ctx) (s : State P)
      → Post
          (λ _. ⊥)
          (λ c u. expires c ≤ℤ (clock u.world +ℤ pos (120 * 5000000000)))
          (derive_ctx P contexts ctx rollout_restart_timeout s)
  unfolding derive_ctx
  derive_ctx-expires ctx s = time.timeout_expires s.world ctx rollout_restart_timeout

  restart_and_wait-Ends :
      {A : Type 0} (ctx : Ctx) (kind namespace name raw : String)
      (fetch : String → String → M P (Result A)) (ready : A → Bool) (s : State P)
      → ((u : State P)
          → Post (λ _. ⊥) (λ _ v. clock u.world ≤ℤ clock v.world) (fetch namespace name u))
      → Ends (
          restart_and_wait P contexts ctx kind namespace name raw fetch
            (λ c ns n. wait_ready P contexts rounds c kind ns n fetch ready)
            s)
  unfolding restart_and_wait patch_workload
  restart_and_wait-Ends ctx kind namespace name raw fetch ready s later =
      Post-bind _ _ _ (fetch namespace name s) _ (later s) (λ answer u _.
        Ends-got u _ _ answer (λ e. some-none)
          (λ _.
            Ends-got _ _ _ (P.client.patch_workload u.world kind namespace name raw).0
              (λ e. some-none)
              (λ _.
                Post-bind _ _ _ (derive_ctx P contexts ctx rollout_restart_timeout _) _
                  (derive_ctx-expires ctx _)
                  (λ c v h. wait_ready-Ends kind namespace name fetch ready later 120 c v h))))

  dispatch-Ends :
      (ctx : Ctx) (action : PostActionSpec) (s : State P)
      → Ends (dispatch P contexts rounds ctx action s)
  unfolding dispatch rollout_restart rollout_restart_target rollout_restart_deployment
      rollout_restart_stateful_set rollout_restart_daemon_set wait_deployment_ready
      wait_stateful_set_ready wait_daemon_set_ready namespace_of now
  dispatch-Ends ctx action s =
      Post-if _ _ (str_eq action.action post_action_rollout_restart) _ _ s
        (λ _.
          Post-if _ _ (str_eq action.target.kind "Deployment") _ _ _
            (λ _. restart_and_wait-Ends ctx _ _ _ _ _ _ _ (get_deployment-later _ _))
            (λ _.
              Post-if _ _ (str_eq action.target.kind "StatefulSet") _ _ _
                (λ _. restart_and_wait-Ends ctx _ _ _ _ _ _ _ (get_stateful_set-later _ _))
                (λ _.
                  Post-if _ _ (str_eq action.target.kind "DaemonSet") _ _ _
                    (λ _. restart_and_wait-Ends ctx _ _ _ _ _ _ _ (get_daemon_set-later _ _))
                    (λ _. some-none))))
        (λ _. some-none)

  -- `Execute` returns, with `rounds` rounds of each wait, if the clients and contexts keep time as
  -- documented: a target that never becomes ready is given up.
  pub execute-Ends :
      (ctx : Ctx) (actions : List PostActionSpec) (s : State P)
      → Ends (execute P contexts rounds ctx actions s)
  unfolding execute execute_failed
  execute-Ends ctx [] s = some-none
  execute-Ends ctx (action ∷ actions) s =
      Post-bind _ _ _ (dispatch P contexts rounds ctx action s) _ (dispatch-Ends ctx action s)
        (λ ending u h. elim (Option-cases ending) [
          | inl ran_out ↦ absurd (h ran_out)
          | inr (answer, ended) ↦
              rw ended (Ends-got u _ _ answer (λ e. some-none) (λ _. execute-Ends ctx actions u))
        ])
