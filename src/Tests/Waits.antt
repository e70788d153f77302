-- ===== src/Tests/Waits.antt =====
-- Examples for the post-actions and the waits: deadlines, and a server whose objects are ready.
use zalando_vertical_autosca.Common.{
  ◌≡◌, ◌≢◌, refl, true, none, some, arith, if◌then◌else◌, [], ◌∷◌, Option,
}
use zalando_vertical_autosca.Common.Int.{ℤ, pos, ◌+ℤ◌, ◌≤ℤ◌, ◌<ℤ◌, leb_ℤ, +ℤ_parts}
use zalando_vertical_autosca.Common.Errors.{ok, plain, GoError}
use zalando_vertical_autosca.Platform.{Client, Platform}
use zalando_vertical_autosca.Monad.{
  State, Exec, returned, panicked, now, get_stateful_set, patch_workload,
}
use zalando_vertical_autosca.Monad.Post.{Post}
use zalando_vertical_autosca.Context.{Contexts, KeepsTime, derive_ctx, ctx_done}
use zalando_vertical_autosca.PostActions.{
  namespace_of, restart_target, trigger_rollout_restart, trigger, trigger_post_actions,
  is_target_ready, is_rollout_complete, is_complete, are_post_actions_complete,
  is_stateful_set_ready,
}
use zalando_vertical_autosca.PostActions.Order.{InOrder, Triggered, SeenReady, Restarted}
use zalando_vertical_autosca.PostActions.Triggers.{trigger_post_actions-InOrder}
use zalando_vertical_autosca.PostActions.Readiness.{are_post_actions_complete-InOrder}
use zalando_vertical_autosca.PostActions.Blocking.{
  wait_ready, wait_stateful_set_ready, restart_and_wait, rollout_restart_stateful_set,
  rollout_restart_target, rollout_restart, dispatch, execute,
}
use zalando_vertical_autosca.PostActions.Blocking.Waits.{rounds, Ends, execute-Ends}
use zalando_vertical_autosca.PostActions.Blocking.Restarts.{execute-InOrder}
use zalando_vertical_autosca.Zalando.Waiting.{
  wait_for_cluster_ready, WaitedFor, wait_for_cluster_ready-WaitedFor,
}
use zalando_vertical_autosca.Tests.World.{api_server, small_platform, Server}
use zalando_vertical_autosca.Tests.Sample.{restart_app, policy}

-- Reading the postgresql resource takes a second.
abbrev slow_server : Client ℤ
slow_server = record api_server {
  get_postgresql = λ w namespace name. (ok w.1, (w.0 +ℤ pos 1000000000, w.1));
}

abbrev slow : Platform
slow = record small_platform { client = slow_server }

abbrev deadline_exceeded : GoError
deadline_exceeded = plain "context deadline exceeded"

-- A context is its deadline.
abbrev earlier : ℤ → ℤ → ℤ
earlier a b = if leb_ℤ a b then a else b

abbrev deadline_passed : Server → ℤ → Option GoError × Server
deadline_passed w c = (if leb_ℤ c w.0 then some deadline_exceeded else none, w)

abbrev sleep : Server → ℤ → ℤ → Option GoError × Server
sleep w c d = if leb_ℤ (w.0 +ℤ d) c then (none, (w.0 +ℤ d, w.1)) else (some deadline_exceeded, w)

abbrev deadlines : Contexts slow
deadlines = record {
  Ctx = ℤ;
  with_timeout = λ w c d. (earlier c (w.0 +ℤ d), w);
  done = deadline_passed;
  wait = sleep;
}

earlier_second : (a b : ℤ) → earlier a b ≤ℤ b
earlier_second a b = ground arith

deadline_passed-later : (w : Server) (c : ℤ) → w.0 ≤ℤ (deadline_passed w c).1.0
deadline_passed-later w c = ground arith

deadline_passed-some : (w : Server) (c : ℤ) → c ≤ℤ w.0 → (deadline_passed w c).0 ≢ none
deadline_passed-some w c h = ground arith

sleep-none : (w : Server) (c d : ℤ) → (sleep w c d).0 ≡ none → (w.0 +ℤ d) ≤ℤ (sleep w c d).1.0
sleep-none w c d h = ground arith

second_later : (a : ℤ) → a <ℤ (a +ℤ pos 1000000000)
second_later a = omega (arith, +ℤ_parts a (pos 1000000000))

abbrev deadlines-KeepsTime : KeepsTime slow deadlines
deadlines-KeepsTime = record {
  clock = λ w. w.0;
  expires = λ c. c;
  timeout_expires = λ w c d. earlier_second c (w.0 +ℤ d);
  done_later = deadline_passed-later;
  done_expired = deadline_passed-some;
  wait_fires = sleep-none;
  deployment_later = λ w namespace name. omega arith;
  stateful_set_later = λ w namespace name. omega arith;
  daemon_set_later = λ w namespace name. omega arith;
}

abbrev at_start : State slow
at_start = record { world = (pos 0, "10Gi"); policy = policy; trace = [] }

execute-Ends_example :
    Ends (execute slow deadlines rounds (pos 900000000000) (restart_app ∷ []) at_start)
execute-Ends_example =
    execute-Ends slow deadlines deadlines-KeepsTime (pos 900000000000) (restart_app ∷ []) at_start

abbrev state_of : {A : Type 0} → Exec slow A → State slow
state_of (returned a s) = s
state_of (panicked s) = s

abbrev executed : State slow
executed = state_of (execute slow deadlines 3 (pos 900000000000) (restart_app ∷ []) at_start)

execute_succeeds :
    execute slow deadlines 3 (pos 900000000000) (restart_app ∷ []) at_start
    ≡ returned (some (ok tt)) executed
unfolding ◌+ℤ◌ execute dispatch rollout_restart rollout_restart_target rollout_restart_stateful_set
    restart_and_wait wait_stateful_set_ready wait_ready is_stateful_set_ready namespace_of now
    get_stateful_set patch_workload derive_ctx ctx_done
execute_succeeds = refl

execute-InOrder_example : InOrder (Restarted slow "ns") (restart_app ∷ []) [] executed.trace
execute-InOrder_example =
    execute-InOrder slow deadlines 3 (pos 900000000000) (restart_app ∷ []) at_start executed
      execute_succeeds

abbrev after_trigger : State slow
after_trigger = state_of (trigger_post_actions slow (restart_app ∷ []) at_start)

trigger_succeeds :
    trigger_post_actions slow (restart_app ∷ []) at_start ≡ returned (ok tt) after_trigger
unfolding ◌+ℤ◌ trigger_post_actions trigger trigger_rollout_restart restart_target namespace_of now
    get_stateful_set patch_workload
trigger_succeeds = refl

trigger_post_actions-InOrder_example :
    InOrder (Triggered slow "ns") (restart_app ∷ []) [] after_trigger.trace
trigger_post_actions-InOrder_example =
    trigger_post_actions-InOrder slow (restart_app ∷ []) at_start after_trigger trigger_succeeds

abbrev after_poll : State slow
after_poll = state_of (are_post_actions_complete slow (restart_app ∷ []) at_start)

poll_succeeds :
    are_post_actions_complete slow (restart_app ∷ []) at_start ≡ returned (ok true) after_poll
unfolding are_post_actions_complete is_complete is_rollout_complete is_target_ready namespace_of
    get_stateful_set is_stateful_set_ready
poll_succeeds = refl

are_post_actions_complete-InOrder_example :
    InOrder (SeenReady slow "ns") (restart_app ∷ []) [] after_poll.trace
are_post_actions_complete-InOrder_example =
    are_post_actions_complete-InOrder slow (restart_app ∷ []) at_start after_poll poll_succeeds

wait_for_cluster_ready-WaitedFor_example :
    Post
      (λ _. ⊥)
      (WaitedFor slow deadlines (pos 5) "ns" "db" [])
      (wait_for_cluster_ready slow deadlines 6 (pos 5) "ns" "db" at_start)
unfolding ◌+ℤ◌
wait_for_cluster_ready-WaitedFor_example =
    wait_for_cluster_ready-WaitedFor slow deadlines deadlines-KeepsTime
      (λ w namespace name. second_later w.0) "ns" "db" 5 (pos 5) at_start
      (omega (arith, +ℤ_parts (pos 0) (pos 5)))
