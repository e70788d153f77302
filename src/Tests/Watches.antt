-- ===== src/Tests/Watches.antt =====
-- Examples for a run that is watched inside its window.
use zalando_vertical_autosca.Common.{◌≡◌, refl, true, [], ◌∷◌}
use zalando_vertical_autosca.Common.Int.{pos, ◌+ℤ◌}
use zalando_vertical_autosca.Common.Errors.{ok}
use zalando_vertical_autosca.Api.{MaintenanceRecord, patch_applied}
use zalando_vertical_autosca.Monad.{
  State, returned, client_get_postgresql, get_stateful_set, patch_workload, now,
}
use zalando_vertical_autosca.Monad.Post.{Post}
use zalando_vertical_autosca.Window.{WindowResult}
use zalando_vertical_autosca.Zalando.{get_postgresql, is_object_healthy, is_cluster_healthy}
use zalando_vertical_autosca.PostActions.{
  trigger_post_actions, trigger, trigger_rollout_restart, restart_target, are_post_actions_complete,
  is_complete, is_rollout_complete, is_target_ready, namespace_of, is_stateful_set_ready,
}
use zalando_vertical_autosca.Reconcile.Maintenance.{monitor_maintenance}
use zalando_vertical_autosca.Reconcile.Watching.{
  Completes, Triggers, monitor_maintenance-Watches, monitor_maintenance-Proceeds,
}
use zalando_vertical_autosca.Tests.Ends.{
  running, running_start, one_running, state_of, after_health, is_healthy,
}
use zalando_vertical_autosca.Tests.Sample.{restart_app}
use zalando_vertical_autosca.Tests.World.{small_platform}

abbrev open_window : WindowResult
open_window = record {
  in_window = true;
  next_open = pos 360000000000000;
  window_end = pos 361800000000000;
}

abbrev after_poll : State small_platform
after_poll = state_of (are_post_actions_complete small_platform (restart_app ∷ []) running_start)

actions_complete :
    are_post_actions_complete small_platform (restart_app ∷ []) running_start
    ≡ returned (ok true) after_poll
unfolding are_post_actions_complete is_complete is_rollout_complete is_target_ready namespace_of
    get_stateful_set is_stateful_set_ready
actions_complete = refl

monitor_maintenance-Watches_example :
    Post
      (λ _. ⊥)
      (Completes small_platform running open_window (pos 360600000000000) running_start)
      (monitor_maintenance small_platform running open_window (pos 360600000000000) running_start)
monitor_maintenance-Watches_example =
    monitor_maintenance-Watches small_platform running open_window (pos 360600000000000)
      running_start after_poll (ok true) refl one_running actions_complete

abbrev patched : MaintenanceRecord
patched = record running { phase = patch_applied }

abbrev after_trigger : State small_platform
after_trigger = state_of (trigger_post_actions small_platform (restart_app ∷ []) after_health)

actions_triggered :
    trigger_post_actions small_platform after_health.policy.spec.post_actions after_health
    ≡ returned (ok tt) after_trigger
unfolding ◌+ℤ◌ is_cluster_healthy get_postgresql client_get_postgresql is_object_healthy
    trigger_post_actions trigger trigger_rollout_restart restart_target namespace_of now
    get_stateful_set patch_workload
actions_triggered = refl

monitor_maintenance-Proceeds_example :
    Post
      (λ _. ⊥)
      (Triggers small_platform patched open_window (pos 360600000000000) running_start)
      (monitor_maintenance small_platform patched open_window (pos 360600000000000) running_start)
unfolding is_cluster_healthy get_postgresql client_get_postgresql
monitor_maintenance-Proceeds_example =
    monitor_maintenance-Proceeds small_platform patched open_window (pos 360600000000000)
      running_start after_health after_trigger (ok true) (ok tt) refl one_running is_healthy
      actions_triggered
