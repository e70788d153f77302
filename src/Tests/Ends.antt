-- ===== src/Tests/Ends.antt =====
-- Examples for the end of a run, and for the numbers of the buffer and of the bootstrap.
use zalando_vertical_autosca.Common.{
  ℕ, ◌*◌, ◌≤◌, ◌≡◌, refl, false, true, none, some, [], ◌∷◌, arith,
}
use zalando_vertical_autosca.Common.Int.{ℤ, pos}
use zalando_vertical_autosca.Common.Errors.{ok}
use zalando_vertical_autosca.Float64.{Float64, finite, unit}
use zalando_vertical_autosca.Api.{
  MaintenanceRecord, in_progress, completed, post_actions_triggered, Condition, condition_true,
  condition_maintenance_in_progress,
}
use zalando_vertical_autosca.Monad.{
  State, Exec, returned, panicked, client_get_postgresql, get_stateful_set,
}
use zalando_vertical_autosca.Monad.Post.{Post}
use zalando_vertical_autosca.Conditions.{
  is_condition_true_list, add_record, find_in_progress_record, modify_in_progress, finish_record,
  has_completed_in_window,
}
use zalando_vertical_autosca.Conditions.Rounds.{add_record-found_again}
use zalando_vertical_autosca.Vpa.{buffered_bytes}
use zalando_vertical_autosca.Vpa.Admitted.{buffered_bytes_bounds}
use zalando_vertical_autosca.Zalando.{get_postgresql, is_object_healthy, is_cluster_healthy}
use zalando_vertical_autosca.PostActions.{
  are_post_actions_complete, is_complete, is_rollout_complete, is_target_ready, namespace_of,
  is_stateful_set_ready,
}
use zalando_vertical_autosca.Reconcile.Maintenance.{handle_window_expired}
use zalando_vertical_autosca.Reconcile.Runs.{Runs}
use zalando_vertical_autosca.Reconcile.Expiry.{Expires, handle_window_expired-Closes}
use zalando_vertical_autosca.Reconcile.Policy.{bootstrap_millis}
use zalando_vertical_autosca.Reconcile.Bootstrap.{bootstrap_millis_lem}
use zalando_vertical_autosca.Tests.Sample.{old_record, policy, start, restart_app}
use zalando_vertical_autosca.Tests.World.{gi, small_platform, whole_units}

-- A run whose post-actions have been triggered.
abbrev pub running : MaintenanceRecord
running = record old_record {
  started_at = pos 360600000000000;
  completed_at = none;
  status = in_progress;
  phase = post_actions_triggered;
  applied_memory = "20Gi";
}

abbrev running_condition : Condition
running_condition = record {
  type = condition_maintenance_in_progress;
  status = condition_true;
  reason = "MaintenanceStarted";
  message = "maintenance run has started";
  last_transition_time = pos 5;
  observed_generation = pos 1;
}

abbrev pub running_start : State small_platform
running_start = record start {
  policy = record policy {
    status = record {
      memory_target = none;
      current_memory = none;
      maintenance_history = old_record ∷ running ∷ [];
      conditions = running_condition ∷ [];
    };
  };
}

pub one_running : Runs 1 true running_start.policy
unfolding is_condition_true_list
one_running = record { distinct = (refl, tt); short = omega arith; number = refl; flag = refl }

abbrev pub state_of : {A : Type 0} → Exec small_platform A → State small_platform
state_of (returned a s) = s
state_of (panicked s) = s

abbrev pub after_health : State small_platform
after_health = state_of (is_cluster_healthy small_platform "ns" "db" running_start)

pub is_healthy :
    is_cluster_healthy small_platform "ns" "db" running_start ≡ returned (ok true) after_health
unfolding is_cluster_healthy get_postgresql client_get_postgresql is_object_healthy
is_healthy = refl

abbrev after_actions : State small_platform
after_actions = state_of (are_post_actions_complete small_platform (restart_app ∷ []) after_health)

actions_complete :
    are_post_actions_complete small_platform (restart_app ∷ []) after_health
    ≡ returned (ok true) after_actions
unfolding is_cluster_healthy get_postgresql client_get_postgresql is_object_healthy
    are_post_actions_complete is_complete is_rollout_complete is_target_ready namespace_of
    get_stateful_set is_stateful_set_ready
actions_complete = refl

handle_window_expired-Closes_example :
    Post
      (λ _. ⊥)
      (Expires small_platform running (ok true) (ok true) running_start)
      (handle_window_expired small_platform running running_start)
handle_window_expired-Closes_example =
    handle_window_expired-Closes small_platform running_start after_health after_actions running
      (ok true) (ok true) one_running is_healthy actions_complete

add_record-found_again_example :
    let finished =
      modify_in_progress
        (finish_record (pos 360700000000000) completed "")
        (add_record (old_record ∷ []) running) in
    (find_in_progress_record (add_record (old_record ∷ []) running) ≡ some running)
    × (find_in_progress_record finished ≡ none)
    × (has_completed_in_window finished (pos 360000000000000) (pos 361800000000000) ≡ true)
add_record-found_again_example =
    add_record-found_again (old_record ∷ []) running (pos 360700000000000) (pos 360000000000000)
      (pos 361800000000000) "" refl refl (omega arith) (omega arith)

zero_when_out : Float64 → ℤ
zero_when_out x = pos 0

-- 10Gi have 1000 millicores.
bootstrap_millis_lem_example : bootstrap_millis zero_when_out (gi 10) ≡ pos 1000
bootstrap_millis_lem_example = bootstrap_millis_lem zero_when_out 10737418240 (omega arith)

-- A buffer of 20 percent on 10Gi.
buffered_bytes_bounds_example :
    (k : ℕ) × (buffered_bytes whole_units zero_when_out (gi 10) (finite false (20 * unit)) ≡ pos k)
    × (10737418240 ≤ k)
    × (k ≤ 2 * 10737418240)
buffered_bytes_bounds_example =
    buffered_bytes_bounds whole_units zero_when_out (gi 10) 10737418240 (20 * unit) refl
      (omega arith) (omega arith)
