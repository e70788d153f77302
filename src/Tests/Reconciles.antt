-- ===== src/Tests/Reconciles.antt =====
-- One reconcile, run to its end: ten minutes past the hour it updates the cluster, once.
use zalando_vertical_autosca.Common.{◌*◌, true, ◌≡◌, refl, none, []}
use zalando_vertical_autosca.Common.Int.{pos, ◌+ℤ◌, ◌-ℤ◌, ◌*ℤ◌, div_trunc, mod_trunc, wrap64}
use zalando_vertical_autosca.Common.Errors.{is_not_found, err, plain}
use zalando_vertical_autosca.Float64.{
  of_int, make, mul, add, div, le, lt, abs, to_int64, round_ratio, round_on, nearest, unit,
  overflow,
}
use zalando_vertical_autosca.Monad.{
  State, Exec, returned, panicked, now, get_vpa, client_get_postgresql, patch_postgresql,
  record_event,
}
use zalando_vertical_autosca.Monad.Trace.{patches}
use zalando_vertical_autosca.Window.{evaluate, window_duration}
use zalando_vertical_autosca.Conditions.{
  set_condition_list, is_condition_true_list, add_record, has_completed_in_window, find_condition,
}
use zalando_vertical_autosca.Vpa.{
  recommend, extract_container_recommendation, search_containers, container_recommendation,
  apply_memory_buffer, buffered_bytes, clamp_quantity, read_recommendation,
}
use zalando_vertical_autosca.Zalando.{
  get_postgresql, current_memory_of, get_current_memory, is_object_healthy, is_cluster_healthy,
}
use zalando_vertical_autosca.Zalando.Gates.{
  evaluate_change_gates, gate, absolute_diff, relative_diff, absolute_threshold_of,
  relative_threshold_of, default_change_gate_relative_threshold,
}
use zalando_vertical_autosca.Zalando.Patch.{
  patch_data, patch_resources, mem_limit_bytes, build_memory_patch, add_postgres_parameters_patch,
}
use zalando_vertical_autosca.Parameters.{
  calculate_postgres_parameters, evaluate_all, evaluate_parameter, trim_space, trim_left,
  trim_right, is_space, template_funcs,
}
use zalando_vertical_autosca.Reconcile.Status.{set_condition, add_maintenance_record}
use zalando_vertical_autosca.Reconcile.Maintenance.{
  cpu_cores, calculate_pg_params, start_maintenance, start_with_params, start_patched, started,
  previous_text, Outcome,
}
use zalando_vertical_autosca.Reconcile.Policy.{
  reconcile_policy, memory_read, vpa_step, recommended, window_step, window_evaluated,
  maintenance_step, window_guard, safety_gates, health_gate, change_gates,
}
use zalando_vertical_autosca.Tests.Sample.{start, policy}
use zalando_vertical_autosca.Tests.Clock.{within}
use zalando_vertical_autosca.Reconcile.Windows.{taken}
use zalando_vertical_autosca.Tests.World.{small_platform, hour}

abbrev final_state : Exec small_platform Outcome → State small_platform
final_state (returned a s) = s
final_state (panicked s) = s

updated_once : patches (final_state (reconcile_policy small_platform start)).trace ≡ 1
unfolding ◌+ℤ◌ ◌-ℤ◌ ◌*ℤ◌ div_trunc mod_trunc wrap64 is_not_found of_int make mul add div le lt abs
    to_int64 round_ratio round_on nearest unit overflow now get_vpa client_get_postgresql
    patch_postgresql record_event evaluate window_duration set_condition_list is_condition_true_list
    add_record has_completed_in_window find_condition recommend extract_container_recommendation
    search_containers container_recommendation apply_memory_buffer buffered_bytes clamp_quantity
    read_recommendation get_postgresql current_memory_of get_current_memory is_object_healthy
    is_cluster_healthy evaluate_change_gates gate absolute_diff relative_diff absolute_threshold_of
    relative_threshold_of default_change_gate_relative_threshold patch_data patch_resources
    mem_limit_bytes build_memory_patch add_postgres_parameters_patch calculate_postgres_parameters
    evaluate_all evaluate_parameter trim_space trim_left trim_right is_space template_funcs
    set_condition add_maintenance_record cpu_cores calculate_pg_params start_maintenance
    start_with_params start_patched started previous_text reconcile_policy memory_read vpa_step
    recommended window_step window_evaluated maintenance_step window_guard safety_gates health_gate
    change_gates
updated_once = refl

abbrev pub fresh_start : State small_platform
fresh_start = record start {
  policy = record policy {
    status = record {
      memory_target = none;
      current_memory = none;
      maintenance_history = [];
      conditions = [];
    };
  };
}

abbrev pub result_of : Exec small_platform Outcome → Outcome
result_of (returned a s) = a
result_of (panicked s) = err (plain "panic")

abbrev pub fresh_end : State small_platform
fresh_end = final_state (reconcile_policy small_platform fresh_start)

pub fresh_run :
    reconcile_policy small_platform fresh_start
    ≡ returned (result_of (reconcile_policy small_platform fresh_start)) fresh_end
unfolding ◌+ℤ◌ ◌-ℤ◌ ◌*ℤ◌ div_trunc mod_trunc wrap64 is_not_found of_int make mul add div le lt abs
    to_int64 round_ratio round_on nearest unit overflow now get_vpa client_get_postgresql
    patch_postgresql record_event evaluate window_duration set_condition_list is_condition_true_list
    add_record has_completed_in_window find_condition recommend extract_container_recommendation
    search_containers container_recommendation apply_memory_buffer buffered_bytes clamp_quantity
    read_recommendation get_postgresql current_memory_of get_current_memory is_object_healthy
    is_cluster_healthy evaluate_change_gates gate absolute_diff relative_diff absolute_threshold_of
    relative_threshold_of default_change_gate_relative_threshold patch_data patch_resources
    mem_limit_bytes build_memory_patch add_postgres_parameters_patch calculate_postgres_parameters
    evaluate_all evaluate_parameter trim_space trim_left trim_right is_space template_funcs
    set_condition add_maintenance_record cpu_cores calculate_pg_params start_maintenance
    start_with_params start_patched started previous_text reconcile_policy memory_read vpa_step
    recommended window_step window_evaluated maintenance_step window_guard safety_gates health_gate
    change_gates
fresh_run = refl

pub fresh_clock : within (pos 360600000000000) (pos 360604000000000) fresh_end.trace ≡ true
unfolding ◌+ℤ◌ ◌-ℤ◌ ◌*ℤ◌ div_trunc mod_trunc wrap64 is_not_found of_int make mul add div le lt abs
    to_int64 round_ratio round_on nearest unit overflow now get_vpa client_get_postgresql
    patch_postgresql record_event evaluate window_duration set_condition_list is_condition_true_list
    add_record has_completed_in_window find_condition recommend extract_container_recommendation
    search_containers container_recommendation apply_memory_buffer buffered_bytes clamp_quantity
    read_recommendation get_postgresql current_memory_of get_current_memory is_object_healthy
    is_cluster_healthy evaluate_change_gates gate absolute_diff relative_diff absolute_threshold_of
    relative_threshold_of default_change_gate_relative_threshold patch_data patch_resources
    mem_limit_bytes build_memory_patch add_postgres_parameters_patch calculate_postgres_parameters
    evaluate_all evaluate_parameter trim_space trim_left trim_right is_space template_funcs
    set_condition add_maintenance_record cpu_cores calculate_pg_params start_maintenance
    start_with_params start_patched started previous_text reconcile_policy memory_read vpa_step
    recommended window_step window_evaluated maintenance_step window_guard safety_gates health_gate
    change_gates
fresh_clock = refl

-- The run that it started is in the history: the bound is met.
taken_once :
    taken
      (pos (100 * hour))
      (pos (100 * hour) +ℤ window_duration (pos 30))
      fresh_end.policy.status.maintenance_history
    ≡ 1
unfolding ◌+ℤ◌ ◌-ℤ◌ ◌*ℤ◌ div_trunc mod_trunc wrap64 is_not_found of_int make mul add div le lt abs
    to_int64 round_ratio round_on nearest unit overflow now get_vpa client_get_postgresql
    patch_postgresql record_event evaluate window_duration set_condition_list is_condition_true_list
    add_record has_completed_in_window find_condition recommend extract_container_recommendation
    search_containers container_recommendation apply_memory_buffer buffered_bytes clamp_quantity
    read_recommendation get_postgresql current_memory_of get_current_memory is_object_healthy
    is_cluster_healthy evaluate_change_gates gate absolute_diff relative_diff absolute_threshold_of
    relative_threshold_of default_change_gate_relative_threshold patch_data patch_resources
    mem_limit_bytes build_memory_patch add_postgres_parameters_patch calculate_postgres_parameters
    evaluate_all evaluate_parameter trim_space trim_left trim_right is_space template_funcs
    set_condition add_maintenance_record cpu_cores calculate_pg_params start_maintenance
    start_with_params start_patched started previous_text reconcile_policy memory_read vpa_step
    recommended window_step window_evaluated maintenance_step window_guard safety_gates health_gate
    change_gates
taken_once = refl
