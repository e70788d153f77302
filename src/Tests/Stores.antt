-- ===== src/Tests/Stores.antt =====
-- `Reconcile`, run to its end on a server that has the policy.
use zalando_vertical_autosca.Common.{◌⊎◌, true, true, ◌≡◌, refl, [], List}
use zalando_vertical_autosca.Common.Int.{ℤ, pos, ◌+ℤ◌, ◌-ℤ◌, ◌*ℤ◌, div_trunc, mod_trunc, wrap64}
use zalando_vertical_autosca.Common.Errors.{ok, GoError, is_not_found, err}
use zalando_vertical_autosca.Float64.{
  of_int, make, mul, add, div, le, lt, abs, to_int64, round_ratio, round_on, nearest, unit,
  overflow,
}
use zalando_vertical_autosca.Monad.{
  Call, now, get_vpa, client_get_postgresql, patch_postgresql, record_event,
}
use zalando_vertical_autosca.Platform.{Client, Platform}
use zalando_vertical_autosca.Reconcile.Stored.{Stores, reconcile-Stores}
use zalando_vertical_autosca.Api.{PostgresMemoryPolicy}
use zalando_vertical_autosca.Window.{evaluate, window_duration}
use zalando_vertical_autosca.Conditions.{
  set_condition_list, is_condition_true_list, add_record, has_completed_in_window, find_condition,
}
use zalando_vertical_autosca.Vpa.{
  recommend, extract_container_recommendation, search_containers, container_recommendation,
  apply_memory_buffer, buffered_bytes, clamp_quantity, read_recommendation,
}
use zalando_vertical_autosca.Zalando.{
  get_postgresql, current_memory_of, get_current_memory, is_object_healthy, is_cluster_healthy,
}
use zalando_vertical_autosca.Zalando.Gates.{
  evaluate_change_gates, gate, absolute_diff, relative_diff, absolute_threshold_of,
  relative_threshold_of, default_change_gate_relative_threshold,
}
use zalando_vertical_autosca.Zalando.Patch.{
  patch_data, patch_resources, mem_limit_bytes, build_memory_patch, add_postgres_parameters_patch,
}
use zalando_vertical_autosca.Parameters.{
  calculate_postgres_parameters, evaluate_all, evaluate_parameter, trim_space, trim_left,
  trim_right, is_space, template_funcs,
}
use zalando_vertical_autosca.Reconcile.Status.{set_condition, add_maintenance_record}
use zalando_vertical_autosca.Reconcile.Maintenance.{
  cpu_cores, calculate_pg_params, start_maintenance, start_with_params, start_patched, started,
  previous_text,
}
use zalando_vertical_autosca.Reconcile.Policy.{
  reconcile, Finished, finished, crashed, reconcile_policy, memory_read, vpa_step, recommended,
  window_step, window_evaluated, maintenance_step, window_guard, safety_gates, health_gate,
  change_gates,
}
use zalando_vertical_autosca.Tests.Sample.{policy}
use zalando_vertical_autosca.Tests.World.{api_server, Server, small_platform}

-- The server, with the policy.
abbrev knows_policy : Client ℤ
knows_policy = record api_server { get_policy = λ w namespace name. (ok policy, w) }

abbrev known : Platform
known = record small_platform { client = knows_policy }

abbrev after_of : Finished known → ℤ
after_of (finished (ok after) w trace) = after
after_of _ = pos 0

abbrev world_of : Finished known → Server
world_of (finished outcome w trace) = w
world_of (crashed w trace) = w

abbrev trace_of : Finished known → List (Call known)
trace_of (finished outcome w trace) = trace
trace_of (crashed w trace) = trace

abbrev at_the_hour : Server
at_the_hour = (pos 360600000000000, "10Gi")

abbrev ending : Finished known
ending = reconcile known "ns" "policy" at_the_hour

reconcile_succeeds : ending ≡ finished (ok (after_of ending)) (world_of ending) (trace_of ending)
unfolding reconcile ◌+ℤ◌ ◌-ℤ◌ ◌*ℤ◌ div_trunc mod_trunc wrap64 is_not_found of_int make mul add div
    le lt abs to_int64 round_ratio round_on nearest unit overflow now get_vpa client_get_postgresql
    patch_postgresql record_event evaluate window_duration set_condition_list is_condition_true_list
    add_record has_completed_in_window find_condition recommend extract_container_recommendation
    search_containers container_recommendation apply_memory_buffer buffered_bytes clamp_quantity
    read_recommendation get_postgresql current_memory_of get_current_memory is_object_healthy
    is_cluster_healthy evaluate_change_gates gate absolute_diff relative_diff absolute_threshold_of
    relative_threshold_of default_change_gate_relative_threshold patch_data patch_resources
    mem_limit_bytes build_memory_patch add_postgres_parameters_patch calculate_postgres_parameters
    evaluate_all evaluate_parameter trim_space trim_left trim_right is_space template_funcs
    set_condition add_maintenance_record cpu_cores calculate_pg_params start_maintenance
    start_with_params start_patched started previous_text reconcile_policy memory_read vpa_step
    recommended window_step window_evaluated maintenance_step window_guard safety_gates health_gate
    change_gates
reconcile_succeeds = refl

reconcile-Stores_example :
    ((e : GoError) × ((known.client.get_policy at_the_hour "ns" "policy").0 ≡ err e)
      × (is_not_found e ≡ true)
      × (after_of ending ≡ pos 0)
      × (trace_of ending ≡ []))
    ⊎ ((p : PostgresMemoryPolicy ℤ) × (ok policy ≡ ok p)
        × Stores known p
            (reconcile_policy known (record { world = at_the_hour; policy = p; trace = [] }))
            (after_of ending)
            (world_of ending)
            (trace_of ending))
reconcile-Stores_example =
    reconcile-Stores known "ns" "policy" at_the_hour (world_of ending) (after_of ending)
      (trace_of ending) reconcile_succeeds
