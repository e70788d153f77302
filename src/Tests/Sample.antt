-- ===== src/Tests/Sample.antt =====
-- A policy, and the state in which a reconcile of it starts.
use zalando_vertical_autosca.Common.{true, none, some, [], ◌∷◌}
use zalando_vertical_autosca.Common.Int.{ℤ, pos}
use zalando_vertical_autosca.Float64.{of_int}
use zalando_vertical_autosca.Api.{
  PostgresMemoryPolicy, PostgresMemoryPolicySpec, MaintenanceRecord, completed, other_phase,
  PostActionSpec, post_action_rollout_restart,
}
use zalando_vertical_autosca.Monad.{State}
use zalando_vertical_autosca.Tests.World.{gi, small_platform}

abbrev pub restart_app : PostActionSpec
restart_app = record {
  action = post_action_rollout_restart;
  target = record { kind = "StatefulSet"; name = "app"; namespace = "" };
}

-- An hourly window of thirty minutes, for memory from 1Gi to 40Gi with a buffer of 20 percent.
abbrev pub policy_spec : PostgresMemoryPolicySpec ℤ
policy_spec = record {
  target_cluster = "db";
  vpa_name = "vpa";
  vpa_container_name = "";
  memory_min = gi 1;
  memory_max = gi 40;
  overcommit = of_int (pos 1);
  memory_buffer = of_int (pos 20);
  initial_memory = none;
  maintenance_window = record { cron = "0 * * * *"; timeout_minutes = pos 30 };
  safety_gates = record {
    require_healthy_cluster = true;
    min_ready_replicas = pos 1;
    absolute_threshold = none;
    relative_threshold = none;
  };
  post_actions = restart_app ∷ [];
  postgres_parameters = ("shared_buffers", "{{ .memory }}") ∷ [];
}

abbrev pub old_record : MaintenanceRecord
old_record = record {
  started_at = pos 0;
  completed_at = some (pos 1);
  status = completed;
  phase = other_phase "";
  reason = "";
  previous_memory = "1Gi";
  applied_memory = "10Gi";
}

abbrev pub policy : PostgresMemoryPolicy ℤ
policy = record {
  name = "policy";
  namespace = "ns";
  generation = pos 1;
  spec = policy_spec;
  status = record {
    memory_target = none;
    current_memory = none;
    maintenance_history = old_record ∷ [];
    conditions = [];
  };
}

-- Ten minutes past an hour, with 10Gi of memory.
abbrev pub start : State small_platform
start = record { world = (pos 360600000000000, "10Gi"); policy = policy; trace = [] }
