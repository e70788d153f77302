-- ===== src/Tests/Structs.antt =====
-- A policy in memory, whose metadata, history and lists have parts of their own there.
use zalando_vertical_autosca.Common.{ℕ, zero, suc, refl, String, Option, none, some, List, [], ◌∷◌}
use zalando_vertical_autosca.Common.Int.{ℤ, pos}
use zalando_vertical_autosca.Api.{Condition}
use zalando_vertical_autosca.Memory.{Heap, Kind, pure, copy_pointer}
use zalando_vertical_autosca.Memory.Copies.{
  PointsTo, Plain, Plain-Stable, Plain-Copies, PointsTo-Stable, copy_pointer-Copies,
}
use zalando_vertical_autosca.DeepCopy.Cells.{
  Machinery, Pointer, Cell, RecordStruct, PolicyStruct, time_cell, inner, a_time, a_policy,
  a_policy_list, actions, parameters, records, policies,
}
use zalando_vertical_autosca.DeepCopy.Into.{Copiers}
use zalando_vertical_autosca.DeepCopy.Reads.{Values, PolicyValue, CopiesDeep}
use zalando_vertical_autosca.Tests.Sample.{policy_spec, old_record, restart_app}

-- The metadata of a policy is a pointer to a text; the other types are values.
abbrev pub small_machinery : Machinery
small_machinery = record {
  Quantity = ℤ;
  TypeMeta = String;
  ObjectMeta = Pointer;
  ListMeta = String;
  Time = ℤ;
  Condition = Condition;
  Inner = String;
}

abbrev inner_cell : Kind (Cell small_machinery) String
inner_cell = record {
  hold = inner;
  held = λ c. elim c [ inner x ↦ some x | _ ↦ none ];
  held-hold = λ x. refl;
}

abbrev pub small_copiers : Copiers small_machinery
small_copiers = record {
  copy_quantity = pure;
  copy_time = copy_pointer time_cell pure;
  copy_into_time = pure;
  copy_into_object_meta = copy_pointer inner_cell pure;
  copy_into_list_meta = pure;
  copy_into_condition = pure;
}

abbrev pub small_values : Values small_machinery
small_values = record {
  Quantity = ℤ;
  ObjectMeta = Option String;
  ListMeta = String;
  is_quantity = Plain (λ n. n);
  is_object_meta = PointsTo inner_cell (Plain (λ s. s));
  is_list_meta = Plain (λ s. s);
  is_time = Plain (λ n. n);
  is_condition = Plain (λ c. c);
}

pub small_copiers-CopiesDeep : CopiesDeep small_machinery small_values small_copiers
small_copiers-CopiesDeep = record {
  quantity_stable = Plain-Stable (λ n. n);
  object_meta_stable = PointsTo-Stable (Plain (λ s. s)) (Plain-Stable (λ s. s)) inner_cell;
  list_meta_stable = Plain-Stable (λ s. s);
  time_stable = Plain-Stable (λ n. n);
  condition_stable = Plain-Stable (λ c. c);
  quantity = Plain-Copies (λ n. n);
  object_meta =
      copy_pointer-Copies (Plain (λ s. s)) (Plain-Stable (λ s. s)) pure (Plain-Copies (λ s. s))
        inner_cell;
  list_meta = Plain-Copies (λ s. s);
  time = Plain-Copies (λ n. n);
  time_pointer =
      copy_pointer-Copies (Plain (λ n. n)) (Plain-Stable (λ n. n)) pure (Plain-Copies (λ n. n))
        time_cell;
  condition = Plain-Copies (λ c. c);
}

abbrev pub record_struct : RecordStruct small_machinery
record_struct = record {
  started_at = old_record.started_at;
  completed_at = some 2;
  status = old_record.status;
  phase = old_record.phase;
  reason = old_record.reason;
  previous_memory = old_record.previous_memory;
  applied_memory = old_record.applied_memory;
}

abbrev pub policy_struct : PolicyStruct small_machinery
policy_struct = record {
  type_meta = "PostgresMemoryPolicy";
  object_meta = some 0;
  spec = record {
    target_cluster = policy_spec.target_cluster;
    vpa_name = policy_spec.vpa_name;
    vpa_container_name = policy_spec.vpa_container_name;
    memory_min = policy_spec.memory_min;
    memory_max = policy_spec.memory_max;
    overcommit = policy_spec.overcommit;
    memory_buffer = policy_spec.memory_buffer;
    initial_memory = none;
    maintenance_window = policy_spec.maintenance_window;
    safety_gates = record {
      require_healthy_cluster = policy_spec.safety_gates.require_healthy_cluster;
      min_ready_replicas = policy_spec.safety_gates.min_ready_replicas;
      absolute_threshold = none;
      relative_threshold = none;
    };
    post_actions = some 3;
    postgres_parameters = some 4;
  };
  status = record {
    memory_target = none;
    current_memory = none;
    maintenance_history = some 1;
    conditions = none;
  };
}

abbrev cell_at : {C : Type 0} → C → List C → ℕ → C
cell_at c [] n = c
cell_at c (x ∷ xs) zero = x
cell_at c (x ∷ xs) (suc n) = cell_at c xs n

abbrev cells : List (Cell small_machinery)
cells =
    inner "ns/policy"
    ∷ records (record_struct ∷ [])
    ∷ a_time (pos 1)
    ∷ actions (restart_app ∷ [])
    ∷ parameters policy_spec.postgres_parameters
    ∷ a_policy policy_struct
    ∷ policies (policy_struct ∷ [])
    ∷ a_policy_list (record { type_meta = "List"; list_meta = "7"; items = some 6 })
    ∷ []

abbrev pub memory : Heap (Cell small_machinery)
memory = record { next = 8; cell = cell_at (inner "") cells }

abbrev pub policy_value : PolicyValue small_machinery small_values
policy_value = record {
  type_meta = "PostgresMemoryPolicy";
  object_meta = some "ns/policy";
  spec = policy_spec;
  status = record {
    memory_target = none;
    current_memory = none;
    maintenance_history = old_record ∷ [];
    conditions = [];
  };
}
