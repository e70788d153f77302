-- ===== src/Tests/Copies.antt =====
-- Deep copies of the policy in memory.
use zalando_vertical_autosca.Common.{ℕ, ◌≡◌, refl, ◌⊎◌, inl, Option, none, some, [], ◌∷◌, arith}
use zalando_vertical_autosca.Common.Int.{pos}
use zalando_vertical_autosca.Api.{failed}
use zalando_vertical_autosca.Memory.{Heap, update, load}
use zalando_vertical_autosca.Memory.Copies.{Extends, PointsTo, nil, to, end, both}
use zalando_vertical_autosca.Memory.Writes.{Writes, done, wrote}
use zalando_vertical_autosca.DeepCopy.Cells.{Pointer, Cell, policy_cell, policy_list_cell, records}
use zalando_vertical_autosca.DeepCopy.Into.{
  copy_policy, copy_policy_list_object, policy_list_object,
}
use zalando_vertical_autosca.DeepCopy.Reads.{IsDeepCopy, IsPolicy, PolicyListValue, IsPolicyList}
use zalando_vertical_autosca.DeepCopy.Policies.{
  copy_policy-IsDeepCopy, copy_policy_list_object-IsDeepCopy,
}
use zalando_vertical_autosca.Tests.Sample.{policy_spec, old_record, restart_app}
use zalando_vertical_autosca.Tests.Structs.{
  small_machinery, small_copiers, small_values, small_copiers-CopiesDeep, record_struct,
  policy_struct, memory, policy_value,
}

policy_struct-IsPolicy : IsPolicy small_machinery small_values memory policy_struct policy_value
unfolding load
policy_struct-IsPolicy = record {
  type_meta = refl;
  object_meta = to 0 "ns/policy" refl refl;
  spec = record {
    target_cluster = refl;
    vpa_name = refl;
    vpa_container_name = refl;
    memory_min = refl;
    memory_max = refl;
    overcommit = refl;
    memory_buffer = refl;
    initial_memory = nil;
    maintenance_window = refl;
    safety_gates = record {
      require_healthy_cluster = refl;
      min_ready_replicas = refl;
      absolute_threshold = nil;
      relative_threshold = nil;
    };
    post_actions = record {
      contents = some (restart_app ∷ []);
      points = to 3 (restart_app ∷ []) refl refl;
      same = refl;
    };
    postgres_parameters = record {
      contents = some policy_spec.postgres_parameters;
      points = to 4 policy_spec.postgres_parameters refl refl;
      same = refl;
    };
  };
  status = record {
    memory_target = nil;
    current_memory = nil;
    maintenance_history = record {
      contents = some (old_record ∷ []);
      points = to 1 (record_struct ∷ []) refl (
          both
            (record {
              started_at = refl;
              completed_at = to 2 (pos 1) refl refl;
              status = refl;
              phase = refl;
              reason = refl;
              previous_memory = refl;
              applied_memory = refl;
            })
            end);
      same = refl;
    };
    conditions = record { contents = none; points = nil; same = refl };
  };
}

at_five :
    PointsTo policy_cell (IsPolicy small_machinery small_values) memory (some 5) (some policy_value)
unfolding load
at_five = to 5 policy_struct refl policy_struct-IsPolicy

copy_policy-IsDeepCopy_example :
    IsDeepCopy policy_cell
      (IsPolicy small_machinery small_values)
      (copy_policy small_machinery small_copiers)
      memory
      5
      policy_value
copy_policy-IsDeepCopy_example =
    copy_policy-IsDeepCopy small_machinery small_values small_copiers small_copiers-CopiesDeep
      memory 5 policy_value at_five

-- The history of the original is written as `markRecordCompleted` writes it: the copy keeps its own.
abbrev marked : Heap (Cell small_machinery) → Heap (Cell small_machinery)
marked h = record h {
  cell = update h.cell 1 (records (record record_struct { status = failed } ∷ []));
}

copy_of_marked :
    (q : ℕ) × (h : Heap (Cell small_machinery)) × (copy_policy small_machinery small_copiers
        (some 5)
        memory
      ≡ some (some q, h))
    × PointsTo policy_cell
        (IsPolicy small_machinery small_values)
        (marked h)
        (some q)
        (some policy_value)
copy_of_marked =
    let (q, h, e, _, kept) =
      copy_policy-IsDeepCopy small_machinery small_values small_copiers small_copiers-CopiesDeep
        memory 5 policy_value at_five in
    (q, h, e, kept (marked h) (wrote 1 _ (inl (omega arith)) done))

abbrev list_pointer : Pointer
list_pointer = some 7

abbrev list_value : Option (PolicyListValue small_machinery small_values)
list_value = some (record { type_meta = "List"; list_meta = "7"; items = policy_value ∷ [] })

at_seven :
    PointsTo policy_list_cell
      (IsPolicyList small_machinery small_values)
      memory
      list_pointer
      list_value
unfolding load
at_seven =
    to 7 (record { type_meta = "List"; list_meta = "7"; items = some 6 }) refl
      (record {
        type_meta = refl;
        list_meta = refl;
        items = record {
          contents = some (policy_value ∷ []);
          points = to 6 (policy_struct ∷ []) refl (both policy_struct-IsPolicy end);
          same = refl;
        };
      })

copy_policy_list_object-IsDeepCopy_example :
    ((list_pointer ≡ none)
      × (copy_policy_list_object small_machinery small_copiers list_pointer memory
          ≡ some (none, memory)))
    ⊎ ((v : PolicyListValue small_machinery small_values) × (list_value ≡ some v)
        × (q : ℕ) × (h' : Heap (Cell small_machinery)) × (copy_policy_list_object small_machinery
              small_copiers list_pointer memory
            ≡ some (some (policy_list_object q), h'))
        × Extends memory h'
        × ((g : Heap (Cell small_machinery))
            → Writes 8 h' g
            → PointsTo policy_list_cell
                (IsPolicyList small_machinery small_values)
                g
                (some q)
                (some v)))
copy_policy_list_object-IsDeepCopy_example =
    copy_policy_list_object-IsDeepCopy small_machinery small_values small_copiers
      small_copiers-CopiesDeep memory list_pointer list_value at_seven
