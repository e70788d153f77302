-- ===== src/DeepCopy/Into.antt =====
-- api/v1alpha1/zz_generated.deepcopy.go. What the code computes in `*out` is the result of a
-- `copy_into_…`; the pointer that a `DeepCopy` returns is the result of a `copy_…`. The array behind a
-- new slice is allocated when its elements are known.
use zalando_vertical_autosca.Common.{ℕ, Option, none, some}
use zalando_vertical_autosca.Api.{MaintenanceWindowSpec, ActionTargetRef, PostActionSpec}
use zalando_vertical_autosca.Memory.{Code, ◌>>=◌, pure, copy_pointer, copy_each}
use zalando_vertical_autosca.DeepCopy.Cells.{
  Machinery, Pointer, Cell, RecordStruct, GatesStruct, SpecStruct, StatusStruct, PolicyStruct,
  PolicyListStruct, quantity_cell, int32_cell, target_ref_cell, action_cell, window_cell,
  gates_cell, record_cell, spec_cell, status_cell, policy_cell, policy_list_cell, parameters_cell,
  actions_cell, records_cell, conditions_cell, policies_cell,
}

-- The deep copies of apimachinery: `Quantity.DeepCopy`, `(*Time).DeepCopy`, which gives a pointer,
-- and the `DeepCopyInto` of the others.
pub record Copiers (T : Machinery) : Type 0 where
  pub copy_quantity : T.Quantity → Code (Cell T) T.Quantity
  pub copy_time : Pointer → Code (Cell T) Pointer
  pub copy_into_time : T.Time → Code (Cell T) T.Time
  pub copy_into_object_meta : T.ObjectMeta → Code (Cell T) T.ObjectMeta
  pub copy_into_list_meta : T.ListMeta → Code (Cell T) T.ListMeta
  pub copy_into_condition : T.Condition → Code (Cell T) T.Condition

-- A `runtime.Object` of this package that is not nil: a pointer with its type.
pub data Object : Type 0 where
  policy_object policy_list_object : ℕ → Object

abbrev pub as_object : (ℕ → Object) → Pointer → Option Object
as_object make none = none
as_object make (some a) = some (make a)

module _ (T : Machinery) (copiers : Copiers T) where
  open copiers use {
    copy_quantity, copy_time, copy_into_time, copy_into_object_meta, copy_into_list_meta,
    copy_into_condition,
  }

  -- `*out = *in`
  unfoldable pub copy_into_target_ref : ActionTargetRef → Code (Cell T) ActionTargetRef
  copy_into_target_ref x = pure x

  unfoldable pub copy_into_window : MaintenanceWindowSpec → Code (Cell T) MaintenanceWindowSpec
  copy_into_window x = pure x

  -- `*out = *in; out.Target = in.Target`
  unfoldable pub copy_into_action : PostActionSpec → Code (Cell T) PostActionSpec
  copy_into_action x = pure (record x { target = x.target })

  -- `if in.CompletedAt != nil { *out = (*in).DeepCopy() }`
  abbrev pub copy_if_set : Pointer → Code (Cell T) Pointer
  copy_if_set none = pure none
  copy_if_set (some a) = copy_time (some a)

  unfoldable pub copy_into_record : RecordStruct T → Code (Cell T) (RecordStruct T)
  copy_into_record x = do
    started_at ← copy_into_time x.started_at
    completed_at ← copy_if_set x.completed_at
    pure (record x { started_at = started_at; completed_at = completed_at })

  unfoldable pub copy_into_gates : GatesStruct → Code (Cell T) GatesStruct
  copy_into_gates x = do
    absolute ← copy_pointer quantity_cell copy_quantity x.absolute_threshold
    relative ← copy_pointer int32_cell pure x.relative_threshold
    pure (record x { absolute_threshold = absolute; relative_threshold = relative })

  unfoldable pub copy_into_spec : SpecStruct T → Code (Cell T) (SpecStruct T)
  copy_into_spec x = do
    memory_min ← copy_quantity x.memory_min
    memory_max ← copy_quantity x.memory_max
    initial_memory ← copy_pointer quantity_cell copy_quantity x.initial_memory
    safety_gates ← copy_into_gates x.safety_gates
    post_actions ← copy_pointer actions_cell pure x.post_actions
    postgres_parameters ← copy_pointer parameters_cell pure x.postgres_parameters
    pure (record x {
      memory_min = memory_min;
      memory_max = memory_max;
      initial_memory = initial_memory;
      maintenance_window = x.maintenance_window;
      safety_gates = safety_gates;
      post_actions = post_actions;
      postgres_parameters = postgres_parameters;
    })

  unfoldable pub copy_into_status : StatusStruct → Code (Cell T) StatusStruct
  copy_into_status x = do
    memory_target ← copy_pointer quantity_cell copy_quantity x.memory_target
    current_memory ← copy_pointer quantity_cell copy_quantity x.current_memory
    history ← copy_pointer records_cell (copy_each copy_into_record) x.maintenance_history
    new_conditions ← copy_pointer conditions_cell (copy_each copy_into_condition) x.conditions
    pure (record x {
      memory_target = memory_target;
      current_memory = current_memory;
      maintenance_history = history;
      conditions = new_conditions;
    })

  unfoldable pub copy_into_policy : PolicyStruct T → Code (Cell T) (PolicyStruct T)
  copy_into_policy x = do
    object_meta ← copy_into_object_meta x.object_meta
    spec ← copy_into_spec x.spec
    status ← copy_into_status x.status
    pure (record x {
      type_meta = x.type_meta;
      object_meta = object_meta;
      spec = spec;
      status = status;
    })

  unfoldable pub copy_into_policy_list : PolicyListStruct T → Code (Cell T) (PolicyListStruct T)
  copy_into_policy_list x = do
    list_meta ← copy_into_list_meta x.list_meta
    items ← copy_pointer policies_cell (copy_each copy_into_policy) x.items
    pure (record x { type_meta = x.type_meta; list_meta = list_meta; items = items })

  -- `DeepCopy`
  unfoldable pub copy_target_ref : Pointer → Code (Cell T) Pointer
  copy_target_ref = copy_pointer target_ref_cell copy_into_target_ref

  unfoldable pub copy_window : Pointer → Code (Cell T) Pointer
  copy_window = copy_pointer window_cell copy_into_window

  unfoldable pub copy_action : Pointer → Code (Cell T) Pointer
  copy_action = copy_pointer action_cell copy_into_action

  unfoldable pub copy_record : Pointer → Code (Cell T) Pointer
  copy_record = copy_pointer record_cell copy_into_record

  unfoldable pub copy_gates : Pointer → Code (Cell T) Pointer
  copy_gates = copy_pointer gates_cell copy_into_gates

  unfoldable pub copy_spec : Pointer → Code (Cell T) Pointer
  copy_spec = copy_pointer spec_cell copy_into_spec

  unfoldable pub copy_status : Pointer → Code (Cell T) Pointer
  copy_status = copy_pointer status_cell copy_into_status

  unfoldable pub copy_policy : Pointer → Code (Cell T) Pointer
  copy_policy = copy_pointer policy_cell copy_into_policy

  unfoldable pub copy_policy_list : Pointer → Code (Cell T) Pointer
  copy_policy_list = copy_pointer policy_list_cell copy_into_policy_list

  -- `DeepCopyObject`
  unfoldable pub copy_policy_object : Pointer → Code (Cell T) (Option Object)
  copy_policy_object p = do c ← copy_policy p; pure (as_object policy_object c)

  unfoldable pub copy_policy_list_object : Pointer → Code (Cell T) (Option Object)
  copy_policy_list_object p = do c ← copy_policy_list p; pure (as_object policy_list_object c)
