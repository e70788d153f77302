-- ===== src/DeepCopy/Reads.antt =====
-- The value that a struct in memory stands for, as a relation: the policies of Api are such values.
use zalando_vertical_autosca.Common.{ℕ, ◌≡◌, Option, none, some, List, []}
use zalando_vertical_autosca.Common.Int.{ℤ}
use zalando_vertical_autosca.Api.{
  MaintenanceRecord, SafetyGatesSpec, PostgresMemoryPolicySpec, PostgresMemoryPolicyStatus,
  Condition,
}
use zalando_vertical_autosca.Memory.{Heap, Kind, Code}
use zalando_vertical_autosca.Memory.Writes.{Writes}
use zalando_vertical_autosca.Memory.Copies.{Extends, PointsTo, Each, Plain, Stable, Copies}
use zalando_vertical_autosca.DeepCopy.Cells.{
  Machinery, Pointer, Cell, RecordStruct, GatesStruct, SpecStruct, StatusStruct, PolicyStruct,
  PolicyListStruct, quantity_cell, time_cell, int32_cell, parameters_cell, actions_cell,
  records_cell, conditions_cell, policies_cell,
}
use zalando_vertical_autosca.DeepCopy.Into.{Copiers}

-- The values that the types of apimachinery stand for.
pub record Values (T : Machinery) : Type 1 where
  pub Quantity : Type 0
  pub ObjectMeta : Type 0
  pub ListMeta : Type 0
  pub is_quantity : Heap (Cell T) → T.Quantity → Quantity → Type 0
  pub is_object_meta : Heap (Cell T) → T.ObjectMeta → ObjectMeta → Type 0
  pub is_list_meta : Heap (Cell T) → T.ListMeta → ListMeta → Type 0
  pub is_time : Heap (Cell T) → T.Time → ℤ → Type 0
  pub is_condition : Heap (Cell T) → T.Condition → Condition → Type 0

abbrev pub elements : {A : Type 0} → Option (List A) → List A
elements none = []
elements (some xs) = xs

module _ (T : Machinery) (values : Values T) where
  open values use {is_quantity, is_object_meta, is_list_meta, is_time, is_condition}

  -- A nil slice or map stands for one without elements, too.
  pub record IsSlice {A V : Type 0} (kind : Kind (Cell T) A)
      (R : Heap (Cell T) → A → List V → Type 0) (h : Heap (Cell T)) (p : Pointer) (vs : List V)
      : Type 0 where
    pub contents : Option (List V)
    pub points : PointsTo kind R h p contents
    pub same : elements contents ≡ vs

  pub record IsRecord (h : Heap (Cell T)) (x : RecordStruct T) (v : MaintenanceRecord)
      : Type 0 where
    pub started_at : is_time h x.started_at v.started_at
    pub completed_at : PointsTo time_cell is_time h x.completed_at v.completed_at
    pub status : x.status ≡ v.status
    pub phase : x.phase ≡ v.phase
    pub reason : x.reason ≡ v.reason
    pub previous_memory : x.previous_memory ≡ v.previous_memory
    pub applied_memory : x.applied_memory ≡ v.applied_memory

  pub record IsGates (h : Heap (Cell T)) (x : GatesStruct) (v : SafetyGatesSpec values.Quantity)
      : Type 0 where
    pub require_healthy_cluster : x.require_healthy_cluster ≡ v.require_healthy_cluster
    pub min_ready_replicas : x.min_ready_replicas ≡ v.min_ready_replicas
    pub absolute_threshold :
        PointsTo quantity_cell is_quantity h x.absolute_threshold v.absolute_threshold
    pub relative_threshold :
        PointsTo int32_cell (Plain (λ n. n)) h x.relative_threshold v.relative_threshold

  pub record IsSpec (h : Heap (Cell T)) (x : SpecStruct T)
      (v : PostgresMemoryPolicySpec values.Quantity) : Type 0 where
    pub target_cluster : x.target_cluster ≡ v.target_cluster
    pub vpa_name : x.vpa_name ≡ v.vpa_name
    pub vpa_container_name : x.vpa_container_name ≡ v.vpa_container_name
    pub memory_min : is_quantity h x.memory_min v.memory_min
    pub memory_max : is_quantity h x.memory_max v.memory_max
    pub overcommit : x.overcommit ≡ v.overcommit
    pub memory_buffer : x.memory_buffer ≡ v.memory_buffer
    pub initial_memory : PointsTo quantity_cell is_quantity h x.initial_memory v.initial_memory
    pub maintenance_window : x.maintenance_window ≡ v.maintenance_window
    pub safety_gates : IsGates h x.safety_gates v.safety_gates
    pub post_actions : IsSlice actions_cell (Plain (λ xs. xs)) h x.post_actions v.post_actions
    pub postgres_parameters :
        IsSlice parameters_cell (Plain (λ xs. xs)) h x.postgres_parameters v.postgres_parameters

  pub record IsStatus (h : Heap (Cell T)) (x : StatusStruct)
      (v : PostgresMemoryPolicyStatus values.Quantity) : Type 0 where
    pub memory_target : PointsTo quantity_cell is_quantity h x.memory_target v.memory_target
    pub current_memory : PointsTo quantity_cell is_quantity h x.current_memory v.current_memory
    pub maintenance_history :
        IsSlice records_cell (Each IsRecord) h x.maintenance_history v.maintenance_history
    pub conditions : IsSlice conditions_cell (Each is_condition) h x.conditions v.conditions

  -- A policy with all its metadata, of which Api keeps what the controller reads.
  pub record PolicyValue : Type 0 where
    pub type_meta : T.TypeMeta
    pub object_meta : values.ObjectMeta
    pub spec : PostgresMemoryPolicySpec values.Quantity
    pub status : PostgresMemoryPolicyStatus values.Quantity

  pub record IsPolicy (h : Heap (Cell T)) (x : PolicyStruct T) (v : PolicyValue) : Type 0 where
    pub type_meta : x.type_meta ≡ v.type_meta
    pub object_meta : is_object_meta h x.object_meta v.object_meta
    pub spec : IsSpec h x.spec v.spec
    pub status : IsStatus h x.status v.status

  pub record PolicyListValue : Type 0 where
    pub type_meta : T.TypeMeta
    pub list_meta : values.ListMeta
    pub items : List PolicyValue

  pub record IsPolicyList (h : Heap (Cell T)) (x : PolicyListStruct T) (v : PolicyListValue)
      : Type 0 where
    pub type_meta : x.type_meta ≡ v.type_meta
    pub list_meta : is_list_meta h x.list_meta v.list_meta
    pub items : IsSlice policies_cell (Each IsPolicy) h x.items v.items

  -- What apimachinery documents of its deep copies: they stand for the same values, in memory of
  -- their own.
  pub record CopiesDeep (copiers : Copiers T) : Type 0 where
    pub quantity_stable : Stable is_quantity
    pub object_meta_stable : Stable is_object_meta
    pub list_meta_stable : Stable is_list_meta
    pub time_stable : Stable is_time
    pub condition_stable : Stable is_condition
    pub quantity : Copies is_quantity copiers.copy_quantity
    pub object_meta : Copies is_object_meta copiers.copy_into_object_meta
    pub list_meta : Copies is_list_meta copiers.copy_into_list_meta
    pub time : Copies is_time copiers.copy_into_time
    pub time_pointer : Copies (PointsTo time_cell is_time) copiers.copy_time
    pub condition : Copies is_condition copiers.copy_into_condition

module _ {T : Machinery} where
  -- What a deep copy of the object at `p` has to do, where that stands for `v`: it leaves every
  -- cell as it was and returns a new pointer, which stands for `v` as long as no one writes to the
  -- cells that the copy has added.
  abbrev pub IsDeepCopy :
      {A V : Type 0}
      → Kind (Cell T) A
      → (Heap (Cell T) → A → V → Type 0)
      → (Pointer → Code (Cell T) Pointer)
      → Heap (Cell T)
      → ℕ
      → V
      → Type 0
  IsDeepCopy kind R copy h p v =
      (q : ℕ) × (h' : Heap (Cell T)) × (copy (some p) h ≡ some (some q, h'))
      × Extends h h'
      × ((g : Heap (Cell T)) → Writes h.next h' g → PointsTo kind R g (some q) (some v))
