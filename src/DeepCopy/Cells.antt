-- ===== src/DeepCopy/Cells.antt =====
-- api/v1alpha1/types.go as it lies in memory: structs with pointers, and the cells that a pointer, a
-- slice or a map can refer to. A slice covers its array, as it does in a decoded object.
use zalando_vertical_autosca.Common.{ℕ, String, Bool, refl, Option, none, some, List}
use zalando_vertical_autosca.Common.Int.{ℤ}
use zalando_vertical_autosca.Float64.{Float64}
use zalando_vertical_autosca.Api.{
  MaintenanceWindowSpec, ActionTargetRef, PostActionSpec, MaintenanceStatus, MaintenancePhase,
}
use zalando_vertical_autosca.Memory.{Kind}

-- The types of apimachinery that the resource has parts of, and the cells that their values refer to.
pub record Machinery : Type 1 where
  pub Quantity : Type 0
  pub TypeMeta : Type 0
  pub ObjectMeta : Type 0
  pub ListMeta : Type 0
  pub Time : Type 0
  pub Condition : Type 0
  pub Inner : Type 0

-- A pointer, a slice or a map: nil or an address.
abbrev pub Pointer : Type 0
Pointer = Option ℕ

pub record RecordStruct (T : Machinery) : Type 0 where
  pub started_at : T.Time
  pub completed_at : Pointer
  pub status : MaintenanceStatus
  pub phase : MaintenancePhase
  pub reason : String
  pub previous_memory : String
  pub applied_memory : String

pub record GatesStruct : Type 0 where
  pub require_healthy_cluster : Bool
  pub min_ready_replicas : ℤ
  pub absolute_threshold : Pointer
  pub relative_threshold : Pointer

pub record SpecStruct (T : Machinery) : Type 0 where
  pub target_cluster : String
  pub vpa_name : String
  pub vpa_container_name : String
  pub memory_min : T.Quantity
  pub memory_max : T.Quantity
  pub overcommit : Float64
  pub memory_buffer : Float64
  pub initial_memory : Pointer
  pub maintenance_window : MaintenanceWindowSpec
  pub safety_gates : GatesStruct
  pub post_actions : Pointer
  pub postgres_parameters : Pointer

pub record StatusStruct : Type 0 where
  pub memory_target : Pointer
  pub current_memory : Pointer
  pub maintenance_history : Pointer
  pub conditions : Pointer

pub record PolicyStruct (T : Machinery) : Type 0 where
  pub type_meta : T.TypeMeta
  pub object_meta : T.ObjectMeta
  pub spec : SpecStruct T
  pub status : StatusStruct

pub record PolicyListStruct (T : Machinery) : Type 0 where
  pub type_meta : T.TypeMeta
  pub list_meta : T.ListMeta
  pub items : Pointer

pub data Cell (T : Machinery) : Type 0 where
  inner : T.Inner → Cell T
  a_quantity : T.Quantity → Cell T
  a_time : T.Time → Cell T
  an_int32 : ℤ → Cell T
  a_target_ref : ActionTargetRef → Cell T
  an_action : PostActionSpec → Cell T
  a_window : MaintenanceWindowSpec → Cell T
  a_gates : GatesStruct → Cell T
  a_record : RecordStruct T → Cell T
  a_spec : SpecStruct T → Cell T
  a_status : StatusStruct → Cell T
  a_policy : PolicyStruct T → Cell T
  a_policy_list : PolicyListStruct T → Cell T
  parameters : List (String × String) → Cell T
  actions : List PostActionSpec → Cell T
  records : List (RecordStruct T) → Cell T
  conditions : List T.Condition → Cell T
  policies : List (PolicyStruct T) → Cell T

module _ {T : Machinery} where
  abbrev pub quantity_cell : Kind (Cell T) T.Quantity
  quantity_cell = record {
    hold = a_quantity;
    held = λ c. elim c [ a_quantity x ↦ some x | _ ↦ none ];
    held-hold = λ x. refl;
  }

  abbrev pub time_cell : Kind (Cell T) T.Time
  time_cell = record {
    hold = a_time;
    held = λ c. elim c [ a_time x ↦ some x | _ ↦ none ];
    held-hold = λ x. refl;
  }

  abbrev pub int32_cell : Kind (Cell T) ℤ
  int32_cell = record {
    hold = an_int32;
    held = λ c. elim c [ an_int32 x ↦ some x | _ ↦ none ];
    held-hold = λ x. refl;
  }

  abbrev pub target_ref_cell : Kind (Cell T) ActionTargetRef
  target_ref_cell = record {
    hold = a_target_ref;
    held = λ c. elim c [ a_target_ref x ↦ some x | _ ↦ none ];
    held-hold = λ x. refl;
  }

  abbrev pub action_cell : Kind (Cell T) PostActionSpec
  action_cell = record {
    hold = an_action;
    held = λ c. elim c [ an_action x ↦ some x | _ ↦ none ];
    held-hold = λ x. refl;
  }

  abbrev pub window_cell : Kind (Cell T) MaintenanceWindowSpec
  window_cell = record {
    hold = a_window;
    held = λ c. elim c [ a_window x ↦ some x | _ ↦ none ];
    held-hold = λ x. refl;
  }

  abbrev pub gates_cell : Kind (Cell T) GatesStruct
  gates_cell = record {
    hold = a_gates;
    held = λ c. elim c [ a_gates x ↦ some x | _ ↦ none ];
    held-hold = λ x. refl;
  }

  abbrev pub record_cell : Kind (Cell T) (RecordStruct T)
  record_cell = record {
    hold = a_record;
    held = λ c. elim c [ a_record x ↦ some x | _ ↦ none ];
    held-hold = λ x. refl;
  }

  abbrev pub spec_cell : Kind (Cell T) (SpecStruct T)
  spec_cell = record {
    hold = a_spec;
    held = λ c. elim c [ a_spec x ↦ some x | _ ↦ none ];
    held-hold = λ x. refl;
  }

  abbrev pub status_cell : Kind (Cell T) StatusStruct
  status_cell = record {
    hold = a_status;
    held = λ c. elim c [ a_status x ↦ some x | _ ↦ none ];
    held-hold = λ x. refl;
  }

  abbrev pub policy_cell : Kind (Cell T) (PolicyStruct T)
  policy_cell = record {
    hold = a_policy;
    held = λ c. elim c [ a_policy x ↦ some x | _ ↦ none ];
    held-hold = λ x. refl;
  }

  abbrev pub policy_list_cell : Kind (Cell T) (PolicyListStruct T)
  policy_list_cell = record {
    hold = a_policy_list;
    held = λ c. elim c [ a_policy_list x ↦ some x | _ ↦ none ];
    held-hold = λ x. refl;
  }

  abbrev pub parameters_cell : Kind (Cell T) (List (String × String))
  parameters_cell = record {
    hold = parameters;
    held = λ c. elim c [ parameters x ↦ some x | _ ↦ none ];
    held-hold = λ x. refl;
  }

  abbrev pub actions_cell : Kind (Cell T) (List PostActionSpec)
  actions_cell = record {
    hold = actions;
    held = λ c. elim c [ actions x ↦ some x | _ ↦ none ];
    held-hold = λ x. refl;
  }

  abbrev pub records_cell : Kind (Cell T) (List (RecordStruct T))
  records_cell = record {
    hold = records;
    held = λ c. elim c [ records x ↦ some x | _ ↦ none ];
    held-hold = λ x. refl;
  }

  abbrev pub conditions_cell : Kind (Cell T) (List T.Condition)
  conditions_cell = record {
    hold = conditions;
    held = λ c. elim c [ conditions x ↦ some x | _ ↦ none ];
    held-hold = λ x. refl;
  }

  abbrev pub policies_cell : Kind (Cell T) (List (PolicyStruct T))
  policies_cell = record {
    hold = policies;
    held = λ c. elim c [ policies x ↦ some x | _ ↦ none ];
    held-hold = λ x. refl;
  }
