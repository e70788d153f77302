-- ===== src/Conditions.antt =====
-- internal/controller/conditions.go: status conditions and the maintenance history. A Go function
-- that returns a pointer into a slice, to be read or written through, is a search for the pointee
-- (`find_…`) and a write to the first element that the search meets (`modify`).
pub mod Laws
pub mod Rounds
pub mod History
use zalando_vertical_autosca.Common.{
  ℕ, suc, ◌+◌, ◌-◌, String, Bool, true, false, not, ◌&&◌, ◌||◌, Option, none, some, List, [], ◌∷◌,
  ◌++◌, ltb, str_eq, if◌then◌else◌, any, find, modify, drop, length,
}
use zalando_vertical_autosca.Common.Int.{ℤ, ltb_ℤ}
use zalando_vertical_autosca.Api.{
  ConditionStatus, condition_true, condition_false, condition_unknown, Condition, MaintenanceStatus,
  pending, in_progress, completed, failed, skipped, MaintenanceRecord, PostgresMemoryPolicy,
  PostgresMemoryPolicyStatus,
}

abbrev pub status_eq : ConditionStatus → ConditionStatus → Bool
status_eq condition_true condition_true = true
status_eq condition_false condition_false = true
status_eq condition_unknown condition_unknown = true
status_eq _ _ = false

abbrev pub has_type : String → Condition → Bool
has_type type c = str_eq c.type type

-- `findCondition`
unfoldable pub find_condition : List Condition → String → Option Condition
find_condition conditions type = find (has_type type) conditions

-- The last part of `SetCondition`, on the condition that was found.
unfoldable pub update_condition : ℤ → ℤ → ConditionStatus → String → String → Condition → Condition
update_condition now generation status reason message c = record c {
  status = status;
  reason = reason;
  message = message;
  last_transition_time = if status_eq c.status status then c.last_transition_time else now;
  observed_generation = generation;
}

-- `SetCondition` at the instant `now`, on the list of conditions, with its result.
unfoldable pub set_condition_list :
    ℤ → ℤ → List Condition → String → ConditionStatus → String → String → List Condition × Bool
unfolding find_condition update_condition
set_condition_list now generation conditions type status reason message =
    elim (find_condition conditions type) [
      | none ↦ (
        conditions
            ++ (record {
              type = type;
              status = status;
              reason = reason;
              message = message;
              last_transition_time = now;
              observed_generation = generation;
            }
                ∷ []),
        true,
      )
      | some c ↦
          if status_eq c.status status && str_eq c.reason reason && str_eq c.message message
          then (conditions, false)
          else (
            modify (has_type type) (update_condition now generation status reason message)
                conditions,
            true,
          )
    ]

-- `IsConditionTrue`, on the list of conditions.
unfoldable pub is_condition_true_list : List Condition → String → Bool
unfolding find_condition
is_condition_true_list conditions type = elim (find_condition conditions type) [
  | none ↦ false
  | some c ↦ status_eq c.status condition_true
]

abbrev pub max_history : ℕ
max_history = 10

-- `addMaintenanceRecord`, on the history.
unfoldable pub add_record : List MaintenanceRecord → MaintenanceRecord → List MaintenanceRecord
add_record history new_record =
    let longer = history ++ (new_record ∷ []) in
    if ltb max_history (length longer) then drop (length longer - max_history) longer else longer

abbrev pub is_in_progress : MaintenanceRecord → Bool
is_in_progress r = elim r.status [ in_progress ↦ true | _ ↦ false ]

abbrev pub is_completed : MaintenanceRecord → Bool
is_completed r = elim r.status [ completed ↦ true | _ ↦ false ]

-- `findInProgressRecord`, on the history.
unfoldable pub find_in_progress_record : List MaintenanceRecord → Option MaintenanceRecord
find_in_progress_record = find is_in_progress

-- A write through the pointer that `findInProgressRecord` returned.
unfoldable pub modify_in_progress :
    (MaintenanceRecord → MaintenanceRecord) → List MaintenanceRecord → List MaintenanceRecord
modify_in_progress = modify is_in_progress

-- `hasCompletedMaintenanceInWindow`, on the history.
unfoldable pub has_completed_in_window : List MaintenanceRecord → ℤ → ℤ → Bool
has_completed_in_window history window_start window_end =
    any
      (λ r.
        is_completed r && (not (ltb_ℤ r.started_at window_start) && ltb_ℤ r.started_at window_end))
      history

-- The writes of `markRecordCompleted`.
abbrev pub finish_record : ℤ → MaintenanceStatus → String → MaintenanceRecord → MaintenanceRecord
finish_record now status reason r = record r {
  status = status;
  reason = reason;
  completed_at = some now;
}

module _ {Q : Type 0} where
  abbrev pub with_conditions : List Condition → PostgresMemoryPolicy Q → PostgresMemoryPolicy Q
  with_conditions conditions p = record p { status = record (p.status) { conditions = conditions } }

  abbrev pub with_history : List MaintenanceRecord → PostgresMemoryPolicy Q → PostgresMemoryPolicy Q
  with_history history p = record p { status = record (p.status) { maintenance_history = history } }
