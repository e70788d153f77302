-- ===== src/Reconcile/Runs.antt =====
-- How many records are in progress and whether the condition MaintenanceInProgress is true, through
-- the writes that the controller makes to the status.
use zalando_vertical_autosca.Common.{
  ℕ, suc, ◌-◌, ◌≤◌, ◌≡◌, ◌∙◌, ap, String, Bool, false, none, List, [], ◌∷◌, arith, str_eq, length,
  drop, count-append, count-drop, length-modify, if◌then◌else◌,
}
use zalando_vertical_autosca.Common.Int.{ℤ}
use zalando_vertical_autosca.Api.{
  PostgresMemoryPolicy, ConditionStatus, condition_true, MaintenanceRecord, MaintenanceStatus,
  condition_maintenance_in_progress,
}
use zalando_vertical_autosca.Conditions.{
  status_eq, set_condition_list, is_condition_true_list, max_history, add_record, is_in_progress,
  find_in_progress_record, modify_in_progress, finish_record, with_conditions, with_history,
}
use zalando_vertical_autosca.Conditions.Laws.{
  DistinctTypes, DistinctTypes-set_condition, is_condition_true-set_condition,
}
use zalando_vertical_autosca.Conditions.History.{
  in_progress_count, add_record_bounded, find_in_progress-none, count-modify_end, count-modify_keep,
}

-- The status is in order, has `n` records in progress, and `b` as the truth of the condition
-- MaintenanceInProgress.
pub record Runs {Q : Type 0} (n : ℕ) (b : Bool) (p : PostgresMemoryPolicy Q) : Type 0 where
  pub distinct : DistinctTypes p.status.conditions
  pub short : length p.status.maintenance_history ≤ max_history
  pub number : in_progress_count p.status.maintenance_history ≡ n
  pub flag : is_condition_true_list p.status.conditions condition_maintenance_in_progress ≡ b

count-add_first :
    (history : List MaintenanceRecord) (r : MaintenanceRecord)
    → in_progress_count history ≡ 0
    → in_progress_count (add_record history r) ≡ (if is_in_progress r then 1 else 0)
count-add_first history r h =
    let (_, e) = add_record_bounded history r in
    rw e (
      ground (
        arith,
        count-append is_in_progress (drop (suc (length history) - 10) history) (r ∷ []),
        count-drop is_in_progress (suc (length history) - 10) history,
      ))

module _ {Q : Type 0} (n : ℕ) (b : Bool) (p : PostgresMemoryPolicy Q) (h : Runs n b p) where
  -- `SetCondition` of MaintenanceInProgress, and of another type.
  pub set_in_progress-Runs :
      (t g : ℤ) (status : ConditionStatus) (reason message : String)
      → Runs n (status_eq status condition_true) (
          with_conditions
            (set_condition_list t g p.status.conditions condition_maintenance_in_progress status
              reason message).0
            p)
  set_in_progress-Runs t g status reason message = record {
    distinct =
        DistinctTypes-set_condition t g _ status reason message p.status.conditions h.distinct;
    short = h.short;
    number = h.number;
    flag =
        is_condition_true-set_condition t g condition_maintenance_in_progress status reason message
          p.status.conditions condition_maintenance_in_progress;
  }

  pub set_other-Runs :
      (t g : ℤ) (type : String) (status : ConditionStatus) (reason message : String)
      → str_eq type condition_maintenance_in_progress ≡ false
      → Runs n b (
          with_conditions
            (set_condition_list t g p.status.conditions type status reason message).0
            p)
  set_other-Runs t g type status reason message e = record {
    distinct =
        DistinctTypes-set_condition t g type status reason message p.status.conditions h.distinct;
    short = h.short;
    number = h.number;
    flag =
        rw
          (
            is_condition_true-set_condition t g type status reason message p.status.conditions
                condition_maintenance_in_progress,
            e,
          )
          h.flag;
  }

  -- The writes to the history.
  pub finish-Runs :
      (t : ℤ) (status : MaintenanceStatus) (reason : String)
      → ((r : MaintenanceRecord) → is_in_progress (finish_record t status reason r) ≡ false)
      → Runs (n - 1) b (
          with_history
            (modify_in_progress (finish_record t status reason) p.status.maintenance_history)
            p)
  unfolding modify_in_progress
  finish-Runs t status reason ends = record {
    distinct = h.distinct;
    short =
        rw
          (length-modify is_in_progress (finish_record t status reason)
            p.status.maintenance_history)
          h.short;
    number =
        count-modify_end (finish_record t status reason) p.status.maintenance_history ends
        ∙ ap (λ (k : ℕ). k - 1) h.number;
    flag = h.flag;
  }

  pub keep-Runs :
      (f : MaintenanceRecord → MaintenanceRecord)
      → ((r : MaintenanceRecord) → (f r).status ≡ r.status)
      → Runs n b (with_history (modify_in_progress f p.status.maintenance_history) p)
  unfolding modify_in_progress
  keep-Runs f keeps = record {
    distinct = h.distinct;
    short = rw (length-modify is_in_progress f p.status.maintenance_history) h.short;
    number = count-modify_keep f p.status.maintenance_history keeps ∙ h.number;
    flag = h.flag;
  }

  pub add-Runs :
      (r : MaintenanceRecord)
      → n ≡ 0
      → Runs
          (if is_in_progress r then 1 else 0)
          b
          (with_history (add_record p.status.maintenance_history r) p)
  add-Runs r none_yet = record {
    distinct = h.distinct;
    short = (add_record_bounded p.status.maintenance_history r).0;
    number = count-add_first p.status.maintenance_history r (h.number ∙ none_yet);
    flag = h.flag;
  }

  pub not_found-Runs :
      find_in_progress_record p.status.maintenance_history ≡ none → Runs (n - 1) b p
  unfolding find_in_progress_record
  not_found-Runs absent = record {
    distinct = h.distinct;
    short = h.short;
    number =
        let zero_left = find_in_progress-none p.status.maintenance_history absent in
        omega (arith, zero_left, h.number);
    flag = h.flag;
  }

module _ {Q : Type 0} (n : ℕ) (b : Bool) (p : PostgresMemoryPolicy Q) where
  pub same_status-Runs :
      (q : PostgresMemoryPolicy Q)
      → q.status.conditions ≡ p.status.conditions
      → q.status.maintenance_history ≡ p.status.maintenance_history
      → Runs n b p
      → Runs n b q
  same_status-Runs q e e' h = record {
    distinct = rw e h.distinct;
    short = rw e' h.short;
    number = rw e' h.number;
    flag = rw e h.flag;
  }

  pub at_most_one : n ≤ 1 → Runs (n - 1) b p → Runs 0 b p
  at_most_one le h = record {
    distinct = h.distinct;
    short = h.short;
    number = omega (arith, h.number);
    flag = h.flag;
  }
