-- ===== src/Tests/Runs.antt =====
-- Examples for whole calls: a reconcile in an open window, and the calls it is made of.
use zalando_vertical_autosca.Common.{
  suc, ◌+◌, ◌-◌, ◌≤◌, ◌≡◌, refl, true, false, none, List, [], ◌∷◌, ◌++◌, length, drop, arith, ℕ,
  some, ◌*◌, ◌<◌,
}
use zalando_vertical_autosca.Common.Int.{ℤ, pos, ◌-ℤ◌}
use zalando_vertical_autosca.Common.Errors.{ok}
use zalando_vertical_autosca.Float64.{
  of_int, make, mul, add, div, le, to_int64, round_ratio, round_on, nearest, unit, overflow,
}
use zalando_vertical_autosca.Api.{
  MaintenanceRecord, in_progress, Condition, condition_true, condition_false, patch_applied,
}
use zalando_vertical_autosca.Monad.Post.{Post}
use zalando_vertical_autosca.Monad.Trace.{patches}
use zalando_vertical_autosca.Conditions.{set_condition_list, is_condition_true_list, add_record}
use zalando_vertical_autosca.Conditions.Laws.{is_condition_true-set_condition, set_condition_again}
use zalando_vertical_autosca.Conditions.History.{add_record_bounded}
use zalando_vertical_autosca.Vpa.{
  VpaRecommendation, recommend, extract_container_recommendation, search_containers,
  container_recommendation, apply_memory_buffer, buffered_bytes, clamp_quantity,
}
use zalando_vertical_autosca.Vpa.Laws.{AtMost, IsChosen, container_of, recommend-IsChosen}
use zalando_vertical_autosca.Window.{WindowResult}
use zalando_vertical_autosca.Reconcile.Policy.{reconcile_policy}
use zalando_vertical_autosca.Reconcile.Cores.{cpu_cores_lem}
use zalando_vertical_autosca.Reconcile.Maintenance.{cpu_cores}
use zalando_vertical_autosca.Reconcile.Permission.{Permitted}
use zalando_vertical_autosca.Reconcile.Safety.{reconcile_policy-Permitted}
use zalando_vertical_autosca.Tests.Sample.{old_record, policy, start}
use zalando_vertical_autosca.Tests.World.{
  gi, whole_units, whole_units-IsOrder, small_platform, recommends_20gi,
}

reconcile_policy-Permitted_example :
    Post
      (λ s'. patches s'.trace ≤ 0 + 1)
      (λ _ s'. Permitted small_platform start s')
      (reconcile_policy small_platform start)
reconcile_policy-Permitted_example = reconcile_policy-Permitted small_platform start

abbrev condition : Condition
condition = record {
  type = "MaintenanceInProgress";
  status = condition_true;
  reason = "MaintenanceStarted";
  message = "maintenance run has started";
  last_transition_time = pos 5;
  observed_generation = pos 1;
}

is_condition_true-set_condition_example :
    is_condition_true_list
      (set_condition_list
        (pos 9)
        (pos 1)
        (condition ∷ [])
        "MaintenanceInProgress"
        condition_false
        "MaintenanceFailed"
        "timeout").0
      "MaintenanceInProgress"
    ≡ false
is_condition_true-set_condition_example =
    is_condition_true-set_condition (pos 9) (pos 1) "MaintenanceInProgress" condition_false
      "MaintenanceFailed" "timeout" (condition ∷ []) "MaintenanceInProgress"

set_condition_again_example :
    let once =
      (set_condition_list
        (pos 9)
        (pos 1)
        (condition ∷ [])
        "MaintenanceInProgress"
        condition_false
        "MaintenanceFailed"
        "timeout").0 in
    set_condition_list
      (pos 12)
      (pos 1)
      once
      "MaintenanceInProgress"
      condition_false
      "MaintenanceFailed"
      "timeout"
    ≡ (once, false)
set_condition_again_example =
    set_condition_again (pos 9) (pos 12) (pos 1) (condition ∷ []) "MaintenanceInProgress"
      condition_false "MaintenanceFailed" "timeout"

abbrev ten_records : List MaintenanceRecord
ten_records =
    old_record ∷ old_record ∷ old_record ∷ old_record ∷ old_record ∷ old_record ∷ old_record
    ∷ old_record ∷ old_record ∷ old_record ∷ []

add_record_bounded_example :
    (length (add_record ten_records old_record) ≤ 10)
    × (add_record ten_records old_record
        ≡ drop (suc (length ten_records) - 10) ten_records ++ (old_record ∷ []))
add_record_bounded_example = add_record_bounded ten_records old_record

-- 20Gi and a buffer of 20 percent are 24Gi.
abbrev chosen : VpaRecommendation ℤ
chosen = record { memory = pos 25769803776; cpu = none }

recommended_24gi : recommend small_platform policy (ok recommends_20gi) ≡ ok chosen
unfolding recommend extract_container_recommendation search_containers container_recommendation
    apply_memory_buffer buffered_bytes clamp_quantity ◌-ℤ◌ of_int mul add div make le to_int64
    round_ratio round_on nearest unit overflow
recommended_24gi = refl

in_order : AtMost whole_units whole_units-IsOrder (gi 1) (gi 40)
unfolding ◌-ℤ◌
in_order = omega arith

recommend-IsChosen_example :
    (r : VpaRecommendation ℤ) × IsChosen small_platform.runtime recommends_20gi
      (container_of policy)
      r
    × (chosen.cpu ≡ r.cpu)
    × (chosen.memory
        ≡ apply_memory_buffer whole_units small_platform.runtime.out_of_range
            (clamp_quantity whole_units r.memory (gi 1) (gi 40))
            (of_int (pos 20))
            (gi 40))
    × AtMost whole_units whole_units-IsOrder chosen.memory (gi 40)
recommend-IsChosen_example =
    recommend-IsChosen small_platform whole_units-IsOrder policy recommends_20gi chosen in_order
      recommended_24gi

abbrev running : MaintenanceRecord
running = record old_record {
  status = in_progress;
  completed_at = none;
  phase = patch_applied;
  applied_memory = "20Gi";
}

abbrev half_hour_window : WindowResult
half_hour_window = record {
  in_window = true;
  next_open = pos 360000000000000;
  window_end = pos 361800000000000;
}

-- 3200 millicores are 4 cores.
abbrev fractional : VpaRecommendation ℤ
fractional = record { memory = gi 1; cpu = some (pos 3200) }

cpu_cores_lem_example :
    (k : ℕ) × (cpu_cores (λ q. q) fractional ≡ pos k) × (3200 ≤ 1000 * k) × (1000 * k < 3200 + 1000)
cpu_cores_lem_example = cpu_cores_lem (λ q. q) fractional (pos 3200) 3200 refl refl (omega arith)
