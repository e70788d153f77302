-- ===== src/Reconcile/Progress.antt =====
-- The maintenance history as a state machine: what one reconcile may do to it.
use zalando_vertical_autosca.Common.{◌≡◌, ◌⊎◌, String, true, false, List, [], ◌∷◌}
use zalando_vertical_autosca.Common.Int.{ℤ}
use zalando_vertical_autosca.Common.Errors.{ok}
use zalando_vertical_autosca.Api.{
  PostgresMemoryPolicySpec, MaintenanceWindowSpec, MaintenanceRecord, MaintenanceStatus, skipped,
  in_progress, completed, failed, patch_applied, post_actions_triggered,
}
use zalando_vertical_autosca.Platform.{Platform}
use zalando_vertical_autosca.Monad.{Call}
use zalando_vertical_autosca.Monad.Trace.{IsReading, Sees}
use zalando_vertical_autosca.Conditions.{
  add_record, modify_in_progress, finish_record, has_completed_in_window,
}
use zalando_vertical_autosca.Conditions.History.{in_progress_count}
use zalando_vertical_autosca.Window.{WindowResult, evaluate}

module _ {P : Platform} where
  -- In the trace, the newest call first, the clock is read as `t` and later as `u`.
  abbrev pub ReadsInOrder : ℤ → ℤ → List (Call P) → Type 0
  ReadsInOrder t u [] = ⊥
  ReadsInOrder t u (c ∷ trace) = (IsReading u c × Sees t trace) ⊎ ReadsInOrder t u trace

-- At `t` the maintenance window is open, and no run that started in it is completed.
abbrev pub Admits : Platform → MaintenanceWindowSpec → List MaintenanceRecord → ℤ → Type 0
Admits P window history t =
    (w : WindowResult) × (evaluate P.gronx P.runtime window.cron window.timeout_minutes t ≡ ok w)
    × (w.in_window ≡ true)
    × (has_completed_in_window history w.next_open w.window_end ≡ false)

module _ (P : Platform) (spec : PostgresMemoryPolicySpec P.quantities.Quantity) where
  -- One reconcile leaves the history alone; ends the run in progress, or moves it to its second
  -- phase; or, when none is in progress and the window admits a run at an instant that it read from
  -- the clock, adds a record that it dates with a later reading: of a skipped run, or of a run that
  -- starts.
  pub data Progress (trace : List (Call P)) (old new : List MaintenanceRecord) : Type 0 where
    unchanged : new ≡ old → Progress trace old new
    ended :
        (t : ℤ) (status : MaintenanceStatus) (reason : String)
        → in_progress_count old ≡ 1
        → (status ≡ completed) ⊎ (status ≡ failed)
        → new ≡ modify_in_progress (finish_record t status reason) old
        → Progress trace old new
    triggered :
        in_progress_count old ≡ 1
        → new ≡ modify_in_progress (λ r. record r { phase = post_actions_triggered }) old
        → Progress trace old new
    skips :
        (t : ℤ) (r : MaintenanceRecord)
        → in_progress_count old ≡ 0
        → Admits P spec.maintenance_window old t
        → ReadsInOrder t r.started_at trace
        → r.status ≡ skipped
        → new ≡ add_record old r
        → Progress trace old new
    starts :
        (t : ℤ) (r : MaintenanceRecord)
        → in_progress_count old ≡ 0
        → Admits P spec.maintenance_window old t
        → ReadsInOrder t r.started_at trace
        → r.status ≡ in_progress
        → r.phase ≡ patch_applied
        → new ≡ add_record old r
        → Progress trace old new
