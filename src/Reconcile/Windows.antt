-- ===== src/Reconcile/Windows.antt =====
-- The runs that take a window: those that started in it and are completed or in progress.
use zalando_vertical_autosca.Common.{
  ℕ, suc, ◌+◌, ◌-◌, ◌≤◌, ◌≡◌, refl, String, Bool, false, not, ◌&&◌, ◌||◌, List, [], ◌∷◌, arith,
  if◌then◌else◌, drop, length, count, All, All-append, All-drop, All-map, All-modify, count_none,
  count-modify-le, count-append, count-drop,
}
use zalando_vertical_autosca.Common.Int.{ℤ, ◌≤ℤ◌, ◌<ℤ◌, ltb_ℤ}
use zalando_vertical_autosca.Api.{
  MaintenanceRecord, MaintenanceStatus, skipped, post_actions_triggered,
}
use zalando_vertical_autosca.Conditions.{
  add_record, is_in_progress, is_completed, modify_in_progress, finish_record,
  has_completed_in_window,
}
use zalando_vertical_autosca.Conditions.History.{in_progress_count, add_record_bounded}

-- The record's run started in [v, e), and is completed or in progress.
abbrev pub takes : ℤ → ℤ → MaintenanceRecord → Bool
takes v e r =
    (is_completed r || is_in_progress r) && (not (ltb_ℤ r.started_at v) && ltb_ℤ r.started_at e)

-- How many runs take the window.
abbrev pub taken : ℤ → ℤ → List MaintenanceRecord → ℕ
taken v e = count (takes v e)

abbrev pub StartedBy : ℤ → List MaintenanceRecord → Type 0
StartedBy t = All (λ r. r.started_at ≤ℤ t)

pub taken-add_record :
    (v e : ℤ) (history : List MaintenanceRecord) (r : MaintenanceRecord)
    → taken v e (add_record history r) ≤ taken v e history + (if takes v e r then 1 else 0)
taken-add_record v e history r =
    let (_, shape) = add_record_bounded history r in
    rw shape (
      ground (
        arith,
        count-append (takes v e) (drop (suc (length history) - 10) history) (r ∷ []),
        count-drop (takes v e) (suc (length history) - 10) history,
      ))

pub taken-skips :
    (v e : ℤ) (history : List MaintenanceRecord) (r : MaintenanceRecord)
    → r.status ≡ skipped
    → taken v e (add_record history r) ≤ taken v e history
taken-skips v e history r h = ground (arith, taken-add_record v e history r)

pub taken-ended :
    (v e t : ℤ) (status : MaintenanceStatus) (reason : String) (history : List MaintenanceRecord)
    → taken v e (modify_in_progress (finish_record t status reason) history) ≤ taken v e history
unfolding modify_in_progress
taken-ended v e t status reason history =
    count-modify-le (takes v e) is_in_progress (finish_record t status reason) history
      (λ r now_on counted. ground arith)

pub taken-triggered :
    (v e : ℤ) (history : List MaintenanceRecord)
    → taken v e (modify_in_progress (λ r. record r { phase = post_actions_triggered }) history)
      ≤ taken v e history
unfolding modify_in_progress
taken-triggered v e history =
    count-modify-le (takes v e) is_in_progress (λ r. record r { phase = post_actions_triggered })
      history (λ r now_on counted. counted)

-- No run takes a window in which none is completed, when none is in progress.
pub taken_fresh :
    (v e : ℤ) (history : List MaintenanceRecord)
    → in_progress_count history ≡ 0
    → has_completed_in_window history v e ≡ false
    → taken v e history ≡ 0
unfolding has_completed_in_window
taken_fresh v e [] idle fresh = refl
taken_fresh v e (r ∷ history) idle fresh = ground (arith, taken_fresh v e history)

-- No run takes a window that has not begun.
pub taken_future :
    (v e t : ℤ) (history : List MaintenanceRecord)
    → StartedBy t history
    → t <ℤ v
    → taken v e history ≡ 0
taken_future v e t history started later =
    count_none (λ r. r.started_at ≤ℤ t) (takes v e) history (λ r h. ground arith) started

pub StartedBy-later :
    (t u : ℤ) (history : List MaintenanceRecord)
    → t ≤ℤ u
    → StartedBy t history
    → StartedBy u history
StartedBy-later t u history h started =
    All-map (λ r. r.started_at ≤ℤ t) (λ r. r.started_at ≤ℤ u) history (λ r k. omega (arith, h, k))
      started

pub StartedBy-add_record :
    (t : ℤ) (history : List MaintenanceRecord) (r : MaintenanceRecord)
    → StartedBy t history
    → r.started_at ≤ℤ t
    → StartedBy t (add_record history r)
StartedBy-add_record t history r started h =
    let (_, shape) = add_record_bounded history r in
    rw shape (
      All-append (λ r. r.started_at ≤ℤ t) (drop (suc (length history) - 10) history) (r ∷ [])
        (All-drop (λ r. r.started_at ≤ℤ t) (suc (length history) - 10) history started) (h, tt))

pub StartedBy-modify :
    (t : ℤ) (f : MaintenanceRecord → MaintenanceRecord) (history : List MaintenanceRecord)
    → ((r : MaintenanceRecord) → (f r).started_at ≡ r.started_at)
    → StartedBy t history
    → StartedBy t (modify_in_progress f history)
unfolding modify_in_progress
StartedBy-modify t f history keeps started =
    All-modify (λ r. r.started_at ≤ℤ t) is_in_progress f history (λ r h. rw (keeps r) h) started
