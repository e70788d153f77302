-- ===== src/Conditions/History.antt =====
-- The maintenance history stays short, and its records in progress are counted.
use zalando_vertical_autosca.Common.{
  ℕ, zero, suc, ◌+◌, ◌-◌, ◌≤◌, ◌<◌, ◌≡◌, refl, false, none, some, List, [], ◌∷◌, ◌++◌, arith,
  if◌then◌else◌, find, modify, drop, length, count, length-append, length-drop, count-append,
  count-drop,
}
use zalando_vertical_autosca.Api.{MaintenanceRecord}
use zalando_vertical_autosca.Conditions.{max_history, add_record, is_in_progress}

-- How many records are in progress.
abbrev pub in_progress_count : List MaintenanceRecord → ℕ
in_progress_count = count is_in_progress

length-add_record :
    (history : List MaintenanceRecord) (r : MaintenanceRecord)
    → length (add_record history r) ≤ max_history
unfolding add_record
length-add_record history r =
    ground (arith, length-drop (length (history ++ (r ∷ [])) - 10) (history ++ (r ∷ [])))

drop-append_last {ℓ} :
    {A : Type ℓ} (n : ℕ) (xs : List A) (x : A)
    → n ≤ length xs
    → drop n (xs ++ (x ∷ [])) ≡ drop n xs ++ (x ∷ [])
drop-append_last zero xs x h = refl
drop-append_last (suc n) [] x h = absurd (omega arith)
drop-append_last (suc n) (_ ∷ xs) x h = drop-append_last n xs x (omega arith)

pub add_record_lem :
    (history : List MaintenanceRecord) (r : MaintenanceRecord)
    → add_record history r ≡ drop (suc (length history) - 10) history ++ (r ∷ [])
unfolding add_record
add_record_lem history r =
    ground (
      arith,
      length-append history (r ∷ []),
      drop-append_last (suc (length history) - 10) history r,
    )

-- A history with a record added has ten records at most: the new one is the last, and of the old
-- ones, only as many of the oldest are dropped as exceed nine.
pub add_record_bounded :
    (history : List MaintenanceRecord) (r : MaintenanceRecord)
    → (length (add_record history r) ≤ max_history)
      × (add_record history r ≡ drop (suc (length history) - 10) history ++ (r ∷ []))
add_record_bounded history r = (length-add_record history r, add_record_lem history r)

pub count-add_record :
    (history : List MaintenanceRecord) (r : MaintenanceRecord)
    → in_progress_count (add_record history r)
      ≤ in_progress_count history + (if is_in_progress r then 1 else 0)
count-add_record history r = ground (
  arith,
  add_record_lem history r,
  count-append is_in_progress (drop (suc (length history) - 10) history) (r ∷ []),
  count-drop is_in_progress (suc (length history) - 10) history,
)

pub find_in_progress-none :
    (history : List MaintenanceRecord)
    → find is_in_progress history ≡ none
    → in_progress_count history ≡ 0
find_in_progress-none [] h = refl
find_in_progress-none (r ∷ history) h = ground (arith, find_in_progress-none history)

pub find_in_progress-some :
    (history : List MaintenanceRecord) (r : MaintenanceRecord)
    → find is_in_progress history ≡ some r
    → 0 < in_progress_count history
find_in_progress-some [] r h = absurd (ground arith)
find_in_progress-some (q ∷ history) r h = ground (arith, find_in_progress-some history r)

-- A write that ends the record found leaves one fewer in progress.
pub count-modify_end :
    (f : MaintenanceRecord → MaintenanceRecord) (history : List MaintenanceRecord)
    → ((r : MaintenanceRecord) → is_in_progress (f r) ≡ false)
    → in_progress_count (modify is_in_progress f history) ≡ in_progress_count history - 1
count-modify_end f [] ends = omega arith
count-modify_end f (r ∷ history) ends = ground (arith, ends r, count-modify_end f history ends)

-- A write that keeps the status keeps the count.
pub count-modify_keep :
    (f : MaintenanceRecord → MaintenanceRecord) (history : List MaintenanceRecord)
    → ((r : MaintenanceRecord) → (f r).status ≡ r.status)
    → in_progress_count (modify is_in_progress f history) ≡ in_progress_count history
count-modify_keep f [] keeps = refl
count-modify_keep f (r ∷ history) keeps = ground (arith, keeps r, count-modify_keep f history keeps)
