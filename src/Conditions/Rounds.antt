-- ===== src/Conditions/Rounds.antt =====
-- The round of a run through the history: it is added, found again, finished, and found finished.
use zalando_vertical_autosca.Common.{
  suc, ◌-◌, ◌≡◌, refl, Bool, true, false, none, some, List, [], ◌∷◌, ◌++◌, arith, find, modify, any,
  count, drop, length, count-drop, String,
}
use zalando_vertical_autosca.Common.Int.{ℤ, ◌≤ℤ◌, ◌<ℤ◌}
use zalando_vertical_autosca.Api.{MaintenanceRecord, in_progress, completed}
use zalando_vertical_autosca.Conditions.{
  add_record, is_in_progress, find_in_progress_record, modify_in_progress, finish_record,
  has_completed_in_window,
}
use zalando_vertical_autosca.Conditions.History.{in_progress_count, add_record_lem}

module _ {A : Type 0} (p : A → Bool) where
  find-append :
      (xs : List A) (x : A) → count p xs ≡ 0 → p x ≡ true → find p (xs ++ (x ∷ [])) ≡ some x
  find-append [] x h k = ground (arith, k)
  find-append (y ∷ xs) x h k = ground (arith, h, k, find-append xs x)

  find_fresh : (xs : List A) (x : A) → count p xs ≡ 0 → p x ≡ false → find p (xs ++ (x ∷ [])) ≡ none
  find_fresh [] x h k = ground (arith, k)
  find_fresh (y ∷ xs) x h k = ground (arith, h, k, find_fresh xs x)

  modify-append :
      (f : A → A) (xs : List A) (x : A)
      → count p xs ≡ 0
      → p x ≡ true
      → modify p f (xs ++ (x ∷ [])) ≡ xs ++ (f x ∷ [])
  modify-append f [] x h k = ground (arith, k)
  modify-append f (y ∷ xs) x h k = ground (arith, h, k, modify-append f xs x)

any-append_last :
    {A : Type 0} (q : A → Bool) (xs : List A) (x : A) → q x ≡ true → any q (xs ++ (x ∷ [])) ≡ true
any-append_last q [] x k = ground (arith, k)
any-append_last q (y ∷ xs) x k = ground (arith, k, any-append_last q xs x k)

-- A run added to a history with none in progress is the one that is found in progress. Once it has
-- been given the status completed, none is, and the run is found again as a completed one by every
-- window that holds the instant at which it started.
pub add_record-found_again :
    (history : List MaintenanceRecord) (r : MaintenanceRecord) (at opened closed : ℤ)
    (reason : String)
    → in_progress_count history ≡ 0
    → r.status ≡ in_progress
    → opened ≤ℤ r.started_at
    → r.started_at <ℤ closed
    → let finished =
        modify_in_progress (finish_record at completed reason) (add_record history r) in
      (find_in_progress_record (add_record history r) ≡ some r)
      × (find_in_progress_record finished ≡ none)
      × (has_completed_in_window finished opened closed ≡ true)
unfolding find_in_progress_record modify_in_progress has_completed_in_window
add_record-found_again history r at opened closed reason idle running after before =
    let kept = drop (suc (length history) - 10) history in
    let none_left : in_progress_count kept ≡ 0 =
      omega (arith, idle, count-drop is_in_progress (suc (length history) - 10) history) in
    let written =
      modify-append is_in_progress (finish_record at completed reason) kept r none_left in
    rw (add_record_lem history r, written (ground (arith, running)))
      (
        find-append is_in_progress kept r none_left (ground (arith, running)),
        find_fresh is_in_progress kept (finish_record at completed reason r) none_left refl,
        any-append_last _ kept (finish_record at completed reason r)
            (ground (arith, after, before)),
      )
