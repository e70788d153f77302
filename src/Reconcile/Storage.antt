-- ===== src/Reconcile/Storage.antt =====
-- The status as the API server stores it: JSON keeps the whole seconds of a `metav1.Time`.
use mathlib.Core.Option
use zalando_vertical_autosca.Common.{
  ℕ, ◌≡◌, refl, inl, inr, String, Bool, false, true, none, List, [], ◌∷◌, map, arith, find,
  length-map, count-map,
}
use zalando_vertical_autosca.Common.Int.{ℤ, pos, ◌+ℤ◌, ◌*ℤ◌, ◌≤ℤ◌, IsInt64, wrap64_of_IsInt64}
use zalando_vertical_autosca.Window.{minute, second, window_duration}
use zalando_vertical_autosca.Api.{PostgresMemoryPolicy, MaintenanceRecord, Condition}
use zalando_vertical_autosca.Conditions.{is_in_progress, has_type, is_condition_true_list}
use zalando_vertical_autosca.Conditions.Laws.{DistinctTypes}
use zalando_vertical_autosca.Reconcile.Runs.{Runs}
use zalando_vertical_autosca.Reconcile.Coherence.{CoherentPolicy}
use zalando_vertical_autosca.Reconcile.Windows.{takes, taken, StartedBy}

-- An instant without a fraction of a second.
abbrev pub IsSecond : ℤ → Type 0
IsSecond t = (k : ℤ) × (t ≡ k *ℤ second)

add-seconds : (a b : ℤ) → a *ℤ second +ℤ b *ℤ minute ≡ (a +ℤ b *ℤ pos 60) *ℤ second
unfolding ◌*ℤ◌ ◌+ℤ◌
add-seconds a b = ground arith

-- The end of a window that begins at a second.
pub IsSecond-window_end :
    (v timeout_minutes : ℤ)
    → IsSecond v
    → IsInt64 (timeout_minutes *ℤ minute)
    → IsSecond (v +ℤ window_duration timeout_minutes)
unfolding window_duration
IsSecond-window_end v timeout_minutes (k, e) fits = (
  k +ℤ timeout_minutes *ℤ pos 60,
  rw (wrap64_of_IsInt64 (timeout_minutes *ℤ minute) fits, e) (add-seconds k timeout_minutes),
)

-- What is kept of an instant is not later, and not before a whole second that the instant is not
-- before.
pub record KeepsSeconds (stored_time : ℤ → ℤ) : Type 0 where
  pub not_later : (t : ℤ) → stored_time t ≤ℤ t
  pub not_before : (s t : ℤ) → IsSecond s → s ≤ℤ t → s ≤ℤ stored_time t

module _ (stored_time : ℤ → ℤ) where
  abbrev pub stored_record : MaintenanceRecord → MaintenanceRecord
  stored_record r = record r {
    started_at = stored_time r.started_at;
    completed_at = Option.map stored_time r.completed_at;
  }

  abbrev pub stored_condition : Condition → Condition
  stored_condition c = record c { last_transition_time = stored_time c.last_transition_time }

  -- `stored` is what the server has of the policy `p`, of which the status was written. The two
  -- memories of the status are left open, since no decision reads them.
  pub record StoredAs {Q : Type 0} (p stored : PostgresMemoryPolicy Q) : Type 0 where
    pub same_spec : stored.spec ≡ p.spec
    pub same_history :
        stored.status.maintenance_history ≡ map stored_record p.status.maintenance_history
    pub same_conditions : stored.status.conditions ≡ map stored_condition p.status.conditions

  find-stored_condition :
      (type : String) (cs : List Condition)
      → find (has_type type) cs ≡ none
      → find (has_type type) (map stored_condition cs) ≡ none
  find-stored_condition type [] h = refl
  find-stored_condition type (c ∷ cs) h = ground (arith, find-stored_condition type cs)

  DistinctTypes-stored :
      (cs : List Condition) → DistinctTypes cs → DistinctTypes (map stored_condition cs)
  DistinctTypes-stored [] h = tt
  DistinctTypes-stored (c ∷ cs) h =
      (find-stored_condition c.type cs h.0, DistinctTypes-stored cs h.1)

  is_condition_true-stored :
      (cs : List Condition) (type : String)
      → is_condition_true_list (map stored_condition cs) type ≡ is_condition_true_list cs type
  unfolding is_condition_true_list
  is_condition_true-stored [] type = refl
  is_condition_true-stored (c ∷ cs) type = ground (arith, is_condition_true-stored cs type)

  module _ {Q : Type 0} (p stored : PostgresMemoryPolicy Q) (e : StoredAs p stored) where
    Runs-stored : (n : ℕ) (b : Bool) → Runs n b p → Runs n b stored
    Runs-stored n b h = record {
      distinct = rw e.same_conditions (DistinctTypes-stored p.status.conditions h.distinct);
      short = rw (e.same_history, length-map stored_record p.status.maintenance_history) h.short;
      number =
          rw
            (
              e.same_history,
              count-map is_in_progress stored_record p.status.maintenance_history (λ r. refl),
            )
            h.number;
      flag = rw (e.same_conditions, is_condition_true-stored p.status.conditions) h.flag;
    }

    pub CoherentPolicy-stored : CoherentPolicy p → CoherentPolicy stored
    CoherentPolicy-stored (inl h) = inl (Runs-stored 0 false h)
    CoherentPolicy-stored (inr h) = inr (Runs-stored 1 true h)

  module _ (keeps : KeepsSeconds stored_time) where
    pub StartedBy-stored :
        (t : ℤ) (history : List MaintenanceRecord)
        → StartedBy t history
        → StartedBy t (map stored_record history)
    StartedBy-stored t [] h = tt
    StartedBy-stored t (r ∷ history) h =
        (omega (arith, keeps.not_later r.started_at, h.0), StartedBy-stored t history h.1)

    takes-stored :
        (v e : ℤ) (r : MaintenanceRecord)
        → IsSecond v
        → IsSecond e
        → takes v e (stored_record r) ≡ takes v e r
    takes-stored v e r h k = ground (
      arith,
      keeps.not_later r.started_at,
      keeps.not_before v r.started_at h,
      keeps.not_before e r.started_at k,
    )

    -- A window of whole seconds is taken by the same runs.
    pub taken-stored :
        (v e : ℤ) (history : List MaintenanceRecord)
        → IsSecond v
        → IsSecond e
        → taken v e (map stored_record history) ≡ taken v e history
    taken-stored v e history h k =
        count-map (takes v e) stored_record history (λ r. takes-stored v e r h k)
