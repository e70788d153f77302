-- ===== src/Reconcile/Slots.antt =====
-- A window is taken by one run at most: what keeps this through a step of the history.
use mathlib.Core.Path.{subst}
use zalando_vertical_autosca.Common.{
  ◌≤◌, ◌≡◌, refl, sym, ap, ◌∙◌, inl, inr, String, false, List, [], ◌∷◌, arith, Bool-cases,
}
use zalando_vertical_autosca.Common.Int.{ℤ, ◌+ℤ◌, ◌≤ℤ◌, ◌<ℤ◌, ltb_ℤ, eq_of_parts}
use zalando_vertical_autosca.Api.{
  PostgresMemoryPolicySpec, MaintenanceWindowSpec, MaintenanceRecord,
}
use zalando_vertical_autosca.Platform.{Platform, FindsTicks}
use zalando_vertical_autosca.Monad.{Call}
use zalando_vertical_autosca.Monad.Trace.{IsReading, Sees}
use zalando_vertical_autosca.Conditions.{add_record, has_completed_in_window}
use zalando_vertical_autosca.Conditions.History.{in_progress_count}
use zalando_vertical_autosca.Window.{WindowResult, window_duration}
use zalando_vertical_autosca.Window.Laws.{evaluate_bounds}
use zalando_vertical_autosca.Reconcile.Progress.{
  ReadsInOrder, Admits, Progress, unchanged, ended, triggered, skips, starts,
}
use zalando_vertical_autosca.Reconcile.Windows.{
  takes, taken, StartedBy, taken-add_record, taken-skips, taken-ended, taken-triggered, taken_fresh,
  taken_future, StartedBy-later, StartedBy-add_record, StartedBy-modify,
}

module _ {P : Platform} where
  -- The clock as a reconcile read it: from `t` to `u`, and never back.
  pub record IsClock (t u : ℤ) (trace : List (Call P)) : Type 0 where
    pub forward : t ≤ℤ u
    pub within : (a : ℤ) → Sees a trace → (t ≤ℤ a) × (a ≤ℤ u)
    pub ordered : (a b : ℤ) → ReadsInOrder a b trace → a ≤ℤ b

  reading-Sees : (a : ℤ) (c : Call P) (trace : List (Call P)) → IsReading a c → Sees a (c ∷ trace)
  reading-Sees a c trace h = inl h

  ReadsInOrder-Sees :
      (a b : ℤ) (trace : List (Call P)) → ReadsInOrder a b trace → Sees a trace × Sees b trace
  ReadsInOrder-Sees a b [] h = absurd h
  ReadsInOrder-Sees a b (c ∷ trace) (inl (reading, seen)) = (inr seen, inl reading)
  ReadsInOrder-Sees a b (c ∷ trace) (inr h) =
      let (x, y) = ReadsInOrder-Sees a b trace h in (inr x, inr y)

module _ (P : Platform) (window : MaintenanceWindowSpec) (IsTick : String → ℤ → Type 0) where
  abbrev cron : String
  cron = window.cron

  abbrev duration : ℤ
  duration = window_duration window.timeout_minutes

  -- The schedule's windows do not overlap.
  abbrev pub Apart : Type 0
  Apart = (u v : ℤ) → IsTick cron u → IsTick cron v → u <ℤ v → (u +ℤ duration) ≤ℤ v

  -- No run of the history started after `t`, and no two that are completed or in progress started
  -- in one window.
  pub record Sound (t : ℤ) (history : List MaintenanceRecord) : Type 0 where
    pub started : StartedBy t history
    pub once : (v : ℤ) → IsTick cron v → taken v (v +ℤ duration) history ≤ 1

  module _ (finds : FindsTicks P.gronx IsTick) (apart : Apart) where
    -- A window that a new run takes has not been taken.
    was_free :
        (t a b v : ℤ) (old : List MaintenanceRecord) (w : WindowResult)
        → Sound t old
        → in_progress_count old ≡ 0
        → IsTick cron w.next_open
        → w.window_end ≡ w.next_open +ℤ duration
        → w.next_open ≤ℤ a
        → a <ℤ w.window_end
        → has_completed_in_window old w.next_open w.window_end ≡ false
        → t ≤ℤ a
        → a ≤ℤ b
        → IsTick cron v
        → b <ℤ (v +ℤ duration)
        → taken v (v +ℤ duration) old ≡ 0
    was_free t a b v old w sound idle tick ends begun open_still fresh h k tick' inside =
        elim (Bool-cases (ltb_ℤ v w.next_open)) [
          | inl earlier ↦
              let over = apart v w.next_open tick' tick (ground arith) in
              absurd (omega (arith, over))
          | inr not_earlier ↦ elim (Bool-cases (ltb_ℤ w.next_open v)) [
            | inl later ↦
                let next = apart w.next_open v tick tick' (ground arith) in
                taken_future v (v +ℤ duration) t old sound.started (
                  let shut : a <ℤ (w.next_open +ℤ duration) = rw ends at open_still in
                  omega (arith, next, shut, h))
            | inr not_later ↦
                let same : w.next_open ≡ v = eq_of_parts w.next_open v (ground arith) in
                taken_fresh v (v +ℤ duration) old idle (
                  ap (λ i. has_completed_in_window old i (i +ℤ duration)) (sym same)
                  ∙ ap (has_completed_in_window old w.next_open) (sym ends)
                  ∙ fresh)
          ]
        ]

    Admits-free :
        (t a b v : ℤ) (old : List MaintenanceRecord)
        → Sound t old
        → in_progress_count old ≡ 0
        → Admits P window old a
        → t ≤ℤ a
        → a ≤ℤ b
        → IsTick cron v
        → b <ℤ (v +ℤ duration)
        → taken v (v +ℤ duration) old ≡ 0
    Admits-free t a b v old sound idle (w, found, inside, fresh) h k tick' last =
        let (tick, ends, bounds, _) =
          evaluate_bounds P.gronx P.runtime IsTick finds cron window.timeout_minutes a w found in
        let (begun, open_still) = bounds inside in
        was_free t a b v old w sound idle tick ends begun open_still fresh h k tick' last

    -- A run that starts.
    starts-once :
        (t a v : ℤ) (old : List MaintenanceRecord) (r : MaintenanceRecord)
        → Sound t old
        → in_progress_count old ≡ 0
        → Admits P window old a
        → t ≤ℤ a
        → a ≤ℤ r.started_at
        → IsTick cron v
        → taken v (v +ℤ duration) (add_record old r) ≤ 1
    starts-once t a v old r sound idle admits h k tick =
        let grows = taken-add_record v (v +ℤ duration) old r in
        elim (Bool-cases (takes v (v +ℤ duration) r)) [
          | inl counted ↦
              let free =
                Admits-free t a r.started_at v old sound idle admits h k tick (ground arith) in
              ground (arith, grows, free)
          | inr other ↦ ground (arith, grows, sound.once v tick)
        ]

    -- One step of the history's state machine.
    pub Progress-Sound :
        (t u : ℤ) (spec : PostgresMemoryPolicySpec P.quantities.Quantity) (trace : List (Call P))
        (old new : List MaintenanceRecord)
        → spec.maintenance_window ≡ window
        → IsClock t u trace
        → Sound t old
        → Progress P spec trace old new
        → Sound u new
    Progress-Sound t u spec trace old new same clock sound (unchanged e) = rw e (record {
      started = StartedBy-later t u old clock.forward sound.started;
      once = sound.once;
    })
    Progress-Sound t u spec trace old new same clock sound (ended at status reason one end e) =
        rw e (record {
          started =
              StartedBy-modify u _ old (λ r. refl)
                (StartedBy-later t u old clock.forward sound.started);
          once = λ v tick.
              omega (arith, taken-ended v (v +ℤ duration) at status reason old, sound.once v tick);
        })
    Progress-Sound t u spec trace old new same clock sound (triggered one e) = rw e (record {
      started =
          StartedBy-modify u _ old (λ r. refl)
            (StartedBy-later t u old clock.forward sound.started);
      once = λ v tick. omega (arith, taken-triggered v (v +ℤ duration) old, sound.once v tick);
    })
    Progress-Sound t u spec trace old new same clock sound (skips a r idle admits order status e) =
        rw e (record {
          started =
              StartedBy-add_record u old r (StartedBy-later t u old clock.forward sound.started)
                (clock.within r.started_at (ReadsInOrder-Sees a r.started_at trace order).1).1;
          once = λ v tick.
              omega (arith, taken-skips v (v +ℤ duration) old r status, sound.once v tick);
        })
    Progress-Sound t u spec trace old new same clock sound
          (starts a r idle admits order status phase e) =
        rw e (record {
          started =
              StartedBy-add_record u old r (StartedBy-later t u old clock.forward sound.started)
                (clock.within r.started_at (ReadsInOrder-Sees a r.started_at trace order).1).1;
          once = λ v tick.
              starts-once t a v old r sound idle (subst (λ w. Admits P w old a) same admits)
                (clock.within a (ReadsInOrder-Sees a r.started_at trace order).0).0
                (clock.ordered a r.started_at order) tick;
        })
