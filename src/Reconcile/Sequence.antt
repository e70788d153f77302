-- ===== src/Reconcile/Sequence.antt =====
-- The life of one policy: any number of reconciles, one after the other, of which some are not
-- stored, and edits of its spec between them.
use mathlib.Core.Path.{subst}
use zalando_vertical_autosca.Common.{◌≤◌, ◌≡◌, ap, sym, ◌∙◌, inl, String, [], arith}
use zalando_vertical_autosca.Common.Int.{ℤ, ◌+ℤ◌, ◌*ℤ◌, ◌≤ℤ◌, IsInt64}
use zalando_vertical_autosca.Api.{
  PostgresMemoryPolicy, PostgresMemoryPolicySpec, MaintenanceWindowSpec,
}
use zalando_vertical_autosca.Platform.{Platform, FindsTicks}
use zalando_vertical_autosca.Monad.{State, returned}
use zalando_vertical_autosca.Monad.Post.{Post, Post-map}
use zalando_vertical_autosca.Conditions.{is_condition_true_list}
use zalando_vertical_autosca.Window.{minute, window_duration}
use zalando_vertical_autosca.Reconcile.Maintenance.{Outcome}
use zalando_vertical_autosca.Reconcile.Policy.{reconcile_policy}
use zalando_vertical_autosca.Reconcile.Progress.{Progress}
use zalando_vertical_autosca.Reconcile.Slots.{IsClock, Apart, Sound, Progress-Sound}
use zalando_vertical_autosca.Reconcile.Coherence.{CoherentPolicy, same_status-CoherentPolicy}
use zalando_vertical_autosca.Reconcile.Invariant.{
  reconcile_policy-Coherent, reconcile_policy-Progress,
}
use zalando_vertical_autosca.Reconcile.Storage.{
  IsSecond, IsSecond-window_end, KeepsSeconds, StoredAs, CoherentPolicy-stored, StartedBy-stored,
  taken-stored,
}
use zalando_vertical_autosca.Reconcile.Windows.{taken, StartedBy-later}

-- What the API server may hold of one policy, with an instant that no reading of the clock so far
-- exceeds, when its users give it specs that are allowed. The policy is created with an empty
-- status; a reconcile that returns has its status stored; or time passes, in which a reconcile may
-- have panicked or failed to store its status; or a user edits the spec.
pub data Reconciled (P : Platform)
    (Allowed : PostgresMemoryPolicySpec P.quantities.Quantity → Type 0) (stored_time : ℤ → ℤ)
    : ℤ → PostgresMemoryPolicy P.quantities.Quantity → Type 0 where
  created :
      (t : ℤ) {p : PostgresMemoryPolicy P.quantities.Quantity}
      → Allowed p.spec
      → p.status.conditions ≡ []
      → p.status.maintenance_history ≡ []
      → Reconciled P Allowed stored_time t p
  reconciled :
      {t : ℤ} (u : ℤ) {p stored : PostgresMemoryPolicy P.quantities.Quantity} (s : State P)
      {q : State P} {outcome : Outcome}
      → Reconciled P Allowed stored_time t p
      → s.policy ≡ p
      → reconcile_policy P s ≡ returned outcome q
      → IsClock t u q.trace
      → StoredAs stored_time q.policy stored
      → Reconciled P Allowed stored_time u stored
  unstored :
      {t : ℤ} (u : ℤ) {p : PostgresMemoryPolicy P.quantities.Quantity}
      → Reconciled P Allowed stored_time t p
      → t ≤ℤ u
      → Reconciled P Allowed stored_time u p
  edited :
      {t : ℤ} {p stored : PostgresMemoryPolicy P.quantities.Quantity}
      → Reconciled P Allowed stored_time t p
      → Allowed stored.spec
      → stored.status ≡ p.status
      → Reconciled P Allowed stored_time t stored

module _ (P : Platform) where
  created-Coherent :
      (p : PostgresMemoryPolicy P.quantities.Quantity)
      → p.status.conditions ≡ []
      → p.status.maintenance_history ≡ []
      → CoherentPolicy p
  unfolding is_condition_true_list
  created-Coherent p no_conditions no_history = inl (record {
    distinct = rw no_conditions tt;
    short = rw no_history (omega arith);
    number = rw no_history;
    flag = rw no_conditions;
  })

  -- What a reconcile that returns has kept and done.
  module _ (s q : State P) (outcome : Outcome) (e : reconcile_policy P s ≡ returned outcome q)
      (coherent : CoherentPolicy s.policy) where
    returned-Coherent : CoherentPolicy q.policy
    returned-Coherent =
        subst (Post (λ v. CoherentPolicy v.policy) (λ _ v. CoherentPolicy v.policy)) e
          (reconcile_policy-Coherent P s coherent)

    returned-Progress :
        (q.policy.spec ≡ s.policy.spec)
        × Progress P s.policy.spec q.trace s.policy.status.maintenance_history
            q.policy.status.maintenance_history
    returned-Progress =
        subst
          (Post (λ _. Unit)
            (λ _ v.
              (v.policy.spec ≡ s.policy.spec)
              × Progress P s.policy.spec v.trace s.policy.status.maintenance_history
                  v.policy.status.maintenance_history))
          e
          (Post-map _ _ _ _ (reconcile_policy P s) (reconcile_policy-Progress P s coherent)
            (λ _ _. tt) (λ _ _ k. k))

  -- Whatever its users make of the spec of a new policy, and whichever of its reconciles panic or
  -- fail to store their status, the stored status stays coherent: the types of the conditions are
  -- distinct, the history has ten records at most, one of them at most is in progress, and the
  -- condition MaintenanceInProgress is true exactly when one is.
  pub Reconciled-Coherent :
      (Allowed : PostgresMemoryPolicySpec P.quantities.Quantity → Type 0) (stored_time : ℤ → ℤ)
      {t : ℤ} {p : PostgresMemoryPolicy P.quantities.Quantity}
      → Reconciled P Allowed stored_time t p
      → CoherentPolicy p
  Reconciled-Coherent Allowed stored_time (created t _ no_conditions no_history) =
      created-Coherent _ no_conditions no_history
  Reconciled-Coherent Allowed stored_time
        (reconciled u {stored} s {q} {outcome} before same e clock kept) =
      CoherentPolicy-stored stored_time q.policy stored kept (
        returned-Coherent s q outcome e
          (subst CoherentPolicy (sym same) (Reconciled-Coherent Allowed stored_time before)))
  Reconciled-Coherent Allowed stored_time (unstored u before later) =
      Reconciled-Coherent Allowed stored_time before
  Reconciled-Coherent Allowed stored_time (edited {p} {stored} before _ same) =
      same_status-CoherentPolicy p stored same (Reconciled-Coherent Allowed stored_time before)

-- The users keep the maintenance window.
abbrev pub Keeps : {Q : Type 0} → MaintenanceWindowSpec → PostgresMemoryPolicySpec Q → Type 0
Keeps window spec = spec.maintenance_window ≡ window

module _ (P : Platform) (window : MaintenanceWindowSpec) (IsTick : String → ℤ → Type 0)
    (stored_time : ℤ → ℤ) where
  abbrev duration : ℤ
  duration = window_duration window.timeout_minutes

  -- What the theorem asks of the cron library, the schedule and the server.
  module _ (finds : FindsTicks P.gronx IsTick) (apart : Apart P window IsTick)
      (on_seconds : (v : ℤ) → IsTick window.cron v → IsSecond v)
      (fits : IsInt64 (window.timeout_minutes *ℤ minute)) (keeps : KeepsSeconds stored_time) where
    record Good (t : ℤ) (p : PostgresMemoryPolicy P.quantities.Quantity) : Type 0 where
      same_window : Keeps window p.spec
      coherent : CoherentPolicy p
      sound : Sound P window IsTick t p.status.maintenance_history

    created-Good :
        (t : ℤ) (p : PostgresMemoryPolicy P.quantities.Quantity)
        → Keeps window p.spec
        → p.status.conditions ≡ []
        → p.status.maintenance_history ≡ []
        → Good t p
    created-Good t p e no_conditions no_history = record {
      same_window = e;
      coherent = created-Coherent P p no_conditions no_history;
      sound = record { started = rw no_history tt; once = λ v tick. rw no_history (omega arith) };
    }

    reconcile-Good :
        (t u : ℤ) (s q : State P) (outcome : Outcome)
        → Good t s.policy
        → reconcile_policy P s ≡ returned outcome q
        → IsClock t u q.trace
        → Good u q.policy
    reconcile-Good t u s q outcome good e clock =
        let (same, moved) = returned-Progress P s q outcome e good.coherent in
        record {
          same_window = ap (λ x. x.maintenance_window) same ∙ good.same_window;
          coherent = returned-Coherent P s q outcome e good.coherent;
          sound =
              Progress-Sound P window IsTick finds apart t u s.policy.spec q.trace
                s.policy.status.maintenance_history q.policy.status.maintenance_history
                good.same_window clock good.sound moved;
        }

    stored-Good :
        (t : ℤ) (p stored : PostgresMemoryPolicy P.quantities.Quantity)
        → Good t p
        → StoredAs stored_time p stored
        → Good t stored
    stored-Good t p stored good e = record {
      same_window = ap (λ x. x.maintenance_window) e.same_spec ∙ good.same_window;
      coherent = CoherentPolicy-stored stored_time p stored e good.coherent;
      sound = record {
        started =
            rw e.same_history (
              StartedBy-stored stored_time keeps t p.status.maintenance_history good.sound.started);
        once = λ v tick.
            rw
              (
                e.same_history,
                taken-stored stored_time keeps v (v +ℤ duration) p.status.maintenance_history
                    (on_seconds v tick)
                    (IsSecond-window_end v window.timeout_minutes (on_seconds v tick) fits),
              )
              (good.sound.once v tick);
      };
    }

    later-Good :
        (t u : ℤ) (p : PostgresMemoryPolicy P.quantities.Quantity) → t ≤ℤ u → Good t p → Good u p
    later-Good t u p h good = record {
      same_window = good.same_window;
      coherent = good.coherent;
      sound = record {
        started = StartedBy-later t u p.status.maintenance_history h good.sound.started;
        once = good.sound.once;
      };
    }

    edited-Good :
        (t : ℤ) (p stored : PostgresMemoryPolicy P.quantities.Quantity)
        → Good t p
        → Keeps window stored.spec
        → stored.status ≡ p.status
        → Good t stored
    edited-Good t p stored good kept same = record {
      same_window = kept;
      coherent = same_status-CoherentPolicy p stored same good.coherent;
      sound = subst (λ x. Sound P window IsTick t x.maintenance_history) (sym same) good.sound;
    }

    Reconciled-Good :
        {t : ℤ} {p : PostgresMemoryPolicy P.quantities.Quantity}
        → Reconciled P (Keeps window) stored_time t p
        → Good t p
    Reconciled-Good (created t e no_conditions no_history) =
        created-Good t _ e no_conditions no_history
    Reconciled-Good (reconciled {t} u {stored} s {q} {outcome} before same e clock kept) =
        stored-Good u q.policy stored
          (reconcile-Good t u s q outcome (subst (Good t) (sym same) (Reconciled-Good before)) e
            clock)
          kept
    Reconciled-Good (unstored {t} u {p} before later) =
        later-Good t u p later (Reconciled-Good before)
    Reconciled-Good (edited {t} {p} {stored} before kept same) =
        edited-Good t p stored (Reconciled-Good before) kept same

    -- If the cron library finds ticks as documented, these are whole seconds, the schedule's windows
    -- do not overlap and their length fits in int64, then of the runs in the stored history of a
    -- policy that started in one window, one at most is completed or in progress. So it is after
    -- any number of reconciles of a new policy, which panic, fail to store their status, or return
    -- and have it stored to the second, and any edits of its spec that keep the maintenance window.
    -- The clock does not run backwards, and each reconcile reads the status that is stored.
    pub Reconciled-once :
        {t : ℤ} {p : PostgresMemoryPolicy P.quantities.Quantity}
        → Reconciled P (Keeps window) stored_time t p
        → (v : ℤ) → IsTick window.cron v
        → taken v (v +ℤ duration) p.status.maintenance_history ≤ 1
    Reconciled-once r v tick = (Reconciled-Good r).sound.once v tick
