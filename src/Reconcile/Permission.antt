-- ===== src/Reconcile/Permission.antt =====
-- What permits a patch of the postgresql resource, from the window guard inwards.
use zalando_vertical_autosca.Common.{
  ◌+◌, ◌≤◌, String, ◌≡◌, refl, sym, ap, ◌∙◌, ◌⊎◌, inl, inr, true, false, not, ◌&&◌, Option, none,
  some, arith, if◌then◌else◌,
}
use zalando_vertical_autosca.Common.Int.{ℤ}
use zalando_vertical_autosca.Common.Errors.{ok}
use zalando_vertical_autosca.Api.{
  MaintenanceRecord, ConditionStatus, condition_false, condition_maintenance_in_progress,
}
use zalando_vertical_autosca.Platform.{Platform}
use zalando_vertical_autosca.Monad.{State, Exec, returned, panicked, pure, now}
use zalando_vertical_autosca.Monad.Post.{Post, Post-bind, Post-if}
use zalando_vertical_autosca.Monad.Trace.{
  patches, Sees, Silent, Silent-refl, Silent-trans, IsSilent, Reads,
}
use zalando_vertical_autosca.Conditions.{
  has_completed_in_window, find_in_progress_record, is_condition_true_list,
}
use zalando_vertical_autosca.Window.{WindowResult, evaluate, requeue_after}
use zalando_vertical_autosca.Vpa.{VpaRecommendation}
use zalando_vertical_autosca.Zalando.{get_current_memory}
use zalando_vertical_autosca.Reconcile.Status.{set_condition}
use zalando_vertical_autosca.Reconcile.Effects.{
  handle_window_expired-IsSilent, monitor_maintenance-IsSilent,
}
use zalando_vertical_autosca.Reconcile.Once.{IsOnce, safety_gates-IsOnce}
use zalando_vertical_autosca.Reconcile.Maintenance.{handle_window_expired, monitor_maintenance}
use zalando_vertical_autosca.Reconcile.Policy.{
  safety_gates, window_guard, in_progress_step, maintenance_step,
}

module _ (P : Platform) where
  open P use {quantities, gronx, runtime}

  -- The cluster has no memory set, and the policy says what to begin with.
  abbrev pub MayBootstrap : State P → Type 0
  MayBootstrap s =
      (q : quantities.Quantity) × (u : State P) × (s.policy.spec.initial_memory ≡ some q)
      × (get_current_memory P s.policy.namespace s.policy.spec.target_cluster s
          ≡ returned (ok none) u)

  -- At an instant that the run read from the clock, the policy's maintenance window was open, and
  -- no maintenance that started in that window had been completed.
  abbrev pub MayUpdate : State P → State P → Type 0
  MayUpdate s s' =
      (t : ℤ) × (w : WindowResult) × Sees t s'.trace
      × (evaluate gronx runtime s.policy.spec.maintenance_window.cron
            s.policy.spec.maintenance_window.timeout_minutes t
          ≡ ok w)
      × (w.in_window ≡ true)
      × (has_completed_in_window s.policy.status.maintenance_history w.next_open w.window_end
          ≡ false)

  abbrev pub Permitted : State P → State P → Type 0
  Permitted s s' =
      (patches s'.trace ≡ patches s.trace)
      ⊎ ((patches s'.trace ≤ patches s.trace + 1) × (MayBootstrap s ⊎ MayUpdate s s'))

  abbrev pub IsPermitted : {A : Type 0} → State P → Exec P A → Type 0
  IsPermitted s = Post (λ s'. patches s'.trace ≤ patches s.trace + 1) (λ _ s'. Permitted s s')

  -- What the first steps leave as it was.
  pub record Kept (s u : State P) : Type 0 where
    pub silent : Silent s u
    pub same_spec : u.policy.spec ≡ s.policy.spec
    pub same_history : u.policy.status.maintenance_history ≡ s.policy.status.maintenance_history

  pub Kept-trans_Reads : (s u v : State P) → Kept s u → Reads u v → Kept s v
  Kept-trans_Reads s u v k r = record {
    silent = Silent-trans s u v k.silent r.silent;
    same_spec = ap (λ p. p.spec) r.same_policy ∙ k.same_spec;
    same_history = ap (λ p. p.status.maintenance_history) r.same_policy ∙ k.same_history;
  }

  pub Kept-trans : (s u v : State P) → Kept s u → Kept u v → Kept s v
  Kept-trans s u v k h = record {
    silent = Silent-trans s u v k.silent h.silent;
    same_spec = h.same_spec ∙ k.same_spec;
    same_history = h.same_history ∙ k.same_history;
  }

  pub Kept-refl : (s : State P) → Kept s s
  Kept-refl s = record { silent = Silent-refl s; same_spec = refl; same_history = refl }

  pub set_condition-Kept :
      (N : State P → Type 0) (s : State P) (type : String) (status : ConditionStatus)
      (reason message : String)
      → Post N (λ _ u. Kept s u) (set_condition P type status reason message s)
  unfolding set_condition now
  set_condition-Kept N s type status reason message = ground arith

  Silent-IsPermitted :
      {A : Type 0} (s u : State P) (e : Exec P A) → Silent s u → IsSilent u e → IsPermitted s e
  Silent-IsPermitted s u (returned a v) h k = inl (k.same_patches ∙ h.same_patches)
  Silent-IsPermitted s u (panicked v) h k = omega (arith, k.same_patches, h.same_patches)

  module _ (s : State P) (t : ℤ) (w : WindowResult)
      (found : evaluate gronx runtime s.policy.spec.maintenance_window.cron
          s.policy.spec.maintenance_window.timeout_minutes t
        ≡ ok w)
      (rec : VpaRecommendation quantities.Quantity) (current : Option quantities.Quantity) where
    update-IsPermitted :
        {A : Type 0} (u : State P) (e : Exec P A)
        → Silent s u
        → Sees t u.trace
        → w.in_window ≡ true
        → has_completed_in_window s.policy.status.maintenance_history w.next_open w.window_end
          ≡ false
        → IsOnce u e
        → IsPermitted s e
    update-IsPermitted u (returned a v) h seen inside fresh k = inr (
      omega (arith, h.same_patches, k.one_patch),
      inr (t, w, k.kept_readings t seen, found, inside, fresh),
    )
    update-IsPermitted u (panicked v) h seen inside fresh k =
        omega (arith, h.same_patches, k.one_patch)

    window_guard-IsPermitted :
        (u : State P) → Kept s u → Sees t u.trace → IsPermitted s (window_guard P rec current w t u)
    unfolding window_guard
    window_guard-IsPermitted u k seen =
        let done =
          has_completed_in_window u.policy.status.maintenance_history w.next_open w.window_end in
        let rest = safety_gates P rec current w t in
        let wait = pure {P = P} (ok (requeue_after w t)) in
        Post-if _ _ (w.in_window && done) wait (if not w.in_window then wait else rest) u
          (λ _. inl k.silent.same_patches)
          (λ fresh.
            Post-if _ _ (not w.in_window) wait rest u (λ _. inl k.silent.same_patches)
              (λ inside.
                update-IsPermitted u (rest u) k.silent seen (ground arith)
                  (ap (λ h. has_completed_in_window h w.next_open w.window_end) (sym k.same_history)
                    ∙ ground arith)
                  (safety_gates-IsOnce P w t rec u current)))

    in_progress_step-IsPermitted :
        (u : State P) (r : Option MaintenanceRecord)
        → Kept s u
        → Sees t u.trace
        → IsPermitted s (in_progress_step P rec current w t r u)
    unfolding in_progress_step
    in_progress_step-IsPermitted u (some r) k seen =
        Post-if _ _ (not w.in_window) (handle_window_expired P r) (monitor_maintenance P r w t) u
          (λ _. Silent-IsPermitted s u _ k.silent (handle_window_expired-IsSilent P u r))
          (λ _. Silent-IsPermitted s u _ k.silent (monitor_maintenance-IsSilent P r w t u))
    in_progress_step-IsPermitted u none k seen =
        Post-bind _ _ _
          (set_condition P condition_maintenance_in_progress condition_false "StaleConditionCleared"
            "no in-progress record found" u)
          (λ _. window_guard P rec current w t)
          (set_condition-Kept _ u condition_maintenance_in_progress condition_false
            "StaleConditionCleared" "no in-progress record found")
          (λ _ v h.
            window_guard-IsPermitted v (Kept-trans s u v k h) (h.silent.kept_readings t seen))

    pub maintenance_step-IsPermitted :
        (u : State P)
        → Kept s u
        → Sees t u.trace
        → IsPermitted s (maintenance_step P rec current w t u)
    unfolding maintenance_step
    maintenance_step-IsPermitted u k seen =
        Post-if _ _
          (is_condition_true_list u.policy.status.conditions condition_maintenance_in_progress)
          (in_progress_step P rec current w t
            (find_in_progress_record u.policy.status.maintenance_history))
          (window_guard P rec current w t) u (λ _. in_progress_step-IsPermitted u _ k seen)
          (λ _. window_guard-IsPermitted u k seen)
