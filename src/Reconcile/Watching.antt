-- ===== src/Reconcile/Watching.antt =====
-- `monitorMaintenance`: what it does to the run in progress follows from what it asked.
use mathlib.Core.Path.{subst}
use zalando_vertical_autosca.Common.{
  ◌≡◌, refl, sym, ap, ◌∙◌, Bool, true, false, String, List, [], ◌∷◌,
}
use zalando_vertical_autosca.Common.Int.{ℤ}
use zalando_vertical_autosca.Common.Errors.{Result, ok, err, GoError}
use zalando_vertical_autosca.Api.{
  MaintenanceRecord, PostActionSpec, failed, patch_applied, post_actions_triggered,
}
use zalando_vertical_autosca.Platform.{Platform}
use zalando_vertical_autosca.Monad.{State, returned, record_event}
use zalando_vertical_autosca.Monad.Post.{Post, Post-bind, Post-returned}
use zalando_vertical_autosca.Monad.Trace.{Reads}
use zalando_vertical_autosca.Conditions.{modify_in_progress}
use zalando_vertical_autosca.Window.{WindowResult, requeue_after}
use zalando_vertical_autosca.PostActions.{trigger_post_actions, are_post_actions_complete}
use zalando_vertical_autosca.PostActions.Laws.{
  trigger_post_actions-OnlyReads, are_post_actions_complete-OnlyReads,
}
use zalando_vertical_autosca.Zalando.{is_cluster_healthy}
use zalando_vertical_autosca.Zalando.Reads.{is_cluster_healthy-OnlyReads}
use zalando_vertical_autosca.Reconcile.Maintenance.{
  Outcome, five_minutes, thirty_seconds, mark_success, complete_parsed, complete_maintenance,
  set_phase, phase_triggered, trigger_or_complete, patched_healthy, triggered_done, monitor_phase,
  monitor_maintenance,
}
use zalando_vertical_autosca.Reconcile.Runs.{Runs}
use zalando_vertical_autosca.Reconcile.Closing.{Closes, verdict, fail-Closes, mark_success-Closes}

module _ {P : Platform} where
  -- The policy is as it was in `s`, and the next reconcile is due in thirty seconds.
  abbrev pub Waits : State P → Outcome → State P → Type 0
  Waits s outcome u = (u.policy ≡ s.policy) × (outcome ≡ ok thirty_seconds)

  -- The policy is as it was in `s`, and an error is returned.
  abbrev pub Fails : State P → Outcome → State P → Type 0
  Fails s outcome u = (u.policy ≡ s.policy) × ((e : GoError) × (outcome ≡ err e))

module _ (P : Platform) (r : MaintenanceRecord) (w : WindowResult) (t : ℤ) where
  open P use {quantities}

  -- When the next reconcile is due after a run that is completed, or whose memory does not parse.
  abbrev pub due : Result quantities.Quantity → ℤ
  due (ok _) = requeue_after w t
  due (err _) = five_minutes

  -- The run has been ended by `completeMaintenance`.
  abbrev pub Completes : State P → Outcome → State P → Type 0
  Completes =
      Closes (verdict P (ok true) (ok true) (quantities.parse r.applied_memory))
        (due (quantities.parse r.applied_memory))

  complete_parsed-Closes :
      (s u : State P) (parsed : Result quantities.Quantity) (applied : String)
      → u.policy ≡ s.policy
      → Runs 1 true s.policy
      → Post
          (λ _. ⊥)
          (Closes (verdict P (ok true) (ok true) parsed) (due parsed) s)
          (complete_parsed P parsed applied w t u)
  unfolding complete_parsed record_event
  complete_parsed-Closes s u (err e) applied same h = fail-Closes P s u _ same h
  complete_parsed-Closes s u (ok memory) applied same h =
      Post-bind _ _ _ (mark_success P memory "" "maintenance completed successfully" u) _
        (mark_success-Closes P s u memory "" "maintenance completed successfully" same h)
        (λ _ v e.
          let c = e (requeue_after w t) in
          record {
            runs = c.runs;
            at = c.at;
            reason = c.reason;
            written = c.written;
            says_so = c.says_so;
            asks_again = refl;
          })

  -- What becomes of the run, by the answer about the post-actions.
  abbrev pub Watches : Result Bool → State P → Outcome → State P → Type 0
  Watches (ok true) = Completes
  Watches (ok false) = Waits
  Watches (err _) = Fails

  triggered_done-Watches :
      (s u : State P) (done : Result Bool)
      → u.policy ≡ s.policy
      → Runs 1 true s.policy
      → Post (λ _. ⊥) (Watches done s) (triggered_done P r w t done u)
  unfolding triggered_done complete_maintenance
  triggered_done-Watches s u (ok true) same h = complete_parsed-Closes s u _ _ same h
  triggered_done-Watches s u (ok false) same h = (same, refl)
  triggered_done-Watches s u (err e) same h = (same, (_, refl))

  -- While a run waits for its post-actions, monitorMaintenance asks whether they are complete. If
  -- they are, it ends the run, as completed if the applied memory is a quantity; if not, it leaves
  -- the policy as it was and asks to be called in thirty seconds; an error is returned, with the
  -- policy as it was.
  pub monitor_maintenance-Watches :
      (s v : State P) (done : Result Bool)
      → r.phase ≡ post_actions_triggered
      → Runs 1 true s.policy
      → are_post_actions_complete P s.policy.spec.post_actions s ≡ returned done v
      → Post (λ _. ⊥) (Watches done s) (monitor_maintenance P r w t s)
  unfolding monitor_maintenance monitor_phase
  monitor_maintenance-Watches s v done phase h asked =
      let kept =
        (Post-returned (λ _. ⊥) (λ _ z. Reads s z) _
          (are_post_actions_complete-OnlyReads P s.policy.spec.post_actions s) asked).same_policy in
      subst (λ p. Post (λ _. ⊥) (Watches done s) (monitor_phase P p r w t s)) (sym phase)
        (rw asked (triggered_done-Watches s v done kept h))

  -- The post-actions have been triggered, and the run waits for them.
  pub record Triggers (s : State P) (outcome : Outcome) (u : State P) : Type 0 where
    pub moved :
        u.policy.status.maintenance_history
        ≡ modify_in_progress
            (λ r. record r { phase = post_actions_triggered })
            s.policy.status.maintenance_history
    pub same_conditions : u.policy.status.conditions ≡ s.policy.status.conditions
    pub asks_again : outcome ≡ ok thirty_seconds

  -- What becomes of the run, by the answer to the trigger.
  abbrev pub Moves : Result (Unit {0}) → State P → Outcome → State P → Type 0
  Moves (ok _) = Triggers
  Moves (err _) = Closes failed five_minutes

  phase_triggered-Moves :
      (s u : State P) (answer : Result (Unit {0}))
      → u.policy ≡ s.policy
      → Runs 1 true s.policy
      → Post (λ _. ⊥) (Moves answer s) (phase_triggered P answer u)
  unfolding phase_triggered set_phase
  phase_triggered-Moves s u (ok _) same h = record {
    moved =
        ap
          (λ p.
            modify_in_progress (λ r. record r { phase = post_actions_triggered })
              p.status.maintenance_history)
          same;
    same_conditions = ap (λ p. p.status.conditions) same;
    asks_again = refl;
  }
  phase_triggered-Moves s u (err e) same h = fail-Closes P s u _ same h

  -- What becomes of a run whose patch has been applied, by the answer about the cluster, the
  -- post-actions of the policy and the answer to their trigger.
  abbrev pub Proceeds :
      Result Bool → List PostActionSpec → Result (Unit {0}) → State P → Outcome → State P → Type 0
  Proceeds (ok true) [] answer = Completes
  Proceeds (ok true) (_ ∷ _) answer = Moves answer
  Proceeds (ok false) actions answer = Waits
  Proceeds (err _) actions answer = Fails

  trigger_or_complete-Proceeds :
      (s u v : State P) (actions : List PostActionSpec) (answer : Result (Unit {0}))
      → u.policy ≡ s.policy
      → Runs 1 true s.policy
      → trigger_post_actions P actions u ≡ returned answer v
      → Post (λ _. ⊥) (Proceeds (ok true) actions answer s) (trigger_or_complete P r w t actions u)
  unfolding trigger_or_complete complete_maintenance
  trigger_or_complete-Proceeds s u v [] answer same h asked = complete_parsed-Closes s u _ _ same h
  trigger_or_complete-Proceeds s u v (a ∷ actions) answer same h asked =
      let kept =
        (Post-returned (λ _. ⊥) (λ _ z. Reads u z) _
          (trigger_post_actions-OnlyReads P (a ∷ actions) u) asked).same_policy in
      rw asked (phase_triggered-Moves s v answer (kept ∙ same) h)

  patched_healthy-Proceeds :
      (s u v : State P) (healthy : Result Bool) (answer : Result (Unit {0}))
      → u.policy ≡ s.policy
      → Runs 1 true s.policy
      → trigger_post_actions P u.policy.spec.post_actions u ≡ returned answer v
      → Post
          (λ _. ⊥)
          (Proceeds healthy u.policy.spec.post_actions answer s)
          (patched_healthy P r w t healthy u)
  unfolding patched_healthy
  patched_healthy-Proceeds s u v (ok true) answer same h asked =
      trigger_or_complete-Proceeds s u v _ answer same h asked
  patched_healthy-Proceeds s u v (ok false) answer same h asked = (same, refl)
  patched_healthy-Proceeds s u v (err e) answer same h asked = (same, (_, refl))

  -- While a run waits for the cluster, monitorMaintenance asks whether the cluster is healthy. If
  -- not, it leaves the policy as it was and asks to be called in thirty seconds; an error is
  -- returned, with the policy as it was. If it is, a run without post-actions is ended, as completed
  -- if the applied memory is a quantity; with post-actions, they are triggered, and the run moves to
  -- its second phase, or fails if a trigger does.
  pub monitor_maintenance-Proceeds :
      (s u v : State P) (healthy : Result Bool) (answer : Result (Unit {0}))
      → r.phase ≡ patch_applied
      → Runs 1 true s.policy
      → is_cluster_healthy P s.policy.namespace s.policy.spec.target_cluster s ≡ returned healthy u
      → trigger_post_actions P u.policy.spec.post_actions u ≡ returned answer v
      → Post
          (λ _. ⊥)
          (Proceeds healthy u.policy.spec.post_actions answer s)
          (monitor_maintenance P r w t s)
  unfolding monitor_maintenance monitor_phase
  monitor_maintenance-Proceeds s u v healthy answer phase h found asked =
      let kept =
        (Post-returned (λ _. ⊥) (λ _ z. Reads s z) _
          (is_cluster_healthy-OnlyReads P s s.policy.namespace s.policy.spec.target_cluster)
          found).same_policy in
      subst
        (λ p.
          Post (λ _. ⊥) (Proceeds healthy u.policy.spec.post_actions answer s)
            (monitor_phase P p r w t s))
        (sym phase) (rw found (patched_healthy-Proceeds s u v healthy answer kept h asked))
