-- ===== src/Reconcile/Expiry.antt =====
-- `handleWindowExpired` ends the run, and how it ends follows from what it asked.
use mathlib.Core.Path.{subst}
use zalando_vertical_autosca.Common.{
  sym, ◌≡◌, refl, inl, inr, Bool, true, false, String, ◌∙◌, ◌⊎◌, List, [], ◌∷◌,
}
use zalando_vertical_autosca.Common.Errors.{Result, ok, err}
use zalando_vertical_autosca.Api.{
  MaintenanceRecord, completed, failed, MaintenancePhase, PostActionSpec, patch_applied,
  post_actions_triggered, other_phase,
}
use zalando_vertical_autosca.Platform.{Platform}
use zalando_vertical_autosca.Monad.{State, returned, record_event}
use zalando_vertical_autosca.Monad.Post.{Post, Post-bind, Post-returned, Post-map}
use zalando_vertical_autosca.Monad.Trace.{Reads}
use zalando_vertical_autosca.Zalando.Reads.{is_cluster_healthy-OnlyReads}
use zalando_vertical_autosca.Reconcile.Monitoring.{post_actions_done-OnlyReads}
use zalando_vertical_autosca.Zalando.{is_cluster_healthy}
use zalando_vertical_autosca.PostActions.{are_post_actions_complete}
use zalando_vertical_autosca.Reconcile.Maintenance.{
  Outcome, five_minutes, mark_success, grace_parsed, post_actions_done, expired_done,
  expired_healthy, handle_window_expired,
}
use zalando_vertical_autosca.Reconcile.Runs.{Runs}
use zalando_vertical_autosca.Reconcile.Closing.{Closes, fail-Closes, mark_success-Closes, verdict}

module _ (P : Platform) where
  open P use {quantities}

  grace-Closes :
      (s u : State P) (memory : quantities.Quantity) (applied : String)
      → u.policy ≡ s.policy
      → Runs 1 true s.policy
      → Post (λ _. ⊥) (Closes completed five_minutes s) (grace_parsed P (ok memory) applied u)
  unfolding grace_parsed record_event
  grace-Closes s u memory applied same h =
      Post-bind _ _ _
        (mark_success P memory "completed after window expired"
          "maintenance completed (grace period)" u)
        _
        (mark_success-Closes P s u memory "completed after window expired"
          "maintenance completed (grace period)" same h)
        (λ _ v e.
          let c = e five_minutes in
          record {
            runs = c.runs;
            at = c.at;
            reason = c.reason;
            written = c.written;
            says_so = c.says_so;
            asks_again = refl;
          })

  grace_parsed-Closes :
      (s u : State P) (r : Result quantities.Quantity) (applied : String)
      → u.policy ≡ s.policy
      → Runs 1 true s.policy
      → Post
          (λ _. ⊥)
          (Closes (verdict P (ok true) (ok true) r) five_minutes s)
          (grace_parsed P r applied u)
  unfolding grace_parsed
  grace_parsed-Closes s u (ok memory) applied same h = grace-Closes s u memory applied same h
  grace_parsed-Closes s u (err e) applied same h = fail-Closes P s u _ same h

  expired_done-Closes :
      (s u : State P) (r : MaintenanceRecord) (done : Result Bool)
      → u.policy ≡ s.policy
      → Runs 1 true s.policy
      → Post
          (λ _. ⊥)
          (Closes (verdict P (ok true) done (quantities.parse r.applied_memory)) five_minutes s)
          (expired_done P r done u)
  unfolding expired_done
  expired_done-Closes s u r (ok true) same h =
      grace_parsed-Closes s u (quantities.parse r.applied_memory) r.applied_memory same h
  expired_done-Closes s u r (ok false) same h = fail-Closes P s u _ same h
  expired_done-Closes s u r (err e) same h = fail-Closes P s u _ same h

  expired_healthy-Closes :
      (s u v : State P) (r : MaintenanceRecord) (healthy done : Result Bool)
      → u.policy ≡ s.policy
      → Runs 1 true s.policy
      → post_actions_done P r.phase u.policy.spec.post_actions u ≡ returned done v
      → Post
          (λ _. ⊥)
          (Closes (verdict P healthy done (quantities.parse r.applied_memory)) five_minutes s)
          (expired_healthy P r healthy u)
  unfolding expired_healthy
  expired_healthy-Closes s u v r (ok true) done same h asked =
      let kept =
        (Post-returned (λ _. ⊥) (λ _ z. Reads u z) _
          (post_actions_done-OnlyReads P u r.phase u.policy.spec.post_actions) asked).same_policy in
      rw asked (expired_done-Closes s v r done (kept ∙ same) h)
  expired_healthy-Closes s u v r (ok false) done same h asked = fail-Closes P s u _ same h
  expired_healthy-Closes s u v r (err e) done same h asked = fail-Closes P s u _ same h

  handle_window_expired-verdict :
      (s u v : State P) (r : MaintenanceRecord) (healthy done : Result Bool)
      → Runs 1 true s.policy
      → is_cluster_healthy P s.policy.namespace s.policy.spec.target_cluster s ≡ returned healthy u
      → post_actions_done P r.phase u.policy.spec.post_actions u ≡ returned done v
      → Post
          (λ _. ⊥)
          (Closes (verdict P healthy done (quantities.parse r.applied_memory)) five_minutes s)
          (handle_window_expired P r s)
  unfolding handle_window_expired
  handle_window_expired-verdict s u v r healthy done h found asked =
      let kept =
        (Post-returned (λ _. ⊥) (λ _ z. Reads s z) _
          (is_cluster_healthy-OnlyReads P s s.policy.namespace s.policy.spec.target_cluster)
          found).same_policy in
      rw found (expired_healthy-Closes s u v r healthy done kept h asked)

  -- What it takes for the post-actions of a run to be found done: in the second phase, that the
  -- question whether they are complete is answered with yes; in the first phase, that there are
  -- none; in any other, nothing.
  abbrev pub AreDone : MaintenancePhase → List PostActionSpec → Result Bool → Type 0
  AreDone phase actions complete = elim phase [
    | post_actions_triggered ↦ complete ≡ ok true
    | patch_applied ↦ actions ≡ []
    | other_phase _ ↦ Unit
  ]

  -- What it takes for an expired run to be completed.
  abbrev pub Succeeds : MaintenanceRecord → List PostActionSpec → Result Bool → Result Bool → Type 0
  Succeeds r actions healthy complete =
      (healthy ≡ ok true)
      × AreDone r.phase actions complete
      × (memory : quantities.Quantity) × (quantities.parse r.applied_memory ≡ ok memory)

  -- The run has been ended, as completed exactly if it succeeds.
  abbrev pub Expires :
      MaintenanceRecord → Result Bool → Result Bool → State P → Outcome → State P → Type 0
  Expires r healthy complete s outcome z =
      (Closes completed five_minutes s outcome z
        × Succeeds r s.policy.spec.post_actions healthy complete)
      ⊎ (Closes failed five_minutes s outcome z
          × (¬ Succeeds r s.policy.spec.post_actions healthy complete))

  post_actions_done-AreDone :
      (phase : MaintenancePhase) (actions : List PostActionSpec) (complete : Result Bool)
      (u v : State P)
      → are_post_actions_complete P actions u ≡ returned complete v
      → (done : Result Bool) × (w : State P) × (post_actions_done P phase actions u
          ≡ returned done w)
        × (done ≡ ok true → AreDone phase actions complete)
        × (AreDone phase actions complete → done ≡ ok true)
  unfolding post_actions_done
  post_actions_done-AreDone post_actions_triggered actions complete u v asked =
      (complete, v, asked, λ e. e, λ e. e)
  post_actions_done-AreDone patch_applied [] complete u v asked =
      (ok true, u, refl, λ _. refl, λ _. refl)
  post_actions_done-AreDone patch_applied (a ∷ actions) complete u v asked =
      (ok false, u, refl, λ e. absurd cc, λ e. absurd cc)
  post_actions_done-AreDone (other_phase _) actions complete u v asked =
      (ok true, u, refl, λ _. tt, λ _. refl)

  verdict-cases :
      (healthy done : Result Bool) (parsed : Result quantities.Quantity)
      → ((verdict P healthy done parsed ≡ completed)
          × (healthy ≡ ok true)
          × (done ≡ ok true)
          × (memory : quantities.Quantity) × (parsed ≡ ok memory))
        ⊎ ((verdict P healthy done parsed ≡ failed)
            × (healthy ≡ ok true
                → done ≡ ok true
                → (memory : quantities.Quantity) → parsed ≡ ok memory
                → ⊥))
  verdict-cases (ok true) (ok true) (ok memory) = inl (refl, refl, refl, memory, refl)
  verdict-cases (ok true) (ok true) (err e) = inr (refl, λ _ _ _ e'. cc)
  verdict-cases (ok true) (ok false) parsed = inr (refl, λ _ e' _ _. cc)
  verdict-cases (ok true) (err e) parsed = inr (refl, λ _ e' _ _. cc)
  verdict-cases (ok false) done parsed = inr (refl, λ e' _ _ _. cc)
  verdict-cases (err e) done parsed = inr (refl, λ e' _ _ _. cc)

  -- When the window of the one run in progress has expired, handleWindowExpired ends the run, given
  -- what IsClusterHealthy and, after it, ArePostActionsComplete answer. It is completed exactly if
  -- the cluster is healthy, the applied memory is a quantity, and the post-actions are done: in the
  -- second phase they are if ArePostActionsComplete says so, in the first if there are none, and in
  -- any other phase always. Else it is failed. Afterwards no run is in progress, the conditions
  -- MaintenanceInProgress and LastMaintenanceFailed say how it ended, and the next reconcile is due
  -- in five minutes.
  pub handle_window_expired-Closes :
      (s u v : State P) (r : MaintenanceRecord) (healthy complete : Result Bool)
      → Runs 1 true s.policy
      → is_cluster_healthy P s.policy.namespace s.policy.spec.target_cluster s ≡ returned healthy u
      → are_post_actions_complete P s.policy.spec.post_actions u ≡ returned complete v
      → Post (λ _. ⊥) (Expires r healthy complete s) (handle_window_expired P r s)
  handle_window_expired-Closes s u v r healthy complete h found asked =
      let kept =
        (Post-returned (λ _. ⊥) (λ _ z. Reads s z) _
          (is_cluster_healthy-OnlyReads P s s.policy.namespace s.policy.spec.target_cluster)
          found).same_policy in
      let (done, w, answered, only, all) =
        post_actions_done-AreDone r.phase s.policy.spec.post_actions complete u v asked in
      let closes = handle_window_expired-verdict s u w r healthy done h found (
        subst (λ p. post_actions_done P r.phase p.spec.post_actions u ≡ returned done w) (sym kept)
          answered) in
      elim (verdict-cases healthy done (quantities.parse r.applied_memory)) [
        | inl (how, is_healthy, is_done, memory, parsed) ↦
            Post-map _ _ _ _ (handle_window_expired P r s) closes (λ _ k. k)
              (λ o z c. inl (
                subst (λ status. Closes status five_minutes s o z) how c,
                (is_healthy, only is_done, memory, parsed),
              ))
        | inr (how, fails) ↦
            Post-map _ _ _ _ (handle_window_expired P r s) closes (λ _ k. k)
              (λ o z c. inr (
                subst (λ status. Closes status five_minutes s o z) how c,
                λ (is_healthy, are_done, memory, parsed).
                    fails is_healthy (all are_done) memory parsed,
              ))
      ]
