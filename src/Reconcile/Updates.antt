-- ===== src/Reconcile/Updates.antt =====
-- What a reconcile asks of the postgresql resource, and from whom it has it.
use zalando_vertical_autosca.Common.{◌≡◌, refl, sym, ap, ◌∙◌, inl, Option, none, some}
use zalando_vertical_autosca.Common.Int.{ℤ}
use zalando_vertical_autosca.Common.Errors.{
  Result, ok, err, api, recommendation, wrapped, plain, GoError,
}
use zalando_vertical_autosca.Api.{condition_true, condition_vpa_recommendation_ready}
use zalando_vertical_autosca.Platform.{Platform}
use zalando_vertical_autosca.Monad.{State, now, get_vpa, record_event}
use zalando_vertical_autosca.Monad.Post.{Post, Post-bind, Post-map}
use zalando_vertical_autosca.Window.{WindowResult}
use zalando_vertical_autosca.Vpa.{VpaRecommendation, recommend, read_recommendation}
use zalando_vertical_autosca.Zalando.{get_current_memory}
use zalando_vertical_autosca.Zalando.Reads.{get_current_memory-ReadsOrPanics}
use zalando_vertical_autosca.Reconcile.Status.{set_condition}
use zalando_vertical_autosca.Reconcile.Policy.{
  window_evaluated, window_step, recommendation_failed, recommended, vpa_step, initial_step,
  memory_read, reconcile_policy,
}
use zalando_vertical_autosca.Reconcile.Intents.{
  IsRecommended, Updated, IsUpdated, Still, Still-Reads, bootstrap-IsUpdated,
}
use zalando_vertical_autosca.Reconcile.Gating.{set_condition-Still, maintenance_step-IsUpdated}

module _ (P : Platform) (s : State P) where
  open P use {quantities}

  window_evaluated-IsUpdated :
      (u : State P) (rec : VpaRecommendation quantities.Quantity)
      (current : Option quantities.Quantity) (t : ℤ) (r : Result WindowResult)
      → IsRecommended P s rec
      → Still P s u
      → IsUpdated P s (window_evaluated P rec current t r u)
  unfolding window_evaluated
  window_evaluated-IsUpdated u rec current t (err e) source k = inl k.same_updates
  window_evaluated-IsUpdated u rec current t (ok w) source k =
      maintenance_step-IsUpdated P s rec source w t u current k

  window_step-IsUpdated :
      (u : State P) (rec : VpaRecommendation quantities.Quantity)
      (current : Option quantities.Quantity)
      → IsRecommended P s rec
      → Still P s u
      → IsUpdated P s (window_step P rec current u)
  unfolding window_step now
  window_step-IsUpdated u rec current source k =
      window_evaluated-IsUpdated _ rec current _ _ source (record {
        same_updates = k.same_updates;
        same_spec = k.same_spec;
        same_namespace = k.same_namespace;
      })

  recommendation_failed-IsUpdated :
      (u : State P) (e : GoError) → Still P s u → IsUpdated P s (recommendation_failed P e u)
  unfolding recommendation_failed set_condition now record_event
  recommendation_failed-IsUpdated u (recommendation reason message) k = inl k.same_updates
  recommendation_failed-IsUpdated u (api reason message) k = inl k.same_updates
  recommendation_failed-IsUpdated u (wrapped context e) k = inl k.same_updates
  recommendation_failed-IsUpdated u (plain message) k = inl k.same_updates

  recommended-IsUpdated :
      (u : State P) (current : Option quantities.Quantity)
      (r : Result (VpaRecommendation quantities.Quantity))
      → ((rec : VpaRecommendation quantities.Quantity) → r ≡ ok rec → IsRecommended P s rec)
      → Still P s u
      → IsUpdated P s (recommended P current r u)
  unfolding recommended
  recommended-IsUpdated u current (err e) source k = recommendation_failed-IsUpdated u e k
  recommended-IsUpdated u current (ok rec) source k =
      Post-bind _ _ _
        (set_condition P condition_vpa_recommendation_ready condition_true "Ready"
          "VPA recommendation is available" u)
        (λ _ v. window_step P rec current (record v {
          policy = record (v.policy) {
            status = record (v.policy.status) { memory_target = some rec.memory };
          };
        }))
        (set_condition-Still P s _ u condition_vpa_recommendation_ready condition_true "Ready"
          "VPA recommendation is available" k)
        (λ _ v h. window_step-IsUpdated _ rec current (source rec refl) (record {
          same_updates = h.same_updates;
          same_spec = h.same_spec;
          same_namespace = h.same_namespace;
        }))

  -- The policy is still the one that the run began with.
  vpa_step-IsUpdated :
      (u : State P) (current : Option quantities.Quantity)
      → Still P s u
      → u.policy ≡ s.policy
      → IsUpdated P s (vpa_step P current u)
  unfolding vpa_step read_recommendation get_vpa
  vpa_step-IsUpdated u current k same =
      recommended-IsUpdated _ current _
        (λ rec e. (
          u.world,
          ap (λ p. recommend P p (P.client.get_vpa u.world p.namespace p.spec.vpa_name).0)
                (sym same)
              ∙ e,
        ))
        (record {
          same_updates = k.same_updates;
          same_spec = k.same_spec;
          same_namespace = k.same_namespace;
        })

  initial_step-IsUpdated :
      (u : State P) (o : Option quantities.Quantity)
      → s.policy.spec.initial_memory ≡ o
      → Still P s u
      → u.policy ≡ s.policy
      → IsUpdated P s (initial_step P o u)
  unfolding initial_step
  initial_step-IsUpdated u none e k same = vpa_step-IsUpdated u none k same
  initial_step-IsUpdated u (some q) e k same = bootstrap-IsUpdated P s u q k e

  memory_read-IsUpdated :
      (u : State P) (r : Result (Option quantities.Quantity))
      → Still P s u
      → u.policy ≡ s.policy
      → IsUpdated P s (memory_read P r u)
  unfolding memory_read
  memory_read-IsUpdated u (err e) k same = inl k.same_updates
  memory_read-IsUpdated u (ok (some current)) k same = vpa_step-IsUpdated u (some current) k same
  memory_read-IsUpdated u (ok none) k same =
      initial_step-IsUpdated u _ (ap (λ p. p.spec.initial_memory) (sym same)) k same

  -- A reconcile, however it ends, sends the postgresql resource nothing, or one update. That goes to
  -- the policy's cluster in the policy's namespace, and is the patch for a memory and a CPU, with the
  -- policy's parameters computed from these: either the policy's initial memory with the CPU of the
  -- bootstrap, or what the reader makes of an answer of the server for the policy's VPA.
  pub reconcile_policy-Updated :
      Post (λ u. Updated P s u) (λ _ u. Updated P s u) (reconcile_policy P s)
  unfolding reconcile_policy
  reconcile_policy-Updated =
      Post-bind _ (λ _ u. Still P s u × (u.policy ≡ s.policy)) _
        (get_current_memory P s.policy.namespace s.policy.spec.target_cluster s) (memory_read P)
        (Post-map _ _ _ _ (get_current_memory P s.policy.namespace s.policy.spec.target_cluster s)
          (get_current_memory-ReadsOrPanics P s _ _) (λ u r. inl r.silent.same_updates)
          (λ _ u r. (
            Still-Reads P s s u
                (record { same_updates = refl; same_spec = refl; same_namespace = refl }) r,
            r.same_policy,
          )))
        (λ r u h. memory_read-IsUpdated u r h.0 h.1)
