-- ===== src/Reconcile/Intents.antt =====
-- What a patch of the postgresql resource asks for, from the patch itself to the start of a run.
use zalando_vertical_autosca.Common.{
  String, ◌≡◌, refl, sym, ap, ◌∙◌, ◌⊎◌, inl, inr, Option, some, List, ◌∷◌,
}
use zalando_vertical_autosca.Common.Errors.{Result, ok, err, Result-cases}
use zalando_vertical_autosca.Platform.{Platform}
use zalando_vertical_autosca.Monad.{State, Exec, returned, panicked, M, bind_exec, patch_postgresql}
use zalando_vertical_autosca.Monad.Post.{Post, Post-bind}
use zalando_vertical_autosca.Monad.Trace.{Update, updates, Silent, IsSilent, Reads}
use zalando_vertical_autosca.Parameters.{calculate_postgres_parameters}
use zalando_vertical_autosca.Vpa.{VpaRecommendation, recommend}
use zalando_vertical_autosca.Zalando.Patch.{patch_data, patch_resources}
use zalando_vertical_autosca.Reconcile.Effects.{fail_maintenance-IsSilent}
use zalando_vertical_autosca.Reconcile.Once.{start_patched-IsSilent, bootstrap_patched-IsSilent}
use zalando_vertical_autosca.Reconcile.Maintenance.{
  cpu_cores, calculate_pg_params, start_patched, start_with_params, start_maintenance,
}
use zalando_vertical_autosca.Reconcile.Policy.{
  bootstrap_millis, bootstrap_patched, bootstrap_with, bootstrap,
}

module _ (P : Platform) (s : State P) where
  open P use {quantities, runtime, templates, client}

  -- The update sends the patch of `rec`, with the policy's parameters for it, to the policy's
  -- cluster.
  pub record Sends (rec : VpaRecommendation quantities.Quantity) (up : Update) : Type 0 where
    pub namespace : up.namespace ≡ s.policy.namespace
    pub cluster : up.cluster ≡ s.policy.spec.target_cluster
    pub pg_params : List (String × String)
    pub computed :
        calculate_postgres_parameters templates runtime s.policy.spec.postgres_parameters
          (quantities.value rec.memory)
          (cpu_cores quantities.milli_value rec)
        ≡ ok pg_params
    pub body :
        runtime.marshal
          (patch_data quantities runtime.out_of_range s.policy.spec.overcommit rec pg_params)
        ≡ ok up.body

  -- The memory of the bootstrap is the policy's initial memory, with the CPU in proportion.
  abbrev pub IsInitial : VpaRecommendation quantities.Quantity → Type 0
  IsInitial rec =
      (q : quantities.Quantity) × (s.policy.spec.initial_memory ≡ some q)
      × (rec ≡ record {
        memory = q;
        cpu = some (
            quantities.new_milli_quantity
              (bootstrap_millis runtime.out_of_range (quantities.value q)));
      })

  -- Any other is what the reader makes of the server's answer for the policy's VPA.
  abbrev pub IsRecommended : VpaRecommendation quantities.Quantity → Type 0
  IsRecommended rec =
      (w : client.World) × (recommend P s.policy
          (client.get_vpa w s.policy.namespace s.policy.spec.vpa_name).0
        ≡ ok rec)

  abbrev pub IsSource : VpaRecommendation quantities.Quantity → Type 0
  IsSource rec = IsInitial rec ⊎ IsRecommended rec

  abbrev pub Intended : Update → Type 0
  Intended up = (rec : VpaRecommendation quantities.Quantity) × IsSource rec × Sends rec up

  -- Since `s`, nothing was sent to the cluster, or one update, which was intended.
  abbrev pub Updated : State P → Type 0
  Updated u =
      (updates u.trace ≡ updates s.trace)
      ⊎ ((up : Update) × (updates u.trace ≡ up ∷ updates s.trace) × Intended up)

  abbrev pub IsUpdated : {A : Type 0} → Exec P A → Type 0
  IsUpdated = Post Updated (λ _ u. Updated u)

  -- Nothing was sent so far, and the policy is the same but for its status.
  pub record Still (u : State P) : Type 0 where
    pub same_updates : updates u.trace ≡ updates s.trace
    pub same_spec : u.policy.spec ≡ s.policy.spec
    pub same_namespace : u.policy.namespace ≡ s.policy.namespace

  pub Still-Reads : (u v : State P) → Still u → Reads u v → Still v
  Still-Reads u v k r = record {
    same_updates = r.silent.same_updates ∙ k.same_updates;
    same_spec = ap (λ p. p.spec) r.same_policy ∙ k.same_spec;
    same_namespace = ap (λ p. p.namespace) r.same_policy ∙ k.same_namespace;
  }

  pub Still-IsUpdated :
      {A : Type 0} (u : State P) (e : Exec P A) → Still u → IsSilent u e → IsUpdated e
  Still-IsUpdated u (returned a v) k h = inl (h.same_updates ∙ k.same_updates)
  Still-IsUpdated u (panicked v) k h = inl (h.same_updates ∙ k.same_updates)

  Updated-Silent : (u v : State P) → Updated u → Silent u v → Updated v
  Updated-Silent u v (inl e) h = inl (h.same_updates ∙ e)
  Updated-Silent u v (inr (up, e, intended)) h = inr (up, h.same_updates ∙ e, intended)

  Updated-IsUpdated :
      {A : Type 0} (u : State P) (e : Exec P A) → Updated u → IsSilent u e → IsUpdated e
  Updated-IsUpdated u (returned a v) k h = Updated-Silent u v k h
  Updated-IsUpdated u (panicked v) k h = Updated-Silent u v k h

  -- The patch, for a recommendation and parameters that are the policy's.
  patch_resources-Updated :
      (u : State P) (rec : VpaRecommendation quantities.Quantity)
      (pg_params : List (String × String))
      → Still u
      → IsSource rec
      → calculate_postgres_parameters templates runtime s.policy.spec.postgres_parameters
          (quantities.value rec.memory)
          (cpu_cores quantities.milli_value rec)
        ≡ ok pg_params
      → Post Updated (λ _ v. Updated v) (patch_resources P rec pg_params u)
  unfolding patch_resources patch_postgresql
  patch_resources-Updated u rec pg_params k source computed =
      elim (Result-cases (
        runtime.marshal
          (patch_data quantities runtime.out_of_range u.policy.spec.overcommit rec pg_params))) [
            | inl (raw, e) ↦ rw e (
                inr (
                  record {
                    namespace = u.policy.namespace;
                    cluster = u.policy.spec.target_cluster;
                    body = raw;
                  },
                  rw k.same_updates refl,
                  (
                    rec,
                    source,
                    record {
                      namespace = k.same_namespace;
                      cluster = ap (λ x. x.target_cluster) k.same_spec;
                      pg_params = pg_params;
                      computed = computed;
                      body =
                          ap
                            (λ x. runtime.marshal (
                              patch_data quantities runtime.out_of_range x.overcommit rec
                                pg_params))
                            (sym k.same_spec)
                          ∙ e;
                    },
                  ),
                ))
            | inr (x, e) ↦ rw e (inl k.same_updates)
          ]

  -- A patch, with what follows it.
  patch_then-IsUpdated :
      {A : Type 0} (u : State P) (rec : VpaRecommendation quantities.Quantity)
      (pg_params : List (String × String)) (f : Result (Unit {0}) → M P A)
      → Still u
      → IsSource rec
      → calculate_pg_params P u.policy
          (quantities.value rec.memory)
          (cpu_cores quantities.milli_value rec)
        ≡ ok pg_params
      → ((r : Result (Unit {0})) (v : State P) → IsSilent v (f r v))
      → IsUpdated (bind_exec (patch_resources P rec pg_params u) f)
  unfolding calculate_pg_params
  patch_then-IsUpdated u rec pg_params f k source computed silent =
      Post-bind _ _ _ (patch_resources P rec pg_params u) f
        (patch_resources-Updated u rec pg_params k source (
          ap
            (λ x.
              calculate_postgres_parameters templates runtime x.postgres_parameters
                (quantities.value rec.memory) (cpu_cores quantities.milli_value rec))
            (sym k.same_spec)
          ∙ computed))
        (λ r v h. Updated-IsUpdated v (f r v) h (silent r v))

  start_with_params-IsUpdated :
      (u : State P) (previous : String) (rec : VpaRecommendation quantities.Quantity)
      (r : Result (List (String × String)))
      → calculate_pg_params P u.policy
          (quantities.value rec.memory)
          (cpu_cores quantities.milli_value rec)
        ≡ r
      → Still u
      → IsSource rec
      → IsUpdated (start_with_params P previous rec r u)
  unfolding start_with_params
  start_with_params-IsUpdated u previous rec (err e) computed k source =
      Still-IsUpdated u _ k (fail_maintenance-IsSilent P u _)
  start_with_params-IsUpdated u previous rec (ok pg_params) computed k source =
      patch_then-IsUpdated u rec pg_params (start_patched P previous rec) k source computed
        (λ r v. start_patched-IsSilent P v previous rec r)

  pub start_maintenance-IsUpdated :
      (u : State P) (rec : VpaRecommendation quantities.Quantity)
      (current : Option quantities.Quantity)
      → Still u
      → IsSource rec
      → IsUpdated (start_maintenance P rec current u)
  unfolding start_maintenance
  start_maintenance-IsUpdated u rec current k source =
      start_with_params-IsUpdated u _ rec _ refl k source

  bootstrap_with-IsUpdated :
      (u : State P) (memory cpu : quantities.Quantity) (r : Result (List (String × String)))
      → calculate_pg_params P u.policy
          (quantities.value memory)
          (cpu_cores quantities.milli_value (record { memory = memory; cpu = some cpu }))
        ≡ r
      → Still u
      → IsSource (record { memory = memory; cpu = some cpu })
      → IsUpdated (bootstrap_with P memory cpu r u)
  unfolding bootstrap_with
  bootstrap_with-IsUpdated u memory cpu (err e) computed k source = inl k.same_updates
  bootstrap_with-IsUpdated u memory cpu (ok pg_params) computed k source =
      patch_then-IsUpdated u (record { memory = memory; cpu = some cpu }) pg_params
        (bootstrap_patched P memory cpu) k source computed
        (λ r v. bootstrap_patched-IsSilent P v memory cpu r)

  pub bootstrap-IsUpdated :
      (u : State P) (memory : quantities.Quantity)
      → Still u
      → s.policy.spec.initial_memory ≡ some memory
      → IsUpdated (bootstrap P memory u)
  unfolding bootstrap
  bootstrap-IsUpdated u memory k e =
      bootstrap_with-IsUpdated u memory _ _ refl k (inl (memory, e, refl))
