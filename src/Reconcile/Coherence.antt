-- ===== src/Reconcile/Coherence.antt =====
-- A coherent status, the stages of a reconcile, and what it is to advance from them.
use mathlib.Core.Path.{subst}
use zalando_vertical_autosca.Common.{ℕ, ◌≡◌, ◌∙◌, ap, sym, ◌⊎◌, inl, inr, Bool, true, false, List}
use zalando_vertical_autosca.Api.{PostgresMemoryPolicy, PostgresMemoryPolicySpec, MaintenanceRecord}
use zalando_vertical_autosca.Platform.{Platform}
use zalando_vertical_autosca.Monad.{State, Exec, returned, panicked, M, bind_exec}
use zalando_vertical_autosca.Monad.Post.{Post}
use zalando_vertical_autosca.Monad.Trace.{OnlyReads, Reads}
use zalando_vertical_autosca.Reconcile.Runs.{Runs, same_status-Runs}
use zalando_vertical_autosca.Reconcile.Progress.{Progress, unchanged}

-- At most one run is in progress, and the condition MaintenanceInProgress is true just when one is.
abbrev pub CoherentPolicy : {Q : Type 0} → PostgresMemoryPolicy Q → Type 0
CoherentPolicy p = Runs 0 false p ⊎ Runs 1 true p

pub same_status-CoherentPolicy :
    {Q : Type 0} (p q : PostgresMemoryPolicy Q)
    → q.status ≡ p.status
    → CoherentPolicy p
    → CoherentPolicy q
same_status-CoherentPolicy p q e (inl h) =
    inl (
      same_status-Runs 0 false p q (ap (λ s. s.conditions) e) (ap (λ s. s.maintenance_history) e) h)
same_status-CoherentPolicy p q e (inr h) =
    inr
      (same_status-Runs 1 true p q (ap (λ s. s.conditions) e) (ap (λ s. s.maintenance_history) e) h)

module _ (P : Platform) (spec : PostgresMemoryPolicySpec P.quantities.Quantity)
    (old : List MaintenanceRecord) where
  -- Before the history is written: it and the spec are as at the start.
  pub record Stage (n : ℕ) (b : Bool) (u : State P) : Type 0 where
    pub runs : Runs n b u.policy
    pub kept : u.policy.status.maintenance_history ≡ old
    pub same_spec : u.policy.spec ≡ spec

  abbrev pub Waiting : State P → Type 0
  Waiting u = Stage 0 false u ⊎ Stage 1 true u

  pub record Advanced (u : State P) : Type 0 where
    pub coherent : CoherentPolicy u.policy
    pub same_spec : u.policy.spec ≡ spec
    pub progress : Progress P spec u.trace old u.policy.status.maintenance_history

  -- A run that returns, and has advanced.
  abbrev pub IsAdvanced : {A : Type 0} → Exec P A → Type 0
  IsAdvanced = Post (λ _. ⊥) (λ _ u. Advanced u)

  pub Waiting-Advanced : (u : State P) → Waiting u → Advanced u
  Waiting-Advanced u (inl h) = record {
    coherent = inl h.runs;
    same_spec = h.same_spec;
    progress = unchanged h.kept;
  }
  Waiting-Advanced u (inr h) = record {
    coherent = inr h.runs;
    same_spec = h.same_spec;
    progress = unchanged h.kept;
  }

  pub Stage-same_policy :
      (n : ℕ) (b : Bool) (s u : State P) → Stage n b s → u.policy ≡ s.policy → Stage n b u
  Stage-same_policy n b s u h e = record {
    runs = subst (λ p. Runs n b p) (sym e) h.runs;
    kept = ap (λ p. p.status.maintenance_history) e ∙ h.kept;
    same_spec = ap (λ p. p.spec) e ∙ h.same_spec;
  }

  pub Stage-Reads : (n : ℕ) (b : Bool) (s u : State P) → Stage n b s → Reads s u → Stage n b u
  Stage-Reads n b s u h r = Stage-same_policy n b s u h r.same_policy

  pub Waiting-same_policy : (s u : State P) → Waiting s → u.policy ≡ s.policy → Waiting u
  Waiting-same_policy s u (inl h) e = inl (Stage-same_policy 0 false s u h e)
  Waiting-same_policy s u (inr h) e = inr (Stage-same_policy 1 true s u h e)

  -- Reads, and a continuation that advances.
  pub Reads-IsAdvanced :
      {A B : Type 0} (s : State P) (e : Exec P A) (f : A → M P B)
      → OnlyReads s e
      → ((a : A) (u : State P) → Reads s u → IsAdvanced (f a u))
      → IsAdvanced (bind_exec e f)
  Reads-IsAdvanced s (returned a u) f r k = k a u r
  Reads-IsAdvanced s (panicked u) f r k = r
