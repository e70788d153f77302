-- ===== src/Monad/Trace.antt =====
-- What a run did to the cluster and when it read the clock, as read off its trace; and the
-- operations that neither patch the cluster nor touch the policy's identity and spec.
use zalando_vertical_autosca.Common.{ℕ, suc, ◌+◌, ◌≡◌, refl, ◌∙◌, String, List, [], ◌∷◌, ◌⊎◌, arith}
use zalando_vertical_autosca.Common.Int.{ℤ}
use zalando_vertical_autosca.Platform.{Platform}
use zalando_vertical_autosca.Monad.{
  Call, read_clock, patched_postgresql, State, Exec, returned, panicked, M, bind_exec, now, get_vpa,
  client_get_postgresql, patch_postgresql, get_deployment, get_stateful_set, get_daemon_set,
  patch_workload, record_event,
}
use zalando_vertical_autosca.Monad.Post.{Post, Post-map}

-- A patch of the postgresql resource, as it was sent.
pub record Update : Type 0 where
  pub namespace : String
  pub cluster : String
  pub body : String

module _ {P : Platform} where
  -- The patches of the postgresql resource in a trace, the newest first.
  abbrev pub updates : List (Call P) → List Update
  updates [] = []
  updates (patched_postgresql namespace cluster body _ ∷ trace) =
      record { namespace = namespace; cluster = cluster; body = body } ∷ updates trace
  updates (_ ∷ trace) = updates trace

  -- How often a trace patches the postgresql resource.
  abbrev pub patches : List (Call P) → ℕ
  patches [] = 0
  patches (patched_postgresql _ _ _ _ ∷ trace) = suc (patches trace)
  patches (_ ∷ trace) = patches trace

  -- A reading of the clock, and that a trace has it.
  abbrev pub IsReading : ℤ → Call P → Type 0
  IsReading t (read_clock u) = u ≡ t
  IsReading t _ = ⊥

  abbrev pub Sees : ℤ → List (Call P) → Type 0
  Sees t [] = ⊥
  Sees t (c ∷ trace) = IsReading t c ⊎ Sees t trace

  -- From `s` to `s'` the postgresql resource was not patched and no clock reading was lost.
  pub record Silent (s s' : State P) : Type 0 where
    pub same_patches : patches s'.trace ≡ patches s.trace
    pub same_updates : updates s'.trace ≡ updates s.trace
    pub kept_readings : (t : ℤ) → Sees t s.trace → Sees t s'.trace

  -- And the policy is as it was.
  pub record Reads (s s' : State P) : Type 0 where
    pub silent : Silent s s'
    pub same_policy : s'.policy ≡ s.policy

  pub Silent-refl : (s : State P) → Silent s s
  Silent-refl s = record { same_patches = refl; same_updates = refl; kept_readings = λ t h. h }

  pub Silent-trans : (s t u : State P) → Silent s t → Silent t u → Silent s u
  Silent-trans s t u h k = record {
    same_patches = k.same_patches ∙ h.same_patches;
    same_updates = k.same_updates ∙ h.same_updates;
    kept_readings = λ i seen. k.kept_readings i (h.kept_readings i seen);
  }

  pub Reads-refl : (s : State P) → Reads s s
  Reads-refl s = record { silent = Silent-refl s; same_policy = refl }

  pub Reads-trans : (s t u : State P) → Reads s t → Reads t u → Reads s u
  Reads-trans s t u h k = record {
    silent = Silent-trans s t u h.silent k.silent;
    same_policy = k.same_policy ∙ h.same_policy;
  }

  -- A run of such a kind, however it ends.
  abbrev pub IsSilent : {A : Type 0} → State P → Exec P A → Type 0
  IsSilent s = Post (λ s'. Silent s s') (λ _ s'. Silent s s')

  -- A run that returns, with no more than reads.
  abbrev pub OnlyReads : {A : Type 0} → State P → Exec P A → Type 0
  OnlyReads s = Post (λ _. ⊥) (λ _ s'. Reads s s')

  abbrev pub ReadsOrPanics : {A : Type 0} → State P → Exec P A → Type 0
  ReadsOrPanics s = Post (λ s'. Reads s s') (λ _ s'. Reads s s')

  pub OnlyReads-bind :
      {A B : Type 0} (s : State P) (e : Exec P A) (f : A → M P B)
      → OnlyReads s e
      → ((a : A) (t : State P) → OnlyReads t (f a t))
      → OnlyReads s (bind_exec e f)
  OnlyReads-bind s (returned a t) f h k =
      Post-map _ _ _ _ (f a t) (k a t) (λ _ bad. bad) (λ _ u. Reads-trans s t u h)
  OnlyReads-bind s (panicked t) f h k = h

  pub ReadsOrPanics-bind :
      {A B : Type 0} (s : State P) (e : Exec P A) (f : A → M P B)
      → OnlyReads s e
      → ((a : A) (t : State P) → ReadsOrPanics t (f a t))
      → ReadsOrPanics s (bind_exec e f)
  ReadsOrPanics-bind s (returned a t) f h k =
      Post-map _ _ _ _ (f a t) (k a t) (λ u. Reads-trans s t u h) (λ _ u. Reads-trans s t u h)
  ReadsOrPanics-bind s (panicked t) f h k = absurd h

  pub IsSilent-bind :
      {A B : Type 0} (s : State P) (e : Exec P A) (f : A → M P B)
      → IsSilent s e
      → ((a : A) (t : State P) → IsSilent t (f a t))
      → IsSilent s (bind_exec e f)
  IsSilent-bind s (returned a t) f h k =
      Post-map _ _ _ _ (f a t) (k a t) (λ u. Silent-trans s t u h) (λ _ u. Silent-trans s t u h)
  IsSilent-bind s (panicked t) f h k = h

  pub OnlyReads-IsSilent : {A : Type 0} (s : State P) (e : Exec P A) → OnlyReads s e → IsSilent s e
  OnlyReads-IsSilent s (returned a t) h = h.silent
  OnlyReads-IsSilent s (panicked t) h = absurd h

module _ (P : Platform) (s : State P) where
  pub now-OnlyReads : OnlyReads s (now P s)
  unfolding now
  now-OnlyReads = ground arith

  pub get_vpa-OnlyReads : (namespace name : String) → OnlyReads s (get_vpa P namespace name s)
  unfolding get_vpa
  get_vpa-OnlyReads namespace name = ground arith

  pub client_get_postgresql-OnlyReads :
      (namespace name : String) → OnlyReads s (client_get_postgresql P namespace name s)
  unfolding client_get_postgresql
  client_get_postgresql-OnlyReads namespace name = ground arith

  pub get_deployment-OnlyReads :
      (namespace name : String) → OnlyReads s (get_deployment P namespace name s)
  unfolding get_deployment
  get_deployment-OnlyReads namespace name = ground arith

  pub get_stateful_set-OnlyReads :
      (namespace name : String) → OnlyReads s (get_stateful_set P namespace name s)
  unfolding get_stateful_set
  get_stateful_set-OnlyReads namespace name = ground arith

  pub get_daemon_set-OnlyReads :
      (namespace name : String) → OnlyReads s (get_daemon_set P namespace name s)
  unfolding get_daemon_set
  get_daemon_set-OnlyReads namespace name = ground arith

  pub patch_workload-OnlyReads :
      (kind namespace name raw : String) → OnlyReads s (patch_workload P kind namespace name raw s)
  unfolding patch_workload
  patch_workload-OnlyReads kind namespace name raw = ground arith

  pub record_event-OnlyReads :
      (type reason message : String) → OnlyReads s (record_event P type reason message s)
  unfolding record_event
  record_event-OnlyReads type reason message = ground arith

  pub patch_postgresql-once :
      (namespace name raw : String)
      → Post
          (λ _. ⊥)
          (λ _ s'.
            (s'.policy ≡ s.policy)
            × (patches s'.trace ≡ patches s.trace + 1)
            × ((t : ℤ) → Sees t s.trace → Sees t s'.trace))
          (patch_postgresql P namespace name raw s)
  unfolding patch_postgresql
  patch_postgresql-once namespace name raw = ground arith
