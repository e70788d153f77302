-- ===== src/PostActions/Calls.antt =====
-- Runs of the post-actions that keep the policy and go on from the trace.
use zalando_vertical_autosca.Common.{◌≡◌, refl, String, List}
use zalando_vertical_autosca.Platform.{Platform}
use zalando_vertical_autosca.Monad.{
  State, Call, Exec, get_deployment, get_stateful_set, get_daemon_set,
}
use zalando_vertical_autosca.Monad.Post.{Post}
use zalando_vertical_autosca.Monad.Order.{Extends, same, more}

module _ {P : Platform} where
  -- A run that keeps the policy, and has done `R` since its start if it returns `a`.
  abbrev pub Does :
      {A : Type 0} → A → (List (Call P) → List (Call P) → Type 0) → State P → Exec P A → Type 0
  Does a R s = Post (λ _. ⊥) (λ r u. (u.policy ≡ s.policy) × (r ≡ a → R s.trace u.trace))

  -- A reading goes on from the trace and keeps the policy.
  abbrev pub GoesOn : {A : Type 0} → State P → Exec P A → Type 0
  GoesOn s = Post (λ _. ⊥) (λ _ u. (u.policy ≡ s.policy) × Extends s.trace u.trace)

module _ (P : Platform) where
  pub get_deployment-GoesOn :
      (namespace name : String) (s : State P) → GoesOn s (get_deployment P namespace name s)
  unfolding get_deployment
  get_deployment-GoesOn namespace name s = (refl, more same)

  pub get_stateful_set-GoesOn :
      (namespace name : String) (s : State P) → GoesOn s (get_stateful_set P namespace name s)
  unfolding get_stateful_set
  get_stateful_set-GoesOn namespace name s = (refl, more same)

  pub get_daemon_set-GoesOn :
      (namespace name : String) (s : State P) → GoesOn s (get_daemon_set P namespace name s)
  unfolding get_daemon_set
  get_daemon_set-GoesOn namespace name s = (refl, more same)
