-- ===== src/Monad.antt =====
-- Go code of the controller, as functions on a state: the world behind the client, the policy that
-- the pointer `policy` refers to, and the calls made so far, the newest first. A call returns its
-- value and the new state, or panics.
pub mod Post
pub mod Trace
pub mod Order
use zalando_vertical_autosca.Common.{String, List, ◌∷◌}
use zalando_vertical_autosca.Common.Int.{ℤ}
use zalando_vertical_autosca.Common.Errors.{Result}
use zalando_vertical_autosca.Api.{
  PostgresMemoryPolicy, VerticalPodAutoscaler, Deployment, StatefulSet, DaemonSet,
}
use zalando_vertical_autosca.Platform.{Platform}

-- One interaction with the outside, with the answer where there is one to read.
pub data Call (P : Platform) : Type 0 where
  read_clock : ℤ → Call P
  got_vpa : String → String → Result (VerticalPodAutoscaler P.quantities.Quantity) → Call P
  got_postgresql : String → String → Result P.client.Object → Call P
  patched_postgresql : String → String → String → Result (Unit {0}) → Call P
  got_deployment : String → String → Result Deployment → Call P
  got_stateful_set : String → String → Result StatefulSet → Call P
  got_daemon_set : String → String → Result DaemonSet → Call P
  patched_workload : String → String → String → String → Result (Unit {0}) → Call P
  recorded_event : String → String → String → Call P

pub record State (P : Platform) : Type 0 where
  pub world : P.client.World
  pub policy : PostgresMemoryPolicy P.quantities.Quantity
  pub trace : List (Call P)

pub data Exec (P : Platform) (A : Type 0) : Type 0 where
  returned : A → State P → Exec P A
  panicked : State P → Exec P A

abbrev pub M : Platform → Type 0 → Type 0
M P A = State P → Exec P A

module _ {P : Platform} where
  abbrev pub pure : {A : Type 0} → A → M P A
  pure a s = returned a s

  abbrev pub panic : {A : Type 0} → M P A
  panic s = panicked s

  abbrev pub bind_exec : {A B : Type 0} → Exec P A → (A → M P B) → Exec P B
  bind_exec (returned a s) f = f a s
  bind_exec (panicked s) f = panicked s

  infixl 5 ◌>>=◌ ◌>>◌
  abbrev pub ◌>>=◌ : {A B : Type 0} → M P A → (A → M P B) → M P B
  ◌>>=◌ m f s = bind_exec (m s) f

  abbrev pub ◌>>◌ : {B : Type 0} → M P (Unit {0}) → M P B → M P B
  m >> k = m >>= λ _. k

  -- The policy that the pointer refers to, and a write through it.
  abbrev pub get : M P (PostgresMemoryPolicy P.quantities.Quantity)
  get s = returned s.policy s

  abbrev pub modify_policy :
      (PostgresMemoryPolicy P.quantities.Quantity → PostgresMemoryPolicy P.quantities.Quantity)
      → M P (Unit {0})
  modify_policy f s = returned tt (record s { policy = f s.policy })

module _ (P : Platform) where
  open P use {client}

  unfoldable pub now : M P ℤ
  now s =
      let (t, w) = client.now s.world in
      returned t (record s { world = w; trace = read_clock t ∷ s.trace })

  unfoldable pub get_vpa :
      String → String → M P (Result (VerticalPodAutoscaler P.quantities.Quantity))
  get_vpa namespace name s =
      let (r, w) = client.get_vpa s.world namespace name in
      returned r (record s { world = w; trace = got_vpa namespace name r ∷ s.trace })

  unfoldable pub client_get_postgresql : String → String → M P (Result client.Object)
  client_get_postgresql namespace name s =
      let (r, w) = client.get_postgresql s.world namespace name in
      returned r (record s { world = w; trace = got_postgresql namespace name r ∷ s.trace })

  unfoldable pub patch_postgresql : String → String → String → M P (Result (Unit {0}))
  patch_postgresql namespace name raw s =
      let (r, w) = client.patch_postgresql s.world namespace name raw in
      returned r (record s { world = w; trace = patched_postgresql namespace name raw r ∷ s.trace })

  unfoldable pub get_deployment : String → String → M P (Result Deployment)
  get_deployment namespace name s =
      let (r, w) = client.get_deployment s.world namespace name in
      returned r (record s { world = w; trace = got_deployment namespace name r ∷ s.trace })

  unfoldable pub get_stateful_set : String → String → M P (Result StatefulSet)
  get_stateful_set namespace name s =
      let (r, w) = client.get_stateful_set s.world namespace name in
      returned r (record s { world = w; trace = got_stateful_set namespace name r ∷ s.trace })

  unfoldable pub get_daemon_set : String → String → M P (Result DaemonSet)
  get_daemon_set namespace name s =
      let (r, w) = client.get_daemon_set s.world namespace name in
      returned r (record s { world = w; trace = got_daemon_set namespace name r ∷ s.trace })

  unfoldable pub patch_workload : String → String → String → String → M P (Result (Unit {0}))
  patch_workload kind namespace name raw s =
      let (r, w) = client.patch_workload s.world kind namespace name raw in
      returned r
        (record s { world = w; trace = patched_workload kind namespace name raw r ∷ s.trace })

  -- `r.Recorder.Event`
  unfoldable pub record_event : String → String → String → M P (Unit {0})
  record_event type reason message s =
      returned tt (record s { trace = recorded_event type reason message ∷ s.trace })
