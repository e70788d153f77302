-- ===== src/Reconcile/Stored.antt =====
-- `Reconcile` reports success only for a run whose status was stored.
use zalando_vertical_autosca.Common.{
  String, ◌≡◌, refl, sym, ◌∙◌, ◌⊎◌, inl, inr, true, List, [], arith, if◌then◌else◌,
}
use zalando_vertical_autosca.Common.Int.{ℤ, pos}
use zalando_vertical_autosca.Common.Errors.{Result, ok, err, GoError, is_not_found, Result-cases}
use zalando_vertical_autosca.Api.{PostgresMemoryPolicy}
use zalando_vertical_autosca.Platform.{Platform}
use zalando_vertical_autosca.Monad.{Call, State, Exec, returned, panicked}
use zalando_vertical_autosca.Reconcile.Maintenance.{Outcome}
use zalando_vertical_autosca.Reconcile.Policy.{
  Finished, finished, status_patched, persist, reconcile_policy, reconcile,
}

module _ (P : Platform) where
  open P use {quantities, client}

  -- The run `e` returned `after`, and the server took the status that it left, as a patch of `base`.
  abbrev pub Stores :
      PostgresMemoryPolicy quantities.Quantity
      → Exec P Outcome
      → ℤ
      → client.World
      → List (Call P)
      → Type 0
  Stores base e after w trace =
      (u : State P) × (e ≡ returned (ok after) u)
      × ((client.patch_status u.world u.policy base).0 ≡ ok tt)
      × ((client.patch_status u.world u.policy base).1 ≡ w)
      × (trace ≡ u.trace)

  -- The parts of a success.
  status_patched-ok :
      (outcome : Outcome) (answer : Result (Unit {0})) (after : ℤ) (v w : client.World)
      (calls trace : List (Call P))
      → ◌≡◌ {A = Finished P}
          (finished (status_patched P outcome answer) v calls)
          (finished (ok after) w trace)
      → (outcome ≡ ok after) × (answer ≡ ok tt) × (v ≡ w) × (calls ≡ trace)
  status_patched-ok (ok t) (ok _) after v w calls trace h = (cc, refl, cc, cc)
  status_patched-ok (ok t) (err e) after v w calls trace h = absurd (cc)
  status_patched-ok (err e) answer after v w calls trace h = absurd (cc)

  persist-Stores :
      (base : PostgresMemoryPolicy quantities.Quantity) (e : Exec P Outcome) (after : ℤ)
      (w : client.World) (trace : List (Call P))
      → persist P base e ≡ finished (ok after) w trace
      → Stores base e after w trace
  persist-Stores base (panicked s) after w trace h = absurd (cc)
  persist-Stores base (returned outcome s) after w trace h =
      let (is_ok, stored, same_world, same_trace) =
        status_patched-ok outcome (client.patch_status s.world s.policy base).0 after
          (client.patch_status s.world s.policy base).1 w s.trace trace h in
      (s, rw is_ok refl, stored, same_world, sym same_trace)

  reconcile-ok :
      (namespace name : String) (world : client.World)
      (policy : PostgresMemoryPolicy quantities.Quantity)
      → (client.get_policy world namespace name).0 ≡ ok policy
      → reconcile P namespace name world
        ≡ persist P policy (
            reconcile_policy P (record {
              world = (client.get_policy world namespace name).1;
              policy = policy;
              trace = [];
            }))
  unfolding reconcile
  reconcile-ok namespace name world policy found = rw (found, reconcile) refl

  reconcile-err :
      (namespace name : String) (world : client.World) (e : GoError)
      → (client.get_policy world namespace name).0 ≡ err e
      → reconcile P namespace name world
        ≡ finished
            (if is_not_found e then ok (pos 0) else err e)
            (client.get_policy world namespace name).1
            []
  unfolding reconcile
  reconcile-err namespace name world e failed = rw (failed, reconcile) refl

  -- `Reconcile` succeeds only if the policy is gone, and then it does nothing, or if the policy was
  -- read, its reconcile succeeded, and the server took the status that the reconcile left.
  pub reconcile-Stores :
      (namespace name : String) (world w : client.World) (after : ℤ) (trace : List (Call P))
      → reconcile P namespace name world ≡ finished (ok after) w trace
      → ((e : GoError) × ((client.get_policy world namespace name).0 ≡ err e)
          × (is_not_found e ≡ true)
          × (after ≡ pos 0)
          × (trace ≡ []))
        ⊎ ((policy : PostgresMemoryPolicy quantities.Quantity) × ((client.get_policy world namespace
                name).0
              ≡ ok policy)
            × Stores policy
                (reconcile_policy P (record {
                  world = (client.get_policy world namespace name).1;
                  policy = policy;
                  trace = [];
                }))
                after
                w
                trace)
  reconcile-Stores namespace name world w after trace h =
      elim (Result-cases (client.get_policy world namespace name).0) [
        | inl (policy, found) ↦ inr (
          policy,
          found,
          persist-Stores policy _ after w trace
              (sym (reconcile-ok namespace name world policy found) ∙ h),
        )
        | inr (e, failed) ↦
            let only = sym (reconcile-err namespace name world e failed) ∙ h in
            inl (e, failed, ground (arith, only), ground (arith, only), ground (arith, only))
      ]
