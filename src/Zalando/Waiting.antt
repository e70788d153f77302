-- ===== src/Zalando/Waiting.antt =====
-- internal/controller/zalando.go: `WaitForClusterReady`, on fuel, one unit for each round. It reads
-- the cluster again and again without a pause.
use zalando_vertical_autosca.Common.{
  ℕ, zero, suc, ◌≡◌, ◌≢◌, refl, String, ◌<>◌, true, none, some, List, ◌⊎◌, inl, inr, Option-cases,
  if◌then◌else◌, arith,
}
use zalando_vertical_autosca.Common.Int.{pos, ◌+ℤ◌, ◌≤ℤ◌, ◌<ℤ◌, +ℤ_parts}
use zalando_vertical_autosca.Common.Errors.{ok, err, wrapped, Result-cases}
use zalando_vertical_autosca.Platform.{Platform}
use zalando_vertical_autosca.Monad.{
  State, Call, got_postgresql, M, pure, ◌>>=◌, client_get_postgresql,
}
use zalando_vertical_autosca.Monad.Post.{Post, Post-map, Post-if}
use zalando_vertical_autosca.Monad.Order.{Extends, same, more, Newest, newest, Newest-earlier}
use zalando_vertical_autosca.Context.{Ending, Contexts, KeepsTime, ctx_done}
use zalando_vertical_autosca.Zalando.{get_postgresql, is_object_healthy}

module _ (P : Platform) (contexts : Contexts P) where
  open contexts use {Ctx}

  -- `WaitForClusterReady`
  unfoldable pub wait_for_cluster_ready : ℕ → Ctx → String → String → M P Ending
  wait_for_cluster_ready zero ctx namespace name = pure none
  wait_for_cluster_ready (suc fuel) ctx namespace name =
      let rest = wait_for_cluster_ready fuel ctx namespace name in
      let poll = (do
        answer ← get_postgresql P namespace name
        elim answer [
          | err e ↦ pure (some (err e))
          | ok pg ↦ if is_object_healthy P pg then pure (some (ok tt)) else rest
        ]) in
      (do
        expired ← ctx_done P contexts ctx
        elim expired [
          | none ↦ poll
          | some e ↦ pure (
              some (
                err (
                  wrapped
                    ("timed out waiting for cluster " <> namespace <> "/" <> name
                      <> " to become ready")
                    e)))
        ])

  -- The server answered that the cluster is running, or did not answer.
  abbrev pub SaysRunning : String → String → Call P → Type 0
  SaysRunning namespace name (got_postgresql ns n (ok pg)) =
      (ns ≡ namespace) × (n ≡ name) × (is_object_healthy P pg ≡ true)
  SaysRunning namespace name _ = ⊥

  abbrev pub IsFailedRead : String → String → Call P → Type 0
  IsFailedRead namespace name (got_postgresql ns n (err e)) = (ns ≡ namespace) × (n ≡ name)
  IsFailedRead namespace name _ = ⊥

  -- Success: the last answer was that the cluster is running. An error: the last reading failed, or
  -- the context was done. The fuel does not run out.
  abbrev pub WaitedFor : Ctx → String → String → List (Call P) → Ending → State P → Type 0
  WaitedFor ctx namespace name base none u = ⊥
  WaitedFor ctx namespace name base (some (ok _)) u =
      Newest (SaysRunning namespace name) base u.trace
  WaitedFor ctx namespace name base (some (err _)) u =
      ((w : P.client.World) × ((contexts.done w ctx).0 ≢ none)
        × (u.world ≡ (contexts.done w ctx).1))
      ⊎ Newest (IsFailedRead namespace name) base u.trace

  WaitedFor-earlier :
      (ctx : Ctx) (namespace name : String) (base mid : List (Call P)) (u : State P)
      (ending : Ending)
      → Extends base mid
      → WaitedFor ctx namespace name mid ending u
      → WaitedFor ctx namespace name base ending u
  WaitedFor-earlier ctx namespace name base mid u none h k = k
  WaitedFor-earlier ctx namespace name base mid u (some (ok _)) h k = Newest-earlier _ _ _ _ h k
  WaitedFor-earlier ctx namespace name base mid u (some (err _)) h (inl k) = inl k
  WaitedFor-earlier ctx namespace name base mid u (some (err _)) h (inr k) =
      inr (Newest-earlier _ _ _ _ h k)

  module _ (time : KeepsTime P contexts)
      (reads_take_time : (w : P.client.World) (namespace name : String)
        → time.clock w <ℤ time.clock (P.client.get_postgresql w namespace name).1)
      (namespace name : String) where
    open time use {clock, expires}

    Waits : ℕ → Ctx → State P → Type 0
    Waits fuel ctx s =
        Post (λ _. ⊥) (WaitedFor ctx namespace name s.trace)
          (wait_for_cluster_ready fuel ctx namespace name s)

    round-Waits :
        (fuel : ℕ) (ctx : Ctx) (s : State P)
        → ((contexts.done s.world ctx).0 ≡ none
            → (v : State P) → Extends s.trace v.trace
            → clock s.world <ℤ clock v.world
            → Waits fuel ctx v)
        → Waits (suc fuel) ctx s
    unfolding Waits wait_for_cluster_ready ctx_done get_postgresql client_get_postgresql
    round-Waits fuel ctx s go = elim (Option-cases (contexts.done s.world ctx).0) [
      | inr (e, is_done) ↦ rw is_done (inl (s.world, (λ not_done. cc), refl))
      | inl not_done ↦
          rw not_done
            (elim (Result-cases
              (P.client.get_postgresql (contexts.done s.world ctx).1 namespace name).0) [
                | inr (e, failed) ↦ rw failed (inr (newest (refl, refl) same))
                | inl (pg, is_ok) ↦ rw is_ok (
                    Post-if _ _ (is_object_healthy P pg) _ _ _
                      (λ healthy. newest (refl, refl, healthy) same)
                      (λ _.
                        Post-map _ _ _ _ (wait_for_cluster_ready fuel ctx namespace name _)
                          (go not_done _ (more same) (
                            omega (
                              arith,
                              time.done_later s.world ctx,
                              reads_take_time (contexts.done s.world ctx).1 namespace name,
                            )))
                          (λ _ bad. bad)
                          (λ ending u.
                            WaitedFor-earlier ctx namespace name s.trace _ u ending (more same))))
              ])
    ]

    pub wait_for_cluster_ready-WaitedFor :
        (fuel : ℕ) (ctx : Ctx) (s : State P)
        → expires ctx ≤ℤ (clock s.world +ℤ pos fuel)
        → Post
            (λ _. ⊥)
            (WaitedFor ctx namespace name s.trace)
            (wait_for_cluster_ready (suc fuel) ctx namespace name s)
    unfolding Waits
    wait_for_cluster_ready-WaitedFor zero ctx s h = round-Waits zero ctx s (λ not_done v k l.
        absurd (
          time.done_expired s.world ctx (omega (arith, h, +ℤ_parts (clock s.world) (pos 0)))
            not_done))
    wait_for_cluster_ready-WaitedFor (suc fuel) ctx s h =
        round-Waits (suc fuel) ctx s (λ not_done v k l.
          wait_for_cluster_ready-WaitedFor fuel ctx v (
            omega (
              arith,
              h,
              l,
              +ℤ_parts (clock s.world) (pos (suc fuel)),
              +ℤ_parts (clock v.world) (pos fuel),
            )))
