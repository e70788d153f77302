-- ===== src/Context.antt =====
-- `context.Context` and timers as the blocking calls use them, over the world behind the client.
use zalando_vertical_autosca.Common.{◌≡◌, ◌≢◌, Option, none, String}
use zalando_vertical_autosca.Common.Int.{ℤ, ◌+ℤ◌, ◌≤ℤ◌}
use zalando_vertical_autosca.Common.Errors.{Result, GoError}
use zalando_vertical_autosca.Platform.{Platform}
use zalando_vertical_autosca.Monad.{M, returned}

-- How a loop on fuel ends: `none` if the fuel ran out.
abbrev pub Ending : Type 0
Ending = Option (Result (Unit {0}))

-- `WithTimeout` derives a context from another. `done` is a `select` on `Done()` with a `default`:
-- the context's error if it is done. `wait` is a `select` on `Done()` and `time.After`: the
-- context's error if that case is taken.
pub record Contexts (P : Platform) : Type 1 where
  pub Ctx : Type 0
  pub with_timeout : P.client.World → Ctx → ℤ → Ctx × P.client.World
  pub done : P.client.World → Ctx → Option GoError × P.client.World
  pub wait : P.client.World → Ctx → ℤ → Option GoError × P.client.World

-- Time, as the documentation of `context` and `time` has it: a derived context expires no later
-- than the timeout says, a context that has expired is done, a timer fires after its duration at
-- the earliest, and no call takes the clock back.
pub record KeepsTime (P : Platform) (contexts : Contexts P) : Type 0 where
  pub clock : P.client.World → ℤ
  pub expires : contexts.Ctx → ℤ
  pub timeout_expires :
      (w : P.client.World) (c : contexts.Ctx) (d : ℤ)
      → expires (contexts.with_timeout w c d).0 ≤ℤ (clock (contexts.with_timeout w c d).1 +ℤ d)
  pub done_later : (w : P.client.World) (c : contexts.Ctx) → clock w ≤ℤ clock (contexts.done w c).1
  pub done_expired :
      (w : P.client.World) (c : contexts.Ctx) → expires c ≤ℤ clock w → (contexts.done w c).0 ≢ none
  pub wait_fires :
      (w : P.client.World) (c : contexts.Ctx) (d : ℤ)
      → (contexts.wait w c d).0 ≡ none
      → (clock w +ℤ d) ≤ℤ clock (contexts.wait w c d).1
  pub deployment_later :
      (w : P.client.World) (namespace name : String)
      → clock w ≤ℤ clock (P.client.get_deployment w namespace name).1
  pub stateful_set_later :
      (w : P.client.World) (namespace name : String)
      → clock w ≤ℤ clock (P.client.get_stateful_set w namespace name).1
  pub daemon_set_later :
      (w : P.client.World) (namespace name : String)
      → clock w ≤ℤ clock (P.client.get_daemon_set w namespace name).1

module _ (P : Platform) (contexts : Contexts P) where
  open contexts use {Ctx, with_timeout, done, wait}

  unfoldable pub derive_ctx : Ctx → ℤ → M P Ctx
  derive_ctx ctx d s =
      let (c, w) = with_timeout s.world ctx d in returned c (record s { world = w })

  unfoldable pub ctx_done : Ctx → M P (Option GoError)
  ctx_done ctx s = let (r, w) = done s.world ctx in returned r (record s { world = w })

  unfoldable pub ctx_wait : Ctx → ℤ → M P (Option GoError)
  ctx_wait ctx d s = let (r, w) = wait s.world ctx d in returned r (record s { world = w })
