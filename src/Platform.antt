-- ===== src/Platform.antt =====
-- What the controller calls and does not implement, as interfaces: `resource.Quantity`, the cron
-- library gronx, the API client with the clock, the template engine and text formatting. The laws
-- that theorems rely on are records of their own.
use zalando_vertical_autosca.Common.{ℕ, String, Bool, true, false, Option, List, ◌≡◌, ◌↔◌}
use zalando_vertical_autosca.Common.Int.{ℤ, pos, ◌≤ℤ◌, ◌<ℤ◌}
use zalando_vertical_autosca.Common.Errors.{Result, ok}
use zalando_vertical_autosca.Float64.{Float64}
use zalando_vertical_autosca.Api.{
  PostgresMemoryPolicy, VerticalPodAutoscaler, Deployment, StatefulSet, DaemonSet,
}

-- k8s.io/apimachinery/pkg/api/resource
pub record Quantities : Type 1 where
  pub Quantity : Type 0
  pub value : Quantity → ℤ  -- Value(), an int64
  pub milli_value : Quantity → ℤ  -- MilliValue(), an int64
  pub cmp : Quantity → Quantity → ℤ  -- q.Cmp(y)
  pub text : Quantity → String  -- String()
  pub parse : String → Result Quantity  -- ParseQuantity
  pub new_quantity : ℤ → Quantity  -- NewQuantity(n, BinarySI)
  pub new_milli_quantity : ℤ → Quantity  -- NewMilliQuantity(n, DecimalSI)

-- `Cmp` is documented as a comparison: negative, 0 or positive as q is less than, equal to or
-- greater than y.
pub record IsOrder (quantities : Quantities) : Type 0 where
  pub cmp_refl : (a : quantities.Quantity) → quantities.cmp a a ≡ pos 0
  pub cmp_flip :
      (a b : quantities.Quantity) → (quantities.cmp a b <ℤ pos 0) ↔ (pos 0 <ℤ quantities.cmp b a)

-- github.com/adhocore/gronx. An instant is in nanoseconds since the epoch.
pub record Gronx : Type 0 where
  pub is_valid : String → Bool
  pub prev_tick_before : String → ℤ → Bool → Result ℤ
  pub next_tick_after : String → ℤ → Bool → Result ℤ

-- With the reference instant included, `PrevTickBefore` gives the latest tick that is not after
-- it; without, `NextTickAfter` gives a tick after it.
pub record FindsTicks (gronx : Gronx) (IsTick : String → ℤ → Type 0) : Type 0 where
  pub prev_is_tick :
      (cron : String) (now t : ℤ)
      → gronx.prev_tick_before cron now true ≡ ok t
      → IsTick cron t × (t ≤ℤ now)
  pub prev_is_latest :
      (cron : String) (now t u : ℤ)
      → gronx.prev_tick_before cron now true ≡ ok t
      → IsTick cron u
      → u ≤ℤ now
      → u ≤ℤ t
  pub prev_finds :
      (cron : String) (now u : ℤ)
      → IsTick cron u
      → u ≤ℤ now
      → (t : ℤ) × (gronx.prev_tick_before cron now true ≡ ok t)
  pub next_is_tick :
      (cron : String) (now t : ℤ)
      → gronx.next_tick_after cron now false ≡ ok t
      → IsTick cron t × (now <ℤ t)

-- A JSON value as the patches build it.
mutual
  pub data Json : Type 0 where
    text : String → Json
    object : Fields → Json

  pub data Fields : Type 0 where
    end : Fields
    field : String → Json → Fields → Fields

-- The parts of Go and its standard library that only format text, and the conversion of a float64
-- that is out of the range of int64, which the language leaves to the processor.
pub record Runtime : Type 0 where
  pub quote : String → String  -- %q
  pub decimal : ℤ → String  -- %d
  pub fixed : ℕ → Float64 → String  -- %.nf
  pub marshal : Json → Result String  -- json.Marshal
  pub rfc3339 : ℤ → String  -- UTC().Format(time.RFC3339)
  pub out_of_range : Float64 → ℤ

-- text/template with the option missingkey=error: a parsed template is executed with the values
-- of its keys and its functions (named, over int64 arguments).
pub record Templates : Type 1 where
  pub Template : Type 0
  pub parse_template : String → String → Result Template
  pub execute : Template → List (String × ℤ) → List (String × (ℤ → ℤ → Result ℤ)) → Result String

-- The API server as the client sees it. A call may find a world that others have changed since the
-- last one, so each returns the world that it leaves.
pub record Client (Q : Type 0) : Type 1 where
  pub World : Type 0
  pub Object : Type 0  -- unstructured.Unstructured
  pub nested_string : Object → List String → Result (Option String)
  pub now : World → ℤ × World  -- time.Now()
  pub get_policy : World → String → String → Result (PostgresMemoryPolicy Q) × World
  pub get_vpa : World → String → String → Result (VerticalPodAutoscaler Q) × World
  pub get_postgresql : World → String → String → Result Object × World
  pub patch_postgresql : World → String → String → String → Result (Unit {0}) × World
  pub get_deployment : World → String → String → Result Deployment × World
  pub get_stateful_set : World → String → String → Result StatefulSet × World
  pub get_daemon_set : World → String → String → Result DaemonSet × World
  pub patch_workload : World → String → String → String → String → Result (Unit {0}) × World
  pub patch_status :
      World → PostgresMemoryPolicy Q → PostgresMemoryPolicy Q → Result (Unit {0}) × World

pub record Platform : Type 1 where
  pub quantities : Quantities
  pub gronx : Gronx
  pub runtime : Runtime
  pub templates : Templates
  pub client : Client quantities.Quantity
