-- ===== src/Zalando/Patch.antt =====
-- `PatchResources`: the merge patch for memory, CPU and PostgreSQL parameters.
pub mod Laws
use zalando_vertical_autosca.Common.{
  ℕ, String, ◌<>◌, Bool, true, false, Option, none, some, List, [], ◌∷◌, str_eq, if◌then◌else◌,
}
use zalando_vertical_autosca.Common.Int.{ℤ, pos}
use zalando_vertical_autosca.Common.Errors.{Result, ok, err, wrap_error}
use zalando_vertical_autosca.Float64.{Float64, of_int, mul, lt, to_int64}
use zalando_vertical_autosca.Api.{PostgresMemoryPolicy}
use zalando_vertical_autosca.Platform.{Quantities, Json, Json, Fields, object, end, field, Platform}
use zalando_vertical_autosca.Platform
use zalando_vertical_autosca.Monad.{M, State, pure, ◌>>=◌, get, patch_postgresql}
use zalando_vertical_autosca.Vpa.{VpaRecommendation}

abbrev one_field : String → Json → Fields
one_field name j = field name j end

abbrev of_text : String → Json
of_text s = Json.text s

-- `buildMemoryPatch`
unfoldable pub build_memory_patch : String → String → Json
build_memory_patch mem_request mem_limit = object (
    one_field "spec" (
      object (
        one_field "resources" (
          object (
            field "requests" (object (one_field "memory" (of_text mem_request)))
              (one_field "limits" (object (one_field "memory" (of_text mem_limit)))))))))

-- `buildMemoryCPUPatch`
unfoldable pub build_memory_cpu_patch : String → String → String → Json
build_memory_cpu_patch mem_request mem_limit cpu_request = object (
    one_field "spec" (
      object (
        one_field "resources" (
          object (
            field "requests"
              (object
                (field "memory" (of_text mem_request) (one_field "cpu" (of_text cpu_request))))
              (one_field "limits" (object (one_field "memory" (of_text mem_limit)))))))))

-- A map's value, and a write `m[key] = v`.
unfoldable pub field_of : Fields → String → Option Json
field_of end key = none
field_of (field k j fs) key = if str_eq k key then some j else field_of fs key

unfoldable pub set_field : String → Json → Fields → Fields
set_field key v end = field key v end
set_field key v (field k j fs) =
    if str_eq k key then field k v fs else field k j (set_field key v fs)

-- The copy of the parameters into a map of any values.
unfoldable pub to_fields : List (String × String) → Fields
to_fields [] = end
to_fields ((k, v) ∷ params) = field k (of_text v) (to_fields params)

-- A type assertion to a map.
abbrev as_object : Option Json → Option Fields
as_object (some (object fs)) = some fs
as_object _ = none

-- The map under "postgresql", a new one if there is none.
abbrev postgresql_fields : Option Fields → Fields
postgresql_fields none = end
postgresql_fields (some fs) = fs

-- `addPostgresParametersPatch`. The patch always has a map under "spec"; Go would panic without.
unfoldable pub add_postgres_parameters_patch : Json → List (String × String) → Json
unfolding field_of set_field to_fields
add_postgres_parameters_patch (Json.text s) pg_params = Json.text s
add_postgres_parameters_patch (object fs) pg_params = elim (as_object (field_of fs "spec")) [
  | none ↦ object fs
  | some spec ↦
      let pg = postgresql_fields (as_object (field_of spec "postgresql")) in
      object (
        set_field "spec"
          (object (
            set_field "postgresql"
              (object (set_field "parameters" (object (to_fields pg_params)) pg)) spec))
          fs)
]

module _ (quantities : Quantities) where
  open quantities use {Quantity, value, text, new_quantity}

  -- `int64(float64(memRequest.Value()) * overcommit)`, the overcommit raised to 1 if it is less.
  unfoldable pub mem_limit_bytes : (Float64 → ℤ) → Quantity → Float64 → ℤ
  mem_limit_bytes out_of_range mem_request overcommit =
      let factor = if lt overcommit (of_int (pos 1)) then of_int (pos 1) else overcommit in
      to_int64 out_of_range (mul (of_int (value mem_request)) factor)

  resource_patch : String → String → Option Quantity → Json
  resource_patch mem_request mem_limit none = build_memory_patch mem_request mem_limit
  resource_patch mem_request mem_limit (some cpu) =
      build_memory_cpu_patch mem_request mem_limit (text cpu)

  abbrev with_parameters : List (String × String) → Json → Json
  with_parameters [] patch = patch
  with_parameters (p ∷ ps) patch = add_postgres_parameters_patch patch (p ∷ ps)

  -- The patch that `PatchResources` builds.
  unfoldable pub patch_data :
      (Float64 → ℤ) → Float64 → VpaRecommendation Quantity → List (String × String) → Json
  unfolding resource_patch
  patch_data out_of_range overcommit rec pg_params =
      let mem_limit = new_quantity (mem_limit_bytes out_of_range rec.memory overcommit) in
      with_parameters pg_params (resource_patch (text rec.memory) (text mem_limit) rec.cpu)

module _ (P : Platform) where
  open P use {quantities, runtime}

  -- `PatchResources`, after `json.Marshal`.
  send_patch : String → String → Result String → M P (Result (Unit {0}))
  send_patch namespace cluster (err e) =
      pure (wrap_error ("marshalling patch for " <> namespace <> "/" <> cluster) (err e))
  send_patch namespace cluster (ok raw) = do
    answer ← patch_postgresql P namespace cluster raw
    pure (wrap_error ("patching postgresql " <> namespace <> "/" <> cluster) answer)

  unfoldable pub patch_resources :
      VpaRecommendation quantities.Quantity → List (String × String) → M P (Result (Unit {0}))
  unfolding send_patch
  patch_resources rec pg_params = do
    policy ← get
    send_patch policy.namespace policy.spec.target_cluster (
        runtime.marshal
          (patch_data quantities runtime.out_of_range policy.spec.overcommit rec pg_params))
