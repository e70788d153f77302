-- ===== src/Vpa.antt =====
-- internal/controller/vpa.go: the recommendation of a VPA object, clamped and buffered.
pub mod Laws
pub mod Buffers
pub mod Admitted
pub mod Reads
use zalando_vertical_autosca.Common.{
  ℕ, String, ◌<>◌, Bool, true, false, Option, none, some, List, [], ◌∷◌, str_eq, if◌then◌else◌,
}
use zalando_vertical_autosca.Common.Int.{ℤ, pos, ltb_ℤ}
use zalando_vertical_autosca.Common.Errors.{
  Result, ok, err, recommendation, wrapped, GoError, is_not_found,
}
use zalando_vertical_autosca.Float64.{Float64, of_int, mul, div, add, le, to_int64}
use zalando_vertical_autosca.Api.{
  ContainerResources, VerticalPodAutoscaler, PostgresMemoryPolicy, reason_no_recommendation_yet,
  reason_vpa_not_found,
}
use zalando_vertical_autosca.Platform.{Quantities, Runtime, Platform}
use zalando_vertical_autosca.Monad.{M, State, pure, ◌>>=◌, get, get_vpa}

pub record VpaRecommendation (Q : Type 0) : Type 0 where
  pub memory : Q
  pub cpu : Option Q

-- A read of a map, `v, ok := m[key]`.
abbrev pub lookup {ℓ} : {V : Type ℓ} → List (String × V) → String → Option V
lookup [] key = none
lookup ((k, v) ∷ m) key = if str_eq k key then some v else lookup m key

module _ (quantities : Quantities) where
  open quantities use {Quantity, value, cmp, new_quantity}

  -- `clampQuantity`
  unfoldable pub clamp_quantity : Quantity → Quantity → Quantity → Quantity
  clamp_quantity q min max =
      if ltb_ℤ (cmp q min) (pos 0) then min else if ltb_ℤ (pos 0) (cmp q max) then max else q

  -- `int64(float64(q.Value()) * (1 + bufferPercent/100))`
  unfoldable pub buffered_bytes : (Float64 → ℤ) → Quantity → Float64 → ℤ
  buffered_bytes out_of_range q buffer_percent =
      to_int64 out_of_range
        (mul (of_int (value q)) (add (of_int (pos 1)) (div buffer_percent (of_int (pos 100)))))

  -- `applyMemoryBuffer`
  unfoldable pub apply_memory_buffer : (Float64 → ℤ) → Quantity → Float64 → Quantity → Quantity
  apply_memory_buffer out_of_range q buffer_percent max =
      if le buffer_percent (of_int (pos 0))
      then q
      else (let buffered = new_quantity (buffered_bytes out_of_range q buffer_percent) in
          if ltb_ℤ (pos 0) (cmp buffered max) then max else buffered)

abbrev no_recommendation {ℓ} : {A : Type ℓ} → String → Result A
no_recommendation message = err (recommendation reason_no_recommendation_yet message)

module _ {Q : Type 0} (runtime : Runtime) where
  -- The recommendation of the container that was found.
  unfoldable pub container_recommendation :
      String → String → ContainerResources Q → Result (VpaRecommendation Q)
  container_recommendation vpa_name container_name cr = elim (lookup cr.target "memory") [
    | none ↦ no_recommendation (
        "VPA "
        <> runtime.quote vpa_name
        <> " has no memory recommendation for container "
        <> runtime.quote container_name)
    | some memory ↦ ok (record { memory = memory; cpu = lookup cr.target "cpu" })
  ]

  -- The loop over the containers: the first of the given name decides.
  unfoldable pub search_containers :
      String → String → List (ContainerResources Q) → Result (VpaRecommendation Q)
  unfolding container_recommendation
  search_containers vpa_name container_name [] = no_recommendation (
      "VPA "
      <> runtime.quote vpa_name
      <> " has no recommendation for container "
      <> runtime.quote container_name)
  search_containers vpa_name container_name (cr ∷ crs) =
      if str_eq cr.container_name container_name
      then container_recommendation vpa_name container_name cr
      else search_containers vpa_name container_name crs

  -- `len(…) == 0` after the nil test, then the loop.
  extract_from : String → String → List (ContainerResources Q) → Result (VpaRecommendation Q)
  unfolding search_containers
  extract_from vpa_name container_name [] =
      no_recommendation ("VPA " <> runtime.quote vpa_name <> " has no recommendation yet")
  extract_from vpa_name container_name (cr ∷ crs) =
      search_containers vpa_name container_name (cr ∷ crs)

  -- `extractContainerRecommendation`
  unfoldable pub extract_container_recommendation :
      VerticalPodAutoscaler Q → String → Result (VpaRecommendation Q)
  unfolding extract_from
  extract_container_recommendation vpa container_name = elim (vpa.recommendation) [
    | none ↦ no_recommendation ("VPA " <> runtime.quote vpa.name <> " has no recommendation yet")
    | some containers ↦ extract_from vpa.name container_name containers
  ]

module _ (P : Platform) where
  open P use {quantities, runtime}

  -- The answer of the API server, taken apart.
  unfoldable pub recommend :
      PostgresMemoryPolicy quantities.Quantity
      → Result (VerticalPodAutoscaler quantities.Quantity)
      → Result (VpaRecommendation quantities.Quantity)
  recommend policy (err e) =
      if is_not_found e
      then err (
          recommendation reason_vpa_not_found (
            "VPA "
            <> runtime.quote policy.spec.vpa_name
            <> " not found in namespace "
            <> runtime.quote policy.namespace))
      else err (wrapped ("getting VPA " <> runtime.quote policy.spec.vpa_name) e)
  recommend policy (ok vpa) =
      let given = policy.spec.vpa_container_name in
      let container_name = if str_eq given "" then "postgres" else given in
      elim (extract_container_recommendation runtime vpa container_name) [
        | err e ↦ err e
        | ok r ↦ ok (record {
          memory =
              apply_memory_buffer quantities runtime.out_of_range
                (clamp_quantity quantities r.memory policy.spec.memory_min policy.spec.memory_max)
                policy.spec.memory_buffer policy.spec.memory_max;
          cpu = r.cpu;
        })
      ]

  -- `ReadRecommendation`
  unfoldable pub read_recommendation : M P (Result (VpaRecommendation quantities.Quantity))
  unfolding get_vpa
  read_recommendation = do
    policy ← get
    answer ← get_vpa P policy.namespace policy.spec.vpa_name
    pure (recommend policy answer)
