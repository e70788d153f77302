-- ===== src/Vpa/Laws.antt =====
-- The recommendation lies in the policy's range, and comes from the named container.
use zalando_vertical_autosca.Common.{
  String, ◌≡◌, ap, inl, inr, some, List, [], ◌∷◌, arith, str_eq, if◌then◌else◌, Bool-cases,
  Option-cases, find,
}
use zalando_vertical_autosca.Common.Int.{ℤ, pos, ◌≤ℤ◌}
use zalando_vertical_autosca.Common.Errors.{ok, Result-cases}
use zalando_vertical_autosca.Float64.{Float64}
use zalando_vertical_autosca.Api.{ContainerResources, VerticalPodAutoscaler, PostgresMemoryPolicy}
use zalando_vertical_autosca.Platform.{Quantities, IsOrder, Runtime, Platform}
use zalando_vertical_autosca.Vpa.{
  VpaRecommendation, lookup, clamp_quantity, apply_memory_buffer, container_recommendation,
  search_containers, extract_from, extract_container_recommendation, recommend,
}

module _ (quantities : Quantities) (order : IsOrder quantities) where
  open quantities use {Quantity, cmp}

  -- q <= y, by `Cmp`.
  abbrev pub AtMost : Quantity → Quantity → Type 0
  AtMost q y = cmp q y ≤ℤ pos 0

  -- If `Cmp` is an order as documented and the bounds are in order, the clamped quantity lies
  -- between them.
  pub clamp_quantity_bounds :
      (q min max : Quantity)
      → AtMost min max
      → AtMost min (clamp_quantity quantities q min max)
        × AtMost (clamp_quantity quantities q min max) max
  unfolding clamp_quantity
  clamp_quantity_bounds q min max h = ground (
    arith,
    order.cmp_refl min,
    order.cmp_refl max,
    order.cmp_flip q min,
    order.cmp_flip min q,
    order.cmp_flip q max,
    order.cmp_flip max q,
    order.cmp_flip min max,
  )

  -- The buffer never lifts a quantity above the maximum, whatever the float64 product.
  pub apply_memory_buffer-AtMost :
      (out : Float64 → ℤ) (q : Quantity) (percent : Float64) (max : Quantity)
      → AtMost q max
      → AtMost (apply_memory_buffer quantities out q percent max) max
  unfolding apply_memory_buffer
  apply_memory_buffer-AtMost out q percent max h = ground (arith, order.cmp_refl max)

module _ {Q : Type 0} (runtime : Runtime) where
  -- The container whose recommendation is used: the first of the name, with a memory target.
  abbrev pub IsChosen : VerticalPodAutoscaler Q → String → VpaRecommendation Q → Type 0
  IsChosen vpa name r =
      (containers : List (ContainerResources Q)) × (cr : ContainerResources Q) × (vpa.recommendation
        ≡ some containers)
      × (find (λ c. str_eq c.container_name name) containers ≡ some cr)
      × (lookup cr.target "memory" ≡ some r.memory)
      × (lookup cr.target "cpu" ≡ r.cpu)

  container_recommendation_ok :
      (vpa_name name : String) (cr : ContainerResources Q) (r : VpaRecommendation Q)
      → container_recommendation runtime vpa_name name cr ≡ ok r
      → (lookup cr.target "memory" ≡ some r.memory) × (lookup cr.target "cpu" ≡ r.cpu)
  unfolding container_recommendation
  container_recommendation_ok vpa_name name cr r h =
      elim (Option-cases (lookup cr.target "memory")) [
        | inl missing ↦ absurd (ground arith)
        | inr (q, e) ↦ ground arith
      ]

  search_containers_ok :
      (vpa_name name : String) (crs : List (ContainerResources Q)) (r : VpaRecommendation Q)
      → search_containers runtime vpa_name name crs ≡ ok r
      → (cr : ContainerResources Q) × (find (λ c. str_eq c.container_name name) crs ≡ some cr)
        × (lookup cr.target "memory" ≡ some r.memory)
        × (lookup cr.target "cpu" ≡ r.cpu)
  unfolding search_containers
  search_containers_ok vpa_name name [] r h = absurd (ground arith)
  search_containers_ok vpa_name name (cr ∷ crs) r h =
      let later = search_containers_ok vpa_name name crs r in
      elim (Bool-cases (str_eq cr.container_name name)) [
        | inl here ↦
            let (m, p) = container_recommendation_ok vpa_name name cr r (rw here at h) in
            (cr, rw here, m, p)
        | inr other ↦ let (c, found, m, p) = later (rw other at h) in (c, rw other found, m, p)
      ]

  extract_from_ok :
      (vpa_name name : String) (crs : List (ContainerResources Q)) (r : VpaRecommendation Q)
      → extract_from runtime vpa_name name crs ≡ ok r
      → search_containers runtime vpa_name name crs ≡ ok r
  unfolding extract_from
  extract_from_ok vpa_name name [] r h = absurd (ground arith)
  extract_from_ok vpa_name name (cr ∷ crs) r h = h

  extract_container_recommendation-IsChosen :
      (vpa : VerticalPodAutoscaler Q) (name : String) (r : VpaRecommendation Q)
      → extract_container_recommendation runtime vpa name ≡ ok r
      → IsChosen vpa name r
  unfolding extract_container_recommendation
  extract_container_recommendation-IsChosen vpa name r h = elim (Option-cases vpa.recommendation) [
    | inl missing ↦ absurd (ground arith)
    | inr (crs, e) ↦
        let (cr, found, m, p) =
          search_containers_ok vpa.name name crs r
            (extract_from_ok vpa.name name crs r (rw e at h)) in
        (crs, cr, e, found, m, p)
  ]

-- The container that a policy names, "postgres" if it names none.
abbrev pub container_of : {Q : Type 0} → PostgresMemoryPolicy Q → String
container_of policy =
    if str_eq policy.spec.vpa_container_name "" then "postgres" else policy.spec.vpa_container_name

module _ (P : Platform) (order : IsOrder P.quantities) where
  open P use {quantities, runtime}

  abbrev raised :
      PostgresMemoryPolicy quantities.Quantity
      → VpaRecommendation quantities.Quantity
      → quantities.Quantity
  raised policy r =
      apply_memory_buffer quantities runtime.out_of_range
        (clamp_quantity quantities r.memory policy.spec.memory_min policy.spec.memory_max)
        policy.spec.memory_buffer policy.spec.memory_max

  -- What the reader returns when the VPA object has been read and the reader succeeds, if `Cmp` is
  -- an order as documented and the policy's bounds are in order: the recommendation of the first
  -- container of the policy's name, with its CPU, the memory clamped to the policy's range and
  -- raised by the buffer, and never above the policy's maximum.
  pub recommend-IsChosen :
      (policy : PostgresMemoryPolicy quantities.Quantity)
      (vpa : VerticalPodAutoscaler quantities.Quantity)
      (rec : VpaRecommendation quantities.Quantity)
      → AtMost quantities order policy.spec.memory_min policy.spec.memory_max
      → recommend P policy (ok vpa) ≡ ok rec
      → (r : VpaRecommendation quantities.Quantity) × IsChosen runtime vpa (container_of policy) r
        × (rec.cpu ≡ r.cpu)
        × (rec.memory ≡ raised policy r)
        × AtMost quantities order rec.memory policy.spec.memory_max
  unfolding recommend
  recommend-IsChosen policy vpa rec h k =
      elim (Result-cases (extract_container_recommendation runtime vpa (container_of policy))) [
        | inl (r, e) ↦
            let shape : rec ≡ record { memory = raised policy r; cpu = r.cpu } = ground arith in
            let (_, under) =
              clamp_quantity_bounds quantities order r.memory policy.spec.memory_min
                policy.spec.memory_max h in
            let limit =
              apply_memory_buffer-AtMost quantities order runtime.out_of_range
                (clamp_quantity quantities r.memory policy.spec.memory_min policy.spec.memory_max)
                policy.spec.memory_buffer policy.spec.memory_max under in
            (
              r,
              extract_container_recommendation-IsChosen runtime vpa (container_of policy) r e,
              ap (λ (x : VpaRecommendation quantities.Quantity). x.cpu) shape,
              ap (λ (x : VpaRecommendation quantities.Quantity). x.memory) shape,
              rw shape limit,
            )
        | inr (_, e) ↦ absurd (ground arith)
      ]
