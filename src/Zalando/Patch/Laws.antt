-- ===== src/Zalando/Patch/Laws.antt =====
-- What the patch holds: the requested memory, a limit on memory, no limit on CPU.
use mathlib.Core.Option
use native.Mathlib.Nat.{mul-le-mul_right}
use zalando_vertical_autosca.Common.{
  ℕ, ◌+◌, ◌≤◌, ◌<◌, String, ◌≡◌, inl, inr, false, Option, none, some, List, [], ◌∷◌, arith,
  Bool-cases, ◌*◌, str_eq, refl, ◌⊎◌, sym, eq_iff,
}
use zalando_vertical_autosca.Common.Int.{ℤ, pos}
use zalando_vertical_autosca.Float64.{Float64, finite, unit, two53, two62, of_int, lt}
use zalando_vertical_autosca.Float64.Laws.{to_int64-mul, of_int_small}
use zalando_vertical_autosca.Platform.{Quantities, Json, object, Platform}
use zalando_vertical_autosca.Monad.{State, patch_postgresql}
use zalando_vertical_autosca.Monad.Post.{Post}
use zalando_vertical_autosca.Monad.Trace.{patches, Sees}
use zalando_vertical_autosca.Vpa.{VpaRecommendation, lookup}
use zalando_vertical_autosca.Zalando.Patch.{
  field_of, to_fields, build_memory_patch, build_memory_cpu_patch, add_postgres_parameters_patch,
  mem_limit_bytes, patch_data, patch_resources,
}

-- The value at a path of a patch.
abbrev pub at_path : List String → Option Json → Option Json
at_path [] j = j
at_path (key ∷ path) (some (object fs)) = at_path path (field_of fs key)
at_path (key ∷ path) (some (Json.text _)) = none
at_path (key ∷ path) none = none

-- There is no such value if there are no parameters.
abbrev pub IsAbsentWithout : List (String × String) → Option Json → Type 0
IsAbsentWithout [] j = j ≡ none
IsAbsentWithout (_ ∷ _) j = Unit

-- The fields made of the parameters are found under their names, as texts.
field_of-to_fields :
    (params : List (String × String)) (name : String)
    → field_of (to_fields params) name ≡ Option.map (λ value. Json.text value) (lookup params name)
unfolding field_of to_fields
field_of-to_fields [] name = refl
field_of-to_fields ((k, v) ∷ params) name = elim (Bool-cases (str_eq k name)) [
  | inl this ↦ rw this refl
  | inr other ↦ rw other (field_of-to_fields params name)
]

module _ (P : Platform) (s : State P) where
  open P use {quantities}

  -- `PatchResources` patches the postgresql resource at most once and leaves the policy alone.
  pub patch_resources-once :
      (rec : VpaRecommendation quantities.Quantity) (pg_params : List (String × String))
      → Post
          (λ _. ⊥)
          (λ _ s'.
            (s'.policy ≡ s.policy)
            × (patches s'.trace ≤ patches s.trace + 1)
            × ((t : ℤ) → Sees t s.trace → Sees t s'.trace))
          (patch_resources P rec pg_params s)
  unfolding patch_resources patch_postgresql
  patch_resources-once rec pg_params = ground arith

module _ (quantities : Quantities) (out : Float64 → ℤ) (overcommit : Float64)
    (rec : VpaRecommendation quantities.Quantity) where
  -- The patch requests the given memory, and the given CPU if there is one. It limits memory to
  -- the computed bytes and never limits CPU, whatever parameters it carries.
  pub patch_data_resources :
      (pg_params : List (String × String))
      → let patch = some (patch_data quantities out overcommit rec pg_params) in
        (at_path ("spec" ∷ "resources" ∷ "requests" ∷ "memory" ∷ []) patch
          ≡ some (Json.text (quantities.text rec.memory)))
        × (at_path ("spec" ∷ "resources" ∷ "requests" ∷ "cpu" ∷ []) patch
            ≡ Option.map (λ q. Json.text (quantities.text q)) rec.cpu)
        × (at_path ("spec" ∷ "resources" ∷ "limits" ∷ "memory" ∷ []) patch
            ≡ some (
                Json.text (
                  quantities.text (
                    quantities.new_quantity
                      (mem_limit_bytes quantities out rec.memory overcommit)))))
        × (at_path ("spec" ∷ "resources" ∷ "limits" ∷ "cpu" ∷ []) patch ≡ none)
  unfolding patch_data build_memory_patch build_memory_cpu_patch add_postgres_parameters_patch
  patch_data_resources [] = ground arith
  patch_data_resources (p ∷ ps) = ground arith

  -- Under spec.postgresql.parameters, the patch has under each name the text of the parameter with
  -- that name, and nothing under any other name. Under spec.postgresql it has nothing else, and
  -- without parameters it has no such object.
  pub patch_data_parameters :
      (pg_params : List (String × String))
      → let patch = some (patch_data quantities out overcommit rec pg_params) in
        ((name : String)
          → at_path ("spec" ∷ "postgresql" ∷ "parameters" ∷ name ∷ []) patch
            ≡ Option.map (λ value. Json.text value) (lookup pg_params name))
        × ((key : String)
            → (key ≡ "parameters") ⊎ (at_path ("spec" ∷ "postgresql" ∷ key ∷ []) patch ≡ none))
        × IsAbsentWithout pg_params (at_path ("spec" ∷ "postgresql" ∷ []) patch)
  unfolding patch_data build_memory_patch build_memory_cpu_patch add_postgres_parameters_patch
  patch_data_parameters [] = (λ name. ground arith, λ key. inr (ground arith), ground arith)
  patch_data_parameters (q ∷ qs) = (
    λ name. ground (arith, field_of-to_fields (q ∷ qs) name),
    λ key. elim (Bool-cases (str_eq "parameters" key)) [
      | inl this ↦ inl (sym ((eq_iff "parameters" key).0 this))
      | inr other ↦ inr (ground (arith, other))
    ],
    tt,
  )

small_le : (n : ℕ) → n < two53 → n ≤ two62
small_le n h = omega arith

at_least_one : (m : ℕ) → lt (finite false m) (of_int (pos 1)) ≡ false → unit ≤ m
unfolding lt
at_least_one m h = ground (arith, of_int_small 1 (omega arith))

product_one : (n : ℕ) → n < two53 → n * (1 * unit) ≤ two62 * unit
product_one n h = omega (arith, mul-le-mul_right unit (small_le n h))

-- For a request below 2 ^ 53 bytes and a positive overcommit that keeps the product below 2 ^ 62,
-- the limit is a number of bytes that is at least the request.
pub le-mem_limit_bytes :
    (quantities : Quantities) (out : Float64 → ℤ) (request : quantities.Quantity) (n m : ℕ)
    → quantities.value request ≡ pos n
    → n < two53
    → n * m ≤ two62 * unit
    → (k : ℕ) × (mem_limit_bytes quantities out request (finite false m) ≡ pos k) × (n ≤ k)
unfolding mem_limit_bytes
le-mem_limit_bytes quantities out request n m e h small =
    elim (Bool-cases (lt (finite false m) (of_int (pos 1)))) [
      | inl low ↦
          rw (low, e, of_int_small 1 (omega arith))
            (to_int64-mul out n h (omega arith) (product_one n h))
      | inr high ↦ rw (high, e) (to_int64-mul out n h (at_least_one m high) small)
    ]
