-- ===== src/Tests/Changes.antt =====
-- Examples for recommendations, change gates, patches and parameters.
use zalando_vertical_autosca.Common.{
  ℕ, ◌*◌, ◌/◌, ◌≤◌, ◌<◌, String, ◌<>◌, ◌≡◌, refl, true, false, none, some, List, [], ◌∷◌, arith,
}
use mathlib.Core.List.{Memᴰ}
use mathlib.Core.Option
use zalando_vertical_autosca.Common.Int.{ℤ, pos, ◌-ℤ◌, ◌<ℤ◌, wrap64}
use zalando_vertical_autosca.Common.Errors.{ok, err, plain, wrapped, GoError}
use zalando_vertical_autosca.Float64.{
  Float64, unit, two62, finite, make, of_int, div, to_int64, overflow, nearest, round_on,
  round_ratio, abs, le,
}
use zalando_vertical_autosca.Api.{SafetyGatesSpec}
use zalando_vertical_autosca.Platform.{Json}
use zalando_vertical_autosca.Tests.World.{
  gi, whole_units, whole_units-IsOrder, plain_text, memory_only,
}
use zalando_vertical_autosca.Vpa.{VpaRecommendation}
use zalando_vertical_autosca.Vpa.Laws.{AtMost}
use zalando_vertical_autosca.Zalando.Gates.{
  evaluate_change_gates, gate, absolute_diff, relative_diff, absolute_threshold_of,
  relative_threshold_of, default_change_gate_relative_threshold,
}
use zalando_vertical_autosca.Zalando.Gates.Laws.{evaluate_change_gates_exceeded}
use zalando_vertical_autosca.Zalando.Patch.{patch_data, mem_limit_bytes}
use zalando_vertical_autosca.Zalando.Patch.Laws.{
  at_path, patch_data_resources, patch_data_parameters, le-mem_limit_bytes,
}
use zalando_vertical_autosca.Parameters.{
  ParameterData, evaluate_all, evaluate_parameter, trim_space, trim_left, trim_right, is_space,
  template_funcs,
}
use zalando_vertical_autosca.Vpa.{lookup}
use zalando_vertical_autosca.Common.{
  ◌⊎◌, Bool-cases, eq_iff, ◌≢◌, ◌∙◌, sym, inl, inr, true, false, str_eq,
}
use zalando_vertical_autosca.Parameters.Ranges.{evaluate_all_order}
use zalando_vertical_autosca.Parameters.Laws.{Computes, evaluate_all-Computes, evaluate_all-err}

abbrev default_gates : SafetyGatesSpec ℤ
default_gates = record {
  require_healthy_cluster = true;
  min_ready_replicas = pos 1;
  absolute_threshold = none;
  relative_threshold = none;
}

passes :
    (evaluate_change_gates whole_units plain_text (gi 10) (gi 20) (some default_gates)).blocked
    ≡ false
unfolding evaluate_change_gates gate absolute_diff relative_diff absolute_threshold_of
    relative_threshold_of default_change_gate_relative_threshold wrap64 ◌-ℤ◌ of_int abs make div le
    to_int64 round_ratio round_on nearest unit overflow
passes = refl

evaluate_change_gates_exceeded_example :
    (absolute_threshold_of whole_units plain_text (some default_gates) <ℤ pos 10737418240)
    × (10 * 10737418240 < 100 * 10737418240)
evaluate_change_gates_exceeded_example =
    evaluate_change_gates_exceeded whole_units plain_text (some default_gates) (gi 10) (gi 20)
      10737418240 21474836480 10 refl refl refl (omega arith) (omega arith) (omega arith)
      (omega arith) passes

-- 40Gi lies above the range from 1Gi to 20Gi.
one_most_twenty : AtMost whole_units whole_units-IsOrder (gi 1) (gi 20)
unfolding ◌-ℤ◌
one_most_twenty = omega arith

abbrev twenty_with_cpu : VpaRecommendation ℤ
twenty_with_cpu = record { memory = gi 20; cpu = some (pos 2) }

abbrev one_parameter : List (String × String)
one_parameter = ("shared_buffers", "10Gi") ∷ []

abbrev zero_when_out : Float64 → ℤ
zero_when_out x = pos 0

abbrev example_patch : Json
example_patch = patch_data whole_units zero_when_out (of_int (pos 2)) twenty_with_cpu one_parameter

patch_data_resources_example :
    (at_path ("spec" ∷ "resources" ∷ "requests" ∷ "memory" ∷ []) (some example_patch)
      ≡ some (Json.text "20Gi"))
    × (at_path ("spec" ∷ "resources" ∷ "requests" ∷ "cpu" ∷ []) (some example_patch)
        ≡ some (Json.text "0"))
    × (at_path ("spec" ∷ "resources" ∷ "limits" ∷ "memory" ∷ []) (some example_patch)
        ≡ some (
            Json.text (
              whole_units.text
                (mem_limit_bytes whole_units zero_when_out (gi 20) (of_int (pos 2))))))
    × (at_path ("spec" ∷ "resources" ∷ "limits" ∷ "cpu" ∷ []) (some example_patch) ≡ none)
patch_data_resources_example =
    patch_data_resources whole_units zero_when_out (of_int (pos 2)) twenty_with_cpu one_parameter

patch_data_parameters_example :
    ((name : String)
      → at_path ("spec" ∷ "postgresql" ∷ "parameters" ∷ name ∷ []) (some example_patch)
        ≡ Option.map (λ value. Json.text value) (lookup one_parameter name))
    × ((key : String)
        → (key ≡ "parameters")
          ⊎ (at_path ("spec" ∷ "postgresql" ∷ key ∷ []) (some example_patch) ≡ none))
    × Unit {0}
patch_data_parameters_example =
    patch_data_parameters whole_units zero_when_out (of_int (pos 2)) twenty_with_cpu one_parameter

-- The parameter is found in the patch.
shared_buffers_sent :
    at_path ("spec" ∷ "postgresql" ∷ "parameters" ∷ "shared_buffers" ∷ []) (some example_patch)
    ≡ some (Json.text "10Gi")
shared_buffers_sent =
    (patch_data_parameters whole_units zero_when_out (of_int (pos 2)) twenty_with_cpu
        one_parameter).0
      "shared_buffers"

-- An overcommit of 1.5, on 10Gi.
within : 10737418240 * (3 * (unit / 2)) ≤ two62 * unit
unfolding unit
within = omega arith

le-mem_limit_bytes_example :
    (k : ℕ) × (mem_limit_bytes whole_units zero_when_out (gi 10) (finite false (3 * (unit / 2)))
      ≡ pos k)
    × (10737418240 ≤ k)
le-mem_limit_bytes_example =
    le-mem_limit_bytes whole_units zero_when_out (gi 10) 10737418240 (3 * (unit / 2)) refl
      (omega arith) within

abbrev inputs : ParameterData
inputs = record { memory = gi 10; cpu = pos 2 }

abbrev templated : List (String × String)
templated = ("max_connections", "100") ∷ ("shared_buffers", "{{ .memory }}") ∷ []

computed :
    evaluate_all memory_only plain_text templated inputs
    ≡ ok (("max_connections", "100") ∷ ("shared_buffers", "10Gi") ∷ [])
unfolding evaluate_all evaluate_parameter trim_space trim_left trim_right is_space template_funcs
computed = refl

evaluate_all-Computes_example :
    Computes memory_only plain_text inputs "shared_buffers" (some "{{ .memory }}") (some "10Gi")
evaluate_all-Computes_example =
    evaluate_all-Computes memory_only plain_text templated inputs
      (("max_connections", "100") ∷ ("shared_buffers", "10Gi") ∷ []) "shared_buffers" computed

true-false : true ≢ false
true-false = cc

names_differ : ◌≢◌ {A = String} "max_connections" "shared_buffers"
names_differ e = true-false (sym ((eq_iff "max_connections" "shared_buffers").1 e))

-- The same map, ranged over the other way.
abbrev templated_back : List (String × String)
templated_back = ("shared_buffers", "{{ .memory }}") ∷ ("max_connections", "100") ∷ []

same_lookups : (name : String) → lookup templated name ≡ lookup templated_back name
same_lookups name = elim (Bool-cases (str_eq "max_connections" name)) [
  | inr other ↦ rw other refl
  | inl this ↦ elim (Bool-cases (str_eq "shared_buffers" name)) [
    | inr other ↦ rw (this, other) refl
    | inl that ↦ absurd (names_differ ((eq_iff _ _).0 this ∙ sym ((eq_iff _ _).0 that)))
  ]
]

evaluate_all_order_example :
    (other : List (String × String)) × (evaluate_all memory_only plain_text templated_back inputs
      ≡ ok other)
    × ((name : String)
        → lookup (("max_connections", "100") ∷ ("shared_buffers", "10Gi") ∷ []) name
          ≡ lookup other name)
evaluate_all_order_example =
    evaluate_all_order memory_only plain_text templated templated_back inputs
      (("max_connections", "100") ∷ ("shared_buffers", "10Gi") ∷ []) (refl, (refl, tt)) same_lookups
      computed

abbrev wrong_template : List (String × String)
wrong_template = ("max_connections", "100") ∷ ("shared_buffers", "{{ .disk }}") ∷ []

abbrev the_failure : GoError
the_failure =
    wrapped "evaluating parameter 'shared_buffers'"
      (wrapped "parsing template" (plain "bad template"))

not_computed : evaluate_all memory_only plain_text wrong_template inputs ≡ err the_failure
unfolding evaluate_all evaluate_parameter trim_space trim_left trim_right is_space template_funcs
not_computed = refl

evaluate_all-err_example :
    (name : String) × (t : String) × (cause : GoError) × Memᴰ (name, t) wrong_template
    × (evaluate_parameter memory_only plain_text name t inputs ≡ err cause)
    × (the_failure ≡ wrapped ("evaluating parameter " <> plain_text.quote name) cause)
evaluate_all-err_example =
    evaluate_all-err memory_only plain_text wrong_template inputs the_failure not_computed
