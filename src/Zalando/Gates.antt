-- ===== src/Zalando/Gates.antt =====
-- `EvaluateChangeGates`: is the change of memory large enough to restart a cluster?
pub mod Laws
use zalando_vertical_autosca.Common.{
  ℕ, String, ◌<>◌, Bool, true, false, Option, none, some, if◌then◌else◌,
}
use zalando_vertical_autosca.Common.Int.{ℤ, pos, ◌-ℤ◌, ltb_ℤ, leb_ℤ, eqb_ℤ, wrap64}
use zalando_vertical_autosca.Float64.{Float64, unit, make, of_int, mul, div, abs, le, to_int64}
use zalando_vertical_autosca.Api.{
  SafetyGatesSpec, reason_change_gate_absolute_diff, reason_change_gate_relative_diff,
}
use zalando_vertical_autosca.Platform.{Quantities, Runtime}

pub record ChangeGateResult : Type 0 where
  pub blocked : Bool
  pub reason : String
  pub message : String

abbrev pub gib : ℤ
gib = pos 1073741824

-- 5Gi
abbrev pub default_change_gate_absolute_threshold : ℤ
default_change_gate_absolute_threshold = pos 5368709120

-- The float64 of the constant 0.10.
unfoldable pub default_change_gate_relative_threshold : Float64
default_change_gate_relative_threshold = make false unit 10

abbrev pub passed : ChangeGateResult
passed = record { blocked = false; reason = ""; message = "" }

-- `targetBytes - currentBytes`, an int64.
abbrev pub byte_diff : ℤ → ℤ → ℤ
byte_diff current_bytes target_bytes = wrap64 (target_bytes -ℤ current_bytes)

-- `int64(math.Abs(float64(targetBytes - currentBytes)))`
unfoldable pub absolute_diff : (Float64 → ℤ) → ℤ → ℤ → ℤ
absolute_diff out_of_range current_bytes target_bytes =
    to_int64 out_of_range (abs (of_int (byte_diff current_bytes target_bytes)))

-- `math.Abs(float64(targetBytes-currentBytes)) / float64(currentBytes)`
unfoldable pub relative_diff : ℤ → ℤ → Float64
relative_diff current_bytes target_bytes =
    div (abs (of_int (byte_diff current_bytes target_bytes))) (of_int current_bytes)

module _ (quantities : Quantities) (runtime : Runtime) where
  open quantities use {Quantity, value, text, new_quantity}

  -- `formatBytes`
  unfoldable pub format_bytes : ℤ → String
  format_bytes b =
      if leb_ℤ gib b
      then runtime.fixed 1 (div (of_int b) (of_int gib)) <> "Gi"
      else (runtime.decimal b <> "B")

  -- A pointer to gates may be nil.
  unfoldable pub absolute_threshold_of : Option (SafetyGatesSpec Quantity) → ℤ
  absolute_threshold_of none = default_change_gate_absolute_threshold
  absolute_threshold_of (some gates) = elim (gates.absolute_threshold) [
    | none ↦ default_change_gate_absolute_threshold
    | some q ↦ value q
  ]

  unfoldable pub relative_threshold_of : Option (SafetyGatesSpec Quantity) → Float64
  relative_threshold_of none = default_change_gate_relative_threshold
  relative_threshold_of (some gates) = elim (gates.relative_threshold) [
    | none ↦ default_change_gate_relative_threshold
    | some percent ↦ div (of_int percent) (of_int (pos 100))
  ]

  unfoldable pub blocked_absolute : ℤ → ℤ → ChangeGateResult
  unfolding format_bytes
  blocked_absolute abs_diff abs_threshold = record {
    blocked = true;
    reason = reason_change_gate_absolute_diff;
    message =
        "absolute memory diff "
        <> format_bytes abs_diff
        <> " does not exceed threshold of "
        <> text (new_quantity abs_threshold);
  }

  unfoldable pub blocked_relative : Float64 → Float64 → ChangeGateResult
  blocked_relative rel_diff rel_threshold = record {
    blocked = true;
    reason = reason_change_gate_relative_diff;
    message =
        "relative memory diff "
        <> runtime.fixed 1 (mul rel_diff (of_int (pos 100)))
        <> "% does not exceed threshold of "
        <> runtime.fixed 0 (mul rel_threshold (of_int (pos 100)))
        <> "%";
  }

  -- The gates on byte counts and thresholds.
  unfoldable pub gate : ℤ → ℤ → ℤ → Float64 → ChangeGateResult
  gate current_bytes target_bytes abs_threshold rel_threshold =
      let abs_diff = absolute_diff runtime.out_of_range current_bytes target_bytes in
      let rel_diff = relative_diff current_bytes target_bytes in
      if leb_ℤ abs_diff abs_threshold
      then blocked_absolute abs_diff abs_threshold
      else if eqb_ℤ current_bytes (pos 0)
      then passed
      else if le rel_diff rel_threshold
      then blocked_relative rel_diff rel_threshold
      else passed

  -- `EvaluateChangeGates`
  unfoldable pub evaluate_change_gates :
      Quantity → Quantity → Option (SafetyGatesSpec Quantity) → ChangeGateResult
  evaluate_change_gates current target gates =
      gate (value current) (value target) (absolute_threshold_of gates)
        (relative_threshold_of gates)
