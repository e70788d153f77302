-- ===== src/Reconcile/Bootstrap.antt =====
-- The CPU of the bootstrap, which the code computes in float64, in whole numbers.
use native.Mathlib.Nat.{mul-div-mul_right}
use zalando_vertical_autosca.Common.{
  ℕ, ◌*◌, ◌/◌, ◌^◌, ◌≤◌, ◌<◌, ◌≡◌, refl, ap, ◌∙◌, false, arith, ltb, if◌then◌else◌,
}
use zalando_vertical_autosca.Common.Int.{ℤ, pos}
use zalando_vertical_autosca.Float64.{
  Float64, finite, of_int, mul, div, to_int64, round_ratio, unit, overflow, two53, two62,
}
use zalando_vertical_autosca.Float64.Rounding.{round_ratio_of_gib}
use zalando_vertical_autosca.Float64.Laws.{
  of_int_small, div_positive, nonzero_units, make_exact, to_int64-finite,
}
use zalando_vertical_autosca.Reconcile.Policy.{bootstrap_millis}

-- A gibibyte-th of a unit.
unfoldable part : ℕ
part = 2 ^ 1044

unit-part : unit ≡ 1073741824 * part
unfolding unit part
unit-part = refl

unit_pos : 0 < unit
unfolding unit
unit_pos = omega arith

part_pos : 0 < part
unfolding part
part_pos = omega arith

small_part : (n : ℕ) → n < two53 → n * part < overflow
unfolding part overflow
small_part n h = omega arith

small_part_bound : (n : ℕ) → n < two53 → n * part ≤ two62 * unit
unfolding part unit
small_part_bound n h = omega arith

exact_part : (n d : ℕ) → n < two53 → 0 < d → round_ratio (n * part * d) d ≡ n * part
unfolding part
exact_part n d h hd = round_ratio_of_gib n d h hd

over_gib : (n u p : ℕ) → u ≡ 1073741824 * p → n * u * u ≡ n * p * (1073741824 * u)
over_gib n u p e = rw e (omega arith)

hundredfold : (n u p : ℕ) → n * p * (100 * u) ≡ n * 100 * p * u
hundredfold n u p = omega arith

-- Gibibytes, as a float64, are exact.
gibibytes :
    (n : ℕ) → n < two53 → div (of_int (pos n)) (of_int (pos 1073741824)) ≡ finite false (n * part)
gibibytes n h =
    rw
      (
        of_int_small n h,
        of_int_small 1073741824 (omega arith),
        div_positive (n * unit) (1073741824 * unit) (nonzero_units 1073741824 (omega arith)),
        over_gib n unit part unit-part,
      )
      (make_exact false (n * part * (1073741824 * unit)) (1073741824 * unit)
        (exact_part n (1073741824 * unit) h (nonzero_units 1073741824 (omega arith)))
        (small_part n h))

millis :
    (n : ℕ)
    → n * 100 < two53
    → mul (div (of_int (pos n)) (of_int (pos 1073741824))) (of_int (pos 100))
      ≡ finite false (n * 100 * part)
unfolding mul
millis n h =
    rw (gibibytes n (omega arith), of_int_small 100 (omega arith), hundredfold n unit part)
      (make_exact false (n * 100 * part * unit) unit (exact_part (n * 100) unit h unit_pos)
        (small_part (n * 100) h))

-- For a memory of `n` bytes, of which a hundred times is below 2 ^ 53, the CPU of the bootstrap is 100
-- millicores for each gibibyte, rounded down, and 100 at least.
pub bootstrap_millis_lem :
    (out : Float64 → ℤ) (n : ℕ)
    → n * 100 < two53
    → bootstrap_millis out (pos n)
      ≡ pos (if ltb (n * 100 / 1073741824) 100 then 100 else n * 100 / 1073741824)
unfolding bootstrap_millis
bootstrap_millis_lem out n h =
    let converted : to_int64 out (finite false (n * 100 * part)) ≡ pos (n * 100 / 1073741824) =
      to_int64-finite out (n * 100 * part) (small_part_bound (n * 100) h)
      ∙ ap (λ u. pos (n * 100 * part / u)) unit-part
      ∙ ap pos (mul-div-mul_right (n * 100) 1073741824 part_pos) in
    rw (millis n h, converted) (ground arith)
