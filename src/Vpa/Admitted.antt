-- ===== src/Vpa/Admitted.antt =====
-- The buffer for a percentage that the CRD admits: `Maximum=100` on memoryBuffer.
use native.Mathlib.Nat.{mul-le-mul_left, mul-le-mul_right}
use zalando_vertical_autosca.Common.{ℕ, ◌*◌, ◌+◌, ◌/◌, ◌≤◌, ◌<◌, ◌≡◌, refl, false, arith}
use zalando_vertical_autosca.Common.Int.{ℤ, pos}
use zalando_vertical_autosca.Platform.{Quantities}
use zalando_vertical_autosca.Float64.{
  Float64, finite, of_int, add, div, round_ratio, unit, overflow, two53, two62,
}
use zalando_vertical_autosca.Float64.Rounding.{round_ratio_mono, round_ratio_of_small}
use zalando_vertical_autosca.Float64.Laws.{
  make_exact, div_positive, nonzero_units, of_int_small, to_int64-mul_finite, le-mul_rounded,
  mul_rounded-le,
}
use zalando_vertical_autosca.Vpa.{buffered_bytes}

percent_units : (b u : ℕ) → b ≤ 100 * u → b * u * 1 ≤ 1 * u * 1 * (100 * u)
percent_units b u h = omega (arith, mul-le-mul_right u h)

unit_lt_overflow : 2 * unit < overflow
unfolding unit overflow
unit_lt_overflow = omega arith

-- A percentage of at most 100 is at most 1 as a factor.
percent-le : (b : ℕ) → b ≤ 100 * unit → round_ratio (b * unit) (100 * unit) ≤ unit
percent-le b h =
    let one = round_ratio_of_small 1 1 (omega arith) (omega arith) in
    let bound =
      round_ratio_mono (b * unit) (100 * unit) (1 * unit * 1) 1 (nonzero_units 100 (omega arith))
        (omega arith) (percent_units b unit h) in
    omega (arith, one, bound)

-- What the buffer multiplies by lies between 1 and 2.
factor :
    (b : ℕ)
    → b ≤ 100 * unit
    → (m : ℕ) × (add (of_int (pos 1)) (div (finite false b) (of_int (pos 100))) ≡ finite false m)
      × (unit ≤ m)
      × (m ≤ 2 * unit)
unfolding add
factor b h =
    let r = round_ratio (b * unit) (100 * unit) in
    let r_le = percent-le b h in
    let m = round_ratio (1 * unit + r) 1 in
    let one = round_ratio_of_small 1 1 (omega arith) (omega arith) in
    let two = round_ratio_of_small 2 1 (omega arith) (omega arith) in
    let low =
      round_ratio_mono (1 * unit * 1) 1 (1 * unit + r) 1 (omega arith) (omega arith)
        (omega arith) in
    let high =
      round_ratio_mono (1 * unit + r) 1 (2 * unit * 1) 1 (omega arith) (omega arith)
        (omega (arith, r_le)) in
    rw
      (
        of_int_small 1 (omega arith),
        of_int_small 100 (omega arith),
        div_positive b (100 * unit) (nonzero_units 100 (omega arith)),
        make_exact false (b * unit) (100 * unit) refl (omega (arith, r_le, unit_lt_overflow)),
      )
      (
        m,
        make_exact false (1 * unit + r) 1 refl (omega (arith, high, two, unit_lt_overflow)),
        omega (arith, low, one),
        omega (arith, high, two),
      )

two_n : (n : ℕ) → 2 * n < two53 → 2 * n ≤ two62
two_n n h = omega (arith, h)

product_small : (n m u : ℕ) → 2 * n < two53 → m ≤ 2 * u → n * m ≤ two62 * u
product_small n m u h k = omega (arith, mul-le-mul_left n k, mul-le-mul_right u (two_n n h))

-- For a memory below 2 ^ 52 bytes and a percentage that the CRD admits, from 0 to 100, the buffered
-- memory, which the code computes in float64, is a number of bytes between the memory and twice the
-- memory.
pub buffered_bytes_bounds :
    (quantities : Quantities) (out : Float64 → ℤ) (q : quantities.Quantity) (n b : ℕ)
    → quantities.value q ≡ pos n
    → 2 * n < two53
    → b ≤ 100 * unit
    → (k : ℕ) × (buffered_bytes quantities out q (finite false b) ≡ pos k) × (n ≤ k) × (k ≤ 2 * n)
unfolding buffered_bytes
buffered_bytes_bounds quantities out q n b e h admitted =
    let (m, is_factor, low, high) = factor b admitted in
    rw (e, is_factor)
      (
        round_ratio (n * unit * m) unit / unit,
        to_int64-mul_finite out n m (omega (arith, h)) (product_small n m unit h high),
        le-mul_rounded n m (omega (arith, h)) low,
        mul_rounded-le n m h high,
      )
