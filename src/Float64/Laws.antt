-- ===== src/Float64/Laws.antt =====
-- What the controller relies on: a quotient keeps the order of exact ratios, small integers are
-- exact, and a factor of at least 1 does not shrink one.
use native.Mathlib.Nat.{
  mul-div_left, mul-le-mul_left, mul-le-mul_right, mul-one, mul-pos, le-div_iff_mul-le,
  div-lt_iff_lt-mul,
}
use zalando_vertical_autosca.Common.{
  ℕ, suc, ◌*◌, ◌/◌, ◌≤◌, ◌<◌, ◌≡◌, refl, Bool, true, false, arith, lt→ltb,
}
use zalando_vertical_autosca.Common.Int.{ℤ, pos, negsuc, two63}
use zalando_vertical_autosca.Float64.{
  Float64, finite, unit, overflow, two53, two62, round_ratio, make, of_int, mul, div, le, to_int64,
}
use zalando_vertical_autosca.Float64.Rounding.{
  round_ratio_mono, round_ratio_of_small, round_ratio-two62,
}

-- Rounding a smaller positive fraction gives a value that is `<=`.
pub le-make :
    (n d m e : ℕ) → 0 < d → 0 < e → n * e ≤ m * d → le (make false n d) (make false m e) ≡ true
unfolding make le
le-make n d m e hd he h = ground (arith, round_ratio_mono n d m e hd he h)

pub unit_pos : 0 < unit
unfolding unit
unit_pos = omega arith

unit_square : unit * unit < overflow * unit
unfolding unit overflow
unit_square = omega arith

small_lt_overflow : (n : ℕ) → n < two53 → n * unit < overflow
unfolding unit overflow
small_lt_overflow n h = omega arith

pub make_exact :
    (s : Bool) (n d : ℕ) {m : ℕ} → round_ratio n d ≡ m → m < overflow → make s n d ≡ finite s m
unfolding make
make_exact s n d e h = rw (e, lt→ltb _ _ h)

round_ratio-unit : (n : ℕ) → n < two53 → round_ratio (n * unit) 1 ≡ n * unit
round_ratio-unit n h = rw mul-one at (round_ratio_of_small n 1 h (omega arith))

-- `float64(n)` is exact below 2 ^ 53.
pub of_int_small : (n : ℕ) → n < two53 → of_int (pos n) ≡ finite false (n * unit)
unfolding of_int
of_int_small n h = make_exact false (n * unit) 1 (round_ratio-unit n h) (small_lt_overflow n h)

pub of_int_small_neg : (n : ℕ) → suc n < two53 → of_int (negsuc n) ≡ finite true (suc n * unit)
unfolding of_int
of_int_small_neg n h =
    make_exact true (suc n * unit) 1 (round_ratio-unit (suc n) h) (small_lt_overflow (suc n) h)

-- So `int64(float64(n))` is n there.
pub to_int64-of_int :
    (out : Float64 → ℤ) (n : ℕ) → n < two53 → to_int64 out (of_int (pos n)) ≡ pos n
unfolding to_int64
to_int64-of_int out n h =
    rw (of_int_small n h, mul-div_left n unit_pos, lt→ltb n two63 (omega arith))

pub nonzero_units : (n : ℕ) → 0 < n → 0 < n * unit
nonzero_units n h = mul-pos h unit_pos

pub div_positive :
    (a b : ℕ) → 0 < b → div (finite false a) (finite false b) ≡ make false (a * unit) b
unfolding div
div_positive a b h = ground arith

-- A quotient of small integers is the float64 nearest to the exact ratio.
div-of_int_small :
    (a b : ℕ)
    → a < two53
    → b < two53
    → 0 < b
    → div (of_int (pos a)) (of_int (pos b)) ≡ make false (a * unit * unit) (b * unit)
div-of_int_small a b ha hb bpos =
    rw (of_int_small a ha, of_int_small b hb) (div_positive _ _ (nonzero_units b bpos))

ratio_units : (a b c e u : ℕ) → a * e ≤ c * b → a * u * u * (e * u) ≤ c * u * u * (b * u)
ratio_units a b c e u h = omega (arith, mul-le-mul_right (u * u * u) h)

-- Quotients of small integers are in the order of the exact ratios.
pub le-div-of_int :
    (a b c e : ℕ)
    → a < two53
    → b < two53
    → c < two53
    → e < two53
    → 0 < b
    → 0 < e
    → a * e ≤ c * b
    → le (div (of_int (pos a)) (of_int (pos b))) (div (of_int (pos c)) (of_int (pos e))) ≡ true
le-div-of_int a b c e ha hb hc he bpos epos h =
    rw (div-of_int_small a b ha hb bpos, div-of_int_small c e hc he epos)
      (le-make _ _ _ _ (nonzero_units b bpos) (nonzero_units e epos) (ratio_units a b c e unit h))

tenth_units : (a b u : ℕ) → 10 * a ≤ b → a * u * u * 10 ≤ u * (b * u)
tenth_units a b u h = omega (arith, mul-le-mul_right (u * u) h)

-- A quotient that is at most a tenth is not above the float64 nearest to 0.1.
pub le-div_tenth :
    (a b : ℕ)
    → a < two53
    → b < two53
    → 0 < b
    → 10 * a ≤ b
    → le (div (of_int (pos a)) (of_int (pos b))) (make false unit 10) ≡ true
le-div_tenth a b ha hb bpos h =
    rw (div-of_int_small a b ha hb bpos)
      (le-make _ _ _ _ (nonzero_units b bpos) (omega arith) (tenth_units a b unit h))

-- A product with a factor of at least 1 is at least the other factor.
le-round_ratio_mul : (n m : ℕ) → n < two53 → unit ≤ m → n * unit ≤ round_ratio (n * unit * m) unit
le-round_ratio_mul n m hn hm = rw (round_ratio_of_small n unit hn unit_pos) at (
    round_ratio_mono (n * unit * unit) unit (n * unit * m) unit unit_pos unit_pos
      (mul-le-mul_right unit (mul-le-mul_left (n * unit) hm)))

product_units : (n m u : ℕ) → n * m ≤ two62 * u → n * u * m ≤ two62 * u * u
product_units n m u h = omega (arith, mul-le-mul_right u h)

quotient_lt : (r : ℕ) → r ≤ two62 * unit → r / unit < two63
quotient_lt r h = (div-lt_iff_lt-mul unit_pos).1 (omega (arith, h, unit_pos))

pub to_int64-finite :
    (out : Float64 → ℤ) (r : ℕ) → r ≤ two62 * unit → to_int64 out (finite false r) ≡ pos (r / unit)
unfolding to_int64
to_int64-finite out r h = rw (lt→ltb (r / unit) two63 (quotient_lt r h))

round_ratio_mul-le :
    (n m : ℕ) → n * m ≤ two62 * unit → round_ratio (n * unit * m) unit ≤ two62 * unit
round_ratio_mul-le n m h = rw (round_ratio-two62 unit unit_pos) at (
    round_ratio_mono (n * unit * m) unit (two62 * unit * unit) unit unit_pos unit_pos
      (mul-le-mul_right unit (product_units n m unit h)))

pub two62_lt_overflow : two62 * unit < overflow
unfolding unit overflow
two62_lt_overflow = omega arith

-- The product of a number of bytes with a factor becomes an int64, if the exact product is at most
-- 2 ^ 62.
pub to_int64-mul_finite :
    (out : Float64 → ℤ) (n m : ℕ)
    → n < two53
    → n * m ≤ two62 * unit
    → to_int64 out (mul (of_int (pos n)) (finite false m))
      ≡ pos (round_ratio (n * unit * m) unit / unit)
unfolding mul
to_int64-mul_finite out n m hn small =
    let r = round_ratio (n * unit * m) unit in
    let below = round_ratio_mul-le n m small in
    rw
      (
        of_int_small n hn,
        make_exact false (n * unit * m) unit refl (omega (arith, below, two62_lt_overflow)),
      )
      (to_int64-finite out r (omega (arith, below)))

-- A factor of at least 1 does not lower the bytes, and one of at most 2 no more than doubles them.
pub le-mul_rounded : (n m : ℕ) → n < two53 → unit ≤ m → n ≤ round_ratio (n * unit * m) unit / unit
le-mul_rounded n m hn hm = (le-div_iff_mul-le unit_pos).1 (le-round_ratio_mul n m hn hm)

next_multiple : (r q u : ℕ) → r ≤ q * u → 0 < u → r < suc q * u
next_multiple r q u h k = omega (arith, h, k)

quotient_le : (r q : ℕ) → r ≤ q * unit → r / unit ≤ q
quotient_le r q h =
    omega (arith, (div-lt_iff_lt-mul unit_pos).1 (next_multiple r q unit h unit_pos))

doubled_units : (n m u : ℕ) → m ≤ 2 * u → n * u * m ≤ 2 * n * u * u
doubled_units n m u h = omega (arith, mul-le-mul_left (n * u) h)

pub mul_rounded-le :
    (n m : ℕ) → 2 * n < two53 → m ≤ 2 * unit → round_ratio (n * unit * m) unit / unit ≤ 2 * n
mul_rounded-le n m hn hm =
    let top =
      round_ratio_mono (n * unit * m) unit (2 * n * unit * unit) unit unit_pos unit_pos
        (mul-le-mul_right unit (doubled_units n m unit hm)) in
    let exact = round_ratio_of_small (2 * n) unit hn unit_pos in
    quotient_le _ (2 * n) (omega (arith, top, exact))

pub to_int64-mul :
    (out : Float64 → ℤ) (n : ℕ) {m : ℕ}
    → n < two53
    → unit ≤ m
    → n * m ≤ two62 * unit
    → (k : ℕ) × (to_int64 out (mul (of_int (pos n)) (finite false m)) ≡ pos k) × (n ≤ k)
to_int64-mul out n {m} hn hm small = (
  round_ratio (n * unit * m) unit / unit,
  to_int64-mul_finite out n m hn small,
  le-mul_rounded n m hn hm,
)
