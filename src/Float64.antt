-- ===== src/Float64.antt =====
-- Go's float64 (IEEE 754 binary64), as far as the controller computes with it: conversion from and
-- to int64, `*`, `/`, `+`, the comparisons and `math.Abs`, each result rounded to nearest even.
-- A finite value is a sign and a magnitude in units of 2 ^ -1074, the least positive float64.
pub mod Rounding
pub mod Laws
use zalando_vertical_autosca.Common.{
  ℕ, zero, suc, ◌+◌, ◌-◌, ◌*◌, ◌/◌, ◌%◌, ◌^◌, Bool, true, false, not, ◌&&◌, ltb, leb, ◌==◌,
  if◌then◌else◌,
}
use zalando_vertical_autosca.Common.Int.{ℤ, pos, negsuc, two63}

pub data Float64 : Type 0 where
  finite : Bool → ℕ → Float64
  inf : Bool → Float64
  nan : Float64

-- 1.0 in units of 2 ^ -1074, and the first magnitude past the largest float64.
unfoldable pub unit : ℕ
unit = 2 ^ 1074

unfoldable pub overflow : ℕ
overflow = 2 ^ 2098

abbrev pub two53 : ℕ
two53 = 9007199254740992

abbrev pub two62 : ℕ
two62 = 4611686018427387904

-- n / d, rounded to the nearest integer, a tie to the even one.
unfoldable pub nearest : ℕ → ℕ → ℕ
nearest n d =
    let q = n / d in
    let r = n % d in if ltb (2 * r) d then q else if ltb d (2 * r) then q + 1 else q + q % 2

-- n / d, rounded to 53 significant bits: the grid doubles until the quotient fits.
unfoldable pub round_on : ℕ → ℕ → ℕ → ℕ
round_on zero n d = nearest n d
round_on (suc fuel) n d =
    let coarser = 2 * round_on fuel n (2 * d) in if ltb (n / d) two53 then nearest n d else coarser

-- Magnitudes stay below 2 ^ 2098, so no quotient here reaches 2 ^ (53 + 4096).
abbrev grid_fuel : ℕ
grid_fuel = 4096

unfoldable pub round_ratio : ℕ → ℕ → ℕ
round_ratio = round_on grid_fuel

-- The float64 nearest to (-1) ^ neg * n / d units.
unfoldable pub make : Bool → ℕ → ℕ → Float64
make neg n d = let m = round_ratio n d in if ltb m overflow then finite neg m else inf neg

-- `float64(n)`
unfoldable pub of_int : ℤ → Float64
of_int (pos n) = make false (n * unit) 1
of_int (negsuc n) = make true (suc n * unit) 1

-- The sign of a product or a quotient.
abbrev pub unlike : Bool → Bool → Bool
unlike true s = not s
unlike false s = s

is_zero : ℕ → Bool
is_zero m = m == 0

-- `x * y`
unfoldable pub mul : Float64 → Float64 → Float64
unfolding is_zero
mul nan _ = nan
mul (finite _ _) nan = nan
mul (inf _) nan = nan
mul (finite s m) (finite t n) = make (unlike s t) (m * n) unit
mul (finite s m) (inf t) = if is_zero m then nan else inf (unlike s t)
mul (inf s) (finite t n) = if is_zero n then nan else inf (unlike s t)
mul (inf s) (inf t) = inf (unlike s t)

-- `x / y`
unfoldable pub div : Float64 → Float64 → Float64
unfolding is_zero
div nan _ = nan
div (finite _ _) nan = nan
div (inf _) nan = nan
div (finite s m) (finite t n) =
    if is_zero n
    then (if is_zero m then nan else inf (unlike s t))
    else make (unlike s t) (m * unit) n
div (finite s m) (inf t) = finite (unlike s t) 0
div (inf s) (finite t n) = inf (unlike s t)
div (inf s) (inf t) = nan

-- A sum of two infinities, which exists only with like signs.
abbrev add_inf : Bool → Bool → Float64
add_inf true true = inf true
add_inf false false = inf false
add_inf _ _ = nan

-- The sum of two finite values. An exact 0 is positive, but for -0 + -0.
add_finite : Bool → ℕ → Bool → ℕ → Float64
add_finite true m true n = make true (m + n) 1
add_finite false m false n = make false (m + n) 1
add_finite true m false n = if leb m n then make false (n - m) 1 else make true (m - n) 1
add_finite false m true n = if leb n m then make false (m - n) 1 else make true (n - m) 1

-- `x + y`
unfoldable pub add : Float64 → Float64 → Float64
unfolding add_finite
add nan _ = nan
add (finite _ _) nan = nan
add (inf _) nan = nan
add (finite s m) (finite t n) = add_finite s m t n
add (finite _ _) (inf t) = inf t
add (inf s) (finite _ _) = inf s
add (inf s) (inf t) = add_inf s t

-- `math.Abs(x)`
unfoldable pub abs : Float64 → Float64
abs (finite _ m) = finite false m
abs (inf _) = inf false
abs nan = nan

abbrev less_signed : Bool → ℕ → Bool → ℕ → Bool
less_signed false m false n = ltb m n
less_signed true m true n = ltb n m
less_signed false m true n = false
less_signed true m false n = not (m == 0 && n == 0)

-- `x < y`. Every comparison with NaN is false, and -0 equals 0.
unfoldable pub lt : Float64 → Float64 → Bool
lt nan _ = false
lt (finite _ _) nan = false
lt (inf _) nan = false
lt (finite s m) (finite t n) = less_signed s m t n
lt (finite s m) (inf t) = not t
lt (inf s) (finite t n) = s
lt (inf s) (inf t) = s && not t

-- `x <= y`
unfoldable pub le : Float64 → Float64 → Bool
le nan _ = false
le (finite _ _) nan = false
le (inf _) nan = false
le (finite s m) (finite t n) = not (less_signed t n s m)
le (finite s m) (inf t) = not t
le (inf s) (finite t n) = s
le (inf s) (inf t) = not (t && not s)

-- `int64(x)`: the fraction is discarded. What a value out of range (or NaN) becomes depends on the
-- processor, so it is a parameter.
unfoldable pub to_int64 : (Float64 → ℤ) → Float64 → ℤ
to_int64 out_of_range (inf s) = out_of_range (inf s)
to_int64 out_of_range nan = out_of_range nan
to_int64 out_of_range (finite false m) =
    if ltb (m / unit) two63 then pos (m / unit) else out_of_range (finite false m)
to_int64 out_of_range (finite true m) =
    if m / unit == 0
    then pos 0
    else if leb (m / unit) two63
    then negsuc (m / unit - 1)
    else out_of_range (finite true m)
