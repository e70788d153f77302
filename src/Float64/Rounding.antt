-- ===== src/Float64/Rounding.antt =====
-- Rounding to 53 bits is monotone, and exact on what 53 bits hold.
use native.Mathlib.Nat.{
  le-div_iff_mul-le, div-mul-le_self, le_of_mul-le-mul_right, mul-le-mul_right, div-add-mod,
  mul-div_left, pow-suc, div-div-eq-div-mul, lt_of_mul-lt-mul_right, mul-lt-mul_of_pos_right,
  mul_comm, mul-mod_left,
}
use native.Mathlib.Decide.{dec_lt}
use zalando_vertical_autosca.Common.{
  ℕ, zero, suc, ◌+◌, ◌*◌, ◌/◌, ◌%◌, ◌^◌, ◌≤◌, ◌<◌, ◌≡◌, ap, ◌∙◌, inl, inr, false, arith, ltb,
  Bool-cases, lt→ltb,
}
use zalando_vertical_autosca.Float64.{unit, two53, two62, nearest, round_on, round_ratio}

nearest-le_suc : (n d : ℕ) → nearest n d ≤ n / d + 1
unfolding nearest
nearest-le_suc n d = ground arith

le-nearest : (n d : ℕ) → n / d ≤ nearest n d
unfolding nearest
le-nearest n d = ground arith

-- 2 ^ 53 ≤ n / d leaves 2 ^ 52 ≤ n / (2 * d).
half_quotient : (n d : ℕ) → n / (2 * d) ≡ n / d / 2
half_quotient n d = rw (div-div-eq-div-mul n d 2, mul_comm d 2)

-- n / d ≤ m / e as fractions.
quotient_mono : (n d m e : ℕ) → 0 < d → 0 < e → n * e ≤ m * d → n / d ≤ m / e
quotient_mono n d m e hd he h =
    (le-div_iff_mul-le he).1 (
      le_of_mul-le-mul_right {k = d} (omega (arith, mul-le-mul_right e (div-mul-le_self n d), h))
        hd)

-- With equal quotients the remainders are in order.
remainder_mono : (n d m e : ℕ) → n * e ≤ m * d → n / d ≡ m / e → (n % d) * e ≤ (m % e) * d
remainder_mono n d m e h same = omega (
  arith,
  ap (λ (t : ℕ). t * e) (div-add-mod n d),
  ap (λ (t : ℕ). t * d) (div-add-mod m e),
  ap (λ (t : ℕ). t * d * e) same,
)

le→ltb : {a b : ℕ} → b ≤ a → ltb a b ≡ false
le→ltb h = ground arith

half_mono : (r d s e : ℕ) → 0 < d → 0 < e → r * e ≤ s * d → d < 2 * r → e < 2 * s
half_mono r d s e hd he h above =
    lt_of_mul-lt-mul_right d (omega (arith, h, mul-lt-mul_of_pos_right above he))

half_mono_le : (r d s e : ℕ) → 0 < d → r * e ≤ s * d → d ≤ 2 * r → e ≤ 2 * s
half_mono_le r d s e hd h above =
    le_of_mul-le-mul_right {k = d} (omega (arith, h, mul-le-mul_right e above)) hd

nearest_mono_same :
    (n d m e : ℕ) → 0 < d → 0 < e → n * e ≤ m * d → n / d ≡ m / e → nearest n d ≤ nearest m e
unfolding nearest
nearest_mono_same n d m e hd he h same =
    let r = remainder_mono n d m e h same in
    ground (arith, half_mono (n % d) d (m % e) e hd he r, half_mono_le (n % d) d (m % e) e hd r)

nearest_mono : (n d m e : ℕ) → 0 < d → 0 < e → n * e ≤ m * d → nearest n d ≤ nearest m e
nearest_mono n d m e hd he h = elim (dec_lt (n / d) (m / e)) [
  | yes less ↦ omega (arith, nearest-le_suc n d, le-nearest m e)
  | no same ↦ nearest_mono_same n d m e hd he h (omega (arith, quotient_mono n d m e hd he h))
]

-- A quotient of at least 2 ^ 52 is rounded to at least 2 ^ 52.
two52-le-round_on :
    (f n d : ℕ) → 0 < d → 4503599627370496 ≤ n / d → 4503599627370496 ≤ round_on f n d
unfolding round_on
two52-le-round_on zero n d hd h = omega (arith, le-nearest n d)
two52-le-round_on (suc f) n d hd h = elim (Bool-cases (ltb (n / d) two53)) [
  | inl small ↦ rw small (omega (arith, le-nearest n d))
  | inr big ↦ rw big (
      omega
        (arith, two52-le-round_on f n (2 * d) (omega arith) (ground (arith, half_quotient n d))))
]

round_on_mono : (f n d m e : ℕ) → 0 < d → 0 < e → n * e ≤ m * d → round_on f n d ≤ round_on f m e
unfolding round_on
round_on_mono zero n d m e hd he h = nearest_mono n d m e hd he h
round_on_mono (suc f) n d m e hd he h = ground (
  arith,
  nearest_mono n d m e hd he h,
  quotient_mono n d m e hd he h,
  nearest-le_suc n d,
  two52-le-round_on f m (2 * e) (omega arith),
  half_quotient m e,
  round_on_mono f n (2 * d) m (2 * e) (omega arith) (omega arith) (omega (arith, h)),
)

-- Rounding keeps the order of fractions.
pub round_ratio_mono :
    (n d m e : ℕ) → 0 < d → 0 < e → n * e ≤ m * d → round_ratio n d ≤ round_ratio m e
unfolding round_ratio
round_ratio_mono n d m e hd he h = round_on_mono 4096 n d m e hd he h

nearest-mul : (a d : ℕ) → 0 < d → nearest (a * d) d ≡ a
unfolding nearest
nearest-mul a d h = rw (mul-div_left a h, mul-mod_left) (ground arith)

round_on-mul : (f a d : ℕ) → 0 < d → a < two53 → round_on f (a * d) d ≡ a
unfolding round_on
round_on-mul zero a d hd h = nearest-mul a d hd
round_on-mul (suc f) a d hd h = rw (mul-div_left a hd, lt→ltb a two53 h) (nearest-mul a d hd)

round_on_coarser :
    (f a d : ℕ) → 0 < d → two53 ≤ a → round_on (suc f) (a * d) d ≡ 2 * round_on f (a * d) (2 * d)
unfolding round_on
round_on_coarser f a d hd h = rw (mul-div_left a hd, le→ltb h)

shift_grid : (m p d : ℕ) → m * (p * 2) * d ≡ m * p * (2 * d)
shift_grid m p d = omega arith

-- A number of at most 53 bits times a power of two is exact.
round_on-exact :
    (k f m d : ℕ) → 0 < d → m < two53 → k ≤ f → round_on f (m * 2 ^ k * d) d ≡ m * 2 ^ k
round_on-exact zero f m d hd hm hk = round_on-mul f (m * 2 ^ zero) d hd (omega arith)
round_on-exact (suc k) zero m d hd hm hk = absurd (omega arith)
round_on-exact (suc k) (suc f) m d hd hm hk = elim (dec_lt (m * 2 ^ suc k) two53) [
  | yes small ↦ round_on-mul (suc f) (m * 2 ^ suc k) d hd small
  | no big ↦
      round_on_coarser f (m * 2 ^ suc k) d hd (omega arith)
      ∙ rw
          (
            pow-suc 2 k,
            shift_grid m (2 ^ k) d,
            round_on-exact k f m (2 * d) (omega arith) hm (omega arith),
          )
          (omega arith)
]

-- Integers below 2 ^ 53 are exact in units of 2 ^ -1074.
pub round_ratio_of_small : (n d : ℕ) → n < two53 → 0 < d → round_ratio (n * unit * d) d ≡ n * unit
unfolding round_ratio unit
round_ratio_of_small n d h hd = round_on-exact 1074 4096 n d hd h (omega arith)

pub round_ratio-two62 : (d : ℕ) → 0 < d → round_ratio (two62 * unit * d) d ≡ two62 * unit
unfolding round_ratio unit
round_ratio-two62 d hd = round_on-exact 1136 4096 1 d hd (omega arith) (omega arith)

-- So is such an integer divided by 2 ^ 30.
pub round_ratio_of_gib :
    (n d : ℕ) → n < two53 → 0 < d → round_ratio (n * 2 ^ 1044 * d) d ≡ n * 2 ^ 1044
unfolding round_ratio
round_ratio_of_gib n d h hd = round_on-exact 1044 4096 n d hd h (omega arith)
