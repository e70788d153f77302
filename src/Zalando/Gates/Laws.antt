-- ===== src/Zalando/Gates/Laws.antt =====
-- The change gates in exact arithmetic: what a run that they let pass has exceeded.
use native.Mathlib.Decide.{dec_le}
use zalando_vertical_autosca.Common.{
  ℕ, suc, ◌+◌, ◌-◌, ◌*◌, ◌≤◌, ◌<◌, ◌≡◌, ap, ◌∙◌, ◌⊎◌, inl, inr, true, false, Option, none, some,
  arith, Option-cases,
}
use zalando_vertical_autosca.Common.Int.{
  ℤ, pos, negsuc, ◌-ℤ◌, ◌<ℤ◌, leb_ℤ, eqb_ℤ, two63, IsInt64, wrap64_of_IsInt64,
}
use zalando_vertical_autosca.Float64.{Float64, unit, two53, make, of_int, div, abs, le}
use zalando_vertical_autosca.Float64.Laws.{
  of_int_small, of_int_small_neg, to_int64-of_int, le-div-of_int, le-div_tenth,
}
use zalando_vertical_autosca.Api.{SafetyGatesSpec}
use zalando_vertical_autosca.Platform.{Quantities, Runtime}
use zalando_vertical_autosca.Zalando.Gates.{
  byte_diff, absolute_diff, relative_diff, gate, blocked_absolute, blocked_relative,
  absolute_threshold_of, relative_threshold_of, default_change_gate_relative_threshold,
  evaluate_change_gates,
}

-- The distance between two numbers of bytes.
abbrev pub distance : ℕ → ℕ → ℕ
distance a b = (a - b) + (b - a)

diff-IsInt64 : (c g : ℕ) → c < two63 → g < two63 → IsInt64 (pos g -ℤ pos c)
unfolding ◌-ℤ◌
diff-IsInt64 c g hc hg = ground arith

suc_pred : (n : ℕ) → 0 < n → suc (n - 1) ≡ n
suc_pred n h = omega arith

difference_up : (c g : ℕ) → c ≤ g → pos g -ℤ pos c ≡ pos (distance c g)
unfolding ◌-ℤ◌
difference_up c g h = ground arith

difference_down : (c g : ℕ) → g < c → pos g -ℤ pos c ≡ negsuc (distance c g - 1)
unfolding ◌-ℤ◌
difference_down c g h = ground arith

abs-of_int :
    (c g : ℕ)
    → c < two63
    → g < two63
    → distance c g < two53
    → abs (of_int (byte_diff (pos c) (pos g))) ≡ of_int (pos (distance c g))
unfolding abs
abs-of_int c g hc hg h =
    rw (wrap64_of_IsInt64 (pos g -ℤ pos c) (diff-IsInt64 c g hc hg)) (elim (dec_le c g) [
      | yes up ↦ rw (difference_up c g up, of_int_small (distance c g) h)
      | no down ↦
          let lower : g < c = omega arith in
          rw (
            difference_down c g lower,
            of_int_small_neg (distance c g - 1) (omega arith),
            suc_pred (distance c g) (omega arith),
            of_int_small (distance c g) h,
          )
    ])

module _ (out : Float64 → ℤ) (c g : ℕ) (hc : c < two63) (hg : g < two63)
    (small : distance c g < two53) where
  absolute_diff_exact : absolute_diff out (pos c) (pos g) ≡ pos (distance c g)
  unfolding absolute_diff
  absolute_diff_exact = rw (abs-of_int c g hc hg small) (to_int64-of_int out (distance c g) small)

  relative_diff_exact :
      relative_diff (pos c) (pos g) ≡ div (of_int (pos (distance c g))) (of_int (pos c))
  unfolding relative_diff
  relative_diff_exact = rw (abs-of_int c g hc hg small)

-- The percentage that a policy sets as its relative threshold, 10 if it sets none.
abbrev pub PercentOf : Option ℤ → ℕ → Type 0
PercentOf none p = ◌≡◌ {A = ℕ} p 10
PercentOf (some z) p = z ≡ pos p

ten_percent : (p d c : ℕ) → ◌≡◌ {A = ℕ} p 10 → 100 * d ≤ p * c → 10 * d ≤ c
ten_percent p d c e h = omega (arith, ap (λ (t : ℕ). t * c) e)

module _ (quantities : Quantities) (runtime : Runtime) where
  open quantities use {Quantity, value}

  -- The percentage that the gates set, if there are gates and they set one.
  abbrev pub relative_setting : Option (SafetyGatesSpec Quantity) → Option ℤ
  relative_setting none = none
  relative_setting (some gates) = gates.relative_threshold

  default_threshold-le :
      (gates : Option (SafetyGatesSpec Quantity)) (d c : ℕ)
      → (relative_setting gates) ≡ none
      → le (div (of_int (pos d)) (of_int (pos c))) (make false unit 10) ≡ true
      → le (div (of_int (pos d)) (of_int (pos c))) (relative_threshold_of quantities runtime gates)
        ≡ true
  unfolding relative_threshold_of default_change_gate_relative_threshold
  default_threshold-le none d c e h = h
  default_threshold-le (some gates) d c e h = ground arith

  given_threshold-le :
      (gates : Option (SafetyGatesSpec Quantity)) (d c p : ℕ)
      → (relative_setting gates) ≡ some (pos p)
      → le (div (of_int (pos d)) (of_int (pos c))) (div (of_int (pos p)) (of_int (pos 100))) ≡ true
      → le (div (of_int (pos d)) (of_int (pos c))) (relative_threshold_of quantities runtime gates)
        ≡ true
  unfolding relative_threshold_of
  given_threshold-le none d c p e h = absurd cc
  given_threshold-le (some gates) d c p e h = ground arith

  -- A change of at most p percent is at most the threshold of p percent, in float64.
  relative_threshold-le :
      (gates : Option (SafetyGatesSpec Quantity)) (p d c : ℕ)
      → PercentOf (relative_setting gates) p
      → d < two53
      → c < two53
      → p < two53
      → 0 < c
      → 100 * d ≤ p * c
      → le (div (of_int (pos d)) (of_int (pos c))) (relative_threshold_of quantities runtime gates)
        ≡ true
  relative_threshold-le gates p d c e hd hc hp cpos h =
      elim (Option-cases (relative_setting gates)) [
        | inl default ↦
            default_threshold-le gates d c default
              (le-div_tenth d c hd hc cpos (ten_percent p d c (rw default at e) h))
        | inr (z, given) ↦
            given_threshold-le gates d c p (given ∙ ap some (rw given at e))
              (le-div-of_int d c p 100 hd hc hp (omega arith) cpos (omega arith) (omega (arith, h)))
      ]

  -- What the code compared when it let a run pass.
  passed_comparisons :
      (c g abs_threshold : ℤ) (rel_threshold : Float64)
      → (gate quantities runtime c g abs_threshold rel_threshold).blocked ≡ false
      → (leb_ℤ (absolute_diff runtime.out_of_range c g) abs_threshold ≡ false)
        × ((eqb_ℤ c (pos 0) ≡ true) ⊎ (le (relative_diff c g) rel_threshold ≡ false))
  unfolding gate blocked_absolute blocked_relative
  passed_comparisons c g abs_threshold rel_threshold h = ground arith

  not_zero : (c : ℕ) → 0 < c → eqb_ℤ (pos c) (pos 0) ≡ true → ⊥
  not_zero c h e = ground arith

  -- The comparisons, once the distances are exact.
  exceeds_absolute :
      (c g : ℕ) (abs_threshold : ℤ)
      → c < two53
      → g < two53
      → leb_ℤ (absolute_diff runtime.out_of_range (pos c) (pos g)) abs_threshold ≡ false
      → abs_threshold <ℤ pos (distance c g)
  exceeds_absolute c g abs_threshold hc hg h =
      let exact =
        absolute_diff_exact runtime.out_of_range c g (omega arith) (omega arith) (omega arith) in
      let compared : leb_ℤ (pos (distance c g)) abs_threshold ≡ false = rw exact at h in
      ground arith

  exceeds_relative :
      (gates : Option (SafetyGatesSpec Quantity)) (c g p : ℕ)
      → PercentOf (relative_setting gates) p
      → 0 < c
      → c < two53
      → g < two53
      → p < two53
      → le (relative_diff (pos c) (pos g)) (relative_threshold_of quantities runtime gates) ≡ false
      → p * c < 100 * distance c g
  exceeds_relative gates c g p percent cpos hc hg hp h =
      let exact =
        relative_diff_exact runtime.out_of_range c g (omega arith) (omega arith) (omega arith) in
      elim (dec_le (100 * distance c g) (p * c)) [
        | yes small ↦
            let below =
              relative_threshold-le gates p (distance c g) c percent (omega arith) hc hp cpos
                small in
            let above = rw exact at h in ground arith
        | no large ↦ omega (arith, large)
      ]

  -- A run that the change gates let pass has changed the memory by more than the absolute
  -- threshold and by more than the percentage of the relative threshold (10% if none is set),
  -- both in exact arithmetic, although the code compares in float64. The current memory is
  -- positive, the percentage is not negative, and all three are below 2^53.
  pub evaluate_change_gates_exceeded :
      (gates : Option (SafetyGatesSpec Quantity)) (current target : Quantity) (c g p : ℕ)
      → value current ≡ pos c
      → value target ≡ pos g
      → PercentOf (relative_setting gates) p
      → 0 < c
      → c < two53
      → g < two53
      → p < two53
      → (evaluate_change_gates quantities runtime current target gates).blocked ≡ false
      → (absolute_threshold_of quantities runtime gates <ℤ pos (distance c g))
        × (p * c < 100 * distance c g)
  unfolding evaluate_change_gates
  evaluate_change_gates_exceeded gates current target c g p ec eg percent cpos hc hg hp h =
      let (absolute, relative) =
        passed_comparisons (pos c) (pos g) (absolute_threshold_of quantities runtime gates)
          (relative_threshold_of quantities runtime gates) (rw (ec, eg) at h) in
      (
        exceeds_absolute c g (absolute_threshold_of quantities runtime gates) hc hg absolute,
        elim relative [
          | inl is_zero ↦ absurd (not_zero c cpos is_zero)
          | inr above ↦ exceeds_relative gates c g p percent cpos hc hg hp above
        ],
      )
