-- ===== src/Vpa/Buffers.antt =====
-- The buffer adds to the memory, although it is computed in float64.
use zalando_vertical_autosca.Common.{
  ℕ, ◌*◌, ◌+◌, ◌≤◌, ◌<◌, ◌⊎◌, ◌≡◌, ◌≢◌, ap, sym, ◌∙◌, false, arith, inl, inr,
}
use zalando_vertical_autosca.Common.Int.{ℤ, pos}
use zalando_vertical_autosca.Platform.{Quantities}
use zalando_vertical_autosca.Float64.{
  Float64, finite, inf, make, of_int, add, div, round_ratio, unit, two53, two62,
}
use zalando_vertical_autosca.Float64.Rounding.{round_ratio_mono, round_ratio_of_small}
use zalando_vertical_autosca.Float64.Laws.{div_positive, nonzero_units, of_int_small, to_int64-mul}
use zalando_vertical_autosca.Vpa.{buffered_bytes}

make-finite : (n d m : ℕ) → make false n d ≡ finite false m → round_ratio n d ≡ m
unfolding make
make-finite n d m h = ground (arith, h)

make-cases :
    (n d : ℕ) → (make false n d ≡ finite false (round_ratio n d)) ⊎ (make false n d ≡ inf false)
unfolding make
make-cases n d = ground arith

inf-finite : {m : ℕ} → inf false ≢ finite false m
inf-finite = cc

-- A sum with one that is finite is at least one.
le-add_one :
    (x : Float64) (r m : ℕ)
    → (x ≡ finite false r) ⊎ (x ≡ inf false)
    → add (of_int (pos 1)) x ≡ finite false m
    → unit ≤ m
unfolding add
le-add_one x r m (inl e) h =
    let sum : add (finite false (1 * unit)) (finite false r) ≡ finite false m =
      ap (λ y. add (finite false (1 * unit)) y) (sym e)
      ∙ ap (λ y. add y x) (sym (of_int_small 1 (omega arith)))
      ∙ h in
    let rounded = make-finite (1 * unit + r) 1 m sum in
    let one = round_ratio_of_small 1 1 (omega arith) (omega arith) in
    omega (
      arith,
      sym rounded,
      one,
      round_ratio_mono (1 * unit * 1) 1 (1 * unit + r) 1 (omega arith) (omega arith) (omega arith),
    )
le-add_one x r m (inr e) h = absurd (
    inf-finite (
      ap (λ y. add (finite false (1 * unit)) y) (sym e)
      ∙ ap (λ y. add y x) (sym (of_int_small 1 (omega arith)))
      ∙ h))

percent :
    (b : ℕ)
    → (r : ℕ) × ((div (finite false b) (of_int (pos 100)) ≡ finite false r)
        ⊎ (div (finite false b) (of_int (pos 100)) ≡ inf false))
percent b =
    rw
      (
        of_int_small 100 (omega arith),
        div_positive b (100 * unit) (nonzero_units 100 (omega arith)),
      )
      (round_ratio (b * unit) (100 * unit), make-cases (b * unit) (100 * unit))

-- For a memory below 2 ^ 53 bytes and a positive percentage of which the factor `m` is finite and
-- keeps the product below 2 ^ 62, the buffered memory is a number of bytes that is at least the
-- memory.
pub le-buffered_bytes :
    (quantities : Quantities) (out : Float64 → ℤ) (q : quantities.Quantity) (n b m : ℕ)
    → quantities.value q ≡ pos n
    → n < two53
    → add (of_int (pos 1)) (div (finite false b) (of_int (pos 100))) ≡ finite false m
    → n * m ≤ two62 * unit
    → (k : ℕ) × (buffered_bytes quantities out q (finite false b) ≡ pos k) × (n ≤ k)
unfolding buffered_bytes
le-buffered_bytes quantities out q n b m e h factor small =
    let (r, cases) = percent b in
    rw (e, factor) (to_int64-mul out n h (le-add_one _ r m cases factor) small)
