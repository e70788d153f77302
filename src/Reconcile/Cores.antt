-- ===== src/Reconcile/Cores.antt =====
-- `cpuCores`: whole cores that hold the recommended CPU, and no core too many.
use zalando_vertical_autosca.Common.{
  ℕ, ◌+◌, ◌*◌, ◌/◌, ◌%◌, ◌≤◌, ◌<◌, ◌≡◌, some, arith, Bool-cases, inl, inr,
}
use zalando_vertical_autosca.Common.Int.{
  ℤ, pos, ◌+ℤ◌, ltb_ℤ, div_trunc, mod_trunc, wrap64, two63, wrap64_of_IsInt64,
}
use zalando_vertical_autosca.Vpa.{VpaRecommendation}
use zalando_vertical_autosca.Reconcile.Maintenance.{cpu_cores}

div_trunc-pos : (n : ℕ) → div_trunc (pos n) (pos 1000) ≡ pos (n / 1000)
unfolding div_trunc
div_trunc-pos n = ground arith

mod_trunc-pos : (n : ℕ) → mod_trunc (pos n) 1000 ≡ pos (n % 1000)
unfolding mod_trunc
mod_trunc-pos n = ground arith

one_more : (q : ℕ) → pos q +ℤ pos 1 ≡ pos (q + 1)
unfolding ◌+ℤ◌
one_more q = ground arith

next_core : (n : ℕ) → n < two63 → wrap64 (pos (n / 1000) +ℤ pos 1) ≡ pos (n / 1000 + 1)
next_core n h = rw (one_more (n / 1000)) (wrap64_of_IsInt64 (pos (n / 1000 + 1)) (ground arith))

-- The recommended CPU, if its millicores are a number below 2^63, is rounded up to whole cores:
-- they hold it, and one core less would not.
pub cpu_cores_lem :
    {Q : Type 0} (milli_value : Q → ℤ) (rec : VpaRecommendation Q) (cpu : Q) (n : ℕ)
    → rec.cpu ≡ some cpu
    → milli_value cpu ≡ pos n
    → n < two63
    → (k : ℕ) × (cpu_cores milli_value rec ≡ pos k) × (n ≤ 1000 * k) × (1000 * k < n + 1000)
unfolding cpu_cores
cpu_cores_lem milli_value rec cpu n e e' h = elim (Bool-cases (ltb_ℤ (pos 0) (pos (n % 1000)))) [
  | inl part ↦ (
    n / 1000 + 1,
    rw (e, e', div_trunc-pos n, mod_trunc-pos n, part) (next_core n h),
    ground arith,
    ground arith,
  )
  | inr whole ↦
      (n / 1000, rw (e, e', div_trunc-pos n, mod_trunc-pos n, whole), ground arith, ground arith)
]
