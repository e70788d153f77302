-- ===== src/Memory/Writes.antt =====
-- What others may do to memory without touching the cells of a copy.
use zalando_vertical_autosca.Common.{ℕ, suc, ◌≤◌, ◌<◌, refl, ◌⊎◌, arith}
use zalando_vertical_autosca.Memory.{Heap, update}
use zalando_vertical_autosca.Memory.Copies.{Agrees}

-- From `h`, any cells are written but those from `old` up to the ones that are new, and any are added.
pub data Writes {C : Type 0} (old : ℕ) (h : Heap C) : Heap C → Type 0 where
  done : Writes old h h
  wrote :
      {g : Heap C} (a : ℕ) (c : C)
      → (a < old) ⊎ (h.next ≤ a)
      → Writes old h g
      → Writes old h (record g { cell = update g.cell a c })
  added :
      {g : Heap C} (c : C)
      → Writes old h g
      → Writes old h (record { next = suc g.next; cell = update g.cell g.next c })

module _ {C : Type 0} where
  Writes-grows : (old : ℕ) (h g : Heap C) → Writes old h g → h.next ≤ g.next
  Writes-grows old h _ done = omega arith
  Writes-grows old h _ (wrote {g} a c outside w) = Writes-grows old h g w
  Writes-grows old h _ (added {g} c w) = omega (arith, Writes-grows old h g w)

  pub Writes-Agrees : (old : ℕ) (h g : Heap C) → Writes old h g → Agrees old h g
  Writes-Agrees old h _ done a from below = refl
  Writes-Agrees old h _ (wrote {g} b c outside w) a from below =
      ground (arith, Writes-Agrees old h g w a from below, outside)
  Writes-Agrees old h _ (added {g} c w) a from below =
      ground (arith, Writes-Agrees old h g w a from below, Writes-grows old h g w)
