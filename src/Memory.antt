-- ===== src/Memory.antt =====
-- Memory with pointers, for the generated deep copies: cells of one type `C`, and code over them.
-- A pointer is nil (`none`) or an address. `none` as the result of a run is a fault, the use of a
-- pointer to no cell or to a cell of another kind.
pub mod Copies
pub mod Writes
use zalando_vertical_autosca.Common.{
  ℕ, suc, ◌≡◌, Option, none, some, List, [], ◌∷◌, ltb, ◌==◌, if◌then◌else◌,
}

pub record Heap (C : Type 0) : Type 0 where
  pub next : ℕ
  pub cell : ℕ → C

-- The cells of a kind: those that hold an `A`.
pub record Kind (C : Type 0) (A : Type 0) : Type 0 where
  pub hold : A → C
  pub held : C → Option A
  pub held-hold : (a : A) → held (hold a) ≡ some a

-- A run, in which `none` is a fault.
abbrev pub Run : Type 0 → Type 0 → Type 0
Run C A = Option (A × Heap C)

abbrev pub Code : Type 0 → Type 0 → Type 0
Code C A = Heap C → Run C A

module _ {C : Type 0} where
  -- The cells below `next` are allocated.
  abbrev pub lookup : Heap C → ℕ → Option C
  lookup h a = if ltb a h.next then some (h.cell a) else none

  abbrev pub update : (ℕ → C) → ℕ → C → ℕ → C
  update f a c b = if b == a then c else f b

  abbrev pub and_then : {A B : Type 0} → Run C A → (A → Code C B) → Run C B
  and_then none k = none
  and_then (some (a, h)) k = k a h

  abbrev pub pure : {A : Type 0} → A → Code C A
  pure a h = some (a, h)

  infixl 5 ◌>>=◌ ◌>>◌
  abbrev pub ◌>>=◌ : {A B : Type 0} → Code C A → (A → Code C B) → Code C B
  ◌>>=◌ m k h = and_then (m h) k

  abbrev pub ◌>>◌ : {B : Type 0} → Code C (Unit {0}) → Code C B → Code C B
  m >> k = m >>= λ _. k

module _ {C A : Type 0} (kind : Kind C A) where
  abbrev pub as_held : Option C → Option A
  as_held none = none
  as_held (some c) = kind.held c

  abbrev pub loaded : Heap C → Option A → Run C A
  loaded h none = none
  loaded h (some a) = some (a, h)

  unfoldable pub load : ℕ → Code C A
  load a h = loaded h (as_held (lookup h a))

  -- `new`, and `make` for the array behind a slice or for a map, with what is then written there.
  unfoldable pub alloc : A → Code C ℕ
  alloc x h = some (h.next, record { next = suc h.next; cell = update h.cell h.next (kind.hold x) })

  -- A write to an allocated cell.
  unfoldable pub store : ℕ → A → Code C (Unit {0})
  store a x h =
      if ltb a h.next then some (tt, record h { cell = update h.cell a (kind.hold x) }) else none

  -- `if in != nil { *out = new(T); copy into *out }`, and the same for a slice or a map.
  unfoldable pub copy_pointer : (A → Code C A) → Option ℕ → Code C (Option ℕ)
  copy_pointer copy none = pure none
  copy_pointer copy (some a) = do x ← load a; y ← copy x; b ← alloc y; pure (some b)

-- `for i := range in { copy in[i] into out[i] }`
unfoldable pub copy_each : {C A : Type 0} → (A → Code C A) → List A → Code C (List A)
copy_each copy [] = pure []
copy_each copy (x ∷ xs) = do y ← copy x; ys ← copy_each copy xs; pure (y ∷ ys)
