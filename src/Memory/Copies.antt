-- ===== src/Memory/Copies.antt =====
-- What a copy has to do: leave the memory as it was, and give a value that is read from new cells
-- alone.
use zalando_vertical_autosca.Common.{
  ℕ, suc, ◌≤◌, ◌<◌, ◌≡◌, refl, ◌∙◌, Option, none, some, List, [], ◌∷◌, arith,
}
use zalando_vertical_autosca.Memory.{
  Heap, Kind, Run, Code, lookup, update, and_then, pure, load, alloc, copy_pointer, copy_each,
}

module _ {C : Type 0} where
  -- The cells of `h` are as they were in `h'`, which may have more.
  pub record Extends (h h' : Heap C) : Type 0 where
    pub grows : h.next ≤ h'.next
    pub same_cells : (a : ℕ) → a < h.next → lookup h' a ≡ lookup h a

  -- `g` has the cells that `h'` has from `n` on.
  abbrev pub Agrees : ℕ → Heap C → Heap C → Type 0
  Agrees n h' g = (a : ℕ) → n ≤ a → a < h'.next → lookup g a ≡ lookup h' a

  -- The run from `h` does not fault, it only adds cells, and as long as those that it added are left
  -- alone, `T` holds of its result.
  pub record Copied {A : Type 0} (T : Heap C → A → Type 0) (h : Heap C) (r : Run C A) : Type 0 where
    pub result : A
    pub after : Heap C
    pub returns : r ≡ some (result, after)
    pub extends : Extends h after
    pub reads : (g : Heap C) → Agrees h.next after g → T g result

  pub Extends-trans : (f g h : Heap C) → Extends f g → Extends g h → Extends f h
  Extends-trans f g h p q = record {
    grows = omega (arith, p.grows, q.grows);
    same_cells = λ a below. q.same_cells a (omega (arith, p.grows, below)) ∙ p.same_cells a below;
  }

  pub Copied-pure :
      {A : Type 0} (T : Heap C → A → Type 0) (h : Heap C) (x : A)
      → ((g : Heap C) → T g x)
      → Copied T h (pure x h)
  Copied-pure T h x k = record {
    result = x;
    after = h;
    returns = refl;
    extends = record { grows = omega arith; same_cells = λ a _. refl };
    reads = λ g _. k g;
  }

  pub Copied-bind :
      {A B : Type 0} (R : Heap C → A → Type 0) (T : Heap C → B → Type 0) (h : Heap C) (r : Run C A)
      (k : A → Code C B)
      → Copied R h r
      → ((x : A) (h' : Heap C) → Extends h h' → Copied (λ g y. R g x → T g y) h' (k x h'))
      → Copied T h (and_then r k)
  Copied-bind R T h r k first next =
      let second = next first.result first.after first.extends in
      record {
        result = second.result;
        after = second.after;
        returns = rw (first.returns, and_then) second.returns;
        extends = Extends-trans h first.after second.after first.extends second.extends;
        reads = λ g agrees.
            second.reads g
              (λ a from below. agrees a (omega (arith, first.extends.grows, from)) below)
              (first.reads g (λ a from below.
                agrees a from (omega (arith, second.extends.grows, below))
                ∙ second.extends.same_cells a below));
      }

  pub Copied-map :
      {A : Type 0} (R T : Heap C → A → Type 0) (h : Heap C) (r : Run C A)
      → Copied R h r
      → ((g : Heap C) (x : A) → R g x → T g x)
      → Copied T h r
  Copied-map R T h r c k = record {
    result = c.result;
    after = c.after;
    returns = c.returns;
    extends = c.extends;
    reads = λ g agrees. k g c.result (c.reads g agrees);
  }

module _ {C A V : Type 0} where
  -- A relation of what is in memory and the value that it stands for: it is kept when cells are
  -- added, and `copy` makes something that stands for the same value.
  abbrev pub Stable : (Heap C → A → V → Type 0) → Type 0
  Stable R = (h h' : Heap C) (x : A) (v : V) → Extends h h' → R h x v → R h' x v

  abbrev pub Copies : (Heap C → A → V → Type 0) → (A → Code C A) → Type 0
  Copies R copy = (h : Heap C) (x : A) (v : V) → R h x v → Copied (λ g y. R g y v) h (copy x h)

  -- The pointer is nil when there is no value, and else refers to what stands for the value.
  pub data PointsTo (kind : Kind C A) (R : Heap C → A → V → Type 0) (h : Heap C)
      : Option ℕ → Option V → Type 0 where
    nil : PointsTo kind R h none none
    to :
        (a : ℕ) (x : A) {v : V}
        → load kind a h ≡ some (x, h)
        → R h x v
        → PointsTo kind R h (some a) (some v)

  pub data Each (R : Heap C → A → V → Type 0) (h : Heap C) : List A → List V → Type 0 where
    end : Each R h [] []
    both :
        {x : A} {xs : List A} {v : V} {vs : List V}
        → R h x v
        → Each R h xs vs
        → Each R h (x ∷ xs) (v ∷ vs)

  pub PointsTo-some :
      (kind : Kind C A) (R : Heap C → A → V → Type 0) (h : Heap C) (p : Option ℕ) (v : V)
      → PointsTo kind R h p (some v)
      → (a : ℕ) × (p ≡ some a)
  PointsTo-some kind R h (some a) v k = (a, refl)
  PointsTo-some kind R h none v k = elim k [ ]

  -- Without pointers.
  module _ (read : A → V) where
    abbrev pub Plain : Heap C → A → V → Type 0
    Plain h x v = read x ≡ v

    pub Plain-Stable : Stable Plain
    Plain-Stable h h' x v e k = k

    pub Plain-Copies : Copies Plain pure
    Plain-Copies h x v k = Copied-pure _ h x (λ g. k)

  module _ (R : Heap C → A → V → Type 0) (stable : Stable R) where
    pub Each-Stable :
        (h h' : Heap C) (xs : List A) (vs : List V)
        → Extends h h'
        → Each R h xs vs
        → Each R h' xs vs
    Each-Stable h h' _ _ e end = end
    Each-Stable h h' _ _ e (both {x} {xs} {v} {vs} k ks) =
        both (stable h h' x v e k) (Each-Stable h h' xs vs e ks)

    load-Extends :
        (kind : Kind C A) (h h' : Heap C) (a : ℕ) (x : A)
        → Extends h h'
        → load kind a h ≡ some (x, h)
        → load kind a h' ≡ some (x, h')
    unfolding load
    load-Extends kind h h' a x e k = ground (arith, e.same_cells a, e.grows)

    pub PointsTo-Stable :
        (kind : Kind C A) (h h' : Heap C) (p : Option ℕ) (o : Option V)
        → Extends h h'
        → PointsTo kind R h p o
        → PointsTo kind R h' p o
    PointsTo-Stable kind h h' _ _ e nil = nil
    PointsTo-Stable kind h h' _ _ e (to a x {v} k r) =
        to a x (load-Extends kind h h' a x e k) (stable h h' x v e r)

    module _ (copy : A → Code C A) (copies : Copies R copy) where
      pub copy_each-Copies :
          (h : Heap C) (xs : List A) (vs : List V)
          → Each R h xs vs
          → Copied (λ g ys. Each R g ys vs) h (copy_each copy xs h)
      unfolding copy_each
      copy_each-Copies h [] [] end = Copied-pure _ h [] (λ g. end)
      copy_each-Copies h [] (v ∷ vs) k = elim k [ ]
      copy_each-Copies h (x ∷ xs) [] k = elim k [ ]
      copy_each-Copies h (x ∷ xs) (v ∷ vs) (both k ks) =
          Copied-bind _ _ h _ _ (copies h x v k) λ y h' e.
            Copied-bind _ _ h' _ _ (copy_each-Copies h' xs vs (Each-Stable h h' xs vs e ks))
              λ ys h'' e'. Copied-pure _ h'' (y ∷ ys) λ g rest first. both first rest

      alloc-Copied :
          (kind : Kind C A) (h : Heap C) (x : A) (v : V)
          → Copied (λ g p. R g x v → PointsTo kind R g (some p) (some v)) h (alloc kind x h)
      unfolding alloc load
      alloc-Copied kind h x v = record {
        result = h.next;
        after = record { next = suc h.next; cell = update h.cell h.next (kind.hold x) };
        returns = refl;
        extends = record { grows = omega arith; same_cells = λ a below. ground arith };
        reads = λ g agrees k. to h.next x (ground (arith, agrees h.next, kind.held-hold x)) k;
      }

      pub copy_pointer-Copies :
          (kind : Kind C A) (h : Heap C) (p : Option ℕ) (o : Option V)
          → PointsTo kind R h p o
          → Copied (λ g q. PointsTo kind R g q o) h (copy_pointer kind copy p h)
      unfolding copy_pointer
      copy_pointer-Copies kind h _ _ nil = Copied-pure _ h none (λ g. nil)
      copy_pointer-Copies kind h _ _ (to a x {v} k r) = rw k (
          Copied-bind _ _ h _ _ (copies h x v r) λ y h' e.
            Copied-bind _ _ h' _ _ (alloc-Copied kind h' y v)
              λ b h'' e'. Copied-pure _ h'' (some b) λ g points read. points read)
