-- ===== src/DeepCopy/Policies.antt =====
-- The deep copies of a policy and of a list of policies.
use mathlib.Core.Path.{subst}
use zalando_vertical_autosca.Common.{ℕ, ◌≡◌, refl, sym, ◌⊎◌, inl, inr, Option, none, some}
use zalando_vertical_autosca.Memory.{Heap, Kind, and_then, Code, copy_pointer, copy_each}
use zalando_vertical_autosca.Memory.Writes.{Writes, Writes-Agrees}
use zalando_vertical_autosca.Memory.Copies.{
  Extends, Copied, Copied-pure, Copied-bind, Stable, Copies, PointsTo, PointsTo-some, Each,
  Each-Stable, copy_each-Copies, copy_pointer-Copies,
}
use zalando_vertical_autosca.DeepCopy.Cells.{
  Machinery, Pointer, Cell, policies_cell, policy_cell, policy_list_cell,
}
use zalando_vertical_autosca.DeepCopy.Into.{
  Copiers, copy_into_policy, copy_into_policy_list, copy_policy, copy_policy_list,
  copy_policy_list_object, policy_list_object,
}
use zalando_vertical_autosca.DeepCopy.Reads.{
  IsDeepCopy, Values, PolicyValue, IsPolicy, PolicyListValue, IsPolicyList, CopiesDeep,
}
use zalando_vertical_autosca.DeepCopy.Laws.{IsSlice-Stable, IsSlice-Copies}
use zalando_vertical_autosca.DeepCopy.Specs.{IsSpec-Stable, IsSpec-Copies}
use zalando_vertical_autosca.DeepCopy.Statuses.{IsStatus-Stable, IsStatus-Copies}

module _ (T : Machinery) (values : Values T) (copiers : Copiers T)
    (deep : CopiesDeep T values copiers) where
  IsPolicy-Stable : Stable (IsPolicy T values)
  IsPolicy-Stable h h' x v e k = record {
    type_meta = k.type_meta;
    object_meta = deep.object_meta_stable h h' x.object_meta v.object_meta e k.object_meta;
    spec = IsSpec-Stable T values copiers deep h h' x.spec v.spec e k.spec;
    status = IsStatus-Stable T values copiers deep h h' x.status v.status e k.status;
  }

  IsPolicy-Copies : Copies (IsPolicy T values) (copy_into_policy T copiers)
  unfolding copy_into_policy
  IsPolicy-Copies h x v k =
      Copied-bind _ _ h _ _ (deep.object_meta h x.object_meta v.object_meta k.object_meta)
        λ meta h1 e1.
          let k1 = IsPolicy-Stable h h1 x v e1 k in
          Copied-bind _ _ h1 _ _ (IsSpec-Copies T values copiers deep h1 x.spec v.spec k1.spec)
            λ spec h2 e2.
              let k2 = IsPolicy-Stable h1 h2 x v e2 k1 in
              Copied-bind _ _ h2 _ _
                (IsStatus-Copies T values copiers deep h2 x.status v.status k2.status)
                λ status h3 e3. Copied-pure _ h3 _ λ g is_status is_spec is_meta. record {
                  type_meta = k.type_meta;
                  object_meta = is_meta;
                  spec = is_spec;
                  status = is_status;
                }

  Copied-IsDeepCopy :
      {A V : Type 0} (kind : Kind (Cell T) A) (R : Heap (Cell T) → A → V → Type 0)
      (copy : Pointer → Code (Cell T) Pointer) (h : Heap (Cell T)) (p : ℕ) (v : V)
      → Copied (λ g q. PointsTo kind R g q (some v)) h (copy (some p) h)
      → IsDeepCopy kind R copy h p v
  Copied-IsDeepCopy kind R copy h p v c =
      let (q, same) = PointsTo-some kind R c.after c.result v (c.reads c.after (λ a _ _. refl)) in
      (
        q,
        c.after,
        rw (sym same) c.returns,
        c.extends,
        λ g w.
            subst (λ r. PointsTo kind R g r (some v)) same
              (c.reads g (Writes-Agrees h.next c.after g w)),
      )

  -- If the deep copies of apimachinery are deep, then so is that of a policy: it leaves all memory
  -- as it was and returns a pointer to a policy with the same metadata, spec and status, which stays
  -- so whatever is written to the memory there was before, or allocated later.
  pub copy_policy-IsDeepCopy :
      (h : Heap (Cell T)) (p : ℕ) (v : PolicyValue T values)
      → PointsTo policy_cell (IsPolicy T values) h (some p) (some v)
      → IsDeepCopy policy_cell (IsPolicy T values) (copy_policy T copiers) h p v
  unfolding copy_policy
  copy_policy-IsDeepCopy h p v k =
      Copied-IsDeepCopy policy_cell (IsPolicy T values) (copy_policy T copiers) h p v (
        copy_pointer-Copies (IsPolicy T values) IsPolicy-Stable (copy_into_policy T copiers)
          IsPolicy-Copies policy_cell h (some p) (some v) k)

  IsPolicyList-Stable : Stable (IsPolicyList T values)
  IsPolicyList-Stable h h' x v e k = record {
    type_meta = k.type_meta;
    list_meta = deep.list_meta_stable h h' x.list_meta v.list_meta e k.list_meta;
    items =
        IsSlice-Stable T values policies_cell (Each (IsPolicy T values))
          (Each-Stable (IsPolicy T values) IsPolicy-Stable) h h' x.items v.items e k.items;
  }

  IsPolicyList-Copies : Copies (IsPolicyList T values) (copy_into_policy_list T copiers)
  unfolding copy_into_policy_list
  IsPolicyList-Copies h x v k =
      Copied-bind _ _ h _ _ (deep.list_meta h x.list_meta v.list_meta k.list_meta) λ meta h1 e1.
        Copied-bind _ _ h1 _ _
          (IsSlice-Copies T values policies_cell (Each (IsPolicy T values))
            (Each-Stable (IsPolicy T values) IsPolicy-Stable)
            (copy_each (copy_into_policy T copiers))
            (copy_each-Copies (IsPolicy T values) IsPolicy-Stable (copy_into_policy T copiers)
              IsPolicy-Copies)
            h1 x.items v.items (IsPolicyList-Stable h h1 x v e1 k).items)
          λ items h2 e2. Copied-pure _ h2 _ λ g is_items is_meta. record {
            type_meta = k.type_meta;
            list_meta = is_meta;
            items = is_items;
          }

  copy_policy_list-IsDeepCopy :
      (h : Heap (Cell T)) (p : ℕ) (v : PolicyListValue T values)
      → PointsTo policy_list_cell (IsPolicyList T values) h (some p) (some v)
      → IsDeepCopy policy_list_cell (IsPolicyList T values) (copy_policy_list T copiers) h p v
  unfolding copy_policy_list
  copy_policy_list-IsDeepCopy h p v k =
      Copied-IsDeepCopy policy_list_cell (IsPolicyList T values) (copy_policy_list T copiers) h p v
        (copy_pointer-Copies (IsPolicyList T values) IsPolicyList-Stable
          (copy_into_policy_list T copiers) IsPolicyList-Copies policy_list_cell h (some p) (some v)
          k)

  -- If the deep copies of apimachinery are deep, then DeepCopyObject of a list of policies gives the
  -- nil interface for a nil pointer. For any other it leaves all memory as it was and gives a list
  -- with the same metadata and the same policies in their order, which stays so whatever is written
  -- to the memory there was before, or allocated later.
  pub copy_policy_list_object-IsDeepCopy :
      (h : Heap (Cell T)) (o : Pointer) (w : Option (PolicyListValue T values))
      → PointsTo policy_list_cell (IsPolicyList T values) h o w
      → ((o ≡ none) × (copy_policy_list_object T copiers o h ≡ some (none, h)))
        ⊎ ((v : PolicyListValue T values) × (w ≡ some v)
            × (q : ℕ) × (h' : Heap (Cell T)) × (copy_policy_list_object T copiers o h
                ≡ some (some (policy_list_object q), h'))
            × Extends h h'
            × ((g : Heap (Cell T))
                → Writes h.next h' g
                → PointsTo policy_list_cell (IsPolicyList T values) g (some q) (some v)))
  unfolding copy_policy_list_object copy_policy_list copy_pointer
  copy_policy_list_object-IsDeepCopy h none none k = inl (refl, refl)
  copy_policy_list_object-IsDeepCopy h none (some v) k = elim k [ ]
  copy_policy_list_object-IsDeepCopy h (some p) none k = elim k [ ]
  copy_policy_list_object-IsDeepCopy h (some p) (some v) k =
      let (q, h', e, extends, rest) = copy_policy_list-IsDeepCopy h p v k in
      inr (v, refl, q, h', rw (e, and_then) refl, extends, rest)
