-- ===== src/DeepCopy/Statuses.antt =====
-- The deep copy of a status.
use zalando_vertical_autosca.Memory.{copy_pointer, copy_each}
use zalando_vertical_autosca.Memory.Copies.{
  Copied-pure, Copied-bind, Stable, Copies, Each, Each-Stable, PointsTo-Stable, copy_each-Copies,
}
use zalando_vertical_autosca.DeepCopy.Cells.{
  Machinery, quantity_cell, records_cell, conditions_cell,
}
use zalando_vertical_autosca.DeepCopy.Into.{Copiers, copy_into_record, copy_into_status}
use zalando_vertical_autosca.DeepCopy.Reads.{Values, IsSlice, IsRecord, IsStatus, CopiesDeep}
use zalando_vertical_autosca.DeepCopy.Laws.{
  IsSlice-Stable, IsSlice-Copies, IsRecord-Stable, IsRecord-Copies, quantity_pointer-Copies,
}

module _ (T : Machinery) (values : Values T) (copiers : Copiers T)
    (deep : CopiesDeep T values copiers) where
  open values use {is_quantity, is_condition}

  pub IsStatus-Stable : Stable (IsStatus T values)
  IsStatus-Stable h h' x v e k = record {
    memory_target =
        PointsTo-Stable is_quantity deep.quantity_stable quantity_cell h h' x.memory_target
          v.memory_target e k.memory_target;
    current_memory =
        PointsTo-Stable is_quantity deep.quantity_stable quantity_cell h h' x.current_memory
          v.current_memory e k.current_memory;
    maintenance_history =
        IsSlice-Stable T values records_cell (Each (IsRecord T values))
          (Each-Stable (IsRecord T values) (IsRecord-Stable T values copiers deep)) h h'
          x.maintenance_history v.maintenance_history e k.maintenance_history;
    conditions =
        IsSlice-Stable T values conditions_cell (Each is_condition)
          (Each-Stable is_condition deep.condition_stable) h h' x.conditions v.conditions e
          k.conditions;
  }

  history-Copies :
      Copies
        (IsSlice T values records_cell (Each (IsRecord T values)))
        (copy_pointer records_cell (copy_each (copy_into_record T copiers)))
  history-Copies =
      IsSlice-Copies T values records_cell (Each (IsRecord T values))
        (Each-Stable (IsRecord T values) (IsRecord-Stable T values copiers deep))
        (copy_each (copy_into_record T copiers))
        (copy_each-Copies (IsRecord T values) (IsRecord-Stable T values copiers deep)
          (copy_into_record T copiers) (IsRecord-Copies T values copiers deep))

  conditions-Copies :
      Copies
        (IsSlice T values conditions_cell (Each is_condition))
        (copy_pointer conditions_cell (copy_each copiers.copy_into_condition))
  conditions-Copies =
      IsSlice-Copies T values conditions_cell (Each is_condition)
        (Each-Stable is_condition deep.condition_stable) (copy_each copiers.copy_into_condition)
        (copy_each-Copies is_condition deep.condition_stable copiers.copy_into_condition
          deep.condition)

  pub IsStatus-Copies : Copies (IsStatus T values) (copy_into_status T copiers)
  unfolding copy_into_status
  IsStatus-Copies h x v k =
      Copied-bind _ _ h _ _
        (quantity_pointer-Copies T values copiers deep h x.memory_target v.memory_target
          k.memory_target)
        λ target h1 e1.
          let k1 = IsStatus-Stable h h1 x v e1 k in
          Copied-bind _ _ h1 _ _
            (quantity_pointer-Copies T values copiers deep h1 x.current_memory v.current_memory
              k1.current_memory)
            λ current h2 e2.
              let k2 = IsStatus-Stable h1 h2 x v e2 k1 in
              Copied-bind _ _ h2 _ _
                (history-Copies h2 x.maintenance_history v.maintenance_history
                  k2.maintenance_history)
                λ history h3 e3.
                  let k3 = IsStatus-Stable h2 h3 x v e3 k2 in
                  Copied-bind _ _ h3 _ _
                    (conditions-Copies h3 x.conditions v.conditions k3.conditions)
                    λ conditions h4 e4.
                      Copied-pure _ h4 _ λ g is_conditions is_history is_current is_target. record {
                        memory_target = is_target;
                        current_memory = is_current;
                        maintenance_history = is_history;
                        conditions = is_conditions;
                      }
