-- ===== src/DeepCopy/Specs.antt =====
-- The deep copy of a spec.
use zalando_vertical_autosca.Memory.{pure}
use zalando_vertical_autosca.Memory.Copies.{
  Copied-pure, Copied-bind, Stable, Copies, Plain, Plain-Stable, Plain-Copies, PointsTo-Stable,
}
use zalando_vertical_autosca.DeepCopy.Cells.{
  Machinery, quantity_cell, parameters_cell, actions_cell,
}
use zalando_vertical_autosca.DeepCopy.Into.{Copiers, copy_into_spec}
use zalando_vertical_autosca.DeepCopy.Reads.{Values, IsSpec, CopiesDeep}
use zalando_vertical_autosca.DeepCopy.Laws.{
  IsSlice-Stable, IsSlice-Copies, IsGates-Stable, IsGates-Copies, quantity_pointer-Copies,
}

module _ (T : Machinery) (values : Values T) (copiers : Copiers T)
    (deep : CopiesDeep T values copiers) where
  open values use {is_quantity}

  pub IsSpec-Stable : Stable (IsSpec T values)
  IsSpec-Stable h h' x v e k = record {
    target_cluster = k.target_cluster;
    vpa_name = k.vpa_name;
    vpa_container_name = k.vpa_container_name;
    memory_min = deep.quantity_stable h h' x.memory_min v.memory_min e k.memory_min;
    memory_max = deep.quantity_stable h h' x.memory_max v.memory_max e k.memory_max;
    overcommit = k.overcommit;
    memory_buffer = k.memory_buffer;
    initial_memory =
        PointsTo-Stable is_quantity deep.quantity_stable quantity_cell h h' x.initial_memory
          v.initial_memory e k.initial_memory;
    maintenance_window = k.maintenance_window;
    safety_gates =
        IsGates-Stable T values copiers deep h h' x.safety_gates v.safety_gates e k.safety_gates;
    post_actions =
        IsSlice-Stable T values actions_cell (Plain (λ xs. xs)) (Plain-Stable (λ xs. xs)) h h'
          x.post_actions v.post_actions e k.post_actions;
    postgres_parameters =
        IsSlice-Stable T values parameters_cell (Plain (λ xs. xs)) (Plain-Stable (λ xs. xs)) h h'
          x.postgres_parameters v.postgres_parameters e k.postgres_parameters;
  }

  -- The fields are copied in turn, each in the memory that the last one left.
  pub IsSpec-Copies : Copies (IsSpec T values) (copy_into_spec T copiers)
  unfolding copy_into_spec
  IsSpec-Copies h x v k =
      Copied-bind _ _ h _ _ (deep.quantity h x.memory_min v.memory_min k.memory_min) λ low h1 e1.
        let k1 = IsSpec-Stable h h1 x v e1 k in
        Copied-bind _ _ h1 _ _ (deep.quantity h1 x.memory_max v.memory_max k1.memory_max)
          λ high h2 e2.
            let k2 = IsSpec-Stable h1 h2 x v e2 k1 in
            Copied-bind _ _ h2 _ _
              (quantity_pointer-Copies T values copiers deep h2 x.initial_memory v.initial_memory
                k2.initial_memory)
              λ initial h3 e3.
                let k3 = IsSpec-Stable h2 h3 x v e3 k2 in
                Copied-bind _ _ h3 _ _
                  (IsGates-Copies T values copiers deep h3 x.safety_gates v.safety_gates
                    k3.safety_gates)
                  λ gates h4 e4.
                    let k4 = IsSpec-Stable h3 h4 x v e4 k3 in
                    Copied-bind _ _ h4 _ _
                      (IsSlice-Copies T values actions_cell (Plain (λ xs. xs))
                        (Plain-Stable (λ xs. xs)) pure (Plain-Copies (λ xs. xs)) h4 x.post_actions
                        v.post_actions k4.post_actions)
                      λ actions h5 e5.
                        let k5 = IsSpec-Stable h4 h5 x v e5 k4 in
                        Copied-bind _ _ h5 _ _
                          (IsSlice-Copies T values parameters_cell (Plain (λ xs. xs))
                            (Plain-Stable (λ xs. xs)) pure (Plain-Copies (λ xs. xs)) h5
                            x.postgres_parameters v.postgres_parameters k5.postgres_parameters)
                          λ parameters h6 e6.
                            Copied-pure _ h6 _
                              λ g is_parameters is_actions is_gates is_initial is_high is_low.
                                record {
                                  target_cluster = k.target_cluster;
                                  vpa_name = k.vpa_name;
                                  vpa_container_name = k.vpa_container_name;
                                  memory_min = is_low;
                                  memory_max = is_high;
                                  overcommit = k.overcommit;
                                  memory_buffer = k.memory_buffer;
                                  initial_memory = is_initial;
                                  maintenance_window = k.maintenance_window;
                                  safety_gates = is_gates;
                                  post_actions = is_actions;
                                  postgres_parameters = is_parameters;
                                }
