-- ===== src/DeepCopy/Laws.antt =====
-- A deep copy stands for the same value as the original, and shares no memory with it.
use zalando_vertical_autosca.Common.{none, some, List}
use zalando_vertical_autosca.Memory.{Heap, Kind, Code, pure, copy_pointer}
use zalando_vertical_autosca.Memory.Copies.{
  Copied-pure, Copied-bind, Copied-map, Stable, Copies, PointsTo, nil, Plain, Plain-Stable,
  Plain-Copies, PointsTo-Stable, copy_pointer-Copies,
}
use zalando_vertical_autosca.DeepCopy.Cells.{Machinery, Cell, quantity_cell, int32_cell, time_cell}
use zalando_vertical_autosca.DeepCopy.Into.{Copiers, copy_if_set, copy_into_record, copy_into_gates}
use zalando_vertical_autosca.DeepCopy.Reads.{Values, IsSlice, IsRecord, IsGates, CopiesDeep}

module _ (T : Machinery) (values : Values T) where
  module _ {A V : Type 0} (kind : Kind (Cell T) A) (R : Heap (Cell T) → A → List V → Type 0)
      (stable : Stable R) where
    pub IsSlice-Stable : Stable (IsSlice T values kind R)
    IsSlice-Stable h h' p vs e k = record {
      contents = k.contents;
      points = PointsTo-Stable R stable kind h h' p k.contents e k.points;
      same = k.same;
    }

    pub IsSlice-Copies :
        (copy : A → Code (Cell T) A)
        → Copies R copy
        → Copies (IsSlice T values kind R) (copy_pointer kind copy)
    IsSlice-Copies copy copies h p vs k =
        Copied-map _ _ h _ (copy_pointer-Copies R stable copy copies kind h p k.contents k.points)
          λ g q points. record { contents = k.contents; points = points; same = k.same }

  module _ (copiers : Copiers T) (deep : CopiesDeep T values copiers) where
    pub IsRecord-Stable : Stable (IsRecord T values)
    IsRecord-Stable h h' x v e k = record {
      status = k.status;
      phase = k.phase;
      reason = k.reason;
      previous_memory = k.previous_memory;
      applied_memory = k.applied_memory;
      started_at = deep.time_stable h h' x.started_at v.started_at e k.started_at;
      completed_at =
          PointsTo-Stable values.is_time deep.time_stable time_cell h h' x.completed_at
            v.completed_at e k.completed_at;
    }

    copy_if_set-Copies : Copies (PointsTo time_cell values.is_time) (copy_if_set T copiers)
    copy_if_set-Copies h none none k = Copied-pure _ h none (λ g. nil)
    copy_if_set-Copies h none (some t) k = elim k [ ]
    copy_if_set-Copies h (some a) o k = deep.time_pointer h (some a) o k

    pub IsRecord-Copies : Copies (IsRecord T values) (copy_into_record T copiers)
    unfolding copy_into_record
    IsRecord-Copies h x v k =
        Copied-bind _ _ h _ _ (deep.time h x.started_at v.started_at k.started_at) λ started h' e.
          Copied-bind _ _ h' _ _
            (copy_if_set-Copies h' x.completed_at v.completed_at (
              PointsTo-Stable values.is_time deep.time_stable time_cell h h' x.completed_at
                v.completed_at e k.completed_at))
            λ completed h'' e'. Copied-pure _ h'' _ λ g points is_started. record {
              started_at = is_started;
              completed_at = points;
              status = k.status;
              phase = k.phase;
              reason = k.reason;
              previous_memory = k.previous_memory;
              applied_memory = k.applied_memory;
            }

    pub IsGates-Stable : Stable (IsGates T values)
    IsGates-Stable h h' x v e k = record {
      require_healthy_cluster = k.require_healthy_cluster;
      min_ready_replicas = k.min_ready_replicas;
      absolute_threshold =
          PointsTo-Stable values.is_quantity deep.quantity_stable quantity_cell h h'
            x.absolute_threshold v.absolute_threshold e k.absolute_threshold;
      relative_threshold =
          PointsTo-Stable (Plain (λ n. n)) (Plain-Stable (λ n. n)) int32_cell h h'
            x.relative_threshold v.relative_threshold e k.relative_threshold;
    }

    pub quantity_pointer-Copies :
        Copies
          (PointsTo quantity_cell values.is_quantity)
          (copy_pointer quantity_cell copiers.copy_quantity)
    quantity_pointer-Copies =
        copy_pointer-Copies values.is_quantity deep.quantity_stable copiers.copy_quantity
          deep.quantity quantity_cell

    pub IsGates-Copies : Copies (IsGates T values) (copy_into_gates T copiers)
    unfolding copy_into_gates
    IsGates-Copies h x v k =
        Copied-bind _ _ h _ _
          (quantity_pointer-Copies h x.absolute_threshold v.absolute_threshold k.absolute_threshold)
          λ absolute h' e.
            Copied-bind _ _ h' _ _
              (copy_pointer-Copies (Plain (λ n. n)) (Plain-Stable (λ n. n)) pure
                (Plain-Copies (λ n. n)) int32_cell h' x.relative_threshold v.relative_threshold
                (IsGates-Stable h h' x v e k).relative_threshold)
              λ relative h'' e'. Copied-pure _ h'' _ λ g is_relative is_absolute. record {
                require_healthy_cluster = k.require_healthy_cluster;
                min_ready_replicas = k.min_ready_replicas;
                absolute_threshold = is_absolute;
                relative_threshold = is_relative;
              }
