-- ===== src/DeepCopy.antt =====
-- api/v1alpha1/zz_generated.deepcopy.go: the types of types.go as they lie in memory (Cells), their
-- deep copies (Into), the values that they stand for (Reads), and the proofs that a copy stands
-- for the same value and shares nothing (Laws).
pub mod Cells
pub mod Into
pub mod Reads
pub mod Laws
pub mod Specs
pub mod Statuses
pub mod Policies
