-- ===== src/Reconcile.antt =====
-- internal/controller/postgresmemorpolicy_controller.go: the reconciler, and the functions of
-- conditions.go that write to the policy. `ctrl.Result` is its `RequeueAfter`.
pub mod Status
pub mod Maintenance
pub mod Policy
pub mod Effects
pub mod Once
pub mod Runs
pub mod Progress
pub mod Ends
pub mod Monitoring
pub mod Refinement
pub mod Coherence
pub mod Starts
pub mod Invariant
pub mod Windows
pub mod Slots
pub mod Sequence
pub mod Storage
pub mod Permission
pub mod Safety
pub mod Intents
pub mod Gating
pub mod Updates
pub mod Limits
pub mod Cores
pub mod Stored
pub mod Bootstrap
pub mod Closing
pub mod Expiry
pub mod Beginning
pub mod Watching
