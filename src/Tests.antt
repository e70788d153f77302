-- ===== src/Tests.antt =====
-- Runs of the model on concrete inputs: a platform to run on, and an example for each result.
pub mod World
pub mod Sample
mod Clock
mod Pure
mod Changes
mod Runs
mod Updates
mod Reconciles
mod Lives
mod Structs
mod Copies
mod Entries
mod Stores
mod Histories
mod Waits
mod Ends
mod Watches
mod Starts
