-- ===== src/Store.antt =====
-- packages/core/src/store.ts, the class ResourceStore: the reactive store of resource values with
-- its subscriptions, its state snapshots and its least-recently-used eviction.
pub mod State
pub mod Internals
pub mod Operations
pub mod Changes
pub mod Validity
pub mod Eviction
pub mod Limits
pub mod Survival
pub mod Snapshots
pub mod Update
pub mod Methods
pub mod Writes
pub mod Marks
pub mod Patches
pub mod Reachable
pub mod Reads
pub mod Known
pub mod Order
pub mod Others
pub mod Listeners
