-- ===== src/Live.antt =====
-- packages/core/src/live/manager.ts, the class LiveManager: the life of one logical live connection.
pub mod State
pub mod Internals
pub mod Keys
pub mod Protocol
pub mod Stream
pub mod Methods
pub mod Coherence
pub mod Steps
pub mod Lifecycle
pub mod Runs
