-- ===== src/Router.antt =====
-- packages/core/src/router.ts, the class FluxRouter: navigation, resource loads, mutations and live
-- events, over the resource store, the page cache, the epochs, the prefetches and the live manager.
pub mod State
pub mod Basics
pub mod Loads
pub mod Pages
pub mod Visits
pub mod Signals
pub mod Start
pub mod Soundness
pub mod SoundLoads
pub mod SoundPages
pub mod SoundVisits
pub mod SoundSignals
pub mod SoundStart
pub mod Runs
pub mod Bumps
pub mod Applying
pub mod Races
pub mod Eligibility
pub mod Endings
