-- ===== src/Morpheus.antt =====
-- packages/morpheus/src/morpheus.js: page navigation with intent prefetching.
pub mod State
pub mod Cache
pub mod Links
pub mod Fetch
pub mod View
pub mod Listening
pub mod Morphing
pub mod Navigation
pub mod Schedule
mod Tests
