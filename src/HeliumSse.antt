-- ===== src/HeliumSse.antt =====
-- Server-sent events for Helium: lib/lunula/assets/helium-sse.js.
pub mod Events
pub mod Data
pub mod Tests
