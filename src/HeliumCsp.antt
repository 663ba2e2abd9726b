-- ===== src/HeliumCsp.antt =====
-- Helium without `eval`: lib/lunula/assets/helium-csp.js.
pub mod Strings
pub mod Templates
pub mod Commas
pub mod Segments
pub mod Lowering
pub mod Preprocess
pub mod Engine
pub mod Scope
pub mod Startup
pub mod Tests
