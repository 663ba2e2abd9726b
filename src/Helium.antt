-- ===== src/Helium.antt =====
-- Helium's runtime: lib/lunula/assets/helium.js.
pub mod Apply
pub mod Bindings
pub mod Changes
pub mod Cleanup
pub mod Directives
pub mod Events
pub mod Lifecycle
pub mod Requests
pub mod Startup
pub mod Rows
pub mod Scopes
pub mod Tracking
pub mod Updates
pub mod Tests
