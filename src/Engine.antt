-- ===== src/Engine.antt =====
-- apps/companion-core/src/lib.rs: the engine. Loop is its event loop, the others the decisions it asks.
pub mod Member
pub mod Messages
pub mod Authority
pub mod Coordinator
pub mod Watchdog
pub mod Channels
pub mod Loop
pub mod Handle
mod Tests
