-- ===== src/Server.antt =====
-- server/init: the signaling server. The children model who may join, how often an address may ask,
-- the relay between the sockets of a room, and what goes into the pages.
pub mod Auth
pub mod Turn
pub mod RateLimit
pub mod Relay
pub mod Brokering
pub mod Pages
mod Tests
