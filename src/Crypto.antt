-- ===== src/Crypto.antt =====
-- apps/companion-core/src/crypto.rs: the pairwise sessions and the room key of group audio.
pub mod Primitives
pub mod Replay
pub mod Session
pub mod Handshake
pub mod PeerCrypto
pub mod RoomAudio
mod Tests
