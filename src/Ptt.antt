-- ===== src/Ptt.antt =====
-- apps/companion/src-tauri/src/lib.rs: push to talk. Key chords, and what one raw key or mouse edge
-- does to the bindings, the transmit state and the webview.
pub mod Chord
pub mod Sources
pub mod Raw
pub mod Bindings
pub mod Pads
pub mod Controllers
mod Tests
