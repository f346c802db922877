-- ===== src/Inputs.antt =====
-- What the companion lets in from the webview and from links: apps/companion-core/src/signaling.rs for
-- the URL of the server, apps/companion/src-tauri/src/lib.rs for the rest.
pub mod Url
pub mod Fields
pub mod Texts
pub mod Ranges
mod Tests
