-- ===== src/Protocol.antt =====
-- crates/protocol/src/lib.rs: what goes over the WebSocket between the companion and the server.
-- JSON is left to `serde_json`.
pub mod ToServer
pub mod ToClient
pub mod BetweenPeers
use rdoc_squad_link_lite.Base.{ℕ, List, Str, lit}

abbrev pub protocol_version : ℕ
protocol_version = 2

abbrev pub err_protocol_mismatch : Str
err_protocol_mismatch = lit "protocol-mismatch"

abbrev pub err_id_in_use : Str
err_id_in_use = lit "id-in-use"

pub record PeerInfo : Type 0 where
  pub user_id : Str
  pub name : Str

pub record TurnCreds : Type 0 where
  pub urls : List Str
  pub username : Str
  pub credential : Str
  pub ttl : ℕ
