-- ===== src/Mesh.antt =====
-- apps/companion-core/src/mesh.rs: the mesh, a connection to each peer. Connections and data channels
-- of the webrtc crate are numbers. What the crate answers is an argument (`Webrtc`), and what is done
-- to it is a list of effects. A method is one step: the engine's loop calls them one at a time.
pub mod Diag
pub mod Ice
pub mod Links
pub mod Callbacks
pub mod Codec
pub mod Ctrl
pub mod Sending
mod Tests
use rdoc_squad_link_lite.Base.{
  ℕ, Bool, true, false, List, [], ◌∷◌, ◌++◌, Option, none, some, Str, lit, Dict, if◌then◌else◌,
}
use rdoc_squad_link_lite.Protocol.ToServer.{ClientMsg}
use rdoc_squad_link_lite.Crypto.PeerCrypto.{PeerCrypto}
use rdoc_squad_link_lite.Mesh.Diag.{LinkDiag, default}

-- A message to the server, a text on a data channel, a candidate for a connection, the end of one.
pub data Effect : Type 0 where
  signal : ClientMsg → Effect
  send_text : ℕ → Str → Effect
  add_ice_candidate : ℕ → Str → Effect
  close : ℕ → Effect

pub record PeerConn : Type 0 where
  pub pc : ℕ
  pub pending_ice : List Str
  pub remote_set : Bool
  pub chat : Option ℕ
  pub diag : LinkDiag

abbrev pub new_conn : ℕ → PeerConn
new_conn pc = record { pc = pc; pending_ice = []; remote_set = false; chat = none; diag = default }

pub record IceServer : Type 0 where
  pub urls : List Str
  pub username : Str
  pub credential : Str

-- Not here: the handles that the mesh only passes on.
pub record Mesh : Type 0 where
  pub my_id : Str
  pub ice_servers : List IceServer
  pub peers : Dict PeerConn
  pub crypto : PeerCrypto

abbrev pub new : Str → PeerCrypto → Mesh
new my_id crypto = record {
  my_id = my_id;
  ice_servers =
      record { urls = lit "stun:stun.l.google.com:19302" ∷ []; username = []; credential = [] }
      ∷ [];
  peers = [];
  crypto = crypto;
}

abbrev pub add_turn : Mesh → List Str → Str → Str → Mesh
add_turn m urls username credential = record m {
  ice_servers =
      m.ice_servers ++ record { urls = urls; username = username; credential = credential } ∷ [];
}

-- What a method that returns a `Result<()>` leaves: it may have failed halfway.
pub record Outcome : Type 0 where
  pub mesh : Mesh
  pub effects : List Effect
  pub ok : Bool

abbrev pub done : Mesh → List Effect → Outcome
done m effects = record { mesh = m; effects = effects; ok = true }

abbrev pub failed : Mesh → List Effect → Outcome
failed m effects = record { mesh = m; effects = effects; ok = false }

-- What follows the effects of an earlier statement.
abbrev pub following : List Effect → Outcome → Outcome
following effects r = record r { effects = effects ++ r.effects }

-- The operator `?` between two calls.
unfoldable pub and_then : Outcome → (Mesh → Outcome) → Outcome
and_then r next = if r.ok then following r.effects (next r.mesh) else r
