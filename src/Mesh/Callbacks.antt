-- ===== src/Mesh/Callbacks.antt =====
-- apps/companion-core/src/mesh.rs: what a connection that `ensure` makes reports: its candidates, its
-- states, and the data channel of the other side.
use rdoc_squad_link_lite.Base.{
  ℕ, true, false, List, [], ◌∷◌, Option, none, some, Str, lit, get, insert, is_some, if◌then◌else◌,
}
use rdoc_squad_link_lite.Protocol.ToServer
use rdoc_squad_link_lite.Inputs.Url.{after_first}
use rdoc_squad_link_lite.Engine.Messages
use rdoc_squad_link_lite.Engine.Messages.{MeshEvent}
use rdoc_squad_link_lite.Mesh.{Mesh, PeerConn, Effect, signal}
use rdoc_squad_link_lite.Mesh.Diag.{note_local}

-- `RTCPeerConnectionState`.
pub data ConnectionState : Type 0 where
  unspecified new_state connecting connected disconnected failed_state closed_state :
      ConnectionState

abbrev pub changed_conn : (PeerConn → PeerConn) → Str → Option PeerConn → Mesh → Mesh
changed_conn f peer none m = m
changed_conn f peer (some c) m = record m { peers = insert peer (f c) m.peers }

abbrev pub with_conn : Mesh → Str → (PeerConn → PeerConn) → Mesh
with_conn m peer f = changed_conn f peer (get peer m.peers) m

-- A local candidate: its line, and its JSON where that can be written.
unfoldable pub on_ice_candidate :
    (Str → Str) → Mesh → Str → Option (Str × Option Str) → Mesh × List Effect
on_ice_candidate trim_start m peer none = (m, [])
on_ice_candidate trim_start m peer (some (line, json)) = (
  with_conn m peer (λ c. record c { diag = note_local trim_start c.diag line }),
  elim json [ none ↦ [] | some text ↦ signal (ToServer.ice peer text) ∷ [] ],
)

-- The text of the selected pair, if there is one within two seconds.
unfoldable pub selected_kind : Option Str → Option Str
selected_kind none = none
selected_kind (some pair) =
    some (if is_some (after_first (lit "relay") pair) then lit "RELAY (TURN)" else lit "DIREKT")

abbrev pub unwrap_or_direct : Option Str → Str
unwrap_or_direct none = lit "DIREKT"
unwrap_or_direct (some kind) = kind

unfoldable pub on_state_change : Mesh → Str → Option Str → ConnectionState → Mesh × List MeshEvent
on_state_change m peer pair connected = (
  with_conn m peer (λ c. record c { diag = record c.diag { paired = true } }),
  Messages.badge peer (unwrap_or_direct (selected_kind pair)) ∷ Messages.link peer true ∷ [],
)
on_state_change m peer pair failed_state = (m, Messages.link peer false ∷ [])
on_state_change m peer pair disconnected = (m, Messages.link peer false ∷ [])
on_state_change m peer pair closed_state = (m, Messages.link peer false ∷ [])
on_state_change m peer pair unspecified = (m, [])
on_state_change m peer pair new_state = (m, [])
on_state_change m peer pair connecting = (m, [])

-- The channel of the other side takes the slot; `wire_ctrl` puts its own handlers on it.
unfoldable pub on_data_channel : Mesh → Str → ℕ → Mesh
on_data_channel m peer dc = with_conn m peer (λ c. record c { chat = some dc })
