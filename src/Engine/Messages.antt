-- ===== src/Engine/Messages.antt =====
-- apps/companion-core/src/lib.rs: what goes in and out of the engine: `UiEvent` to the user
-- interface, `MeshEvent` from the mesh, `Cmd` from the user.
use rdoc_squad_link_lite.Base.{ℕ, Bool, List, Option, Str}

pub record Participant : Type 0 where
  pub user_id : Str
  pub name : Str
  pub you : Bool
  pub badge : Option Str
  pub speaking : Bool
  pub channel : Str
  pub secure : Bool
  pub fingerprint : Option Str
  pub linked : Bool

-- `status` has connected and transmitting, `net` the peers and the rates up and down, `rekeyed` the
-- generation and who asked, `room_audio` the generation and whether we are the authority.
pub data UiEvent : Type 0 where
  roster : List Participant → UiEvent
  chat : Str → Str → UiEvent
  status : Bool → Bool → UiEvent
  log : Str → UiEvent
  net : ℕ → ℕ → ℕ → UiEvent
  rekeyed : ℕ → Str → UiEvent
  signaling : Bool → UiEvent
  channel : Str → UiEvent
  channels : List Str → UiEvent
  channel_removed : Str → UiEvent
  room_audio : Option ℕ → Bool → UiEvent

-- The first argument names the peer, but for `peer_channels` and `peer_channel_removed`.
pub data MeshEvent : Type 0 where
  chat : Str → Str → MeshEvent
  badge : Str → Str → MeshEvent
  peer_channel : Str → Str → MeshEvent
  peer_channels : List Str → MeshEvent
  peer_channel_removed : Str → MeshEvent
  secure : Str → Str → MeshEvent
  link : Str → Bool → MeshEvent
  room_key : Str → ℕ → Str → MeshEvent
  room_gen : Str → ℕ → MeshEvent

pub data Cmd : Type 0 where
  toggle_tx : Cmd
  set_tx : Bool → Cmd
  chat : Str → Cmd
  rekey reconnect : Cmd
  set_channel remove_channel : Str → Cmd
