-- ===== src/Engine/Loop.antt =====
-- apps/companion-core/src/lib.rs: the event loop of `start`. Each turn of the loop is one step on the
-- state below, for each arm of the `select!`. Shared handles (the channels, the sessions, the keys)
-- are fields: the tasks that share them only touch them between two turns.
pub mod Signals
pub mod Events
pub mod Commands
pub mod Reconnect
pub mod Tick
pub mod Roster
pub mod Turns
pub mod Unchanged
pub mod Invariant
pub mod Reachable
mod Tests
use rdoc_squad_link_lite.Base.{
  ℕ, Bool, true, false, ◌&&◌, List, [], ◌∷◌, ◌++◌, map, Option, none, some, Str, str_lt, get,
  insert, if◌then◌else◌,
}
use rdoc_squad_link_lite.Protocol.ToServer.{ClientMsg}
use rdoc_squad_link_lite.Crypto.Primitives.{Primitives}
use rdoc_squad_link_lite.Crypto.PeerCrypto.{is_secure}
use rdoc_squad_link_lite.Crypto.RoomAudio
use rdoc_squad_link_lite.Crypto.RoomAudio.{generation}
use rdoc_squad_link_lite.Engine.Member.{Member, Members, secure_peer_ids}
use rdoc_squad_link_lite.Engine.Messages
use rdoc_squad_link_lite.Engine.Messages.{UiEvent, Participant}
use rdoc_squad_link_lite.Engine.Authority.{am_authority}
use rdoc_squad_link_lite.Engine.Coordinator
use rdoc_squad_link_lite.Engine.Coordinator.{Coordinator, KeyAction, rotate}
use rdoc_squad_link_lite.Engine.Channels
use rdoc_squad_link_lite.Engine.Channels.{Unicode, ChanState, default_channel}
use rdoc_squad_link_lite.Engine.Watchdog.{Keyless}
use rdoc_squad_link_lite.Mesh
use rdoc_squad_link_lite.Mesh.{Mesh, Effect}
use rdoc_squad_link_lite.Mesh.Codec.{Codec}
use rdoc_squad_link_lite.Mesh.Links.{Webrtc}
use rdoc_squad_link_lite.Mesh.Sending.{perform_key_actions}

-- `EngineConfig`, as far as the loop uses it, and the secret of the connection.
pub record Config : Type 0 where
  pub room : Str
  pub user_id : Str
  pub name : Str
  pub token : Option Str
  pub secret : Str
  pub relay_enabled : Bool

-- The libraries that the loop calls.
pub record Libraries : Type 0 where
  pub crypto : Primitives
  pub codec : Codec
  pub unicode : Unicode

-- What differs from turn to turn: the clock in nanoseconds, the bytes of a fresh key, the answers of
-- the webrtc crate.
pub record Turn : Type 0 where
  pub now : ℕ
  pub fresh : Str
  pub webrtc : Webrtc

-- `cur_in` and `cur_out` are the two halves of the connection to the server: whether they are there.
pub record Loop : Type 0 where
  pub members : Members
  pub my_channel : Str
  pub known_channels : List Str
  pub removed_channels : List Str
  pub chan : ChanState
  pub keys : Coordinator
  pub mesh : Mesh
  pub transmit : Bool
  pub key_gen : ℕ
  pub cur_in : Bool
  pub cur_out : Bool
  pub next_try : Option ℕ
  pub backoff : ℕ
  pub keyless : Keyless

pub data Output : Type 0 where
  ui : UiEvent → Output
  to_server : ClientMsg → Output
  click : Output
  on_mesh : Effect → Output

-- After a turn: the loop goes on, or ends.
pub record Step : Type 0 where
  pub loop : Loop
  pub out : List Output
  pub goes_on : Bool

abbrev pub continue : Loop → List Output → Step
continue l out = record { loop = l; out = out; goes_on = true }

abbrev pub start : Config → Loop
start cfg = record {
  members = [];
  my_channel = default_channel;
  known_channels = default_channel ∷ [];
  removed_channels = [];
  chan = Channels.new;
  keys = Coordinator.new cfg.user_id RoomAudio.new;
  mesh = Mesh.new cfg.user_id (record { my_id = cfg.user_id; sessions = []; pending = [] });
  transmit = false;
  key_gen = 1;
  cur_in = true;
  cur_out = true;
  next_try = none;
  backoff = 2;
  keyless = record { since = none; warned = false };
}

abbrev pub my_row : Config → Str → Bool → Participant
my_row cfg channel transmitting = record {
  user_id = cfg.user_id;
  name = cfg.name;
  you = true;
  badge = none;
  speaking = transmitting;
  channel = channel;
  secure = true;
  fingerprint = none;
  linked = true;
}

abbrev pub row : Str × Member → Participant
row (id, m) = record {
  user_id = id;
  name = m.name;
  you = false;
  badge = m.badge;
  speaking = m.speaking;
  channel = m.channel;
  secure = m.secure;
  fingerprint = if m.secure then m.fingerprint else none;
  linked = m.linked;
}

-- `sort_by` with the names: stable.
unfoldable pub place : Participant → List Participant → List Participant
place r [] = r ∷ []
place r (x ∷ xs) = let rest = place r xs in if str_lt x.name r.name then x ∷ rest else r ∷ x ∷ xs

unfoldable pub sort_by_name : List Participant → List Participant
unfolding place
sort_by_name [] = []
sort_by_name (r ∷ rows) = place r (sort_by_name rows)

unfoldable pub participants : Config → Members → Str → Bool → List Participant
participants cfg members channel transmitting =
    my_row cfg channel transmitting ∷ sort_by_name (map row members)

abbrev pub emit_roster : Config → Loop → Output
emit_roster cfg l = ui (Messages.roster (participants cfg l.members l.my_channel l.transmit))

abbrev pub mesh_out : List Effect → List Output
mesh_out effects = map on_mesh effects

-- `get_mut`, where the member is there.
abbrev pub changed : (Member → Member) → Str → Option Member → Members → Members
changed f id none members = members
changed f id (some m) members = insert id (f m) members

unfoldable pub update : Str → (Member → Member) → Members → Members
update id f members = changed f id (get id members) members

abbrev pub i_am_authority : Config → Loop → Bool
i_am_authority cfg l = am_authority cfg.user_id l.members

abbrev pub has_session : Loop → Str → Bool
has_session l id = is_secure l.mesh.crypto id

module _ (cfg : Config) (libs : Libraries) where
  -- The actions of the coordinator, and the news of the key.
  abbrev pub performed : Loop → Coordinator × List KeyAction → Loop × List Output
  performed l (keys, actions) =
      let (mesh, sent) = perform_key_actions libs.crypto libs.codec l.mesh actions in
      (record l { keys = keys; mesh = mesh }, mesh_out sent)

  unfoldable pub rotate_keys : Str → Loop → Loop × List Output
  rotate_keys fresh l =
      let (l', sent) =
        performed l (rotate l.keys fresh (secure_peer_ids l.members (has_session l))) in
      (l', sent ++ ui (Messages.room_audio (generation l'.keys.room) true) ∷ [])

  -- What the authority does when the members change.
  unfoldable pub rotate_if : Bool → Str → Loop → Loop × List Output
  rotate_if due fresh l = if due && i_am_authority cfg l then rotate_keys fresh l else (l, [])
