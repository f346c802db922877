-- ===== src/Mesh/Ctrl.antt =====
-- apps/companion-core/src/mesh.rs: the messages on the data channel of a peer, `wire_ctrl` and
-- `dispatch_inner`, with the frames of the handshake.
pub mod Senders
pub mod Pairing
pub mod Gate
use rdoc_squad_link_lite.Base.{
  ℕ, ◌*◌, Bool, List, [], ◌∷◌, ◌++◌, map, Option, none, some, Str, length, ltb, take, get, ◌==◌,
  if◌then◌else◌,
}
use rdoc_squad_link_lite.Protocol.BetweenPeers
use rdoc_squad_link_lite.Protocol.BetweenPeers.{CtrlMsg, ChatMsg, kem_hello, kem_reply, enc}
use rdoc_squad_link_lite.Crypto.Primitives.{Primitives}
use rdoc_squad_link_lite.Crypto.Session
use rdoc_squad_link_lite.Crypto.Handshake.{Hello, Reply}
use rdoc_squad_link_lite.Crypto.PeerCrypto.{PeerCrypto, begin, on_hello, on_reply, open_from}
use rdoc_squad_link_lite.Engine.Messages
use rdoc_squad_link_lite.Engine.Messages.{MeshEvent}
use rdoc_squad_link_lite.Engine.Channels.{ChanState, set_peer, max_channels}
use rdoc_squad_link_lite.Mesh.Codec.{Codec}

abbrev pub max_chat_chars : ℕ
max_chat_chars = 2000

abbrev pub max_channel_len : ℕ
max_channel_len = 32

abbrev pub max_ctrl_bytes : ℕ
max_ctrl_bytes = 8 * 1024

-- `<[u8; 32]>::try_from`.
abbrev pub to_array_32 : Option Str → Option Str
to_array_32 none = none
to_array_32 (some b) = if length b == 32 then some b else none

module _ (c : Codec) where
  abbrev pub hello_ctrl : Hello → CtrlMsg
  hello_ctrl h = kem_hello (c.encode h.kem_pk) (c.encode h.x_pk)

  abbrev pub reply_ctrl : Reply → CtrlMsg
  reply_ctrl r = kem_reply (c.encode r.x_pk) (c.encode r.kem_ct)

  unfoldable pub parse_hello : Str → Str → Option Hello
  parse_hello kem_pk x_pk = elim (c.decode kem_pk) [
    | none ↦ none
    | some kem ↦ elim (to_array_32 (c.decode x_pk)) [
      | none ↦ none
      | some x ↦ some (record { kem_pk = kem; x_pk = x })
    ]
  ]

  unfoldable pub parse_reply : Str → Str → Option Reply
  parse_reply x_pk kem_ct = elim (to_array_32 (c.decode x_pk)) [
    | none ↦ none
    | some x ↦ elim (c.decode kem_ct) [
      | none ↦ none
      | some ct ↦ some (record { x_pk = x; kem_ct = ct })
    ]
  ]

  abbrev pub clamped : Str → Str
  clamped text =
      if ltb max_chat_chars (c.count_chars text) then c.take_chars max_chat_chars text else text

  abbrev pub key_event : Str → ℕ → Option Str → List MeshEvent
  key_event peer gen none = []
  key_event peer gen (some key) = Messages.room_key peer gen key ∷ []

  unfoldable pub dispatch_inner : Str → CtrlMsg → ChanState → ChanState × List MeshEvent
  dispatch_inner peer (BetweenPeers.chat msg) chan =
      (chan, Messages.chat peer (clamped msg.text) ∷ [])
  dispatch_inner peer (BetweenPeers.channel name) chan =
      let name' = c.take_chars max_channel_len name in
      (set_peer chan peer name', Messages.peer_channel peer name' ∷ [])
  dispatch_inner peer (BetweenPeers.channels names) chan = (
    chan,
    Messages.peer_channels (map (c.take_chars max_channel_len) (take max_channels names)) ∷ [],
  )
  dispatch_inner peer (BetweenPeers.channel_removed name) chan =
      (chan, Messages.peer_channel_removed (c.take_chars max_channel_len name) ∷ [])
  dispatch_inner peer (BetweenPeers.room_key gen key) chan =
      (chan, key_event peer gen (to_array_32 (c.decode key)))
  dispatch_inner peer (BetweenPeers.room_gen gen) chan = (chan, Messages.room_gen peer gen ∷ [])
  dispatch_inner peer (kem_hello kem_pk x_pk) chan = (chan, [])
  dispatch_inner peer (kem_reply x_pk kem_ct) chan = (chan, [])
  dispatch_inner peer (enc sealed) chan = (chan, [])

-- What a message changes, what is sent back on the channel, and what the engine is told.
pub record Handled : Type 0 where
  pub crypto : PeerCrypto
  pub chan : ChanState
  pub sent : List Str
  pub events : List MeshEvent

abbrev pub dropped : PeerCrypto → ChanState → Handled
dropped crypto chan = record { crypto = crypto; chan = chan; sent = []; events = [] }

abbrev pub shown : Option Session.Session → Str
shown none = []
shown (some s) = Session.fingerprint s

-- `Secure`, with the fingerprint.
abbrev pub secured : PeerCrypto → Str → MeshEvent
secured crypto peer = Messages.secure peer (shown (get peer crypto.sessions))

abbrev pub dispatched : PeerCrypto → ChanState × List MeshEvent → Handled
dispatched crypto (chan, events) = record {
  crypto = crypto;
  chan = chan;
  sent = [];
  events = events;
}

module _ (p : Primitives) (c : Codec) where
  -- The first frame is sent by the initiator only. `seed` and `x_secret` are what `begin` draws.
  abbrev pub greeting : Option Hello → List Str
  greeting none = []
  greeting (some hello) = c.to_json (hello_ctrl c hello) ∷ []

  unfoldable pub on_open : Str → Str → PeerCrypto → ChanState → Str → PeerCrypto × List Str
  on_open seed x_secret crypto chan peer =
      let (crypto', hello) = begin p seed x_secret crypto peer in
      (
        crypto',
        greeting hello
            ++ (c.to_json (BetweenPeers.channel chan.mine)
                ∷ c.to_json (BetweenPeers.channels chan.dir)
                ∷ []),
      )

  abbrev pub replied : ChanState → Str → PeerCrypto × Option Reply → Handled
  replied chan peer (crypto, none) = dropped crypto chan
  replied chan peer (crypto, some reply) = record {
    crypto = crypto;
    chan = chan;
    sent = c.to_json (reply_ctrl c reply) ∷ [];
    events = secured crypto peer ∷ [];
  }

  abbrev pub completed : ChanState → Str → PeerCrypto × Bool → Handled
  completed chan peer (crypto, ok) = record {
    crypto = crypto;
    chan = chan;
    sent = [];
    events = if ok then secured crypto peer ∷ [] else [];
  }

  abbrev pub inner_read : PeerCrypto → ChanState → Str → Option CtrlMsg → Handled
  inner_read crypto chan peer none = dropped crypto chan
  inner_read crypto chan peer (some inner) = dispatched crypto (dispatch_inner c peer inner chan)

  abbrev pub opened : ChanState → Str → PeerCrypto × Option Str → Handled
  opened chan peer (crypto, none) = dropped crypto chan
  opened chan peer (crypto, some pt) = inner_read crypto chan peer (c.from_json pt)

  abbrev pub wire_read : PeerCrypto → ChanState → Str → Option Str → Handled
  wire_read crypto chan peer none = dropped crypto chan
  wire_read crypto chan peer (some wire) =
      opened chan peer (open_from p crypto peer Session.chat wire)

  abbrev pub hello_read : Str → Str → PeerCrypto → ChanState → Str → Option Hello → Handled
  hello_read coins x_secret crypto chan peer none = dropped crypto chan
  hello_read coins x_secret crypto chan peer (some hello) =
      replied chan peer (on_hello p coins x_secret crypto peer hello)

  abbrev pub reply_read : PeerCrypto → ChanState → Str → Option Reply → Handled
  reply_read crypto chan peer none = dropped crypto chan
  reply_read crypto chan peer (some reply) = completed chan peer (on_reply p crypto peer reply)

  -- `coins` and `x_secret` are what an answer to a hello draws.
  unfoldable pub on_ctrl : Str → Str → PeerCrypto → ChanState → Str → CtrlMsg → Handled
  on_ctrl coins x_secret crypto chan peer (kem_hello kem_pk x_pk) =
      hello_read coins x_secret crypto chan peer (parse_hello c kem_pk x_pk)
  on_ctrl coins x_secret crypto chan peer (kem_reply x_pk kem_ct) =
      reply_read crypto chan peer (parse_reply c x_pk kem_ct)
  on_ctrl coins x_secret crypto chan peer (enc sealed) =
      wire_read crypto chan peer (c.decode sealed)
  on_ctrl coins x_secret crypto chan peer (BetweenPeers.chat msg) =
      dispatched crypto (dispatch_inner c peer (BetweenPeers.chat msg) chan)
  on_ctrl coins x_secret crypto chan peer (BetweenPeers.channel name) =
      dispatched crypto (dispatch_inner c peer (BetweenPeers.channel name) chan)
  on_ctrl coins x_secret crypto chan peer (BetweenPeers.channels names) =
      dispatched crypto (dispatch_inner c peer (BetweenPeers.channels names) chan)
  on_ctrl coins x_secret crypto chan peer (BetweenPeers.channel_removed name) =
      dispatched crypto (dispatch_inner c peer (BetweenPeers.channel_removed name) chan)
  on_ctrl coins x_secret crypto chan peer (BetweenPeers.room_key gen key) = dropped crypto chan
  on_ctrl coins x_secret crypto chan peer (BetweenPeers.room_gen gen) = dropped crypto chan

  abbrev pub msg_read : Str → Str → PeerCrypto → ChanState → Str → Option CtrlMsg → Handled
  msg_read coins x_secret crypto chan peer none = dropped crypto chan
  msg_read coins x_secret crypto chan peer (some msg) = on_ctrl coins x_secret crypto chan peer msg

  unfoldable pub on_message : Str → Str → PeerCrypto → ChanState → Str → Str → Handled
  on_message coins x_secret crypto chan peer text =
      if ltb max_ctrl_bytes (length text)
      then dropped crypto chan
      else msg_read coins x_secret crypto chan peer (c.from_json text)
