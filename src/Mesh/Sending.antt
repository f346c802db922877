-- ===== src/Mesh/Sending.antt =====
-- apps/companion-core/src/mesh.rs: what goes out on the data channels, and `read_track`, what comes in
-- on an audio track.
pub mod RoomKeys
use rdoc_squad_link_lite.Base.{
  ℕ, Bool, false, true, not, ◌&&◌, List, [], ◌∷◌, ◌++◌, Option, none, some, Str, Dict, get, values,
  if◌then◌else◌,
}
use rdoc_squad_link_lite.Protocol.BetweenPeers
use rdoc_squad_link_lite.Protocol.BetweenPeers.{CtrlMsg, ChatMsg, enc}
use rdoc_squad_link_lite.Crypto.Primitives.{Primitives}
use rdoc_squad_link_lite.Crypto.Session
use rdoc_squad_link_lite.Crypto.PeerCrypto
use rdoc_squad_link_lite.Crypto.PeerCrypto.{PeerCrypto}
use rdoc_squad_link_lite.Crypto.RoomAudio.{RoomAudio, open_inbound}
use rdoc_squad_link_lite.Engine.Channels.{Unicode, ChanState, hears, is_empty}
use rdoc_squad_link_lite.Engine.Coordinator.{KeyAction, send_key, send_gen}
use rdoc_squad_link_lite.Mesh.{Mesh, PeerConn, Effect, send_text}
use rdoc_squad_link_lite.Mesh.Codec.{Codec}

abbrev pub on_channel : Option ℕ → Str → List Effect
on_channel none text = []
on_channel (some dc) text = send_text dc text ∷ []

-- The same text to each peer with a data channel.
unfoldable pub to_each : List PeerConn → Str → List Effect
to_each [] text = []
to_each (c ∷ conns) text = on_channel c.chat text ++ to_each conns text

module _ (c : Codec) where
  unfoldable pub broadcast_channel : Mesh → Str → List Effect
  broadcast_channel m name = to_each (values m.peers) (c.to_json (BetweenPeers.channel name))

  unfoldable pub broadcast_channels : Mesh → List Str → List Effect
  broadcast_channels m names = to_each (values m.peers) (c.to_json (BetweenPeers.channels names))

  unfoldable pub broadcast_channel_removed : Mesh → Str → List Effect
  broadcast_channel_removed m name =
      to_each (values m.peers) (c.to_json (BetweenPeers.channel_removed name))

module _ (p : Primitives) (c : Codec) where
  -- Sealed for a peer with a session, in plaintext for another one.
  abbrev pub chat_frame : Str → Option Str → Str
  chat_frame chat none = chat
  chat_frame chat (some wire) = c.to_json (enc (c.encode wire))

  abbrev pub chat_one : PeerCrypto → Str → Str → Option ℕ → PeerCrypto × List Effect
  chat_one crypto chat id none = (crypto, [])
  chat_one crypto chat id (some dc) =
      let (crypto', wire) = PeerCrypto.seal p crypto id Session.chat chat in
      (crypto', send_text dc (chat_frame chat wire) ∷ [])

  unfoldable pub chat_each : PeerCrypto → Str → Dict PeerConn → PeerCrypto × List Effect
  chat_each crypto chat [] = (crypto, [])
  chat_each crypto chat ((id, conn) ∷ conns) =
      let (crypto', sent) = chat_one crypto chat id conn.chat in
      let (crypto'', later) = chat_each crypto' chat conns in (crypto'', sent ++ later)

  -- `ts` is the time in seconds.
  unfoldable pub broadcast_chat : ℕ → Mesh → Str → Mesh × List Effect
  broadcast_chat ts m text =
      let chat = c.to_json (BetweenPeers.chat (record { text = text; ts = ts })) in
      let (crypto, sent) = chat_each m.crypto chat m.peers in (record m { crypto = crypto }, sent)

  abbrev pub chat_of : Option PeerConn → Option ℕ
  chat_of none = none
  chat_of (some conn) = conn.chat

  abbrev pub sent_sealed : Option ℕ → Option Str → List Effect
  sent_sealed dc none = []
  sent_sealed dc (some wire) = on_channel dc (c.to_json (enc (c.encode wire)))

  -- The counter of the session goes on where there is no channel, too.
  unfoldable pub send_sealed : Mesh → Str → CtrlMsg → Mesh × List Effect
  send_sealed m peer msg =
      let (crypto, wire) = PeerCrypto.seal p m.crypto peer Session.chat (c.to_json msg) in
      (record m { crypto = crypto }, sent_sealed (chat_of (get peer m.peers)) wire)

  unfoldable pub send_room_key : Mesh → Str → ℕ → Str → Mesh × List Effect
  send_room_key m peer gen key = send_sealed m peer (BetweenPeers.room_key gen (c.encode key))

  unfoldable pub send_room_gen : Mesh → Str → ℕ → Mesh × List Effect
  send_room_gen m peer gen = send_sealed m peer (BetweenPeers.room_gen gen)

  abbrev pub perform : Mesh → KeyAction → Mesh × List Effect
  perform m (send_key peer gen key) = send_room_key m peer gen key
  perform m (send_gen peer gen) = send_room_gen m peer gen

  unfoldable pub perform_key_actions : Mesh → List KeyAction → Mesh × List Effect
  perform_key_actions m [] = (m, [])
  perform_key_actions m (a ∷ actions) =
      let (m', sent) = perform m a in
      let (m'', later) = perform_key_actions m' actions in (m'', sent ++ later)

-- What a packet of an audio track gives to the decoder.
unfoldable pub read_packet : Primitives → Unicode → ChanState → RoomAudio → Str → Str → Option Str
read_packet p u chan room peer payload =
    if not (is_empty payload) && hears u chan peer then open_inbound p room peer payload else none
