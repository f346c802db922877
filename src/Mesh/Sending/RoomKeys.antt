-- ===== src/Mesh/Sending/RoomKeys.antt =====
-- The key of the room, from the node that hands it out to the engine of another one.
use rdoc_squad_link_lite.Base.{ℕ, ◌^◌, ◌≤◌, ◌<◌, ◌≡◌, refl, [], ◌∷◌, some, Str, get, length}
use rdoc_squad_link_lite.Protocol.BetweenPeers
use rdoc_squad_link_lite.Protocol.BetweenPeers.{CtrlMsg, enc}
use rdoc_squad_link_lite.Crypto.Primitives.{Primitives, IsSound}
use rdoc_squad_link_lite.Crypto.Session
use rdoc_squad_link_lite.Crypto.Session.{Session}
use rdoc_squad_link_lite.Crypto.Session.Frames.{Paired, open_frame-seal}
use rdoc_squad_link_lite.Crypto.PeerCrypto
use rdoc_squad_link_lite.Crypto.PeerCrypto.{PeerCrypto, open_from}
use rdoc_squad_link_lite.Engine.Messages
use rdoc_squad_link_lite.Engine.Channels.{ChanState}
use rdoc_squad_link_lite.Mesh.{Mesh, PeerConn, send_text}
use rdoc_squad_link_lite.Mesh.Codec.{Codec, IsFaithful}
use rdoc_squad_link_lite.Mesh.Ctrl.{on_message, on_ctrl, max_ctrl_bytes, dispatch_inner}
use rdoc_squad_link_lite.Mesh.Ctrl.Pairing.{on_message_written}
use rdoc_squad_link_lite.Mesh.Sending.{send_room_key, send_sealed}

module _ (p : Primitives) (c : Codec) where
  -- A peer that the node has a session and a data channel with.
  pub record Ready (m : Mesh) (peer : Str) (s : Session) (conn : PeerConn) (dc : ℕ) : Type 0 where
    pub session : get peer m.crypto.sessions ≡ some s
    pub has_conn : get peer m.peers ≡ some conn
    pub channel : conn.chat ≡ some dc
    pub counter : s.send_ctr < 2 ^ 64

  -- The frame of a message that is sealed under a session.
  abbrev pub envelope : Session → CtrlMsg → Str
  envelope s msg = c.to_json (enc (c.encode (Session.seal p s Session.chat (c.to_json msg)).1))

  send_sealed-Ready :
      (m : Mesh) (peer : Str) (s : Session) (conn : PeerConn) (dc : ℕ) (msg : CtrlMsg)
      → Ready m peer s conn dc
      → (send_sealed p c m peer msg).1 ≡ send_text dc (envelope s msg) ∷ []
  unfolding send_sealed PeerCrypto.seal
  send_sealed-Ready m peer s conn dc msg h =
      rw (send_sealed, PeerCrypto.seal, h.session, h.has_conn, h.channel) refl

  open_from-Paired :
      (crypto : PeerCrypto) (peer : Str) (s r : Session) (pt : Str)
      → IsSound p
      → get peer crypto.sessions ≡ some r
      → s.send_ctr < 2 ^ 64
      → Paired s r
      → (open_from p crypto peer Session.chat (Session.seal p s Session.chat pt).1).1 ≡ some pt
  unfolding open_from
  open_from-Paired crypto peer s r pt sound has h q =
      rw (open_from, has, open_frame-seal p sound s r Session.chat pt h q) refl

  -- The sender hands its frame to the channel, and the receiver's engine is told the key.
  abbrev pub Arrives : Mesh → Str → Str → ℕ → PeerCrypto → ChanState → Str → ℕ → Str → Type 0
  Arrives m peer me dc crypto chan seed gen key =
      (text : Str) × ((send_room_key p c m peer gen key).1 ≡ send_text dc text ∷ [])
      × ((on_message p c seed seed crypto chan me text).events ≡ Messages.room_key me gen key ∷ [])

  -- Between two nodes whose sessions are paired, with a data channel: a room key of 32 bytes that
  -- one sends arrives at the other's engine as it was sent, with the sender's id, if the frame
  -- passes the size limit and the session's counter has not run out.
  pub send_room_key-Arrives :
      (m : Mesh) (peer me : Str) (s r : Session) (conn : PeerConn) (dc : ℕ) (crypto : PeerCrypto)
      (chan : ChanState) (seed : Str) (gen : ℕ) (key : Str)
      → IsSound p
      → IsFaithful c
      → Ready m peer s conn dc
      → get me crypto.sessions ≡ some r
      → Paired s r
      → length key ≡ 32
      → length (envelope s (BetweenPeers.room_key gen (c.encode key))) ≤ max_ctrl_bytes
      → Arrives m peer me dc crypto chan seed gen key
  unfolding send_room_key on_ctrl dispatch_inner
  send_room_key-Arrives m peer me s r conn dc crypto chan seed gen key sound faithful ready has q
        size fits =
      let msg = BetweenPeers.room_key gen (c.encode key) in
      let wire = (Session.seal p s Session.chat (c.to_json msg)).1 in
      let opened = open_from-Paired crypto me s r (c.to_json msg) sound has ready.counter q in
      (
        envelope s msg,
        send_sealed-Ready m peer s conn dc msg ready,
        rw
            (
              on_message_written p c faithful seed seed crypto chan me (enc (c.encode wire)) fits,
              faithful.decode-encode wire,
              opened,
              faithful.from_json-to_json msg,
              faithful.decode-encode key,
              size,
            )
            refl,
      )
