-- ===== src/Mesh/Ctrl/Gate.antt =====
-- A data channel changes nothing of the channels but what its own peer announced.
use rdoc_squad_link_lite.Base.{
  ◌≡◌, refl, Option, none, some, Str, ltb, length, Bool-cases, inl, inr,
}
use rdoc_squad_link_lite.Protocol.BetweenPeers
use rdoc_squad_link_lite.Protocol.BetweenPeers.{CtrlMsg, kem_hello, kem_reply, enc}
use rdoc_squad_link_lite.Crypto.Primitives.{Primitives}
use rdoc_squad_link_lite.Crypto.Session
use rdoc_squad_link_lite.Crypto.Handshake.{Hello, Reply}
use rdoc_squad_link_lite.Crypto.PeerCrypto.{PeerCrypto, on_hello, open_from}
use rdoc_squad_link_lite.Engine.Channels.{ChanState}
use rdoc_squad_link_lite.Mesh.Codec.{Codec}
use rdoc_squad_link_lite.Mesh.Ctrl.{
  dispatch_inner, on_ctrl, on_message, max_ctrl_bytes, parse_hello, parse_reply, opened, replied,
  inner_read, wire_read, hello_read, reply_read, msg_read,
}

-- My own channel and the directory are as before.
abbrev pub Kept : ChanState → ChanState → Type 0
Kept chan chan' = (chan'.mine ≡ chan.mine) × (chan'.dir ≡ chan.dir)

module _ (p : Primitives) (c : Codec) (peer : Str) (chan : ChanState) where
  dispatch_inner-Kept : (msg : CtrlMsg) → Kept chan (dispatch_inner c peer msg chan).0
  unfolding dispatch_inner
  dispatch_inner-Kept (BetweenPeers.chat msg) = (refl, refl)
  dispatch_inner-Kept (BetweenPeers.channel name) = (refl, refl)
  dispatch_inner-Kept (BetweenPeers.channels names) = (refl, refl)
  dispatch_inner-Kept (BetweenPeers.channel_removed name) = (refl, refl)
  dispatch_inner-Kept (BetweenPeers.room_key gen key) = (refl, refl)
  dispatch_inner-Kept (BetweenPeers.room_gen gen) = (refl, refl)
  dispatch_inner-Kept (kem_hello kem_pk x_pk) = (refl, refl)
  dispatch_inner-Kept (kem_reply x_pk kem_ct) = (refl, refl)
  dispatch_inner-Kept (enc sealed) = (refl, refl)

  inner_read-Kept :
      (crypto : PeerCrypto) (o : Option CtrlMsg)
      → Kept chan (inner_read p c crypto chan peer o).chan
  inner_read-Kept crypto none = (refl, refl)
  inner_read-Kept crypto (some inner) = dispatch_inner-Kept inner

  opened-Kept : (r : PeerCrypto × Option Str) → Kept chan (opened p c chan peer r).chan
  opened-Kept (crypto, none) = (refl, refl)
  opened-Kept (crypto, some pt) = inner_read-Kept crypto (c.from_json pt)

  wire_read-Kept :
      (crypto : PeerCrypto) (o : Option Str) → Kept chan (wire_read p c crypto chan peer o).chan
  wire_read-Kept crypto none = (refl, refl)
  wire_read-Kept crypto (some wire) = opened-Kept (open_from p crypto peer Session.chat wire)

  replied-Kept : (r : PeerCrypto × Option Reply) → Kept chan (replied p c chan peer r).chan
  replied-Kept (crypto, none) = (refl, refl)
  replied-Kept (crypto, some reply) = (refl, refl)

  hello_read-Kept :
      (coins x_secret : Str) (crypto : PeerCrypto) (o : Option Hello)
      → Kept chan (hello_read p c coins x_secret crypto chan peer o).chan
  hello_read-Kept coins x_secret crypto none = (refl, refl)
  hello_read-Kept coins x_secret crypto (some hello) =
      replied-Kept (on_hello p coins x_secret crypto peer hello)

  reply_read-Kept :
      (crypto : PeerCrypto) (o : Option Reply) → Kept chan (reply_read p c crypto chan peer o).chan
  reply_read-Kept crypto none = (refl, refl)
  reply_read-Kept crypto (some reply) = (refl, refl)

  msg_read-Kept :
      (coins x_secret : Str) (crypto : PeerCrypto) (o : Option CtrlMsg)
      → Kept chan (msg_read p c coins x_secret crypto chan peer o).chan
  unfolding on_ctrl
  msg_read-Kept coins x_secret crypto none = (refl, refl)
  msg_read-Kept coins x_secret crypto (some (kem_hello kem_pk x_pk)) =
      hello_read-Kept coins x_secret crypto (parse_hello c kem_pk x_pk)
  msg_read-Kept coins x_secret crypto (some (kem_reply x_pk kem_ct)) =
      reply_read-Kept crypto (parse_reply c x_pk kem_ct)
  msg_read-Kept coins x_secret crypto (some (enc sealed)) = wire_read-Kept crypto (c.decode sealed)
  msg_read-Kept coins x_secret crypto (some (BetweenPeers.chat msg)) =
      dispatch_inner-Kept (BetweenPeers.chat msg)
  msg_read-Kept coins x_secret crypto (some (BetweenPeers.channel name)) =
      dispatch_inner-Kept (BetweenPeers.channel name)
  msg_read-Kept coins x_secret crypto (some (BetweenPeers.channels names)) =
      dispatch_inner-Kept (BetweenPeers.channels names)
  msg_read-Kept coins x_secret crypto (some (BetweenPeers.channel_removed name)) =
      dispatch_inner-Kept (BetweenPeers.channel_removed name)
  msg_read-Kept coins x_secret crypto (some (BetweenPeers.room_key gen key)) = (refl, refl)
  msg_read-Kept coins x_secret crypto (some (BetweenPeers.room_gen gen)) = (refl, refl)

  pub on_message-Kept :
      (coins x_secret : Str) (crypto : PeerCrypto) (text : Str)
      → Kept chan (on_message p c coins x_secret crypto chan peer text).chan
  unfolding on_message
  on_message-Kept coins x_secret crypto text =
      elim (Bool-cases (ltb max_ctrl_bytes (length text))) [
        | inl over ↦ rw over (refl, refl)
        | inr fits ↦ rw fits (msg_read-Kept coins x_secret crypto (c.from_json text))
      ]
