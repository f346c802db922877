-- ===== src/Mesh/Ctrl/Senders.antt =====
-- Whom an event names, and which events need a session.
use rdoc_squad_link_lite.Base.{
  ◌≡◌, refl, Bool, true, false, Option, none, some, Str, All, get, ltb, length, Bool-cases, inl,
  inr,
}
use rdoc_squad_link_lite.Protocol.BetweenPeers
use rdoc_squad_link_lite.Protocol.BetweenPeers.{CtrlMsg, kem_hello, kem_reply, enc}
use rdoc_squad_link_lite.Crypto.Primitives.{Primitives}
use rdoc_squad_link_lite.Crypto.PeerCrypto.{PeerCrypto, on_hello, on_reply, open_from}
use rdoc_squad_link_lite.Crypto.Session
use rdoc_squad_link_lite.Crypto.Handshake.{Hello, Reply}
use rdoc_squad_link_lite.Engine.Messages
use rdoc_squad_link_lite.Engine.Messages.{MeshEvent}
use rdoc_squad_link_lite.Engine.Channels.{ChanState}
use rdoc_squad_link_lite.Mesh.Codec.{Codec}
use rdoc_squad_link_lite.Mesh.Ctrl.{
  dispatch_inner, key_event, to_array_32, on_ctrl, on_message, max_ctrl_bytes, parse_hello,
  parse_reply, opened, replied, completed, inner_read, wire_read, hello_read, reply_read, msg_read,
  shown,
}

-- The peer whom an event names, if it names one, is this one.
abbrev pub From : Str → MeshEvent → Type 0
From peer (Messages.chat from text) = from ≡ peer
From peer (Messages.badge from badge) = from ≡ peer
From peer (Messages.peer_channel from name) = from ≡ peer
From peer (Messages.peer_channels names) = Unit
From peer (Messages.peer_channel_removed name) = Unit
From peer (Messages.secure from fingerprint) = from ≡ peer
From peer (Messages.link from up) = from ≡ peer
From peer (Messages.room_key from gen key) = from ≡ peer
From peer (Messages.room_gen from gen) = from ≡ peer

-- An event that carries neither a room key nor a generation.
abbrev pub Keyless : MeshEvent → Type 0
Keyless (Messages.room_key from gen key) = ⊥
Keyless (Messages.room_gen from gen) = ⊥
Keyless _ = Unit

module _ (c : Codec) where
  dispatch_inner-From :
      (peer : Str) (msg : CtrlMsg) (chan : ChanState)
      → All (From peer) (dispatch_inner c peer msg chan).1
  unfolding dispatch_inner
  dispatch_inner-From peer (BetweenPeers.chat msg) chan = (refl, tt)
  dispatch_inner-From peer (BetweenPeers.channel name) chan = (refl, tt)
  dispatch_inner-From peer (BetweenPeers.channels names) chan = (tt, tt)
  dispatch_inner-From peer (BetweenPeers.channel_removed name) chan = (tt, tt)
  dispatch_inner-From peer (BetweenPeers.room_key gen key) chan =
      elim (to_array_32 (c.decode key)) as (λ o. All (From peer) (key_event c peer gen o)) [
        | none ↦ tt
        | some k ↦ (refl, tt)
      ]
  dispatch_inner-From peer (BetweenPeers.room_gen gen) chan = (refl, tt)
  dispatch_inner-From peer (kem_hello kem_pk x_pk) chan = tt
  dispatch_inner-From peer (kem_reply x_pk kem_ct) chan = tt
  dispatch_inner-From peer (enc sealed) chan = tt

-- A message of the kinds that are taken without a seal.
abbrev Plain : CtrlMsg → Type 0
Plain (BetweenPeers.room_key gen key) = ⊥
Plain (BetweenPeers.room_gen gen) = ⊥
Plain _ = Unit

module _ (p : Primitives) (c : Codec) (crypto : PeerCrypto) (chan : ChanState) (peer : Str) where
  -- What holds of each event that a handshake, a plain message and a sealed one can make.
  module _ (P : MeshEvent → Type 0)
      (secures : (fingerprint : Str) → P (Messages.secure peer fingerprint))
      (plain : (msg : CtrlMsg) → Plain msg → All P (dispatch_inner c peer msg chan).1)
      (sealed : (wire : Str)
        → All P (opened p c chan peer (open_from p crypto peer Session.chat wire)).events) where
    wire_read-All : (o : Option Str) → All P (wire_read p c crypto chan peer o).events
    wire_read-All none = tt
    wire_read-All (some wire) = sealed wire

    replied-All : (r : PeerCrypto × Option Reply) → All P (replied p c chan peer r).events
    replied-All (crypto', none) = tt
    replied-All (crypto', some reply) = (secures (shown (get peer crypto'.sessions)), tt)

    completed-All : (r : PeerCrypto × Bool) → All P (completed p c chan peer r).events
    completed-All (crypto', true) = (secures (shown (get peer crypto'.sessions)), tt)
    completed-All (crypto', false) = tt

    hello_read-All :
        (coins x_secret : Str) (o : Option Hello)
        → All P (hello_read p c coins x_secret crypto chan peer o).events
    hello_read-All coins x_secret none = tt
    hello_read-All coins x_secret (some hello) =
        replied-All (on_hello p coins x_secret crypto peer hello)

    reply_read-All : (o : Option Reply) → All P (reply_read p c crypto chan peer o).events
    reply_read-All none = tt
    reply_read-All (some reply) = completed-All (on_reply p crypto peer reply)

    msg_read-All :
        (coins x_secret : Str) (o : Option CtrlMsg)
        → All P (msg_read p c coins x_secret crypto chan peer o).events
    unfolding on_ctrl
    msg_read-All coins x_secret none = tt
    msg_read-All coins x_secret (some (kem_hello kem_pk x_pk)) =
        hello_read-All coins x_secret (parse_hello c kem_pk x_pk)
    msg_read-All coins x_secret (some (kem_reply x_pk kem_ct)) =
        reply_read-All (parse_reply c x_pk kem_ct)
    msg_read-All coins x_secret (some (enc sealed_text)) = wire_read-All (c.decode sealed_text)
    msg_read-All coins x_secret (some (BetweenPeers.chat msg)) = plain (BetweenPeers.chat msg) tt
    msg_read-All coins x_secret (some (BetweenPeers.channel name)) =
        plain (BetweenPeers.channel name) tt
    msg_read-All coins x_secret (some (BetweenPeers.channels names)) =
        plain (BetweenPeers.channels names) tt
    msg_read-All coins x_secret (some (BetweenPeers.channel_removed name)) =
        plain (BetweenPeers.channel_removed name) tt
    msg_read-All coins x_secret (some (BetweenPeers.room_key gen key)) = tt
    msg_read-All coins x_secret (some (BetweenPeers.room_gen gen)) = tt

    on_message-All :
        (coins x_secret text : Str)
        → All P (on_message p c coins x_secret crypto chan peer text).events
    unfolding on_message
    on_message-All coins x_secret text = elim (Bool-cases (ltb max_ctrl_bytes (length text))) [
      | inl over ↦ rw over tt
      | inr fits ↦ rw fits (msg_read-All coins x_secret (c.from_json text))
    ]

  inner_read-From :
      (crypto' : PeerCrypto) (o : Option CtrlMsg)
      → All (From peer) (inner_read p c crypto' chan peer o).events
  inner_read-From crypto' none = tt
  inner_read-From crypto' (some inner) = dispatch_inner-From c peer inner chan

  opened-From : (r : PeerCrypto × Option Str) → All (From peer) (opened p c chan peer r).events
  opened-From (crypto', none) = tt
  opened-From (crypto', some pt) = inner_read-From crypto' (c.from_json pt)

  -- Whatever bytes arrive on the data channel of a peer, an event that names a sender names that
  -- peer.
  pub on_message-From :
      (coins x_secret text : Str)
      → All (From peer) (on_message p c coins x_secret crypto chan peer text).events
  on_message-From =
      on_message-All (From peer) (λ f. refl) (λ msg h. dispatch_inner-From c peer msg chan)
        (λ wire. opened-From (open_from p crypto peer Session.chat wire))

  open_from-none :
      (wire : Str)
      → get peer crypto.sessions ≡ none
      → open_from p crypto peer Session.chat wire ≡ (crypto, none)
  unfolding open_from
  open_from-none wire h = rw (open_from, h) refl

  Plain-Keyless : (msg : CtrlMsg) → Plain msg → All Keyless (dispatch_inner c peer msg chan).1
  unfolding dispatch_inner
  Plain-Keyless (BetweenPeers.chat msg) h = (tt, tt)
  Plain-Keyless (BetweenPeers.channel name) h = (tt, tt)
  Plain-Keyless (BetweenPeers.channels names) h = (tt, tt)
  Plain-Keyless (BetweenPeers.channel_removed name) h = (tt, tt)
  Plain-Keyless (BetweenPeers.room_key gen key) h = absurd h
  Plain-Keyless (BetweenPeers.room_gen gen) h = absurd h
  Plain-Keyless (kem_hello kem_pk x_pk) h = tt
  Plain-Keyless (kem_reply x_pk kem_ct) h = tt
  Plain-Keyless (enc sealed_text) h = tt

  -- Without a session with the peer no bytes on its data channel make an event with a room key or a
  -- generation.
  pub on_message-Keyless :
      (coins x_secret text : Str)
      → get peer crypto.sessions ≡ none
      → All Keyless (on_message p c coins x_secret crypto chan peer text).events
  on_message-Keyless coins x_secret text h =
      on_message-All Keyless (λ f. tt) Plain-Keyless (λ wire. rw (open_from-none wire h) tt) coins
        x_secret text
