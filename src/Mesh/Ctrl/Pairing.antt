-- ===== src/Mesh/Ctrl/Pairing.antt =====
-- The handshake as it goes over the data channel.
use mathlib.Core.Option.{some-injective}
use rdoc_squad_link_lite.Base.{
  ◌≤◌, ◌≡◌, refl, ◌∙◌, ap, sym, true, false, List, [], ◌∷◌, some, Str, get, length, take, subst,
  ltb, arith,
}
use rdoc_squad_link_lite.Protocol.BetweenPeers
use rdoc_squad_link_lite.Protocol.BetweenPeers.{CtrlMsg, kem_hello, kem_reply}
use rdoc_squad_link_lite.Crypto.Primitives.{Primitives, IsSound}
use rdoc_squad_link_lite.Crypto.Session
use rdoc_squad_link_lite.Crypto.Session.{Session}
use rdoc_squad_link_lite.Crypto.Handshake.{Hello, Reply, start, respond}
use rdoc_squad_link_lite.Crypto.Handshake.Agreement.{Agree}
use rdoc_squad_link_lite.Crypto.PeerCrypto.{PeerCrypto, is_initiator, begin, on_hello, on_reply}
use rdoc_squad_link_lite.Crypto.PeerCrypto.Glare.{handshake-Establishes}
use rdoc_squad_link_lite.Engine.Messages
use rdoc_squad_link_lite.Engine.Channels.{ChanState}
use rdoc_squad_link_lite.Mesh.Codec.{Codec, IsFaithful}
use rdoc_squad_link_lite.Mesh.Ctrl.{
  on_open, on_message, on_ctrl, hello_ctrl, reply_ctrl, parse_hello, parse_reply, max_ctrl_bytes,
}

module _ (p : Primitives) (c : Codec) where
  -- The hello that a node begins with, and what the other one answers.
  abbrev pub first_hello : PeerCrypto → PeerCrypto → Str → Str → Hello
  first_hello a b seed x_a = (start p seed x_a a.my_id b.my_id).1

  -- A frame of a hello and that of a reply pass the size limit.
  pub record Fits (a b : PeerCrypto) (seed x_a coins x_b : Str) : Type 0 where
    pub hello : length (c.to_json (hello_ctrl c (first_hello a b seed x_a))) ≤ max_ctrl_bytes
    pub reply :
        (r : Reply)
        → (on_hello p coins x_b b a.my_id (first_hello a b seed x_a)).1 ≡ some r
        → length (c.to_json (reply_ctrl c r)) ≤ max_ctrl_bytes

  on_hello-x_pk :
      (coins x_b : Str) (b : PeerCrypto) (peer : Str) (hello : Hello) (r : Reply)
      → (on_hello p coins x_b b peer hello).1 ≡ some r
      → r.x_pk ≡ p.x_public x_b
  unfolding on_hello respond
  on_hello-x_pk coins x_b b peer hello r h = ground arith

  module _ (faithful : IsFaithful c) where
    pub on_message_written :
        (coins x_secret : Str) (crypto : PeerCrypto) (chan : ChanState) (peer : Str) (msg : CtrlMsg)
        → length (c.to_json msg) ≤ max_ctrl_bytes
        → on_message p c coins x_secret crypto chan peer (c.to_json msg)
          ≡ on_ctrl p c coins x_secret crypto chan peer msg
    unfolding on_message
    on_message_written coins x_secret crypto chan peer msg h =
        let fits : ltb max_ctrl_bytes (length (c.to_json msg)) ≡ false = ground arith in
        rw (on_message, fits, faithful.from_json-to_json msg) refl

    parse_hello-hello_ctrl :
        (h : Hello)
        → length h.x_pk ≡ 32
        → parse_hello c (c.encode h.kem_pk) (c.encode h.x_pk) ≡ some h
    unfolding parse_hello
    parse_hello-hello_ctrl h size =
        rw (parse_hello, faithful.decode-encode h.kem_pk, faithful.decode-encode h.x_pk, size) refl

    parse_reply-reply_ctrl :
        (r : Reply)
        → length r.x_pk ≡ 32
        → parse_reply c (c.encode r.x_pk) (c.encode r.kem_ct) ≡ some r
    unfolding parse_reply
    parse_reply-reply_ctrl r size =
        rw (parse_reply, faithful.decode-encode r.x_pk, size, faithful.decode-encode r.kem_ct) refl

    hello_taken :
        (coins x_b : Str) (b : PeerCrypto) (chan : ChanState) (peer : Str) (hello : Hello)
        (reply : Reply) (sb : Session)
        → length hello.x_pk ≡ 32
        → length (c.to_json (hello_ctrl c hello)) ≤ max_ctrl_bytes
        → (on_hello p coins x_b b peer hello).1 ≡ some reply
        → get peer (on_hello p coins x_b b peer hello).0.sessions ≡ some sb
        → let r = on_message p c coins x_b b chan peer (c.to_json (hello_ctrl c hello)) in
          (r.sent ≡ c.to_json (reply_ctrl c reply) ∷ [])
          × (r.events ≡ Messages.secure peer (Session.fingerprint sb) ∷ [])
          × (get peer r.crypto.sessions ≡ some sb)
    unfolding on_ctrl
    hello_taken coins x_b b chan peer hello reply sb size fits answered has =
        rw
          (
            on_message_written coins x_b b chan peer (hello_ctrl c hello) fits,
            parse_hello-hello_ctrl hello size,
            answered,
            has,
          )
          (refl, refl, refl)

    reply_taken :
        (coins x_b : Str) (a : PeerCrypto) (chan : ChanState) (peer : Str) (reply : Reply)
        (sa : Session)
        → length reply.x_pk ≡ 32
        → length (c.to_json (reply_ctrl c reply)) ≤ max_ctrl_bytes
        → (on_reply p a peer reply).1 ≡ true
        → get peer (on_reply p a peer reply).0.sessions ≡ some sa
        → let r = on_message p c coins x_b a chan peer (c.to_json (reply_ctrl c reply)) in
          (r.events ≡ Messages.secure peer (Session.fingerprint sa) ∷ [])
          × (get peer r.crypto.sessions ≡ some sa)
    unfolding on_ctrl
    reply_taken coins x_b a chan peer reply sa size fits ok has =
        rw
          (
            on_message_written coins x_b a chan peer (reply_ctrl c reply) fits,
            parse_reply-reply_ctrl reply size,
            ok,
            has,
          )
          (refl, refl)

  begin_mine :
      (seed x_a : Str) (a b : PeerCrypto)
      → is_initiator a b.my_id ≡ true
      → (begin p seed x_a a b.my_id).1 ≡ some (first_hello a b seed x_a)
  unfolding begin
  begin_mine seed x_a a b h = rw (begin, h) refl

  on_open_first :
      (seed x_a : Str) (a b : PeerCrypto) (chan : ChanState)
      → is_initiator a b.my_id ≡ true
      → (rest : List Str) × ((on_open p c seed x_a a chan b.my_id).1
          ≡ c.to_json (hello_ctrl c (first_hello a b seed x_a)) ∷ rest)
  unfolding on_open
  on_open_first seed x_a a b chan h = (
    c.to_json (BetweenPeers.channel chan.mine) ∷ c.to_json (BetweenPeers.channels chan.dir) ∷ [],
    rw (on_open, begin_mine seed x_a a b h) refl,
  )

  -- Two frames go over the channel, each is taken, and both ends hold a session and show the same
  -- fingerprint.
  abbrev pub Pairs :
      PeerCrypto → PeerCrypto → ChanState → ChanState → Str → Str → Str → Str → Type 0
  Pairs a b chan_a chan_b seed x_a coins x_b =
      (hello reply fp : Str) × (sa sb : Session) × ((rest : List Str) × ((on_open p c seed x_a a
            chan_a b.my_id).1
          ≡ hello ∷ rest))
      × (let r = on_message p c coins x_b b chan_b a.my_id hello in
          (r.sent ≡ reply ∷ [])
          × (r.events ≡ Messages.secure a.my_id fp ∷ [])
          × (get a.my_id r.crypto.sessions ≡ some sb))
      × (let a' = (on_open p c seed x_a a chan_a b.my_id).0 in
          let r = on_message p c coins x_b a' chan_a b.my_id reply in
          (r.events ≡ Messages.secure b.my_id fp ∷ []) × (get b.my_id r.crypto.sessions ≡ some sa))
      × Agree sa sb

  -- When the channel opens, the node with the smaller id sends a hello, the other one answers it,
  -- and the first takes the answer: whatever sessions they had before, each now has one for the
  -- other, the two agree, and each tells its user the same fingerprint. The public keys of X25519
  -- have 32 bytes, and the two frames pass the size limit.
  pub on_open-Pairs :
      (a b : PeerCrypto) (chan_a chan_b : ChanState) (seed x_a coins x_b : Str)
      → IsSound p
      → IsFaithful c
      → ((s : Str) → length (p.x_public s) ≡ 32)
      → is_initiator a b.my_id ≡ true
      → Fits a b seed x_a coins x_b
      → Pairs a b chan_a chan_b seed x_a coins x_b
  unfolding on_open start
  on_open-Pairs a b chan_a chan_b seed x_a coins x_b sound faithful size h fits =
      let (hello, reply, sa, sb, begun, (answered, has_b), (ok, has_a), agree) =
        handshake-Establishes p sound a b seed x_a coins x_b h in
      let mine : hello ≡ first_hello a b seed x_a =
        some-injective hello (first_hello a b seed x_a) (sym begun ∙ begin_mine seed x_a a b h) in
      let answers : (on_hello p coins x_b b a.my_id (first_hello a b seed x_a)).1 ≡ some reply =
        subst (λ m. (on_hello p coins x_b b a.my_id m).1 ≡ some reply) mine answered in
      let has : get a.my_id (on_hello p coins x_b b a.my_id (first_hello a b seed x_a)).0.sessions
          ≡ some sb =
        subst (λ m. get a.my_id (on_hello p coins x_b b a.my_id m).0.sessions ≡ some sb) mine
          has_b in
      let reply_size : length reply.x_pk ≡ 32 =
        ap length (on_hello-x_pk coins x_b b a.my_id (first_hello a b seed x_a) reply answers)
        ∙ size x_b in
      let (events, session) =
        reply_taken faithful coins x_b (begin p seed x_a a b.my_id).0 chan_a b.my_id reply sa
          reply_size (fits.reply reply answers) ok has_a in
      (
        c.to_json (hello_ctrl c (first_hello a b seed x_a)),
        c.to_json (reply_ctrl c reply),
        Session.fingerprint sb,
        sa,
        sb,
        on_open_first seed x_a a b chan_a h,
        hello_taken faithful coins x_b b chan_b a.my_id (first_hello a b seed x_a) reply sb
            (size x_a) fits.hello answers has,
        (
          events
              ∙ ap (λ f. Messages.secure b.my_id (Session.groups (take 10 f)) ∷ [])
                  agree.fingerprint,
          session,
        ),
        agree,
      )
