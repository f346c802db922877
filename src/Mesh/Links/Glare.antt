-- ===== src/Mesh/Links/Glare.antt =====
-- Two nodes that offer to each other at once.
use rdoc_squad_link_lite.Base.{
  ℕ, ◌≡◌, refl, true, false, List, [], ◌∷◌, none, some, Str, str_lt, get, contains_key, arith, ap,
  ◌++◌, get-remove_same, get-insert_same, str_lt_asym, remove, insert,
}
use rdoc_squad_link_lite.Protocol.ToServer
use rdoc_squad_link_lite.Crypto.PeerCrypto.{forget}
use rdoc_squad_link_lite.Mesh.{
  Mesh, PeerConn, new_conn, Effect, signal, close, Outcome, done, and_then,
}
use rdoc_squad_link_lite.Mesh.Ice.{flush_ice, add_each}
use rdoc_squad_link_lite.Mesh.Links.{Webrtc, on_offer, on_answer, accept_offer, ensure, answer}
use rdoc_squad_link_lite.Mesh.Links.Steps.{drop_conn-some, ensure_new, forget-sessions}

-- The calls that an answer needs succeed, with this connection and this description.
pub record Answers (w : Webrtc) (peer sdp : Str) (pc : ℕ) (text : Str) : Type 0 where
  pub connects : w.new_peer_connection peer ≡ some pc
  pub tracks : w.add_track pc ≡ true
  pub described : w.set_remote_description pc sdp ≡ true
  pub created : w.create_answer pc ≡ some text
  pub described_here : w.set_local_description pc text ≡ true

-- A connection with an offer that waits for its answer.
pub record Offering (w : Webrtc) (m : Mesh) (peer : Str) (c : PeerConn) : Type 0 where
  pub has : get peer m.peers ≡ some c
  pub waits : w.have_local_offer c.pc ≡ true

-- The node with the smaller id leaves everything as it is.
keeps_offer :
    (w : Webrtc) (m : Mesh) (from sdp : Str) (c : PeerConn)
    → str_lt m.my_id from ≡ true
    → Offering w m from c
    → on_offer w m from sdp ≡ done m []
unfolding on_offer
keeps_offer w m from sdp c h o = ground (arith, h, o.has, o.waits)

-- A new connection to the peer, with its description, and the answer is sent.
abbrev pub Answered : Outcome → Str → List Effect → ℕ → Str → Type 0
Answered r from before pc text =
    (r.ok ≡ true)
    × (r.effects ≡ before ++ signal (ToServer.answer from text) ∷ [])
    × ((c : PeerConn) × (get from r.mesh.peers ≡ some c) × (c.pc ≡ pc) × (c.remote_set ≡ true))

answer_fresh :
    (w : Webrtc) (m : Mesh) (from sdp : Str) (pc : ℕ) (text : Str)
    → get from m.peers ≡ some (new_conn pc)
    → Answers w from sdp pc text
    → Answered (answer w m from sdp) from [] pc text
      × ((answer w m from sdp).mesh.crypto ≡ m.crypto)
unfolding answer flush_ice add_each
answer_fresh w m from sdp pc text there a =
    let set : PeerConn = (flush_ice w.is_candidate w.trim_start (new_conn pc)).0 in
    rw (answer, there, a.described, a.created, a.described_here)
      ((refl, refl, (set, get-insert_same from set m.peers, refl, refl)), refl)

answers :
    (w : Webrtc) (m : Mesh) (from sdp : Str) (pc : ℕ) (text : Str)
    → get from m.peers ≡ none
    → Answers w from sdp pc text
    → Answered (accept_offer w m from sdp) from [] pc text
      × ((accept_offer w m from sdp).mesh.crypto ≡ m.crypto)
unfolding accept_offer and_then
answers w m from sdp pc text gone a =
    let m' = record m { peers = insert from (new_conn pc) m.peers } in
    let made : ensure w m from ≡ done m' [] = ensure_new w m from pc gone a.connects a.tracks in
    rw (gone, made)
      (answer_fresh w m' from sdp pc text (get-insert_same from (new_conn pc) m.peers) a)

-- The node with the greater id gives its own offer up and answers.
gives_way :
    (w : Webrtc) (m : Mesh) (from sdp : Str) (c : PeerConn) (pc : ℕ) (text : Str)
    → str_lt m.my_id from ≡ false
    → Offering w m from c
    → Answers w from sdp pc text
    → Answered (on_offer w m from sdp) from (close c.pc ∷ []) pc text
      × (contains_key from (on_offer w m from sdp).mesh.crypto.sessions ≡ false)
unfolding on_offer
gives_way w m from sdp c pc text h o a =
    let left = record m { peers = remove from m.peers; crypto = forget m.crypto from } in
    let gone : get from left.peers ≡ none = get-remove_same from m.peers in
    let ((ok, sent, conn), crypto) = answers w left from sdp pc text gone a in
    rw (o.has, o.waits, h, drop_conn-some m from c o.has, crypto, forget-sessions m.crypto from)
      ((ok, ap (λ e. close c.pc ∷ e) sent, conn), refl)

-- What is left of two offers that cross: the smaller id's, which the other one answers.
abbrev pub OneLink :
    Webrtc → Webrtc → Mesh → Mesh → PeerConn → PeerConn → Str → Str → ℕ → Str → Type 0
OneLink ws wb small big cs cb offer_s offer_b pc text =
    (on_offer ws small big.my_id offer_b ≡ done small [])
    × Answered (on_offer wb big small.my_id offer_s) small.my_id (close cb.pc ∷ []) pc text
    × (contains_key small.my_id (on_offer wb big small.my_id offer_s).mesh.crypto.sessions ≡ false)
    × ((c : PeerConn) × (get big.my_id (on_answer ws small big.my_id text).mesh.peers ≡ some c)
        × (c.pc ≡ cs.pc)
        × (c.remote_set ≡ true))

-- Two nodes have each offered to the other, and the offers cross: the one with the smaller id changes
-- nothing, the other ends its connection and its session and answers on a new one, if the calls
-- that this takes succeed, and the first takes the answer for the connection of its offer.
pub on_offer-OneLink :
    (ws wb : Webrtc) (small big : Mesh) (cs cb : PeerConn) (offer_s offer_b : Str) (pc : ℕ)
    (text : Str)
    → str_lt small.my_id big.my_id ≡ true
    → Offering ws small big.my_id cs
    → Offering wb big small.my_id cb
    → Answers wb small.my_id offer_s pc text
    → ws.set_remote_description cs.pc text ≡ true
    → OneLink ws wb small big cs cb offer_s offer_b pc text
unfolding on_answer flush_ice
on_offer-OneLink ws wb small big cs cb offer_s offer_b pc text h os ob a d =
    let way =
      gives_way wb big small.my_id offer_s cb pc text (str_lt_asym small.my_id big.my_id h) ob a in
    let c' = (flush_ice ws.is_candidate ws.trim_start cs).0 in
    (
      keeps_offer ws small big.my_id offer_b cs h os,
      way.0,
      way.1,
      rw (on_answer, os.has, d) (c', get-insert_same big.my_id c' small.peers, refl, refl),
    )
