-- ===== src/Engine/Loop/Signals/Departures.antt =====
-- What is left of a peer that the server says has left, and the key of the room after it.
use rdoc_squad_link_lite.Base.{
  suc, ◌<◌, ◌≡◌, true, List, [], ◌∷◌, none, some, Str, str_eq_iff, get, remove, get-insert,
  get-remove_same, arith, u32_max, Option-cases, inl, inr,
}
use rdoc_squad_link_lite.Protocol.BetweenPeers
use rdoc_squad_link_lite.Crypto.Primitives.{Primitives}
use rdoc_squad_link_lite.Crypto.Session
use rdoc_squad_link_lite.Crypto.PeerCrypto
use rdoc_squad_link_lite.Crypto.PeerCrypto.{PeerCrypto, forget}
use rdoc_squad_link_lite.Engine.Member.{secure_peer_ids}
use rdoc_squad_link_lite.Engine.Authority.{am_authority}
use rdoc_squad_link_lite.Engine.Coordinator.{KeyAction, send_key, send_gen, rotate}
use rdoc_squad_link_lite.Engine.Coordinator.Generations.{IsAhead}
use rdoc_squad_link_lite.Engine.Coordinator.Convergence.{rotate_lem}
use rdoc_squad_link_lite.Engine.Channels.{remove_peer}
use rdoc_squad_link_lite.Mesh.{Mesh}
use rdoc_squad_link_lite.Mesh.Codec.{Codec}
use rdoc_squad_link_lite.Mesh.Links.{on_left}
use rdoc_squad_link_lite.Mesh.Sending.{
  send_sealed, send_room_key, send_room_gen, perform, perform_key_actions,
}
use rdoc_squad_link_lite.Engine.Loop.{
  Config, Libraries, Turn, Loop, rotate_if, rotate_keys, has_session,
}
use rdoc_squad_link_lite.Engine.Loop.Signals.{on_peer_left}

module _ (p : Primitives) (c : Codec) (id : Str) where
  -- No session and no connection.
  abbrev pub Gone : Mesh → Type 0
  Gone m = (get id m.crypto.sessions ≡ none) × (get id m.peers ≡ none)

  seal-sessions :
      (crypto : PeerCrypto) (peer : Str) (kind : Session.Kind) (pt : Str)
      → get id crypto.sessions ≡ none
      → get id (PeerCrypto.seal p crypto peer kind pt).0.sessions ≡ none
  unfolding PeerCrypto.seal
  seal-sessions crypto peer kind pt h = elim (Option-cases (get peer crypto.sessions)) [
    | inl e ↦ rw (PeerCrypto.seal, e) h
    | inr (s, e) ↦
        rw (PeerCrypto.seal, e)
          (ground (
            arith,
            get-insert peer id (Session.seal p s kind pt).0 crypto.sessions,
            str_eq_iff peer id,
          ))
  ]

  perform-Gone : (m : Mesh) (a : KeyAction) → Gone m → Gone (perform p c m a).0
  unfolding send_room_key send_room_gen send_sealed
  perform-Gone m (send_key peer gen key) h = (
    seal-sessions m.crypto peer Session.chat (c.to_json (BetweenPeers.room_key gen (c.encode key)))
        h.0,
    h.1,
  )
  perform-Gone m (send_gen peer gen) h =
      (seal-sessions m.crypto peer Session.chat (c.to_json (BetweenPeers.room_gen gen)) h.0, h.1)

  perform_key_actions-Gone :
      (m : Mesh) (actions : List KeyAction) → Gone m → Gone (perform_key_actions p c m actions).0
  unfolding perform_key_actions
  perform_key_actions-Gone m [] h = h
  perform_key_actions-Gone m (a ∷ actions) h =
      perform_key_actions-Gone (perform p c m a).0 actions (perform-Gone m a h)

module _ (cfg : Config) (libs : Libraries) (t : Turn) where
  -- Nothing of the peer is left, and the newest key is one that it has not seen.
  pub record Forgotten (id : Str) (l l' : Loop) : Type 0 where
    pub member : get id l'.members ≡ none
    pub channel : get id l'.chan.peers ≡ none
    pub links : Gone libs.crypto libs.codec id l'.mesh
    pub key :
        l'.keys.room.cur
        ≡ some (record { gen = suc l.keys.room_gen; auth = l.keys.me_id; key = t.fresh })

  -- If we have the authority without the peer who leaves, and our counter is not behind the key and
  -- below the largest u32: the peer has no row, no channel, no connection and no session any more,
  -- and the current key is the fresh one, under the next generation.
  pub on_peer_left-Forgotten :
      (l : Loop) (id : Str)
      → IsAhead l.keys
      → l.keys.room_gen < u32_max
      → am_authority cfg.user_id (remove id l.members) ≡ true
      → Forgotten id l (on_peer_left cfg libs t l id).loop
  unfolding on_peer_left rotate_if rotate_keys on_left forget
  on_peer_left-Forgotten l id ahead small mine =
      let m1 = (on_left l.mesh id).0 in
      let l1 = record l {
        members = remove id l.members;
        chan = remove_peer l.chan id;
        mesh = m1;
      } in
      let peers = secure_peer_ids l1.members (has_session l1) in
      let (actions, cur) = rotate_lem l.keys t.fresh peers ahead small in
      let gone : Gone libs.crypto libs.codec id m1 =
        (get-remove_same id l.mesh.crypto.sessions, get-remove_same id l.mesh.peers) in
      rw mine (record {
        member = get-remove_same id l.members;
        channel = get-remove_same id l.chan.peers;
        links =
            perform_key_actions-Gone libs.crypto libs.codec id m1 (rotate l.keys t.fresh peers).1
              gone;
        key = cur;
      })
