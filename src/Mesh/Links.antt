-- ===== src/Mesh/Links.antt =====
-- apps/companion-core/src/mesh.rs: the methods of `Mesh` that make and end connections.
pub mod Steps
pub mod Glare
pub mod Offers
pub mod Rebuilding
use rdoc_squad_link_lite.Base.{
  ℕ, Bool, true, false, not, ◌&&◌, List, [], ◌∷◌, ◌++◌, Option, none, some, Str, lit, str_lt, Dict,
  get, insert, remove, keys, contains_key, if◌then◌else◌,
}
use rdoc_squad_link_lite.Protocol.ToServer
use rdoc_squad_link_lite.Crypto.PeerCrypto.{forget}
use rdoc_squad_link_lite.Mesh.{
  Mesh, PeerConn, new_conn, Effect, signal, close, Outcome, done, failed, following, and_then,
}
use rdoc_squad_link_lite.Mesh.Diag.{summary}
use rdoc_squad_link_lite.Mesh.Ice.{add_or_queue_ice, flush_ice}

-- What the webrtc crate answers while one method runs. `create_offer` and `create_answer` give the
-- description; `set_remote_description` reads it, too. `new_or_connecting` and `have_local_offer` are
-- of `connection_state` and `signaling_state`.
pub record Webrtc : Type 0 where
  pub new_peer_connection : Str → Option ℕ
  pub add_track : ℕ → Bool
  pub create_data_channel : ℕ → Option ℕ
  pub create_offer : ℕ → Option Str
  pub create_answer : ℕ → Option Str
  pub set_local_description : ℕ → Str → Bool
  pub set_remote_description : ℕ → Str → Bool
  pub new_or_connecting : ℕ → Bool
  pub have_local_offer : ℕ → Bool
  pub is_candidate : Str → Bool
  pub trim_start : Str → Str

-- The connection to a peer ends, and the session with it.
unfoldable pub drop_conn : Mesh → Str → Mesh × List Effect
drop_conn m peer = elim (get peer m.peers) [
  | none ↦ (m, [])
  | some old ↦
      (record m { peers = remove peer m.peers; crypto = forget m.crypto peer }, close old.pc ∷ [])
]

unfoldable pub link_why : Mesh → Str → Str
link_why m peer = elim (get peer m.peers) [
  | some c ↦ summary c.diag
  | none ↦ lit "keine Verbindung aufgebaut"
]

-- The connection is taken out without its session, before `on_peer` makes the next one.
abbrev pub taken_out : Mesh → Str → Mesh × List Effect
taken_out m id = elim (get id m.peers) [
  | none ↦ (m, [])
  | some old ↦ (record m { peers = remove id m.peers }, close old.pc ∷ [])
]

module _ (w : Webrtc) where
  unfoldable pub ensure : Mesh → Str → Outcome
  ensure m peer =
      if contains_key peer m.peers then done m [] else elim (w.new_peer_connection peer) [
        | none ↦ failed m []
        | some pc ↦
            if w.add_track pc
            then done (record m { peers = insert peer (new_conn pc) m.peers }) []
            else failed m []
      ]

  -- With the data channel in its slot. Without a connection the source panics; `ensure` comes first.
  abbrev pub offer_on : Mesh → Str → PeerConn → Outcome
  offer_on m peer c = elim (w.create_data_channel c.pc) [
    | none ↦ failed m []
    | some dc ↦
        let m' = record m { peers = insert peer (record c { chat = some dc }) m.peers } in
        elim (w.create_offer c.pc) [
          | none ↦ failed m' []
          | some sdp ↦
              if w.set_local_description c.pc sdp
              then done m' (signal (ToServer.offer peer sdp) ∷ [])
              else failed m' []
        ]
  ]

  unfoldable pub offer : Mesh → Str → Outcome
  offer m peer = elim (get peer m.peers) [ none ↦ failed m [] | some c ↦ offer_on m peer c ]

  unfoldable pub rebuild : Mesh → Str → Outcome
  rebuild m peer =
      let (m', closed) = drop_conn m peer in
      following closed (and_then (ensure m' peer) (λ m''. offer m'' peer))

  unfoldable pub on_peer : Mesh → Str → Outcome
  on_peer m peer = if str_lt m.my_id peer then rebuild m peer else ensure m peer

  abbrev pub negotiating : Option PeerConn → Bool
  negotiating none = false
  negotiating (some c) = c.remote_set && w.new_or_connecting c.pc

  unfoldable pub relink : Mesh → Str → Outcome
  relink m peer = if negotiating (get peer m.peers) then done m [] else rebuild m peer

  abbrev pub answer_on : Mesh → Str → PeerConn → Str → Outcome
  answer_on m from c sdp =
      if w.set_remote_description c.pc sdp
      then (let (c', added) = flush_ice w.is_candidate w.trim_start c in
          let m' = record m { peers = insert from c' m.peers } in
          elim (w.create_answer c.pc) [
            | none ↦ failed m' added
            | some answer ↦
                if w.set_local_description c.pc answer
                then done m' (added ++ signal (ToServer.answer from answer) ∷ [])
                else failed m' added
          ])
      else failed m []

  unfoldable pub answer : Mesh → Str → Str → Outcome
  answer m from sdp = elim (get from m.peers) [
    | none ↦ failed m []
    | some c ↦ answer_on m from c sdp
  ]

  abbrev pub offered : Option PeerConn → Bool
  offered none = false
  offered (some c) = w.have_local_offer c.pc

  abbrev pub described : Option PeerConn → Bool
  described none = false
  described (some c) = c.remote_set

  abbrev pub drop_described : Mesh → Str → Mesh × List Effect
  drop_described m from = if described (get from m.peers) then drop_conn m from else (m, [])

  -- `on_offer` after the test for glare.
  unfoldable pub accept_offer : Mesh → Str → Str → Outcome
  accept_offer m from sdp =
      let (m', closed) = drop_described m from in
      following closed (and_then (ensure m' from) (λ m''. answer m'' from sdp))

  unfoldable pub on_offer : Mesh → Str → Str → Outcome
  on_offer m from sdp =
      if offered (get from m.peers)
      then if str_lt m.my_id from
        then done m []
        else (let (m', closed) = drop_conn m from in following closed (accept_offer m' from sdp))
      else accept_offer m from sdp

  unfoldable pub on_answer : Mesh → Str → Str → Outcome
  on_answer m from sdp = elim (get from m.peers) [
    | none ↦ done m []
    | some c ↦
        if w.set_remote_description c.pc sdp
        then (let (c', added) = flush_ice w.is_candidate w.trim_start c in
            done (record m { peers = insert from c' m.peers }) added)
        else failed m []
  ]

  unfoldable pub on_ice : Mesh → Str → Str → Outcome
  on_ice m from cand = elim (get from m.peers) [
    | none ↦ done m []
    | some c ↦
        let (c', added) = add_or_queue_ice w.is_candidate w.trim_start c cand in
        done (record m { peers = insert from c' m.peers }) added
  ]

  unfoldable pub rekey_each : Mesh → List Str → Outcome
  rekey_each m [] = done m []
  rekey_each m (id ∷ ids) =
      let (m', closed) = taken_out m id in
      let rest : Mesh → Outcome = λ n. rekey_each n ids in
      if str_lt m.my_id id then following closed (and_then (on_peer m' id) rest) else rest m

  unfoldable pub rekey : Mesh → Outcome
  rekey m = rekey_each m (keys m.peers)

abbrev pub close_each : Mesh → Dict PeerConn → Mesh × List Effect
close_each m [] = (m, [])
close_each m ((id, c) ∷ conns) =
    let (m', closed) = close_each (record m { crypto = forget m.crypto id }) conns in
    (m', close c.pc ∷ closed)

unfoldable pub close_all : Mesh → Mesh × List Effect
close_all m = close_each (record m { peers = [] }) m.peers

unfoldable pub on_left : Mesh → Str → Mesh × List Effect
on_left m peer = (
  record m { peers = remove peer m.peers; crypto = forget m.crypto peer },
  elim (get peer m.peers) [ none ↦ [] | some c ↦ close c.pc ∷ [] ],
)
