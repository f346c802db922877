-- ===== src/Mesh/Links/Rebuilding.antt =====
-- A connection that is made anew: the peer is offered to, and no other connection is touched.
use rdoc_squad_link_lite.Base.{
  ◌≡◌, refl, ◌∙◌, true, false, ℕ, List, [], ◌∷◌, ◌++◌, none, some, Str, str_eq, get, insert, arith,
  Option-cases, inl, inr, get-remove, get-remove_same, get-insert, get-insert_same,
}
use rdoc_squad_link_lite.Protocol.ToServer
use rdoc_squad_link_lite.Mesh.{Mesh, PeerConn, new_conn, Effect, signal, done, and_then}
use rdoc_squad_link_lite.Mesh.Links.{Webrtc, drop_conn, rebuild, ensure, offer, offer_on}
use rdoc_squad_link_lite.Mesh.Links.Steps.{Works, drop_conn-some, drop_conn-none, ensure_new}

drop_conn-gone : (m : Mesh) (peer : Str) → get peer (drop_conn m peer).0.peers ≡ none
drop_conn-gone m peer = elim (Option-cases (get peer m.peers)) [
  | inl gone ↦ rw (drop_conn-none m peer gone) gone
  | inr (c, there) ↦ rw (drop_conn-some m peer c there) (get-remove_same peer m.peers)
]

drop_conn-others :
    (m : Mesh) (peer id : Str)
    → str_eq peer id ≡ false
    → get id (drop_conn m peer).0.peers ≡ get id m.peers
drop_conn-others m peer id other = elim (Option-cases (get peer m.peers)) [
  | inl gone ↦ rw (drop_conn-none m peer gone) refl
  | inr (c, there) ↦
      rw (drop_conn-some m peer c there) (ground (arith, get-remove peer id m.peers, other))
]

insert-others :
    (peer id : Str) (c d : PeerConn) (m : Mesh)
    → str_eq peer id ≡ false
    → get id (insert peer d (insert peer c m.peers)) ≡ get id m.peers
insert-others peer id c d m other =
    ground
      (arith, get-insert peer id d (insert peer c m.peers), get-insert peer id c m.peers, other)

offer-there :
    (w : Webrtc) (m : Mesh) (peer sdp : Str) (c : PeerConn) (dc : ℕ)
    → get peer m.peers ≡ some c
    → w.create_data_channel c.pc ≡ some dc
    → w.create_offer c.pc ≡ some sdp
    → w.set_local_description c.pc sdp ≡ true
    → offer w m peer
      ≡ done
          (record m { peers = insert peer (record c { chat = some dc }) m.peers })
          (signal (ToServer.offer peer sdp) ∷ [])
unfolding offer
offer-there w m peer sdp c dc there channel created described =
    rw (offer, there, offer_on, channel, created, described) refl

pub rebuild-Offers :
    (w : Webrtc) (works : Works w) (m : Mesh) (peer : Str)
    → (m' : Mesh) × (sdp : Str) × (closed : List Effect) × (rebuild w m peer
        ≡ done m' (closed ++ signal (ToServer.offer peer sdp) ∷ []))
      × ((id : Str) → str_eq peer id ≡ false → get id m'.peers ≡ get id m.peers)
unfolding rebuild and_then
rebuild-Offers w works m peer =
    let (pc, connects, tracks) = works.connects peer in
    let (dc, channel) = works.has_channel pc in
    let (sdp, created, described) = works.offers pc in
    let conn = new_conn pc in
    let m0 = (drop_conn m peer).0 in
    let m1 = record m0 { peers = insert peer conn m0.peers } in
    let made : ensure w m0 peer ≡ done m1 [] =
      ensure_new w m0 peer pc (drop_conn-gone m peer) connects tracks in
    let m2 = record m1 { peers = insert peer (record conn { chat = some dc }) m1.peers } in
    let offered : offer w m1 peer ≡ done m2 (signal (ToServer.offer peer sdp) ∷ []) =
      offer-there w m1 peer sdp conn dc (get-insert_same peer conn m0.peers) channel created
        described in
    (
      m2,
      sdp,
      (drop_conn m peer).1,
      rw (made, offered) refl,
      λ id other.
          insert-others peer id conn (record conn { chat = some dc }) m0 other
          ∙ drop_conn-others m peer id other,
    )
