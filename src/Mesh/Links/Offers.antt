-- ===== src/Mesh/Links/Offers.antt =====
-- A rekey of the room offers anew to each peer that the node is to offer to, and to no other.
use rdoc_squad_link_lite.Base.{
  ◌≡◌, refl, true, List, [], ◌∷◌, ◌++◌, none, some, Str, str_lt, get, keys, remove, insert, filter,
  ap, sym, subst, ◌∙◌, Bool-cases, Option-cases, inl, inr, get-remove_same, get-insert_same,
}
use rdoc_squad_link_lite.Protocol.ToServer
use rdoc_squad_link_lite.Protocol.ToServer.{ClientMsg}
use rdoc_squad_link_lite.Mesh.{
  Mesh, PeerConn, new_conn, Effect, signal, close, Outcome, done, and_then,
}
use rdoc_squad_link_lite.Mesh.Links.{
  Webrtc, rebuild, ensure, offer, offer_on, on_peer, rekey, rekey_each, taken_out,
}
use rdoc_squad_link_lite.Mesh.Links.Steps.{Works, drop_conn-none, ensure_new}

-- To whom offers go out.
abbrev pub offer_to : Effect → List Str → List Str
offer_to (signal (ToServer.offer to sdp)) tos = to ∷ tos
offer_to _ tos = tos

abbrev pub offered_to : List Effect → List Str
offered_to [] = []
offered_to (e ∷ effects) = offer_to e (offered_to effects)

offer_new :
    (w : Webrtc) (works : Works w) (m : Mesh) (peer : Str) (c : PeerConn)
    → get peer m.peers ≡ some c
    → (m' : Mesh) × (sdp : Str) × (offer w m peer ≡ done m' (signal (ToServer.offer peer sdp) ∷ []))
      × (m'.my_id ≡ m.my_id)
unfolding offer
offer_new w works m peer c there =
    let (dc, channel) = works.has_channel c.pc in
    let (sdp, created, described) = works.offers c.pc in
    (
      record m { peers = insert peer (record c { chat = some dc }) m.peers },
      sdp,
      rw (offer, there, offer_on, channel, created, described) refl,
      refl,
    )

rebuild_absent :
    (w : Webrtc) (works : Works w) (m : Mesh) (peer : Str)
    → get peer m.peers ≡ none
    → (m' : Mesh) × (sdp : Str) × (rebuild w m peer
        ≡ done m' (signal (ToServer.offer peer sdp) ∷ []))
      × (m'.my_id ≡ m.my_id)
unfolding rebuild and_then
rebuild_absent w works m peer gone =
    let (pc, connects, tracks) = works.connects peer in
    let m1 = record m { peers = insert peer (new_conn pc) m.peers } in
    let (m', sdp, offered, same) =
      offer_new w works m1 peer (new_conn pc) (get-insert_same peer (new_conn pc) m.peers) in
    let made : ensure w m peer ≡ done m1 [] = ensure_new w m peer pc gone connects tracks in
    (m', sdp, rw (drop_conn-none m peer gone, made, offered) refl, same)

on_peer_absent :
    (w : Webrtc) (works : Works w) (m : Mesh) (peer : Str)
    → get peer m.peers ≡ none
    → str_lt m.my_id peer ≡ true
    → (m' : Mesh) × (sdp : Str) × (on_peer w m peer
        ≡ done m' (signal (ToServer.offer peer sdp) ∷ []))
      × (m'.my_id ≡ m.my_id)
unfolding on_peer
on_peer_absent w works m peer gone mine =
    let (m', sdp, rebuilt, same) = rebuild_absent w works m peer gone in
    (m', sdp, rw (on_peer, mine) rebuilt, same)

taken_out-gone :
    (m : Mesh) (id : Str)
    → (m' : Mesh) × (closed : List Effect) × (taken_out m id ≡ (m', closed))
      × (get id m'.peers ≡ none)
      × (m'.my_id ≡ m.my_id)
      × ((effects : List Effect) → offered_to (closed ++ effects) ≡ offered_to effects)
taken_out-gone m id = elim (Option-cases (get id m.peers)) [
  | inl none_there ↦ (m, [], rw (taken_out, none_there) refl, none_there, refl, λ effects. refl)
  | inr (c, there) ↦ (
    record m { peers = remove id m.peers },
    close c.pc ∷ [],
    rw (taken_out, there) refl,
    get-remove_same id m.peers,
    refl,
    λ effects. refl,
  )
]

abbrev pub OffersTo : Outcome → List Str → Type 0
OffersTo r tos = (r.ok ≡ true) × (offered_to r.effects ≡ tos)

OffersTo-next :
    (w : Webrtc) (m m1 m2 : Mesh) (id : Str) (ids : List Str) (closed : List Effect) (sdp : Str)
    → str_lt m.my_id id ≡ true
    → taken_out m id ≡ (m1, closed)
    → ((effects : List Effect) → offered_to (closed ++ effects) ≡ offered_to effects)
    → on_peer w m1 id ≡ done m2 (signal (ToServer.offer id sdp) ∷ [])
    → m2.my_id ≡ m.my_id
    → OffersTo (rekey_each w m2 ids) (filter (λ i. str_lt m2.my_id i) ids)
    → OffersTo (rekey_each w m (id ∷ ids)) (filter (λ i. str_lt m.my_id i) (id ∷ ids))
unfolding rekey_each and_then
OffersTo-next w m m1 m2 id ids closed sdp mine taken quiet offered same rest =
    let (ok, tos) =
      subst (λ me. OffersTo (rekey_each w m2 ids) (filter (λ i. str_lt me i) ids)) same rest in
    let later = signal (ToServer.offer id sdp) ∷ (rekey_each w m2 ids).effects in
    rw (mine, taken, offered) (ok, quiet later ∙ ap (λ t. id ∷ t) tos)

rekey_each-OffersTo :
    (w : Webrtc) (works : Works w) (m : Mesh) (ids : List Str)
    → OffersTo (rekey_each w m ids) (filter (λ id. str_lt m.my_id id) ids)
unfolding rekey_each
rekey_each-OffersTo w works m [] = (refl, refl)
rekey_each-OffersTo w works m (id ∷ ids) = elim (Bool-cases (str_lt m.my_id id)) [
  | inr not_mine ↦ rw not_mine (rekey_each-OffersTo w works m ids)
  | inl mine ↦
      let (m1, closed, taken, gone, same1, quiet) = taken_out-gone m id in
      let (m2, sdp, offered, same2) =
        on_peer_absent w works m1 id gone (subst (λ me. str_lt me id ≡ true) (sym same1) mine) in
      OffersTo-next w m m1 m2 id ids closed sdp mine taken quiet offered (same2 ∙ same1)
        (rekey_each-OffersTo w works m2 ids)
]

-- If its calls succeed, a rekey offers once to each peer with a greater id that the node has a
-- connection to, to nobody else, and it does not stop halfway.
pub rekey-OffersTo :
    (w : Webrtc) (m : Mesh)
    → Works w
    → OffersTo (rekey w m) (filter (λ id. str_lt m.my_id id) (keys m.peers))
unfolding rekey
rekey-OffersTo w m works = rekey_each-OffersTo w works m (keys m.peers)
