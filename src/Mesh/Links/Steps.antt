-- ===== src/Mesh/Links/Steps.antt =====
-- What single calls of the mesh do.
use rdoc_squad_link_lite.Base.{
  ℕ, ◌≡◌, refl, true, [], ◌∷◌, none, some, Str, get, remove, insert, get-remove_same,
}
use rdoc_squad_link_lite.Crypto.PeerCrypto.{PeerCrypto, forget}
use rdoc_squad_link_lite.Mesh.{Mesh, PeerConn, new_conn, close, done}
use rdoc_squad_link_lite.Mesh.Links.{Webrtc, drop_conn, ensure}

pub drop_conn-some :
    (m : Mesh) (peer : Str) (c : PeerConn)
    → get peer m.peers ≡ some c
    → drop_conn m peer
      ≡ (record m { peers = remove peer m.peers; crypto = forget m.crypto peer }, close c.pc ∷ [])
unfolding drop_conn
drop_conn-some m peer c h = rw (h, drop_conn) refl

pub drop_conn-none : (m : Mesh) (peer : Str) → get peer m.peers ≡ none → drop_conn m peer ≡ (m, [])
unfolding drop_conn
drop_conn-none m peer h = rw (h, drop_conn) refl

pub ensure_new :
    (w : Webrtc) (m : Mesh) (peer : Str) (pc : ℕ)
    → get peer m.peers ≡ none
    → w.new_peer_connection peer ≡ some pc
    → w.add_track pc ≡ true
    → ensure w m peer ≡ done (record m { peers = insert peer (new_conn pc) m.peers }) []
unfolding ensure
ensure_new w m peer pc gone connects tracks = rw (gone, connects, tracks) refl

pub forget-sessions : (c : PeerCrypto) (peer : Str) → get peer (forget c peer).sessions ≡ none
unfolding forget
forget-sessions c peer = get-remove_same peer c.sessions

-- Every call that an offer needs succeeds.
pub record Works (w : Webrtc) : Type 0 where
  pub connects :
      (peer : Str) → (pc : ℕ) × (w.new_peer_connection peer ≡ some pc) × (w.add_track pc ≡ true)
  pub has_channel : (pc : ℕ) → (dc : ℕ) × (w.create_data_channel pc ≡ some dc)
  pub offers :
      (pc : ℕ)
      → (sdp : Str) × (w.create_offer pc ≡ some sdp) × (w.set_local_description pc sdp ≡ true)
