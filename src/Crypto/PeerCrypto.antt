-- ===== src/Crypto/PeerCrypto.antt =====
-- apps/companion-core/src/crypto.rs: `PeerCrypto`, the store of handshakes and sessions by peer.
-- The two mutexes are locked one at a time and never across a wait: a call is one step.
pub mod Glare
use rdoc_squad_link_lite.Base.{
  ℕ, Bool, true, false, List, [], ◌∷◌, Option, none, some, Str, str_lt, if◌then◌else◌, Dict, get,
  insert, remove, contains_key,
}
use rdoc_squad_link_lite.Crypto.Primitives.{Primitives}
use rdoc_squad_link_lite.Crypto.Session.{Session, Kind}
use rdoc_squad_link_lite.Crypto.Session
use rdoc_squad_link_lite.Crypto.Handshake.{Hello, Reply, Initiator, start, finish, respond}

pub record PeerCrypto : Type 0 where
  pub my_id : Str
  pub sessions : Dict Session
  pub pending : Dict Initiator

unfoldable pub new : Str → PeerCrypto
new my_id = record { my_id = my_id; sessions = []; pending = [] }

abbrev pub is_initiator : PeerCrypto → Str → Bool
is_initiator c peer = str_lt c.my_id peer

abbrev pub is_secure : PeerCrypto → Str → Bool
is_secure c peer = contains_key peer c.sessions

module _ (p : Primitives) where
  -- `seed` and `x_secret` are what `Initiator::start` draws.
  unfoldable pub begin : Str → Str → PeerCrypto → Str → PeerCrypto × Option Hello
  begin seed x_secret c peer =
      if is_initiator c peer
      then (let (init, hello) = start p seed x_secret c.my_id peer in
          (
            record c { sessions = remove peer c.sessions; pending = insert peer init c.pending },
            some hello,
          ))
      else (c, none)

  abbrev pub answered : PeerCrypto → Str → Option (Reply × Session) → PeerCrypto × Option Reply
  answered c peer none = (c, none)
  answered c peer (some (reply, sess)) =
      (record c { sessions = insert peer sess c.sessions }, some reply)

  -- The transcript names the initiator first: the peer, then us.
  unfoldable pub on_hello : Str → Str → PeerCrypto → Str → Hello → PeerCrypto × Option Reply
  on_hello coins x_secret c peer hello =
      if is_initiator c peer
      then (c, none)
      else answered c peer (respond p coins x_secret peer c.my_id hello)

  abbrev pub finished : PeerCrypto → Str → Option Session → PeerCrypto × Bool
  finished c peer none = (c, false)
  finished c peer (some sess) = (record c { sessions = insert peer sess c.sessions }, true)

  unfoldable pub on_reply : PeerCrypto → Str → Reply → PeerCrypto × Bool
  on_reply c peer reply =
      let c' = record c { pending = remove peer c.pending } in
      elim (get peer c.pending) [
        | none ↦ (c', false)
        | some init ↦ finished c' peer (finish p init reply)
      ]

  unfoldable pub seal : PeerCrypto → Str → Kind → Str → PeerCrypto × Option Str
  seal c peer kind pt = elim (get peer c.sessions) [
    | none ↦ (c, none)
    | some s ↦
        let (s', wire) = Session.seal p s kind pt in
        (record c { sessions = insert peer s' c.sessions }, some wire)
  ]

  unfoldable pub open_from : PeerCrypto → Str → Kind → Str → PeerCrypto × Option Str
  open_from c peer kind wire = elim (get peer c.sessions) [
    | none ↦ (c, none)
    | some s ↦
        let (s', pt) = Session.open_frame p s kind wire in
        (record c { sessions = insert peer s' c.sessions }, pt)
  ]

unfoldable pub forget : PeerCrypto → Str → PeerCrypto
forget c peer = record c { sessions = remove peer c.sessions; pending = remove peer c.pending }
