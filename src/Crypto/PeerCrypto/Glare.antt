-- ===== src/Crypto/PeerCrypto/Glare.antt =====
-- The glare rule, and a whole handshake between two stores.
use rdoc_squad_link_lite.Base.{
  ◌≡◌, ◌≢◌, true, not, some, Str, arith, str_lt_asym, str_lt_total, get-insert, str_eq_refl, get,
  insert, remove,
}
use rdoc_squad_link_lite.Crypto.Primitives.{Primitives, IsSound}
use rdoc_squad_link_lite.Crypto.Session.{Session}
use rdoc_squad_link_lite.Crypto.Handshake.{Hello, Reply, start}
use rdoc_squad_link_lite.Crypto.Handshake.Agreement.{Agree, handshake-Agree}
use rdoc_squad_link_lite.Crypto.PeerCrypto.{PeerCrypto, is_initiator, begin, on_hello, on_reply}

-- Of two nodes with different ids exactly one is the initiator, whatever state they are in.
pub one_initiator :
    (a b : PeerCrypto) → a.my_id ≢ b.my_id → is_initiator a b.my_id ≡ not (is_initiator b a.my_id)
one_initiator a b h = ground (arith, str_lt_total a.my_id b.my_id, str_lt_asym a.my_id b.my_id)

-- The first node's `Hello`, the second one's `Reply`, and the sessions that both then hold.
abbrev pub Establishes : Primitives → PeerCrypto → PeerCrypto → Str → Str → Str → Str → Type 0
Establishes p a b seed x_a coins x_b =
    (hello : Hello) × (reply : Reply) × (sa : Session) × (sb : Session) × ((begin p seed x_a a
        b.my_id).1
      ≡ some hello)
    × (let (b', answer) = on_hello p coins x_b b a.my_id hello in
        (answer ≡ some reply) × (get a.my_id b'.sessions ≡ some sb))
    × (let (a', done) = on_reply p (begin p seed x_a a b.my_id).0 b.my_id reply in
        (done ≡ true) × (get b.my_id a'.sessions ≡ some sa))
    × Agree sa sb

module _ (p : Primitives) (sound : IsSound p) where
  -- The node with the smaller id begins, the other one answers its `Hello`, and the first takes the
  -- `Reply`: whatever their states were before, both calls succeed, and each now holds a session
  -- for the other that agrees with the other's.
  pub handshake-Establishes :
      (a b : PeerCrypto) (seed x_a coins x_b : Str)
      → is_initiator a b.my_id ≡ true
      → Establishes p a b seed x_a coins x_b
  unfolding begin on_hello on_reply
  handshake-Establishes a b seed x_a coins x_b h =
      let (reply, sa, sb, answered, finished, agree) =
        handshake-Agree p sound a.my_id b.my_id seed x_a coins x_b in
      let (init, hello) = start p seed x_a a.my_id b.my_id in
      let same_a = str_eq_refl a.my_id in
      let same_b = str_eq_refl b.my_id in
      let kept_b : get a.my_id (insert a.my_id sb b.sessions) ≡ some sb =
        rw (get-insert a.my_id a.my_id sb b.sessions, same_a) in
      let pending : get b.my_id (insert b.my_id init a.pending) ≡ some init =
        rw (get-insert b.my_id b.my_id init a.pending, same_b) in
      let kept_a : get b.my_id (insert b.my_id sa (remove b.my_id a.sessions)) ≡ some sa =
        rw (get-insert b.my_id b.my_id sa (remove b.my_id a.sessions), same_b) in
      (
        hello,
        reply,
        sa,
        sb,
        ground arith,
        (
          ground (arith, str_lt_asym a.my_id b.my_id, answered),
          ground (arith, str_lt_asym a.my_id b.my_id, answered, kept_b),
        ),
        (ground (arith, pending, finished), ground (arith, pending, finished, kept_a)),
        agree,
      )
