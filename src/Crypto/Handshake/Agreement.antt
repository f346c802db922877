-- ===== src/Crypto/Handshake/Agreement.antt =====
-- Both ends of a handshake derive the two halves of one session.
use rdoc_squad_link_lite.Base.{◌≡◌, refl, true, false, some, Str, arith}
use rdoc_squad_link_lite.Crypto.Primitives.{Primitives, IsSound}
use rdoc_squad_link_lite.Crypto.Session.{Session, new}
use rdoc_squad_link_lite.Crypto.Session.Frames.{Paired, replay_ok-start}
use rdoc_squad_link_lite.Crypto.Handshake.{Hello, Reply, derive, start, finish, respond}

-- Each session opens what the other one seals, from its first frame on, and both show the same
-- fingerprint.
pub record Agree (a b : Session) : Type 0 where
  pub forth : Paired a b
  pub back : Paired b a
  pub fingerprint : a.fp ≡ b.fp

module _ (p : Primitives) where
  derive-Agree :
      (ss_x ss_kem a_id b_id : Str) (h : Hello) (r : Reply)
      → Agree (derive p true ss_x ss_kem a_id b_id h r) (derive p false ss_x ss_kem a_id b_id h r)
  unfolding derive new
  derive-Agree ss_x ss_kem a_id b_id h r = record {
    forth = record { key = refl; prefix = refl; fresh = λ c _. replay_ok-start c };
    back = record { key = refl; prefix = refl; fresh = λ c _. replay_ok-start c };
    fingerprint = refl;
  }

  -- With the promises of the primitives, a handshake between two nodes, whatever was drawn for it,
  -- fails on neither side: the responder answers the `Hello`, the initiator takes the `Reply`, and
  -- their two sessions agree.
  pub handshake-Agree :
      (sound : IsSound p) (a_id b_id seed x_a coins x_b : Str)
      → let (init, hello) = start p seed x_a a_id b_id in
        (reply : Reply) × (sa : Session) × (sb : Session) × (respond p coins x_b a_id b_id hello
          ≡ some (reply, sb))
        × (finish p init reply ≡ some sa)
        × Agree sa sb
  unfolding start finish respond
  handshake-Agree sound a_id b_id seed x_a coins x_b =
      let (c, made, size, opened) = sound.encapsulates seed coins in
      let ss_x = p.x_shared x_b (p.x_public x_a) in
      let h : Hello = record { kem_pk = (p.kem_generate seed).1; x_pk = p.x_public x_a } in
      let r : Reply = record { x_pk = p.x_public x_b; kem_ct = c.0 } in
      (
        r,
        derive p true ss_x c.1 a_id b_id h r,
        derive p false ss_x c.1 a_id b_id h r,
        ground (arith, sound.ek-size seed, made),
        ground (arith, size, opened, sound.x_shared_comm x_a x_b),
        derive-Agree ss_x c.1 a_id b_id h r,
      )
