-- ===== src/Crypto/Handshake.antt =====
-- apps/companion-core/src/crypto.rs: the hybrid handshake, ML-KEM-768 with X25519. What `OsRng`
-- draws is an argument.
pub mod Agreement
use rdoc_squad_link_lite.Base.{
  ℕ, Bool, true, false, List, [], ◌∷◌, ◌++◌, Option, none, some, Str, lit, ltb, ◌==◌, if◌then◌else◌,
  length, take, drop,
}
use rdoc_squad_link_lite.Base.Bytes.{to_be_bytes}
use rdoc_squad_link_lite.Crypto.Primitives.{Primitives}
use rdoc_squad_link_lite.Crypto.Session.{Session, new}

abbrev pub kdf_label : Str
kdf_label = lit "rdoc-squadlink-pqc-v1"

pub record Hello : Type 0 where
  pub kem_pk : Str
  pub x_pk : Str

pub record Reply : Type 0 where
  pub x_pk : Str
  pub kem_ct : Str

pub record Initiator : Type 0 where
  pub dk : Str
  pub x_secret : Str
  pub a_id : Str
  pub b_id : Str
  pub hello : Hello

module _ (p : Primitives) where
  -- A key of 32 bytes and a nonce prefix of 4.
  pub kdf_dir : Str → Str → Str → Str × Str
  kdf_dir salt ikm info = let okm = p.hkdf salt ikm info 36 in (take 32 okm, take 4 (drop 32 okm))

  -- The four low bytes of a length are `(len as u32).to_be_bytes()`.
  pub transcript : Str → Str → Hello → Reply → Str
  transcript a_id b_id h r = p.sha256 (
      kdf_label
      ++ (to_be_bytes 4 (length a_id)
          ++ (a_id
              ++ (to_be_bytes 4 (length b_id)
                  ++ (b_id ++ (h.kem_pk ++ (h.x_pk ++ (r.x_pk ++ r.kem_ct))))))))

  unfoldable pub derive : Bool → Str → Str → Str → Str → Hello → Reply → Session
  derive initiator ss_x ss_kem a_id b_id h r =
      let salt = transcript a_id b_id h r in
      let ikm = ss_x ++ ss_kem in
      let (k_ab, p_ab) = kdf_dir salt ikm (lit "A->B") in
      let (k_ba, p_ba) = kdf_dir salt ikm (lit "B->A") in
      if initiator then new k_ab p_ab k_ba p_ba salt else new k_ba p_ba k_ab p_ab salt

  -- `Initiator::start`, with the seed of the KEM keys and the X25519 secret.
  unfoldable pub start : Str → Str → Str → Str → Initiator × Hello
  start seed x_secret a_id b_id =
      let (dk, ek) = p.kem_generate seed in
      let hello : Hello = record { kem_pk = ek; x_pk = p.x_public x_secret } in
      (record { dk = dk; x_secret = x_secret; a_id = a_id; b_id = b_id; hello = hello }, hello)

  pub kem_ct_from_bytes : Str → Option Str
  kem_ct_from_bytes b = if length b == p.ct_size then some b else none

  pub ek_from_bytes : Str → Option Str
  ek_from_bytes b = if length b == p.ek_size then some b else none

  -- `Initiator::finish`.
  unfoldable pub finish : Initiator → Reply → Option Session
  unfolding kem_ct_from_bytes
  finish init reply = elim (kem_ct_from_bytes reply.kem_ct) [
    | none ↦ none
    | some ct ↦ elim (p.decapsulate init.dk ct) [
      | none ↦ none
      | some ss_kem ↦
          let ss_x = p.x_shared init.x_secret reply.x_pk in
          some (derive true ss_x ss_kem init.a_id init.b_id init.hello reply)
    ]
  ]

  -- With the coins of the encapsulation and the X25519 secret.
  unfoldable pub respond : Str → Str → Str → Str → Hello → Option (Reply × Session)
  unfolding ek_from_bytes
  respond coins x_secret a_id b_id hello = elim (ek_from_bytes hello.kem_pk) [
    | none ↦ none
    | some ek ↦ elim (p.encapsulate ek coins) [
      | none ↦ none
      | some (kem_ct, ss_kem) ↦
          let ss_x = p.x_shared x_secret hello.x_pk in
          let reply : Reply = record { x_pk = p.x_public x_secret; kem_ct = kem_ct } in
          some (reply, derive false ss_x ss_kem a_id b_id hello reply)
    ]
  ]
