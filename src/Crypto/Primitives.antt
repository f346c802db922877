-- ===== src/Crypto/Primitives.antt =====
-- What the handshake and the sessions of apps/companion-core/src/crypto.rs take from the crates
-- sha2, hkdf, chacha20poly1305, ml-kem and x25519-dalek: the operations, on byte strings, and what
-- their documentation promises of them. Randomness is an argument.
use rdoc_squad_link_lite.Base.{ℕ, ◌≡◌, Option, some, Str, length}

pub record Primitives : Type 0 where
  pub sha256 : Str → Str
  -- salt, input key material, info, number of bytes
  pub hkdf : Str → Str → Str → ℕ → Str
  -- key, nonce, associated data, message
  pub encrypt : Str → Str → Str → Str → Str
  pub decrypt : Str → Str → Str → Str → Option Str
  -- the decapsulation key and the bytes of the encapsulation key
  pub kem_generate : Str → Str × Str
  pub ek_size : ℕ
  pub ct_size : ℕ
  -- the ciphertext and the shared secret
  pub encapsulate : Str → Str → Option (Str × Str)
  pub decapsulate : Str → Str → Option Str
  pub x_public : Str → Str
  pub x_shared : Str → Str → Str

pub record IsSound (p : Primitives) : Type 0 where
  pub decrypt-encrypt :
      (key nonce aad msg : Str) → p.decrypt key nonce aad (p.encrypt key nonce aad msg) ≡ some msg
  pub ek-size : (seed : Str) → length (p.kem_generate seed).1 ≡ p.ek_size
  pub encapsulates :
      (seed coins : Str)
      → (c : Str × Str) × (p.encapsulate (p.kem_generate seed).1 coins ≡ some c)
        × (length c.0 ≡ p.ct_size)
        × (p.decapsulate (p.kem_generate seed).0 c.0 ≡ some c.1)
  pub x_shared_comm : (a b : Str) → p.x_shared a (p.x_public b) ≡ p.x_shared b (p.x_public a)
