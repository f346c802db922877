-- ===== src/Mesh/Codec.antt =====
-- What apps/companion-core/src/mesh.rs takes from serde_json, base64 and the characters of `str`.
use rdoc_squad_link_lite.Base.{ℕ, ◌≡◌, Option, some, Str}
use rdoc_squad_link_lite.Protocol.BetweenPeers.{CtrlMsg}

pub record Codec : Type 0 where
  pub to_json : CtrlMsg → Str
  pub from_json : Str → Option CtrlMsg
  pub encode : Str → Str
  pub decode : Str → Option Str
  -- `chars().count()` and `chars().take(n)`
  pub count_chars : Str → ℕ
  pub take_chars : ℕ → Str → Str

-- What is written is read back.
pub record IsFaithful (c : Codec) : Type 0 where
  pub from_json-to_json : (msg : CtrlMsg) → c.from_json (c.to_json msg) ≡ some msg
  pub decode-encode : (bytes : Str) → c.decode (c.encode bytes) ≡ some bytes
