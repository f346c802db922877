-- ===== src/Protocol/BetweenPeers.antt =====
-- crates/protocol/src/lib.rs: `ChatMsg` and `CtrlMsg`, what the peers send to each other on their data
-- channels. Keys and sealed messages are in base64.
use rdoc_squad_link_lite.Base.{ℕ, List, Str}

pub record ChatMsg : Type 0 where
  pub text : Str
  pub ts : ℕ

-- `kem_hello` has the encapsulation key and the X25519 key, `kem_reply` the X25519 key and the
-- ciphertext; `room_key` the generation and the key.
pub data CtrlMsg : Type 0 where
  chat : ChatMsg → CtrlMsg
  channel : Str → CtrlMsg
  channels : List Str → CtrlMsg
  channel_removed : Str → CtrlMsg
  kem_hello kem_reply : Str → Str → CtrlMsg
  enc : Str → CtrlMsg
  room_key : ℕ → Str → CtrlMsg
  room_gen : ℕ → CtrlMsg
