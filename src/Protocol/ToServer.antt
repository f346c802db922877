-- ===== src/Protocol/ToServer.antt =====
-- crates/protocol/src/lib.rs: `ClientMsg`.
use rdoc_squad_link_lite.Base.{ℕ, Bool, Option, Str}

-- `join` has proto, room, user_id, name, token and secret.
pub data ClientMsg : Type 0 where
  join : ℕ → Str → Str → Str → Option Str → Str → ClientMsg
  offer answer ice : Str → Str → ClientMsg
  ptt : Bool → ClientMsg
  rekey leave : ClientMsg
