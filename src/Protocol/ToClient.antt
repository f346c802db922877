-- ===== src/Protocol/ToClient.antt =====
-- crates/protocol/src/lib.rs: `ServerMsg`.
use rdoc_squad_link_lite.Base.{ℕ, Bool, List, Str}
use rdoc_squad_link_lite.Protocol.{PeerInfo, TurnCreds}

pub data ServerMsg : Type 0 where
  roster : List PeerInfo → ServerMsg
  turn : TurnCreds → ServerMsg
  peer_joined : Str → Str → ServerMsg
  peer_left : Str → ServerMsg
  offer answer ice : Str → Str → ServerMsg
  ptt : Str → Bool → ServerMsg
  rekey : Str → ServerMsg
  room_full : ℕ → ServerMsg
  warn : ℕ → ℕ → ServerMsg
  error : Str → Str → ServerMsg
