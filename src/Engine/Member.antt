-- ===== src/Engine/Member.antt =====
-- apps/companion-core/src/lib.rs: `Member`, a peer as the engine knows it. An `Instant` is a number
-- of nanoseconds.
use rdoc_squad_link_lite.Base.{ℕ, Bool, false, List, Option, none, some, Str, Dict, keys, filter}

pub record Member : Type 0 where
  pub name : Str
  pub badge : Option Str
  pub speaking : Bool
  pub channel : Str
  pub secure : Bool
  pub fingerprint : Option Str
  pub linked : Bool
  pub down_since : Option ℕ
  pub last_relink : Option ℕ
  pub link_warned : Bool

abbrev pub Members : Type 0
Members = Dict Member

abbrev pub new : Str → Str → Bool → ℕ → Member
new name channel secure now = record {
  name = name;
  badge = none;
  speaking = false;
  channel = channel;
  secure = secure;
  fingerprint = none;
  linked = false;
  down_since = some now;
  last_relink = none;
  link_warned = false;
}

-- `secure_peer_ids`, over `PeerCrypto::is_secure`.
abbrev pub secure_peer_ids : Members → (Str → Bool) → List Str
secure_peer_ids members is_secure = filter is_secure (keys members)
