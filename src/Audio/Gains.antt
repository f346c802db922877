-- ===== src/Audio/Gains.antt =====
-- apps/companion-core/src/audio.rs: `Gains`, the volume of the room and of each peer.
use rdoc_squad_link_lite.Base.{Option, none, some, Str, Dict, get, insert, []}
use rdoc_squad_link_lite.Audio.Float.{Float, one, nil}

pub record Gains (F : Type 0) : Type 0 where
  pub master : Option F
  pub peers : Dict F

module _ {F : Type 0} (f : Float F) where
  abbrev pub clamp_gain : F → F
  clamp_gain v = f.clamp v (nil f) (f.num 2 0)

  unfoldable pub new : Gains F
  new = record { master = some (one f); peers = [] }

  unfoldable pub set_master : F → Gains F → Gains F
  set_master v g = record g { master = some (clamp_gain v) }

  unfoldable pub set_peer : Str → F → Gains F → Gains F
  set_peer peer v g = record g { peers = insert peer (clamp_gain v) g.peers }

  abbrev pub or_one : Option F → F
  or_one none = one f
  or_one (some v) = v

  unfoldable pub master_v : Gains F → F
  master_v g = or_one g.master

  unfoldable pub peer_v : Str → Gains F → F
  peer_v peer g = or_one (get peer g.peers)
