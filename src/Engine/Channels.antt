-- ===== src/Engine/Channels.antt =====
-- apps/companion-core/src/lib.rs: the directory of channels that the peers share, and who hears whom.
-- Trimming and lowercasing are library functions on Unicode, and arguments here.
pub mod Directory
pub mod Names
use rdoc_squad_link_lite.Base.{
  ℕ, ◌*◌, Bool, true, false, not, ◌&&◌, ◌||◌, List, [], ◌∷◌, ◌++◌, Option, none, some, Str, lit,
  str_eq, leb, ltb, ◌==◌, if◌then◌else◌, Dict, get, insert, remove, values, length, any, filter,
}
use rdoc_squad_link_lite.Engine.Member.{Member, Members}

abbrev pub max_channels : ℕ
max_channels = 64

abbrev pub max_tombstones : ℕ
max_tombstones = max_channels * 4

abbrev pub default_channel : Str
default_channel = lit "Funk 1"

-- `str::trim` and `str::to_lowercase`.
pub record Unicode : Type 0 where
  pub trim : Str → Str
  pub to_lowercase : Str → Str

abbrev pub is_empty : Str → Bool
is_empty [] = true
is_empty (c ∷ s) = false

-- My channel, the channels that the peers announced, and the directory.
pub record ChanState : Type 0 where
  pub mine : Str
  pub peers : Dict Str
  pub dir : List Str

abbrev pub new : ChanState
new = record { mine = default_channel; peers = []; dir = default_channel ∷ [] }

abbrev pub set_dir : ChanState → List Str → ChanState
set_dir c names = record c { dir = names }

abbrev pub set_mine : ChanState → Str → ChanState
set_mine c name = record c { mine = name }

abbrev pub set_peer : ChanState → Str → Str → ChanState
set_peer c peer name = record c { peers = insert peer name c.peers }

abbrev pub remove_peer : ChanState → Str → ChanState
remove_peer c peer = record c { peers = remove peer c.peers }

abbrev pub or_default_channel : Option Str → Str
or_default_channel none = default_channel
or_default_channel (some name) = name

module _ (u : Unicode) where
  unfoldable pub canon_channel : Str → Str
  canon_channel s = u.to_lowercase (u.trim s)

  -- `iter().any(|d| canon_channel(d) == canon)`.
  abbrev pub listed : Str → List Str → Bool
  listed canon dir = any (λ d. str_eq (canon_channel d) canon) dir

  -- A blank name, or one that the directory has.
  abbrev pub skips : List Str → Str → Bool
  skips dir name = is_empty (canon_channel name) || listed (canon_channel name) dir

  -- The names that are left when the directory is full are not looked at.
  unfoldable pub merge_channels : List Str → List Str → List Str × Bool
  merge_channels dir [] = (dir, false)
  merge_channels dir (name ∷ add) =
      let skip = skips dir name in
      let rest = merge_channels (if skip then dir else dir ++ name ∷ []) add in
      if leb max_channels (length dir) then (dir, false) else (rest.0, not skip || rest.1)

  unfoldable pub tombstone_allowed : Str → List Str → List Str → Bool
  tombstone_allowed canon known removed = listed canon known && ltb (length removed) max_tombstones

  unfoldable pub remove_from_dir : List Str → Str → List Str × Bool
  remove_from_dir dir canon =
      let kept = filter (λ d. not (str_eq (canon_channel d) canon)) dir in
      (kept, not (length kept == length dir))

  unfoldable pub channel_in_use : Str → Str → Members → Bool
  channel_in_use canon my_channel members =
      str_eq (canon_channel my_channel) canon
      || any (λ m. str_eq (canon_channel m.channel) canon) (values members)

  unfoldable pub hears : ChanState → Str → Bool
  hears c peer =
      str_eq (canon_channel c.mine) (canon_channel (or_default_channel (get peer c.peers)))
