-- ===== src/Engine/Loop/Commands/Tombstones.antt =====
-- How many channels the loop keeps as removed.
use rdoc_squad_link_lite.Base.{suc, max, ◌≤◌, ◌≡◌, ap, Bool, List, Str, length, arith}
use rdoc_squad_link_lite.Engine.Messages
use rdoc_squad_link_lite.Engine.Messages.{MeshEvent}
use rdoc_squad_link_lite.Engine.Channels.{canon_channel, tombstone_allowed, max_tombstones}
use rdoc_squad_link_lite.Engine.Loop.{Config, Libraries, Turn, Loop}
use rdoc_squad_link_lite.Engine.Loop.Events.{
  on_event, on_link, on_secured, on_key, on_gen, on_peer_channels, on_peer_channel_removed, strike,
  set_insert,
}
use rdoc_squad_link_lite.Engine.Loop.Unchanged.{on_link-view}

length-set_insert-le : (x : Str) (set : List Str) → length (set_insert x set).0 ≤ suc (length set)
unfolding set_insert
length-set_insert-le x set = ground arith

module _ (cfg : Config) (libs : Libraries) (t : Turn) where
  removed_by_peer :
      (l : Loop) (name : Str)
      → length (on_peer_channel_removed cfg libs t l name).loop.removed_channels
        ≤ max (length l.removed_channels) max_tombstones
  unfolding on_peer_channel_removed strike tombstone_allowed
  removed_by_peer l name =
      ground (arith, length-set_insert-le (canon_channel libs.unicode name) l.removed_channels)

  kept_by_link :
      (l : Loop) (peer : Str) (up : Bool)
      → (on_link cfg libs t l peer up).loop.removed_channels ≡ l.removed_channels
  kept_by_link l peer up = ap (λ v. v.removed) (on_link-view cfg libs t l peer up)

  kept_by_names :
      (l : Loop) (names : List Str)
      → (on_peer_channels cfg libs t l names).loop.removed_channels ≡ l.removed_channels
  unfolding on_peer_channels
  kept_by_names l names = ground arith

  -- Whatever event comes from the mesh, the channels kept as removed are not more after it than the
  -- greater of max_tombstones and their number before it.
  pub on_event-max_tombstones :
      (l : Loop) (ev : MeshEvent)
      → length (on_event cfg libs t l ev).loop.removed_channels
        ≤ max (length l.removed_channels) max_tombstones
  unfolding on_event on_secured on_key on_gen
  on_event-max_tombstones l (Messages.chat from text) = omega arith
  on_event-max_tombstones l (Messages.badge peer badge) = omega arith
  on_event-max_tombstones l (Messages.link peer up) = rw (kept_by_link l peer up) (omega arith)
  on_event-max_tombstones l (Messages.peer_channel peer name) = omega arith
  on_event-max_tombstones l (Messages.peer_channels names) =
      rw (kept_by_names l names) (omega arith)
  on_event-max_tombstones l (Messages.peer_channel_removed name) = removed_by_peer l name
  on_event-max_tombstones l (Messages.secure peer fingerprint) = omega arith
  on_event-max_tombstones l (Messages.room_key from gen key) = omega arith
  on_event-max_tombstones l (Messages.room_gen from gen) = omega arith
