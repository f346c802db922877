-- ===== src/Engine/Loop/Events.antt =====
-- The arm of the loop for the events of the mesh.
use rdoc_squad_link_lite.Base.{
  ℕ, Bool, true, false, not, ◌||◌, List, [], ◌∷◌, ◌++◌, Option, none, some, Str, lit, str_eq, get,
  insert, is_some, any, filter, if◌then◌else◌,
}
use rdoc_squad_link_lite.Crypto.RoomAudio.{generation}
use rdoc_squad_link_lite.Engine.Member.{Member, secure_peer_ids}
use rdoc_squad_link_lite.Engine.Messages
use rdoc_squad_link_lite.Engine.Messages.{MeshEvent}
use rdoc_squad_link_lite.Engine.Coordinator.{KeyAction, on_secure, on_room_key, on_room_gen}
use rdoc_squad_link_lite.Engine.Channels.{
  canon_channel, merge_channels, remove_from_dir, set_dir, channel_in_use, tombstone_allowed,
  default_channel, is_empty,
}
use rdoc_squad_link_lite.Mesh.Sending.{broadcast_channels, broadcast_channel_removed}
use rdoc_squad_link_lite.Engine.Loop.{
  Config, Libraries, Turn, Loop, Step, Output, ui, continue, emit_roster, mesh_out, update,
  has_session, performed, i_am_authority,
}

abbrev pub contains : Str → List Str → Bool
contains x set = any (λ y. str_eq y x) set

-- `HashSet::insert`: the set, and whether it is new in it.
unfoldable pub set_insert : Str → List Str → List Str × Bool
set_insert x set = if contains x set then (set, false) else (x ∷ set, true)

abbrev pub shown_name : Str → Option Member → Str
shown_name id none = id
shown_name id (some m) = m.name

abbrev pub came_up : Bool → Member → Member
came_up secure m = record m {
  linked = true;
  secure = secure;
  down_since = none;
  last_relink = none;
  link_warned = false;
}

abbrev pub went_down : ℕ → Member → Member
went_down now m = record m {
  linked = false;
  badge = none;
  secure = false;
  fingerprint = none;
  down_since = some now;
}

abbrev pub back_text : Member → List Output
back_text m =
    if m.link_warned
    then ui (Messages.log (lit "Verbindung zu " ++ (m.name ++ lit " steht wieder."))) ∷ []
    else []

abbrev pub non_empty : Str → Option Str
non_empty [] = none
non_empty (c ∷ s) = some (c ∷ s)

abbrev pub is_nil : List KeyAction → Bool
is_nil [] = true
is_nil (a ∷ actions) = false

module _ (cfg : Config) (libs : Libraries) (t : Turn) where
  abbrev pub changed_link : Loop → Bool → Str → Option Member → Step
  changed_link l up peer none = continue l []
  changed_link l up peer (some m) =
      if up
      then (let l' = record l {
        members = insert peer (came_up (has_session l peer) m) l.members;
      } in
          continue l' (back_text m ++ emit_roster cfg l' ∷ []))
      else if m.linked || not (is_some m.down_since)
      then (let l' = record l { members = insert peer (went_down t.now m) l.members } in
          continue l' (emit_roster cfg l' ∷ []))
      else continue l (emit_roster cfg l ∷ [])

  unfoldable pub on_link : Loop → Str → Bool → Step
  on_link l peer up = changed_link l up peer (get peer l.members)

  unfoldable pub on_peer_channels : Loop → List Str → Step
  on_peer_channels l names =
      let fresh =
        filter (λ n. not (contains (canon_channel libs.unicode n) l.removed_channels)) names in
      let (known, grew) = merge_channels libs.unicode l.known_channels fresh in
      if grew
      then (let l' = record l { known_channels = known; chan = set_dir l.chan known } in
          continue l' (
            mesh_out (broadcast_channels libs.codec l.mesh known)
            ++ ui (Messages.channels known) ∷ []))
      else continue l []

  -- A channel that may not be removed: blank, the default one, or one that somebody is tuned to.
  abbrev pub keeps_channel : Loop → Str → Bool
  keeps_channel l canon =
      is_empty canon
      || (str_eq canon (canon_channel libs.unicode default_channel)
          || channel_in_use libs.unicode canon l.my_channel l.members)

  -- The name is struck from the directory and the others are told; `removed` has it already.
  unfoldable pub strike : Loop → Str → List Str → Step
  strike l canon removed =
      let known = (remove_from_dir libs.unicode l.known_channels canon).0 in
      let l' = record l {
        removed_channels = removed;
        known_channels = known;
        chan = set_dir l.chan known;
      } in
      continue l' (
        mesh_out (broadcast_channel_removed libs.codec l.mesh canon)
        ++ ui (Messages.channel_removed canon) ∷ [])

  unfoldable pub on_peer_channel_removed : Loop → Str → Step
  on_peer_channel_removed l name =
      let canon = canon_channel libs.unicode name in
      let (removed, new) = set_insert canon l.removed_channels in
      if keeps_channel l canon
        || (not (tombstone_allowed libs.unicode canon l.known_channels l.removed_channels)
            || not new)
      then continue l []
      else strike l canon removed

  unfoldable pub on_secured : Loop → Str → Str → Step
  on_secured l peer fingerprint =
      let f : Member → Member =
        λ m. record m { secure = true; fingerprint = non_empty fingerprint } in
      let l1 = record l { members = update peer f l.members } in
      let (l2, sent) = performed cfg libs l1 (on_secure l1.keys t.fresh peer l1.members) in
      continue l2 (
        emit_roster cfg l1
        ∷ (sent
            ++ (if i_am_authority cfg l1
                then ui (Messages.room_audio (generation l2.keys.room) true) ∷ []
                else [])))

  unfoldable pub on_key : Loop → Str → ℕ → Str → Step
  on_key l from gen key =
      let (keys, taken) = on_room_key l.keys from gen key l.members in
      continue (record l { keys = keys })
        (if taken
          then ui (Messages.room_audio (generation keys.room) (i_am_authority cfg l)) ∷ []
          else [])

  unfoldable pub on_gen : Loop → Str → ℕ → Step
  on_gen l from gen =
      let r =
        on_room_gen l.keys t.fresh from gen l.members (secure_peer_ids l.members (has_session l)) in
      let (l', sent) = performed cfg libs l r in
      continue l' (
        if is_nil r.1
        then []
        else sent ++ ui (Messages.room_audio (generation l'.keys.room) true) ∷ [])

  unfoldable pub on_event : Loop → MeshEvent → Step
  on_event l (Messages.chat from text) =
      continue l (ui (Messages.chat (shown_name from (get from l.members)) text) ∷ [])
  on_event l (Messages.badge peer badge) =
      let f : Member → Member = λ m. record m { badge = some badge } in
      let l' = record l { members = update peer f l.members } in
      continue l' (emit_roster cfg l' ∷ [])
  on_event l (Messages.link peer up) = on_link l peer up
  on_event l (Messages.peer_channel peer name) =
      let f : Member → Member = λ m. record m { channel = name } in
      let l' = record l { members = update peer f l.members } in
      continue l' (emit_roster cfg l' ∷ [])
  on_event l (Messages.peer_channels names) = on_peer_channels l names
  on_event l (Messages.peer_channel_removed name) = on_peer_channel_removed l name
  on_event l (Messages.secure peer fingerprint) = on_secured l peer fingerprint
  on_event l (Messages.room_key from gen key) = on_key l from gen key
  on_event l (Messages.room_gen from gen) = on_gen l from gen
