-- ===== src/Engine/Loop/Commands.antt =====
-- The arm of the loop for the commands of the user, and the promotion of a key after its grace.
pub mod Tombstones
use rdoc_squad_link_lite.Base.{
  ℕ, Bool, true, false, not, ◌&&◌, ◌||◌, List, [], ◌∷◌, ◌++◌, Option, none, some, Str, str_eq,
  filter, if◌then◌else◌,
}
use rdoc_squad_link_lite.Protocol.ToServer
use rdoc_squad_link_lite.Protocol.ToServer.{ClientMsg}
use rdoc_squad_link_lite.Crypto.RoomAudio.{gen_of, promote}
use rdoc_squad_link_lite.Engine.Messages
use rdoc_squad_link_lite.Engine.Messages.{Cmd}
use rdoc_squad_link_lite.Engine.Channels.{
  canon_channel, merge_channels, set_dir, set_mine, default_channel, is_empty,
}
use rdoc_squad_link_lite.Mesh.Ctrl.{max_channel_len}
use rdoc_squad_link_lite.Mesh.Links.{close_all}
use rdoc_squad_link_lite.Mesh.Sending.{broadcast_chat, broadcast_channel, broadcast_channels}
use rdoc_squad_link_lite.Engine.Loop.{
  Config, Libraries, Turn, Loop, Step, Output, ui, to_server, click, continue, emit_roster,
  mesh_out, i_am_authority,
}
use rdoc_squad_link_lite.Engine.Loop.Events.{set_insert, keeps_channel, strike}

-- To the server, while it is connected.
abbrev pub up : Loop → ClientMsg → List Output
up l msg = if l.cur_out then to_server msg ∷ [] else []

abbrev pub or_default : Str → Str
or_default name = if is_empty name then default_channel else name

-- `HashSet::remove`.
abbrev pub set_remove : Str → List Str → List Str
set_remove x set = filter (λ y. not (str_eq y x)) set

module _ (cfg : Config) (libs : Libraries) (t : Turn) where
  unfoldable pub set_tx : Loop → Bool → Step
  set_tx l on =
      let l' = record l { transmit = on } in
      continue l' (
        (if on then click ∷ [] else [])
        ++ (up l (ToServer.ptt on) ++ (ui (Messages.status true on) ∷ emit_roster cfg l' ∷ [])))

  abbrev pub same_bool : Bool → Bool → Bool
  same_bool true b = b
  same_bool false b = not b

  unfoldable pub set_channel : Loop → Str → Step
  set_channel l name =
      let u = libs.unicode in
      let chosen = or_default (libs.codec.take_chars max_channel_len (u.trim name)) in
      let (known, grew) = merge_channels u l.known_channels (chosen ∷ []) in
      let l1 = record l {
        my_channel = chosen;
        chan = set_mine l.chan chosen;
        removed_channels = set_remove (canon_channel u chosen) l.removed_channels;
      } in
      let l2 =
        if grew then record l1 { known_channels = known; chan = set_dir l1.chan known } else l1 in
      continue l2 (
        mesh_out (broadcast_channel libs.codec l.mesh chosen)
        ++ ((if grew then mesh_out (broadcast_channels libs.codec l.mesh known) else [])
            ++ (ui (Messages.channel chosen) ∷ emit_roster cfg l2 ∷ [])))

  unfoldable pub remove_channel : Loop → Str → Step
  remove_channel l name =
      let canon = canon_channel libs.unicode name in
      if keeps_channel cfg libs t l canon
      then continue l []
      else strike cfg libs t l canon (set_insert canon l.removed_channels).0

  -- `wall` is the time of day in seconds.
  unfoldable pub on_cmd : ℕ → Loop → Cmd → Step
  on_cmd wall l Messages.toggle_tx = set_tx l (not l.transmit)
  on_cmd wall l (Messages.set_tx on) =
      if same_bool l.transmit on then continue l [] else set_tx l on
  on_cmd wall l (Messages.chat text) =
      let (mesh, sent) = broadcast_chat libs.crypto libs.codec wall l.mesh text in
      continue (record l { mesh = mesh }) (mesh_out sent ++ ui (Messages.chat cfg.name text) ∷ [])
  on_cmd wall l Messages.rekey = continue l (up l ToServer.rekey)
  on_cmd wall l Messages.reconnect =
      if l.cur_in
      then continue l []
      else continue (record l { backoff = 2; next_try = some t.now }) []
  on_cmd wall l (Messages.set_channel name) = set_channel l name
  on_cmd wall l (Messages.remove_channel name) = remove_channel l name

  -- `None` from the channel of commands: the engine was dropped.
  unfoldable pub on_dropped : Loop → Step
  on_dropped l =
      let (mesh, closed) = close_all l.mesh in
      record {
        loop = record l { mesh = mesh };
        out = up l ToServer.leave ++ (mesh_out closed ++ ui (Messages.status false false) ∷ []);
        goes_on = false;
      }

  unfoldable pub on_promote : Loop → ℕ → Step
  on_promote l g =
      let keys = record l.keys { room = promote l.keys.room g } in
      continue (record l { keys = keys })
        (ui (Messages.room_audio (gen_of keys.room.send) (i_am_authority cfg l)) ∷ [])
