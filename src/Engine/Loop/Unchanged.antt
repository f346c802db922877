-- ===== src/Engine/Loop/Unchanged.antt =====
-- The arms of the loop that leave the channels and the connection as they are.
use rdoc_squad_link_lite.Base.{
  ℕ, ◌≡◌, refl, ◌∙◌, Bool, true, not, ◌&&◌, ◌||◌, List, [], ◌∷◌, Option, none, some, Str, is_some,
  remove, insert, saturating_add_u32, get, Bool-cases, Option-cases, inl, inr,
}
use rdoc_squad_link_lite.Protocol.{PeerInfo, TurnCreds}
use rdoc_squad_link_lite.Protocol.ToClient
use rdoc_squad_link_lite.Protocol.ToClient.{ServerMsg}
use rdoc_squad_link_lite.Crypto.RoomAudio.{generation}
use rdoc_squad_link_lite.Engine.Member.{Member}
use rdoc_squad_link_lite.Engine.Channels.{remove_peer}
use rdoc_squad_link_lite.Engine.Watchdog.{departed, terminal_error_text}
use rdoc_squad_link_lite.Mesh.Links
use rdoc_squad_link_lite.Mesh.Links.{on_left, on_peer}
use rdoc_squad_link_lite.Engine.Loop.{
  Config, Libraries, Turn, Loop, rotate_if, rotate_keys, i_am_authority,
}
use rdoc_squad_link_lite.Engine.Loop.Signals.{
  drop_departed, refresh, meet_each, shut_down, is_nil, on_signal, on_roster, on_peer_joined,
  on_peer_left, on_ptt, on_rekey, on_turn, on_error, new_member,
}
use rdoc_squad_link_lite.Engine.Loop.Events.{on_link, changed_link}

-- The part of the state that is about the channels and the connection.
pub record View : Type 0 where
  pub my_channel : Str
  pub known : List Str
  pub removed : List Str
  pub mine : Str
  pub dir : List Str
  pub cur_in : Bool
  pub cur_out : Bool
  pub next_try : Option ℕ
  pub backoff : ℕ

abbrev pub view : Loop → View
view l = record {
  my_channel = l.my_channel;
  known = l.known_channels;
  removed = l.removed_channels;
  mine = l.chan.mine;
  dir = l.chan.dir;
  cur_in = l.cur_in;
  cur_out = l.cur_out;
  next_try = l.next_try;
  backoff = l.backoff;
}

module _ (cfg : Config) (libs : Libraries) where
  rotate_if-view :
      (due : Bool) (fresh : Str) (l : Loop) → view (rotate_if cfg libs due fresh l).0 ≡ view l
  unfolding rotate_if rotate_keys
  rotate_if-view due fresh l = elim (Bool-cases (due && i_am_authority cfg l)) [
    | inl e ↦ rw e refl
    | inr e ↦ rw e refl
  ]

drop_departed-view : (l : Loop) (ids : List Str) → view (drop_departed l ids).0 ≡ view l
unfolding drop_departed
drop_departed-view l [] = refl
drop_departed-view l (id ∷ ids) =
    drop_departed-view
      (record l {
        members = remove id l.members;
        chan = remove_peer l.chan id;
        mesh = (on_left l.mesh id).0;
      })
      ids

module _ (cfg : Config) (libs : Libraries) (t : Turn) where
  on_roster-view :
      (l : Loop) (peers : List PeerInfo) → view (on_roster cfg libs t l peers).loop ≡ view l
  unfolding on_roster
  on_roster-view l peers =
      let gone = departed l.members peers in
      let l1 = (drop_departed l gone).0 in
      let l2 = record l1 { members = refresh t.now l1 peers l1.members [] } in
      let l3 = record l2 { mesh = (meet_each t.webrtc l2.mesh peers).0 } in
      rotate_if-view cfg libs (not (is_nil gone)) t.fresh l3 ∙ drop_departed-view l gone

  on_turn-view : (l : Loop) (creds : TurnCreds) → view (on_turn cfg libs t l creds).loop ≡ view l
  unfolding on_turn
  on_turn-view l creds = elim (Bool-cases cfg.relay_enabled) [
    | inl e ↦ rw e refl
    | inr e ↦ rw e refl
  ]

  on_error-view :
      (l : Loop) (code message : Str) → view (on_error cfg libs t l code message).loop ≡ view l
  unfolding on_error shut_down
  on_error-view l code message = elim (Option-cases (terminal_error_text code)) [
    | inl e ↦ rw (on_error, e) refl
    | inr (text, e) ↦ rw (on_error, e) refl
  ]

  -- No message of the server changes them.
  pub on_signal-view :
      (l : Loop) (msg : ServerMsg) → view (on_signal cfg libs t l msg).loop ≡ view l
  unfolding on_signal on_peer_joined on_peer_left on_ptt on_rekey shut_down
  on_signal-view l (ToClient.roster peers) = on_roster-view l peers
  on_signal-view l (ToClient.peer_joined id name) =
      rotate_if-view cfg libs (is_some (generation l.keys.room)) t.fresh (record l {
        members = insert id (new_member t.now l id name) l.members;
        mesh = (on_peer t.webrtc l.mesh id).mesh;
      })
  on_signal-view l (ToClient.peer_left id) = rotate_if-view cfg libs true t.fresh (record l {
    members = remove id l.members;
    chan = remove_peer l.chan id;
    mesh = (on_left l.mesh id).0;
  })
  on_signal-view l (ToClient.offer from sdp) = refl
  on_signal-view l (ToClient.answer from sdp) = refl
  on_signal-view l (ToClient.ice from candidate) = refl
  on_signal-view l (ToClient.ptt id active) = refl
  on_signal-view l (ToClient.rekey by) = rotate_if-view cfg libs true t.fresh (record l {
    mesh = (Links.rekey t.webrtc l.mesh).mesh;
    key_gen = saturating_add_u32 l.key_gen 1;
  })
  on_signal-view l (ToClient.turn creds) = on_turn-view l creds
  on_signal-view l (ToClient.warn size full) = refl
  on_signal-view l (ToClient.room_full full) = refl
  on_signal-view l (ToClient.error code message) = on_error-view l code message

  pub on_link-view :
      (l : Loop) (peer : Str) (up : Bool) → view (on_link cfg libs t l peer up).loop ≡ view l
  unfolding on_link
  on_link-view l peer up = changed (get peer l.members)
    where
      changed : (o : Option Member) → view (changed_link cfg libs t l up peer o).loop ≡ view l
      changed none = refl
      changed (some m) = elim (Bool-cases up) [
        | inl e ↦ rw e refl
        | inr e ↦ elim (Bool-cases (m.linked || not (is_some m.down_since))) [
          | inl f ↦ rw (e, f) refl
          | inr f ↦ rw (e, f) refl
        ]
      ]
