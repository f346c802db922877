-- ===== src/Engine/Loop/Signals.antt =====
-- The arm of the loop for the messages of the server.
pub mod Departures
use rdoc_squad_link_lite.Base.{
  ℕ, Bool, true, false, not, ◌&&◌, ◌||◌, List, [], ◌∷◌, ◌++◌, Option, none, some, Str, lit, Dict,
  get, insert, remove, is_some, if◌then◌else◌, saturating_add_u32,
}
use rdoc_squad_link_lite.Base.Decimal.{decimal}
use rdoc_squad_link_lite.Protocol.{PeerInfo, TurnCreds}
use rdoc_squad_link_lite.Protocol.ToClient
use rdoc_squad_link_lite.Protocol.ToClient.{ServerMsg}
use rdoc_squad_link_lite.Crypto.RoomAudio.{generation}
use rdoc_squad_link_lite.Engine.Member
use rdoc_squad_link_lite.Engine.Member.{Member, Members}
use rdoc_squad_link_lite.Engine.Messages
use rdoc_squad_link_lite.Engine.Channels.{ChanState, remove_peer, or_default_channel, hears}
use rdoc_squad_link_lite.Engine.Watchdog.{departed, terminal_error_text}
use rdoc_squad_link_lite.Mesh
use rdoc_squad_link_lite.Mesh.{Mesh, Effect}
use rdoc_squad_link_lite.Mesh.Links
use rdoc_squad_link_lite.Mesh.Links.{
  Webrtc, on_peer, on_left, on_offer, on_answer, on_ice, close_all,
}
use rdoc_squad_link_lite.Engine.Loop.{
  Config, Libraries, Turn, Loop, Step, Output, ui, click, continue, emit_roster, mesh_out, update,
  has_session, rotate_if,
}

abbrev pub log : Str → Output
log text = ui (Messages.log text)

abbrev pub with_mesh : Loop → Mesh × List Effect → Loop × List Output
with_mesh l (mesh, effects) = (record l { mesh = mesh }, mesh_out effects)

-- A method whose `Result` the loop ignores.
abbrev pub ignored : Mesh.Outcome → Mesh × List Effect
ignored r = (r.mesh, r.effects)

unfoldable pub drop_departed : Loop → List Str → Loop × List Output
drop_departed l [] = (l, [])
drop_departed l (id ∷ ids) =
    let (mesh, effects) = on_left l.mesh id in
    let l' = record l {
      members = remove id l.members;
      chan = remove_peer l.chan id;
      mesh = mesh;
    } in
    let (l'', later) = drop_departed l' ids in (l'', mesh_out effects ++ later)

-- The channel that the peer announced, if it did.
abbrev pub new_member : ℕ → Loop → Str → Str → Member
new_member now l id name =
    Member.new name (or_default_channel (get id l.chan.peers)) (has_session l id) now

abbrev pub refreshed : ℕ → Loop → PeerInfo → Option Member → Member
refreshed now l p none = new_member now l p.user_id p.name
refreshed now l p (some old) = record old {
  name = p.name;
  secure = has_session l p.user_id;
  fingerprint = if has_session l p.user_id then old.fingerprint else none;
}

-- The members of the fresh roster; each one that was there before is taken over once.
unfoldable pub refresh : ℕ → Loop → List PeerInfo → Members → Members → Members
refresh now l [] old fresh = fresh
refresh now l (p ∷ peers) old fresh =
    refresh now l peers (remove p.user_id old)
      (insert p.user_id (refreshed now l p (get p.user_id old)) fresh)

unfoldable pub meet_each : Webrtc → Mesh → List PeerInfo → Mesh × List Effect
meet_each w m [] = (m, [])
meet_each w m (p ∷ peers) =
    let r = on_peer w m p.user_id in
    let (m', later) = meet_each w r.mesh peers in (m', r.effects ++ later)

abbrev pub is_nil : List Str → Bool
is_nil [] = true
is_nil (x ∷ xs) = false

abbrev pub speaks : Option Member → Bool
speaks none = false
speaks (some m) = m.speaking

-- The end of a session that the server refuses.
unfoldable pub shut_down : Loop → Str → Step
shut_down l text =
    let (mesh, closed) = close_all l.mesh in
    record {
      loop = record l { mesh = mesh };
      out = log text ∷ (mesh_out closed ++ ui (Messages.status false false) ∷ []);
      goes_on = false;
    }

module _ (cfg : Config) (libs : Libraries) (t : Turn) where
  unfoldable pub on_roster : Loop → List PeerInfo → Step
  on_roster l peers =
      let gone = departed l.members peers in
      let (l1, left) = drop_departed l gone in
      let l2 = record l1 { members = refresh t.now l1 peers l1.members [] } in
      let (mesh, met) = meet_each t.webrtc l2.mesh peers in
      let l3 = record l2 { mesh = mesh } in
      let (l4, rotated) = rotate_if cfg libs (not (is_nil gone)) t.fresh l3 in
      continue l4 (left ++ (mesh_out met ++ (emit_roster cfg l3 ∷ rotated)))

  unfoldable pub on_peer_joined : Loop → Str → Str → Step
  on_peer_joined l id name =
      let l1 = record l { members = insert id (new_member t.now l id name) l.members } in
      let r = on_peer t.webrtc l1.mesh id in
      let l2 = record l1 { mesh = r.mesh } in
      let (l3, rotated) = rotate_if cfg libs (is_some (generation l2.keys.room)) t.fresh l2 in
      continue l3 (mesh_out r.effects ++ (emit_roster cfg l2 ∷ rotated))

  unfoldable pub on_peer_left : Loop → Str → Step
  on_peer_left l id =
      let (mesh, closed) = on_left l.mesh id in
      let l1 = record l {
        members = remove id l.members;
        chan = remove_peer l.chan id;
        mesh = mesh;
      } in
      let (l2, rotated) = rotate_if cfg libs true t.fresh l1 in
      continue l2 (mesh_out closed ++ (emit_roster cfg l1 ∷ rotated))

  unfoldable pub on_ptt : Loop → Str → Bool → Step
  on_ptt l id active =
      let was = speaks (get id l.members) in
      let l' = record l { members = update id (λ m. record m { speaking = active }) l.members } in
      let clicks = if active && (not was && hears libs.unicode l.chan id) then click ∷ [] else [] in
      continue l' (clicks ++ emit_roster cfg l' ∷ [])

  unfoldable pub on_rekey : Loop → Str → Step
  on_rekey l by =
      let r = Links.rekey t.webrtc l.mesh in
      let l1 = record l { mesh = r.mesh; key_gen = saturating_add_u32 l.key_gen 1 } in
      let (l2, rotated) = rotate_if cfg libs true t.fresh l1 in
      continue l2 (mesh_out r.effects ++ (ui (Messages.rekeyed l1.key_gen by) ∷ rotated))

  unfoldable pub on_turn : Loop → TurnCreds → Step
  on_turn l creds =
      if cfg.relay_enabled
      then continue
          (record l { mesh = Mesh.add_turn l.mesh creds.urls creds.username creds.credential }) []
      else continue l (log (lit "TURN-Relay angeboten, aber deaktiviert (nur direkt/STUN).") ∷ [])

  -- The dash and the umlaut are in UTF-8.
  abbrev pub warn_text : ℕ → ℕ → Str
  warn_text size full =
      lit "Room "
      ++ (decimal size
          ++ (lit "/"
              ++ (decimal full
                  ++ (32 ∷ 226 ∷ 128 ∷ 148 ∷ lit " Audioqualit"
                      ++ (195 ∷ 164 ∷ lit "t kann leiden")))))

  unfoldable pub on_error : Loop → Str → Str → Step
  on_error l code message = elim (terminal_error_text code) [
    | some text ↦ shut_down l (text ++ (lit " (" ++ (code ++ (lit ": " ++ (message ++ lit ")")))))
    | none ↦ continue l (log (code ++ (lit ": " ++ message)) ∷ [])
  ]

  abbrev pub on_links : Loop → Mesh.Outcome → Step
  on_links l r = continue (record l { mesh = r.mesh }) (mesh_out r.effects)

  unfoldable pub on_signal : Loop → ServerMsg → Step
  on_signal l (ToClient.roster peers) = on_roster l peers
  on_signal l (ToClient.peer_joined id name) = on_peer_joined l id name
  on_signal l (ToClient.peer_left id) = on_peer_left l id
  on_signal l (ToClient.offer from sdp) = on_links l (on_offer t.webrtc l.mesh from sdp)
  on_signal l (ToClient.answer from sdp) = on_links l (on_answer t.webrtc l.mesh from sdp)
  on_signal l (ToClient.ice from candidate) = on_links l (on_ice t.webrtc l.mesh from candidate)
  on_signal l (ToClient.ptt id active) = on_ptt l id active
  on_signal l (ToClient.rekey by) = on_rekey l by
  on_signal l (ToClient.turn creds) = on_turn l creds
  on_signal l (ToClient.warn size full) = continue l (log (warn_text size full) ∷ [])
  on_signal l (ToClient.room_full full) = shut_down l (lit "Room voll @ " ++ decimal full)
  on_signal l (ToClient.error code message) = on_error l code message
