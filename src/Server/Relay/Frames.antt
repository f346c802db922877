-- ===== src/Server/Relay/Frames.antt =====
-- The other branches of `handle_socket`, its loop body, and what follows the loop.
use rdoc_squad_link_lite.Base.{
  ℕ, ◌-◌, Bool, false, not, ◌&&◌, ◌||◌, List, [], ◌∷◌, Option, none, some, Str, lit, leb, ltb, ◌==◌,
  if◌then◌else◌, get, insert, remove, length, is_some, wrapping_add_u32,
}
use rdoc_squad_link_lite.Protocol.ToServer.{ClientMsg, join, offer, answer, ice, ptt, rekey, leave}
use rdoc_squad_link_lite.Protocol.ToClient
use rdoc_squad_link_lite.Protocol.ToClient.{ServerMsg, peer_left, error}
use rdoc_squad_link_lite.Server.Relay.{
  AppState, Socket, PeerHandle, Room, Send, Step, continue, break, to_all, to_others, len_ok,
  max_id, max_sdp, max_ice, protocol_mismatch_error, rekey_cooldown, msg_rate_window, msg_rate_max,
}
use rdoc_squad_link_lite.Server.Relay.Join.{Config, on_join}

abbrev pub to_peer : Option PeerHandle → ServerMsg → List Send
to_peer none msg = []
to_peer (some h) msg = (h.tx, msg) ∷ []

abbrev pub in_room : Option Room → (Room → List Send) → List Send
in_room none f = []
in_room (some r) f = f r

unfoldable pub relay_to : AppState → Option (Str × Str) → Str → (Str → ServerMsg) → List Send
relay_to s none to build = []
relay_to s (some (room, from)) to build =
    in_room (get room s.rooms) (λ r. to_peer (get to r) (build from))

unfoldable pub on_ptt : AppState → Option (Str × Str) → Bool → List Send
on_ptt s none active = []
on_ptt s (some (room, from)) active =
    in_room (get room s.rooms) (λ r. to_others from r (ToClient.ptt from active))

abbrev pub name_of : Option PeerHandle → Str
name_of none = []
name_of (some h) = h.name

abbrev pub cooling : ℕ → Option ℕ → Bool
cooling now none = false
cooling now (some t) = ltb (now - t) rekey_cooldown

unfoldable pub on_rekey : AppState → Option (Str × Str) → ℕ → AppState × List Send
on_rekey s none now = (s, [])
on_rekey s (some (room, from)) now = if cooling now (get room s.rekeys) then (s, []) else (
  record s { rekeys = insert room now s.rekeys },
  in_room (get room s.rooms) (λ r. to_all r (ToClient.rekey (name_of (get from r)))),
)

-- A frame that was read as `ClientMsg`.
unfoldable pub on_message : Config → ℕ → AppState → Socket → ℕ → ClientMsg → Step
unfolding on_join relay_to on_ptt on_rekey
on_message cfg now_secs s k now (join proto room user_id name token secret) =
    on_join cfg now_secs s k proto room user_id name token secret
on_message cfg now_secs s k now (offer to sdp) =
    if not (len_ok to max_id) || ltb max_sdp (length sdp)
    then continue s k []
    else continue s k (relay_to s k.me to (λ from. ToClient.offer from sdp))
on_message cfg now_secs s k now (answer to sdp) =
    if not (len_ok to max_id) || ltb max_sdp (length sdp)
    then continue s k []
    else continue s k (relay_to s k.me to (λ from. ToClient.answer from sdp))
on_message cfg now_secs s k now (ice to candidate) =
    if not (len_ok to max_id) || ltb max_ice (length candidate)
    then continue s k []
    else continue s k (relay_to s k.me to (λ from. ToClient.ice from candidate))
on_message cfg now_secs s k now (ptt active) = continue s k (on_ptt s k.me active)
on_message cfg now_secs s k now rekey = let (s', sends) = on_rekey s k.me now in continue s' k sends
on_message cfg now_secs s k now leave = break s k []

-- What `serde_json` makes of a text: a message, or an error's text and whether the text has
-- `"t":"join"`.
pub data Parsed : Type 0 where
  parsed : ClientMsg → Parsed
  failed : Str → Bool → Parsed

abbrev pub on_parsed : Config → ℕ → AppState → Socket → ℕ → Parsed → Step
on_parsed cfg now_secs s k now (parsed msg) = on_message cfg now_secs s k now msg
on_parsed cfg now_secs s k now (failed text is_join) =
    if not (is_some k.me) && is_join
    then break s k ((k.tx, protocol_mismatch_error none) ∷ [])
    else continue s k ((k.tx, error (lit "bad_json") text) ∷ [])

-- The rate limit of the socket: `now.duration_since` is 0 for an earlier instant.
unfoldable pub tick : Socket → ℕ → Socket × Bool
tick k now =
    let k' =
      if ltb msg_rate_window (now - k.win_start)
      then record k { win_start = now; win_count = 0 }
      else k in
    let n = wrapping_add_u32 k'.win_count 1 in (record k' { win_count = n }, leb n msg_rate_max)

-- A text frame.
unfoldable pub on_text : Config → (Str → Parsed) → ℕ → AppState → Socket → ℕ → Str → Step
unfolding tick on_message
on_text cfg parse now_secs s k now text =
    let (k', allowed) = tick k now in
    if allowed then on_parsed cfg now_secs s k' now (parse text) else continue s k' []

abbrev pub is_mine : ℕ → Option PeerHandle → Bool
is_mine tx none = false
is_mine tx (some h) = h.tx == tx

-- The room without the handle of the socket, and whether it is left empty.
abbrev pub left : AppState → Str → Room → Str → AppState × List Send
left s room r user_id =
    let r' = remove user_id r in
    let sends = to_all r' (peer_left user_id) in
    if length r' == 0
    then (record s { rooms = remove room s.rooms; rekeys = remove room s.rekeys }, sends)
    else (record s { rooms = insert room r' s.rooms }, sends)

unfoldable pub cleanup : AppState → Socket → AppState × List Send
cleanup s k = elim k.me [
  | none ↦ (s, [])
  | some (room, user_id) ↦ elim (get room s.rooms) [
    | none ↦ (s, [])
    | some r ↦ if is_mine k.tx (get user_id r) then left s room r user_id else (s, [])
  ]
]
