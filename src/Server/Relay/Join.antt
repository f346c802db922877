-- ===== src/Server/Relay/Join.antt =====
-- The `Join` branch of `handle_socket`.
use rdoc_squad_link_lite.Base.{
  ℕ, Bool, true, false, not, ◌&&◌, ◌||◌, List, [], ◌∷◌, ◌++◌, map, Option, none, some, Str, lit,
  str_eq, leb, ltb, ◌==◌, if◌then◌else◌, get, insert, remove, contains_key, length, is_some,
}
use rdoc_squad_link_lite.Protocol.{PeerInfo, protocol_version, err_id_in_use}
use rdoc_squad_link_lite.Protocol.ToClient.{error, roster, turn, peer_joined, room_full, warn}
use rdoc_squad_link_lite.Server.Auth.{AuthConfig, check}
use rdoc_squad_link_lite.Server.Turn.{TurnConfig, mint}
use rdoc_squad_link_lite.Server.Relay.{
  AppState, Socket, PeerHandle, Room, Send, Step, continue, break, to_all, to_others, or_default,
  len_ok, max_id, max_name, max_token, max_secret, hard_cap, warn_cap, protocol_mismatch_error,
}

-- The configuration that the sockets share, and the MACs.
pub record Config : Type 0 where
  pub auth : AuthConfig
  pub turn_config : Option TurnConfig
  pub hmac_hex : Str → Str → Str
  pub hmac_base64 : Str → Str → Str

abbrev pub superseded : Option PeerHandle → List Send
superseded none = []
superseded (some old) =
    (old.tx, error (lit "superseded") (lit "joined from another connection")) ∷ []

abbrev pub roster_of : Room → List PeerInfo
roster_of r = map (λ e. record { user_id = e.0; name = e.1.name }) r

abbrev pub warning : Room → List Send
warning r = if leb warn_cap (length r) then to_all r (warn (length r) warn_cap) else []

abbrev pub turn_creds : Config → ℕ → Str → ℕ → List Send
turn_creds cfg now_secs user_id tx = elim cfg.turn_config [
  | none ↦ []
  | some t ↦ (tx, turn (mint cfg.hmac_base64 t now_secs user_id)) ∷ []
]

-- `r` is the room with the superseded handle `old` still in it.
unfoldable pub admit :
    Config → ℕ → AppState → Socket → Room → Option PeerHandle → Str → Str → Str → Str → Step
admit cfg now_secs s k r old room user_id name secret =
    let others = remove user_id r in
    let r' = insert user_id (record { name = name; tx = k.tx; secret = secret }) others in
    continue (record s { rooms = insert room r' s.rooms }) (record k { me = some (room, user_id) })
      (superseded old
        ++ to_others user_id r' (peer_joined user_id name)
        ++ (k.tx, roster (roster_of others)) ∷ warning r'
        ++ turn_creds cfg now_secs user_id k.tx)

abbrev pub may_take_over : Str → Option PeerHandle → Bool
may_take_over secret none = true
may_take_over secret (some old) = str_eq old.secret secret

-- From the cap check on, with the room's entry made if there is none.
unfoldable pub enter : Config → ℕ → AppState → Socket → Str → Str → Str → Str → Step
unfolding admit
enter cfg now_secs s k room user_id name secret =
    let r = or_default (get room s.rooms) in
    let made = record s { rooms = insert room r s.rooms } in
    if leb hard_cap (length r) && not (contains_key user_id r)
    then break made k ((k.tx, room_full hard_cap) ∷ [])
    else if not (may_take_over secret (get user_id r))
    then break made k ((k.tx, error err_id_in_use (lit "user_id already taken in this room")) ∷ [])
    else admit cfg now_secs s k r (get user_id r) room user_id name secret

abbrev pub token_too_long : Option Str → Bool
token_too_long none = false
token_too_long (some t) = ltb max_token (length t)

abbrev pub bad_input : Str → Str → Str → Option Str → Str → Bool
bad_input room user_id name token secret =
    not (len_ok room max_id)
    || (not (len_ok user_id max_id)
        || (not (len_ok name max_name) || (token_too_long token || not (len_ok secret max_secret))))

unfoldable pub on_join :
    Config → ℕ → AppState → Socket → ℕ → Str → Str → Str → Option Str → Str → Step
unfolding enter check
on_join cfg now_secs s k proto room user_id name token secret =
    if is_some k.me
    then continue s k
        ((k.tx, error (lit "already_joined") (lit "this socket already joined a room")) ∷ [])
    else if not (proto == protocol_version)
    then break s k ((k.tx, protocol_mismatch_error (some proto)) ∷ [])
    else if bad_input room user_id name token secret
    then break s k ((k.tx, error (lit "bad_input") (lit "field empty or too long")) ∷ [])
    else if not (check cfg.hmac_hex cfg.auth room token)
    then break s k ((k.tx, error (lit "bad_token") (lit "invalid room token")) ∷ [])
    else enter cfg now_secs s k room user_id name secret
