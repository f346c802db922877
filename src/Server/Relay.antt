-- ===== src/Server/Relay.antt =====
-- server/init/src/main.rs: `handle_socket`, what the server does with each frame of a socket. A
-- message to a peer's channel is a value that the step returns: `Delivery` puts it in the queue.
-- JSON and its error texts, the clock (an `Instant` in nanoseconds) and the MACs are arguments.
pub mod Join
pub mod Frames
pub mod Invariant
pub mod Holders
pub mod Greeting
pub mod Queues
use rdoc_squad_link_lite.Base.{
  ℕ, ◌+◌, ◌-◌, ◌*◌, Bool, true, false, not, ◌&&◌, ◌||◌, List, [], ◌∷◌, ◌++◌, map, Option, none,
  some, Str, lit, str_eq, leb, ltb, ◌==◌, if◌then◌else◌, Dict, get, insert, remove, contains_key,
  values, length, is_some, filter,
}
use rdoc_squad_link_lite.Base.Decimal.{decimal}
use rdoc_squad_link_lite.Protocol.{protocol_version, err_protocol_mismatch}
use rdoc_squad_link_lite.Protocol.ToClient.{ServerMsg, error}

abbrev pub warn_cap : ℕ
warn_cap = 12

abbrev pub hard_cap : ℕ
hard_cap = 16

abbrev pub max_id : ℕ
max_id = 64

abbrev pub max_name : ℕ
max_name = 64

abbrev pub max_token : ℕ
max_token = 128

abbrev pub max_secret : ℕ
max_secret = 64

abbrev pub max_sdp : ℕ
max_sdp = 16 * 1024

abbrev pub max_ice : ℕ
max_ice = 4 * 1024

abbrev pub peer_chan : ℕ
peer_chan = 256

abbrev pub msg_rate_window : ℕ
msg_rate_window = 1000000000

abbrev pub msg_rate_max : ℕ
msg_rate_max = 50

abbrev pub rekey_cooldown : ℕ
rekey_cooldown = 5 * 1000000000

abbrev pub len_ok : Str → ℕ → Bool
len_ok s max = leb 1 (length s) && leb (length s) max

abbrev pub proto_text : Option ℕ → Str
proto_text none = lit "none"
proto_text (some p) = decimal p

abbrev pub protocol_mismatch_error : Option ℕ → ServerMsg
protocol_mismatch_error proto = error err_protocol_mismatch (
    lit "protocol "
    ++ proto_text proto
    ++ lit " not supported, server speaks "
    ++ decimal protocol_version
    ++ lit ": update subraum")

-- `tx` names the channel of the connection: no two sockets have the same.
pub record PeerHandle : Type 0 where
  pub name : Str
  pub tx : ℕ
  pub secret : Str

abbrev pub Room : Type 0
Room = Dict PeerHandle

-- What the sockets share: the rooms, and when a room last had a rekey.
pub record AppState : Type 0 where
  pub rooms : Dict Room
  pub rekeys : Dict ℕ

-- The locals of `handle_socket`: `me` is the room and the user id of a socket that has joined.
pub record Socket : Type 0 where
  pub tx : ℕ
  pub me : Option (Str × Str)
  pub win_start : ℕ
  pub win_count : ℕ

abbrev pub Send : Type 0
Send = ℕ × ServerMsg

-- After a frame: the loop goes on, or ends (`break`).
pub record Step : Type 0 where
  pub state : AppState
  pub socket : Socket
  pub sends : List Send
  pub goes_on : Bool

abbrev pub continue : AppState → Socket → List Send → Step
continue s k sends = record { state = s; socket = k; sends = sends; goes_on = true }

abbrev pub break : AppState → Socket → List Send → Step
break s k sends = record { state = s; socket = k; sends = sends; goes_on = false }

-- `try_send` to each handle of a room.
abbrev pub to_all : Room → ServerMsg → List Send
to_all r msg = map (λ h. (h.tx, msg)) (values r)

-- `try_send` to each handle but that of `user_id`.
unfoldable pub to_others : Str → Room → ServerMsg → List Send
to_others user_id [] msg = []
to_others user_id ((id, h) ∷ r) msg =
    let rest = to_others user_id r msg in if str_eq id user_id then rest else (h.tx, msg) ∷ rest

abbrev pub or_default : Option Room → Room
or_default none = []
or_default (some r) = r

-- `try_send` on the channels: a queue of 256 messages takes no more.
unfoldable pub try_send : (ℕ → List ServerMsg) → Send → ℕ → List ServerMsg
try_send queues (tx, msg) c =
    if c == tx
    then (if ltb (length (queues c)) peer_chan then queues c ++ msg ∷ [] else queues c)
    else queues c

unfoldable pub deliver : (ℕ → List ServerMsg) → List Send → ℕ → List ServerMsg
deliver queues [] = queues
deliver queues (m ∷ sends) = deliver (try_send queues m) sends
