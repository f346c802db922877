-- ===== src/Server/Brokering.antt =====
-- server/init/src/main.rs: the requests that make and join a session, and the sweep of each minute.
-- A request is one step on the sessions and the limiter's table. Headers are read by the HTTP
-- library: what a request is here is the text of `x-forwarded-for`, where it is visible ASCII, and the
-- peer's address.
pub mod ClientIp
pub mod Invites
pub mod Guesses
mod Tests
use rdoc_squad_link_lite.Base.{
  ℕ, Bool, true, false, not, ◌||◌, List, [], ◌∷◌, ◌++◌, map, Option, none, some, Str, lit, ◌==◌,
  if◌then◌else◌, Dict, get,
}
use rdoc_squad_link_lite.Sessions.{
  Session, JoinResult, joined, not_found, locked, bad_pin, create, join_at, reap,
}
use rdoc_squad_link_lite.Server.RateLimit.{
  Entry, allow, prune, rl_window, rl_join_max, rl_create_max,
}
use rdoc_squad_link_lite.Server.Relay.{len_ok}

abbrev pub max_code : ℕ
max_code = 32

abbrev pub max_pin : ℕ
max_pin = 12

-- `SocketAddr`: whether its address is the loopback one, and the address as text.
pub record Peer : Type 0 where
  pub loopback : Bool
  pub ip : Str

pub record Request : Type 0 where
  pub forwarded : Option Str
  pub peer : Peer

abbrev pub onto_first : ℕ → List Str → List Str
onto_first c [] = (c ∷ []) ∷ []
onto_first c (piece ∷ pieces) = (c ∷ piece) ∷ pieces

unfoldable pub split : ℕ → Str → List Str
split sep [] = [] ∷ []
split sep (c ∷ s) = let rest = split sep s in if c == sep then [] ∷ rest else onto_first c rest

abbrev pub has_text : Str → Bool
has_text [] = false
has_text (c ∷ s) = true

abbrev pub or_this : Str → Option Str → Option Str
or_this s none = if has_text s then some s else none
or_this s (some found) = some found

-- `rfind(|s| !s.is_empty())`.
unfoldable pub rfind_non_empty : List Str → Option Str
rfind_non_empty [] = none
rfind_non_empty (s ∷ ss) = or_this s (rfind_non_empty ss)

abbrev pub last_hop : (Str → Str) → Option Str → Option Str
last_hop trim none = none
last_hop trim (some v) = rfind_non_empty (map trim (split b',' v))

abbrev pub unwrap_or : Str → Option Str → Str
unwrap_or d none = d
unwrap_or d (some s) = s

unfoldable pub client_ip : (Str → Str) → Request → Str
client_ip trim req =
    if req.peer.loopback then unwrap_or req.peer.ip (last_hop trim req.forwarded) else req.peer.ip

-- The trimming of text, `auth.token_for`, `public_base` and `public_ws`.
pub record Site : Type 0 where
  pub trim : Str → Str
  pub auth_token_for : Str → Option Str
  pub base : Str
  pub ws : Str

-- The fields of the state that these handlers share: `sessions` and `rate`.
pub record Broker : Type 0 where
  pub sessions : Dict Session
  pub rate : Dict Entry

-- The bodies, each with its fields in the source's order.
pub data Response : Type 0 where
  session_created : Str → Str → Str → Option Str → Str → Str → Response
  session_joined : Str → Option Str → Str → Response
  rate_limited no_session session_locked wrong_pin : Response

abbrev pub status : Response → ℕ
status (session_created code pin room token ws link) = 200
status (session_joined room token ws) = 200
status rate_limited = 429
status no_session = 404
status session_locked = 429
status wrong_pin = 403

abbrev pub created_response :
    Site
    → Dict Entry
    → Option ((Str × Str × Str × Option Str) × Dict Session)
    → Option (Broker × Response)
created_response site rate none = none
created_response site rate (some ((code, pin, room, token), sessions)) = some (
  record { sessions = sessions; rate = rate },
  session_created code pin room token site.ws (site.base ++ lit "/j/" ++ code),
)

-- `now` is the limiter's clock, `t` that of the sessions; `hex`, `n` and `draws` are what is drawn.
unfoldable pub create_session :
    Site → Str → ℕ → List Str → ℕ → ℕ → Request → Broker → Option (Broker × Response)
create_session site hex n draws now t req b =
    let (rate, ok) = allow now (client_ip site.trim req) rl_create_max rl_window b.rate in
    if ok
    then created_response site rate (create site.auth_token_for hex n draws t b.sessions)
    else some (record b { rate = rate }, rate_limited)

-- `body.get("pin").and_then(|v| v.as_str()).unwrap_or("")` is `unwrap_or [] pin`.
abbrev pub join_response : Site → JoinResult → Response
join_response site (joined room token) = session_joined room token site.ws
join_response site not_found = no_session
join_response site locked = session_locked
join_response site bad_pin = wrong_pin

abbrev pub bounded_join : Site → Str → Str → ℕ → Broker → Broker × Response
bounded_join site code pin t b =
    if not (len_ok code max_code) || not (len_ok pin max_pin)
    then (b, no_session)
    else (let (sessions, r) = join_at b.sessions code pin t in
        (record b { sessions = sessions }, join_response site r))

unfoldable pub join_session : Site → Str → Option Str → ℕ → ℕ → Request → Broker → Broker × Response
join_session site code pin now t req b =
    let (rate, ok) = allow now (client_ip site.trim req) rl_join_max rl_window b.rate in
    if ok
    then bounded_join site code (unwrap_or [] pin) t (record b { rate = rate })
    else (record b { rate = rate }, rate_limited)

-- A tick of the task that sweeps, with the rooms of the relay as they are.
abbrev pub room_nonempty : {A : Type 0} → Dict (List A) → Str → Bool
room_nonempty rooms room = elim (get room rooms) [
  | none ↦ false
  | some [] ↦ false
  | some (p ∷ ps) ↦ true
]

unfoldable pub sweep_tick : {A : Type 0} → Dict (List A) → ℕ → ℕ → Broker → Broker
sweep_tick rooms now t b = record {
  sessions = reap (room_nonempty rooms) t b.sessions;
  rate = prune now rl_window b.rate;
}
