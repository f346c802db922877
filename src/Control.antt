-- ===== src/Control.antt =====
-- apps/companion/src-tauri/src/control.rs: the control server for controllers on this host. A message
-- of a connection is one step on the shared server and the state of the connection. JSON is an
-- argument (`Json`), and so are the random token and the sockets.
pub mod Gate
mod Tests
use rdoc_squad_link_lite.Base.{
  ℕ, Bool, true, false, ◌||◌, List, [], ◌∷◌, ◌++◌, map, Option, none, some, Str, lit, str_eq, ltb,
  leb, ◌==◌, if◌then◌else◌, length, filter, wrapping_add_u32,
}
use rdoc_squad_link_lite.ConstantTime.{ct_eq}

abbrev pub max_msg : ℕ
max_msg = 4096

abbrev pub max_auth_tries : ℕ
max_auth_tries = 3

-- Integers over the native numbers.
pub data ℤ : Type 0 where
  pos negsuc : ℕ → ℤ

-- `serde_json::Value` with the methods that are called on it.
pub record Json (V : Type 0) : Type 0 where
  pub from_str : Str → Option V
  pub get : V → Str → Option V
  pub as_str : V → Option Str
  pub as_bool : V → Option Bool
  pub as_i64 : V → Option ℤ

pub data CtlOut (V : Type 0) : Type 0 where
  ptt : Bool → CtlOut V
  chan_cycle : ℤ → CtlOut V
  ctl : V → CtlOut V
  refresh : CtlOut V

pub data ToClient (V : Type 0) : Type 0 where
  auth_failed : ToClient V
  hello : V → ToClient V

pub record ControlServer (V : Type 0) : Type 0 where
  pub token : Str
  pub state : V
  pub clients : List ℕ

-- `tungstenite::Message`; the text is what `into_text` gives, where it gives one.
pub data MsgKind : Type 0 where
  text binary ping pong close : MsgKind

-- What `rx.next()` gives: a message, or the end of the stream or an error.
pub data Inbound : Type 0 where
  gone : Inbound
  message : MsgKind → Option Str → Inbound

-- Where `serve_conn` stands: in the first loop with its `tries`, in the second loop, or returned.
pub data Conn : Type 0 where
  waiting : ℕ → Conn
  serving ended : Conn

-- What a step sends: to the client, and to the app.
pub record Served (V : Type 0) : Type 0 where
  pub server : ControlServer V
  pub conn : Conn
  pub said : List (ToClient V)
  pub sent : List (CtlOut V)

-- A frame is too long, no JSON, or a value.
pub data Received (V : Type 0) : Type 0 where
  too_long unreadable : Received V
  value : V → Received V

-- `constant_time_eq`, with the text of the server's `ct_eq`.
abbrev pub constant_time_eq : Str → Str → Bool
constant_time_eq a b = ct_eq a b

abbrev pub and_then : {A B : Type 0} → (A → Option B) → Option A → Option B
and_then f none = none
and_then f (some x) = f x

abbrev pub fmap : {A B : Type 0} → (A → B) → Option A → Option B
fmap f none = none
fmap f (some x) = some (f x)

abbrev pub cycle : {V : Type 0} → ℤ → Option (CtlOut V)
cycle (pos n) = if n == 1 then some (chan_cycle (pos n)) else none
cycle (negsuc n) = if n == 0 then some (chan_cycle (negsuc n)) else none

-- The names that `route` forwards as they are.
abbrev pub verbatim : Str → Bool
verbatim t =
    str_eq t (lit "mic-toggle")
    || (str_eq t (lit "deafen-toggle")
        || (str_eq t (lit "channel")
            || (str_eq t (lit "rekey")
                || (str_eq t (lit "disconnect")
                    || (str_eq t (lit "volume") || str_eq t (lit "volume-delta"))))))

abbrev pub unwrap_or : Str → Option Str → Str
unwrap_or d none = d
unwrap_or d (some s) = s

module _ {V : Type 0} (json : Json V) where
  abbrev pub t_of : V → Option Str
  t_of v = and_then json.as_str (json.get v (lit "t"))

  abbrev pub route_named : V → Str → Option (CtlOut V)
  route_named v t =
      if str_eq t (lit "ptt")
      then fmap ptt (and_then json.as_bool (json.get v (lit "on")))
      else if str_eq t (lit "chan-cycle")
      then and_then cycle (and_then json.as_i64 (json.get v (lit "dir")))
      else if verbatim t
      then some (ctl v)
      else none

  unfoldable pub route : V → Option (CtlOut V)
  route v = and_then (route_named v) (t_of v)

  -- `into_text`, the bound and `from_str`, in both loops.
  abbrev pub receive : Option Str → Received V
  receive none = unreadable
  receive (some t) =
      if ltb max_msg (length t)
      then too_long
      else elim (json.from_str t) [ none ↦ unreadable | some v ↦ value v ]

  abbrev pub is_auth : V → Bool
  is_auth v = elim (t_of v) [ none ↦ false | some t ↦ str_eq t (lit "auth") ]

  abbrev pub presented : V → Str
  presented v = unwrap_or [] (and_then json.as_str (json.get v (lit "token")))

  abbrev pub stays : ControlServer V → Conn → Served V
  stays s c = record { server = s; conn = c; said = []; sent = [] }

  -- From the hello to the second loop: `id` is the new channel, `ok` whether the hello goes out.
  abbrev pub greet : ℕ → Bool → ControlServer V → Served V
  greet id ok s =
      if ok
      then record {
        server = record s { clients = s.clients ++ (id ∷ []) };
        conn = serving;
        said = hello s.state ∷ [];
        sent = refresh ∷ [];
      }
      else stays s ended

  abbrev pub refuse : ℕ → ControlServer V → Served V
  refuse tries s =
      let tries' = wrapping_add_u32 tries 1 in
      record {
        server = s;
        conn = (if leb max_auth_tries tries' then ended else waiting tries');
        said = auth_failed ∷ [];
        sent = [];
      }

  -- The first loop.
  unfoldable pub on_gate : ℕ → Bool → ℕ → Received V → ControlServer V → Served V
  on_gate id ok tries too_long s = stays s ended
  on_gate id ok tries unreadable s = stays s (waiting tries)
  on_gate id ok tries (value v) s =
      if is_auth v
      then (if constant_time_eq (presented v) s.token then greet id ok s else refuse tries s)
      else stays s (waiting tries)

  abbrev pub to_list : Option (CtlOut V) → List (CtlOut V)
  to_list none = []
  to_list (some c) = c ∷ []

  -- The second loop, for a message that is no ping, no pong and no close.
  unfoldable pub on_command : Received V → ControlServer V → Served V
  on_command too_long s = stays s ended
  on_command unreadable s = stays s serving
  on_command (value v) s = record {
    server = s;
    conn = serving;
    said = [];
    sent = to_list (route v);
  }

  unfoldable pub serve : ℕ → Bool → Conn → Inbound → ControlServer V → Served V
  serve id ok ended i s = stays s ended
  serve id ok (waiting tries) gone s = stays s ended
  serve id ok (waiting tries) (message k t) s = on_gate id ok tries (receive t) s
  serve id ok serving gone s = stays s ended
  serve id ok serving (message ping t) s = stays s serving
  serve id ok serving (message pong t) s = stays s serving
  serve id ok serving (message close t) s = stays s ended
  serve id ok serving (message text t) s = on_command (receive t) s
  serve id ok serving (message binary t) s = on_command (receive t) s

  -- `publish_state`: `alive` says which channels still have a receiver; the state goes to those left.
  unfoldable pub publish_state : (ℕ → Bool) → V → ControlServer V → ControlServer V × List (ℕ × V)
  publish_state alive state s =
      let left = filter alive s.clients in
      (record s { state = state; clients = left }, map (λ id. (id, state)) left)
