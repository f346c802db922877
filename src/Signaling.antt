-- ===== src/Signaling.antt =====
-- apps/companion-core/src/signaling.rs: the connection to the server. Whom it dials and how is
-- `connect_inner`; the two tasks behind it are a step for each message. rustls, hex, SHA-256 and the
-- sockets are arguments.
pub mod Dialing
mod Tests
use rdoc_squad_link_lite.Base.{
  ℕ, ◌*◌, ◌^◌, Bool, true, false, List, [], ◌∷◌, Option, none, some, Str, lit, str_eq, leb, ◌==◌,
  length, if◌then◌else◌, is_some,
}
use rdoc_squad_link_lite.Protocol.ToServer.{ClientMsg}
use rdoc_squad_link_lite.Protocol.ToClient.{ServerMsg}
use rdoc_squad_link_lite.Inputs.Url.{strip_prefix, server_url_ok}

-- Seconds.
abbrev pub recv_idle : ℕ
recv_idle = 60

abbrev pub ping_interval : ℕ
ping_interval = 25

-- How the certificate of the server is checked: it is this one, or by the authorities (where there is
-- TLS at all).
pub data Connector : Type 0 where
  pinned : Str → Connector
  standard : Connector

pub data Dialed : Type 0 where
  refused bad_pin : Dialed
  dials : Connector → Dialed

pub record Libs : Type 0 where
  pub trim : Str → Str
  pub hex_decode : Str → Option Str
  pub sha256 : Str → Str

-- `verify_server_cert` of `PinnedCert`.
unfoldable pub verify_server_cert : Libs → Str → Str → Bool
verify_server_cert libs pin end_entity = str_eq (libs.sha256 end_entity) pin

abbrev pub pin_of_32 : Option Str → Dialed
pin_of_32 none = bad_pin
pin_of_32 (some bytes) = if length bytes == 32 then dials (pinned bytes) else bad_pin

unfoldable pub pinned_connector : Libs → Str → Dialed
pinned_connector libs cert = pin_of_32 (libs.hex_decode (libs.trim cert))

abbrev pub with_pin : Libs → Option Str → Dialed
with_pin libs none = dials standard
with_pin libs (some pin) = pinned_connector libs pin

abbrev pub starts_with : Str → Str → Bool
starts_with pre url = is_some (strip_prefix pre url)

unfoldable pub connect_inner : Libs → Str → Option Str → Dialed
connect_inner libs url cert =
    if server_url_ok libs.trim url
    then (if starts_with (lit "wss://") url then with_pin libs cert else dials standard)
    else refused

-- The writing task: the next message of the engine, the end of its handle, or the tick of the
-- heartbeat. What goes into the socket, and whether the task goes on; `sends` is whether the socket
-- takes it.
pub data ToWrite : Type 0 where
  msg : ClientMsg → ToWrite
  owner_gone ping_due : ToWrite

pub data Frame : Type 0 where
  text_frame : Str → Frame
  ping_frame close_frame : Frame

unfoldable pub write_step : (ClientMsg → Option Str) → (Frame → Bool) → ToWrite → List Frame × Bool
write_step to_json sends (msg m) = elim (to_json m) [
  | none ↦ ([], true)
  | some s ↦ (text_frame s ∷ [], sends (text_frame s))
]
write_step to_json sends owner_gone = (close_frame ∷ [], false)
write_step to_json sends ping_due = (ping_frame ∷ [], sends ping_frame)

-- The reading task: what comes, and after how many seconds of silence; the end of the stream or an
-- error is `stream_end`.
pub data Incoming : Type 0 where
  text_in : Str → Incoming
  other_in : Incoming
  stream_end : Incoming

unfoldable pub read_in : (Str → Option ServerMsg) → Bool → Incoming → List ServerMsg × Bool
read_in from_json engine stream_end = ([], false)
read_in from_json engine other_in = ([], true)
read_in from_json engine (text_in t) = elim (from_json t) [
  | none ↦ ([], true)
  | some m ↦ (m ∷ [], engine)
]

-- What the engine is sent, and whether the task goes on; `engine` is whether the engine listens.
unfoldable pub read_step : (Str → Option ServerMsg) → Bool → ℕ → Incoming → List ServerMsg × Bool
read_step from_json engine silent i =
    if leb recv_idle silent then ([], false) else read_in from_json engine i
