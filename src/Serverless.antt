-- ===== src/Serverless.antt =====
-- apps/companion-core/src/serverless.rs: two peers without a server, who hand each other an offer and
-- an answer as texts. What the webrtc crate and the devices answer is an argument (`Rtc`), and so are
-- base64, JSON and the characters of UTF-8 (`Text`). A method gives its result and its effects, with
-- those of `Drop` where an error drops what was made.
pub mod Exchange
pub mod Rigs
mod Tests
use rdoc_squad_link_lite.Base.{
  ℕ, zero, suc, Bool, true, false, not, List, [], ◌∷◌, ◌++◌, Option, none, some, Str, lit, ltb,
  length, if◌then◌else◌,
}
use rdoc_squad_link_lite.Engine.Channels.{default_channel}
use rdoc_squad_link_lite.Engine.Messages
use rdoc_squad_link_lite.Engine.Messages.{UiEvent, Participant}
use rdoc_squad_link_lite.Mesh.Ctrl.{max_chat_chars}

abbrev pub max_chat_bytes : ℕ
max_chat_bytes = 4096

pub record Serverless : Type 0 where
  pub pc : ℕ
  pub transmit : Bool
  pub chat : Option ℕ
  pub me : Str

-- The answers while one method runs. `parse` and `set_remote_description` are given whether the text
-- is an offer; `new_pc` is `build_api` and `new_peer_connection`.
pub record Rtc : Type 0 where
  pub setup_audio : Bool
  pub new_pc : Option ℕ
  pub add_track : Bool
  pub create_data_channel : Option ℕ
  pub create_offer : Option Str
  pub create_answer : Option Str
  pub parse : Bool → Str → Bool
  pub set_local_description : Str → Bool
  pub set_remote_description : Bool → Str → Bool
  pub local_description : Option Str

pub record Text : Type 0 where
  pub without_whitespace : Str → Str
  pub encode : Str → Str
  pub decode : Str → Option Str
  pub is_utf8 : Str → Bool
  pub to_json : Str → ℕ → Option Str
  pub from_json : Str → Option (Str × ℕ)
  pub count_chars : Str → ℕ
  pub take_chars : ℕ → Str → Str

-- `remote` is a description that the connection is given: whether it is an offer, and its text.
pub data Effect : Type 0 where
  start_rig stop_rig : Effect
  open_pc close_pc : ℕ → Effect
  remote : ℕ → Bool → Str → Effect
  send_text : ℕ → Str → Effect
  ui : UiEvent → Effect

pub data Error : Type 0 where
  no_base64 no_utf8 library : Error

pub data Result (A : Type 0) : Type 0 where
  ok : A → Result A
  err : Error → Result A

abbrev pub utf8_or : Text → Option Str → Result Str
utf8_or t none = err no_base64
utf8_or t (some bytes) = if t.is_utf8 bytes then ok bytes else err no_utf8

unfoldable pub decode_code : Text → Str → Result Str
decode_code t code = utf8_or t (t.decode (t.without_whitespace code))

-- With `StopGuard`: an error stops the rig.
unfoldable pub build_pc : Rtc → Option ℕ × List Effect
build_pc rtc =
    if rtc.setup_audio
    then elim rtc.new_pc [
      | none ↦ (none, start_rig ∷ stop_rig ∷ [])
      | some pc ↦
          if rtc.add_track
          then (some pc, start_rig ∷ open_pc pc ∷ [])
          else (none, start_rig ∷ open_pc pc ∷ stop_rig ∷ [])
    ]
    else (none, [])

abbrev pub Made : Type 0
Made = Result (Serverless × Str) × List Effect

-- `Drop`: the rig is stopped, and the connection is closed if a Tokio runtime is current.
abbrev pub drop_session : Bool → Serverless → List Effect
drop_session runtime s = stop_rig ∷ (if runtime then close_pc s.pc ∷ [] else [])

-- An error after `build_pc`: the value is dropped, on the runtime that runs the method.
abbrev pub dropped : Serverless → Made
dropped s = (err library, drop_session true s)

abbrev pub described : Rtc → Text → Serverless → Str → Made
described rtc t s sdp =
    if rtc.set_local_description sdp
    then elim rtc.local_description [ none ↦ dropped s | some full ↦ (ok (s, t.encode full), []) ]
    else dropped s

abbrev pub built : Str → (Serverless → Made) → Option ℕ × List Effect → Made
built me go (none, fx) = (err library, fx)
built me go (some pc, fx) =
    let (r, more) = go (record { pc = pc; transmit = false; chat = none; me = me }) in
    (r, fx ++ more)

unfoldable pub offer_steps : Rtc → Text → Serverless → Made
offer_steps rtc t s = elim rtc.create_data_channel [
  | none ↦ dropped s
  | some dc ↦ elim rtc.create_offer [
    | none ↦ dropped s
    | some offer ↦ described rtc t (record s { chat = some dc }) offer
  ]
]

unfoldable pub create_offer : Rtc → Text → Str → Made
create_offer rtc t me = built me (offer_steps rtc t) (build_pc rtc)

abbrev pub with_remote : ℕ → Bool → Str → Made → Made
with_remote pc is_offer sdp (r, fx) = (r, remote pc is_offer sdp ∷ fx)

unfoldable pub answer_steps : Rtc → Text → Str → Serverless → Made
answer_steps rtc t offer s = with_remote s.pc true offer (
    if rtc.set_remote_description true offer
    then elim rtc.create_answer [ none ↦ dropped s | some answer ↦ described rtc t s answer ]
    else dropped s)

-- The code is read before anything is opened.
unfoldable pub accept_offer : Rtc → Text → Str → Str → Made
accept_offer rtc t code me = elim (decode_code t code) [
  | err e ↦ (err e, [])
  | ok sdp ↦
      if rtc.parse true sdp
      then built me (answer_steps rtc t sdp) (build_pc rtc)
      else (err library, [])
]

unfoldable pub accept_answer : Rtc → Text → Serverless → Str → Result (Unit {0}) × List Effect
accept_answer rtc t s code = elim (decode_code t code) [
  | err e ↦ (err e, [])
  | ok sdp ↦
      if rtc.parse false sdp
      then (
        (if rtc.set_remote_description false sdp then ok tt else err library),
        remote s.pc false sdp ∷ [],
      )
      else (err library, [])
]

-- The methods on a session that stands.
unfoldable pub set : Bool → Serverless → Serverless × List Effect
set on s = (record s { transmit = on }, ui (Messages.status true on) ∷ [])

unfoldable pub toggle_transmit : Serverless → Serverless × List Effect
toggle_transmit s = set (not s.transmit) s

abbrev pub same : Bool → Bool → Bool
same true b = b
same false b = not b

unfoldable pub set_transmit : Bool → Serverless → Serverless × List Effect
set_transmit on s = if same s.transmit on then (s, []) else set on s

abbrev pub chat_log : Str → List Effect
chat_log why = ui (Messages.log (lit "Chat: " ++ why)) ∷ []

-- `ts` is the clock, `sends` whether `send_text` succeeds.
unfoldable pub send_chat : Text → ℕ → (Str → Bool) → Serverless → Str → List Effect
send_chat t ts sends s text = elim s.chat [
  | none ↦ chat_log (lit "noch nicht verbunden")
  | some dc ↦ elim (t.to_json text ts) [
    | none ↦ []
    | some j ↦
        if ltb max_chat_bytes (length j)
        then chat_log (lit "Nachricht zu lang")
        else if sends j
        then send_text dc j ∷ ui (Messages.UiEvent.chat s.me text) ∷ []
        else chat_log (lit "Senden fehlgeschlagen")
  ]
]

-- `wire_chat`: what arrives on the channel.
abbrev pub shown : Text → Option (Str × ℕ) → List Effect
shown t none = []
shown t (some (text, ts)) =
    ui (
      Messages.UiEvent.chat (lit "Peer") (
        if ltb max_chat_chars (t.count_chars text) then t.take_chars max_chat_chars text else text))
    ∷ []

unfoldable pub on_message : Text → Str → List Effect
on_message t bytes = if ltb max_chat_bytes (length bytes) then [] else shown t (t.from_json bytes)

-- `badge_of`: `pairs` says at each of ten polls whether there is a pair, and whether it is a relay.
unfoldable pub badge_of : ℕ → List (Option Bool) → Str
badge_of zero pairs = lit "DIREKT"
badge_of (suc polls) [] = lit "DIREKT"
badge_of (suc polls) (some is_relay ∷ pairs) = if is_relay then lit "RELAY (TURN)" else lit "DIREKT"
badge_of (suc polls) (none ∷ pairs) = badge_of polls pairs

pub data PcState : Type 0 where
  connected failed disconnected other_state : PcState

abbrev pub own_row : Str → Participant
own_row me = record {
  user_id = lit "me";
  name = me;
  you = true;
  badge = none;
  speaking = false;
  channel = default_channel;
  secure = true;
  fingerprint = none;
  linked = true;
}

abbrev pub peer_row : Str → Participant
peer_row badge = record {
  user_id = lit "peer";
  name = lit "Peer";
  you = false;
  badge = some badge;
  speaking = false;
  channel = default_channel;
  secure = false;
  fingerprint = none;
  linked = true;
}

unfoldable pub on_pc_state : Str → List (Option Bool) → PcState → List Effect
on_pc_state me pairs connected =
    ui (Messages.status true false)
    ∷ ui (Messages.roster (own_row me ∷ peer_row (badge_of 10 pairs) ∷ []))
    ∷ []
on_pc_state me pairs failed = ui (Messages.status false false) ∷ []
on_pc_state me pairs disconnected = ui (Messages.status false false) ∷ []
on_pc_state me pairs other_state = []
