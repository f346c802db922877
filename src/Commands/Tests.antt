-- ===== src/Commands/Tests.antt =====
-- The commands at concrete inputs.
use rdoc_squad_link_lite.Base.{
  List, ◌∷◌, ◌++◌, ℕ, ◌≡◌, refl, true, false, not, ◌||◌, [], none, some, Str, lit, leb, ◌==◌,
  if◌then◌else◌, take, length-take, arith,
}
use rdoc_squad_link_lite.Audio.Decimals.{Decimal, decimals}
use rdoc_squad_link_lite.Audio.Gains
use rdoc_squad_link_lite.Audio.Dsp.{default_config}
use rdoc_squad_link_lite.Audio.Radio.{default_radio}
use rdoc_squad_link_lite.Inputs.Texts.{valid_name, Chars}
use rdoc_squad_link_lite.Inputs.Fields.{
  clean_token, clean_cert, clean_device, valid_id, valid_user_id,
}
use rdoc_squad_link_lite.Inputs.Url.{
  after_first, after_last, until, strip_prefix, server_url_ok, is_loopback,
}
use rdoc_squad_link_lite.Signaling.{Libs, pinned, standard, dials, starts_with, connect_inner}
use rdoc_squad_link_lite.Serverless
use rdoc_squad_link_lite.Serverless.{Serverless}
use rdoc_squad_link_lite.Commands.Ledger.{
  Command, connects, offers, says, toggles, run_commands, run_commands-stopped,
}
use rdoc_squad_link_lite.Commands.Pinned.{checked-dials}
use rdoc_squad_link_lite.Engine.Handle.{Engine}
use rdoc_squad_link_lite.Commands.{AppState}
use rdoc_squad_link_lite.Commands.Starting.{good, checked, EngineConfig, Form, connect, disconnect}
use rdoc_squad_link_lite.Commands.Guarded.{Connects, connect-Connects}

-- ASCII.
abbrev ascii : Chars
ascii = record {
  chars = λ s. s;
  collect = λ s. s;
  trim = λ s. s;
  is_control = λ c. not (leb 32 c);
  is_whitespace = λ c. c == 32;
}

abbrev engine : Engine Decimal ℕ
engine = record {
  cmds = [];
  dev_cmds = [];
  dsp = default_config decimals;
  radio = default_radio decimals;
  monitor = false;
  bitrate = 0;
  dtx = false;
  gains = Gains.new decimals;
  earcon = record { enabled = true; volume = (1, 0); samples = []; latch_on = []; latch_off = [] };
  mix = [];
}

abbrev form : Form
form = record {
  server = lit "wss://host/ws";
  room = lit "room";
  user_id = lit "ann";
  name = lit "Ann";
  token = some (lit "abcd");
  cert_sha256 = none;
  input_device = some [];
  output_device = none;
  relay_enabled = none;
}

-- A serverless session is open, and no engine runs.
abbrev alone : AppState Decimal ℕ
alone = record {
  engine = none;
  serverless = some (record { pc = 4; transmit = false; chat = none; me = lit "Ann" });
}

connect-Connects_example :
    Connects ascii
      (λ cfg. some engine)
      alone
      (connect ascii (λ cfg. some engine) form alone)
      (connect ascii (λ cfg. some engine) form alone).reply
connect-Connects_example = connect-Connects ascii (λ cfg. some engine) alone form

-- Of 64 digits, 32 stand for the bytes.
abbrev libs : Libs
libs = record { trim = λ s. s; hex_decode = λ s. some (take 32 s); sha256 = λ s. s }

abbrev pin : Str
pin = lit "0123456789abcdef0123456789abcdef0123456789abcdef0123456789abcdef"

abbrev pinned_form : Form
pinned_form = record form { cert_sha256 = some pin }

abbrev pinned_config : EngineConfig
pinned_config = record {
  server = lit "wss://host/ws";
  room = lit "room";
  user_id = lit "ann";
  name = lit "Ann";
  token = some (lit "abcd");
  cert_sha256 = some pin;
  input_device = none;
  output_device = none;
  relay_enabled = false;
}

passes_the_guards : checked ascii pinned_form ≡ good pinned_config
unfolding checked clean_token server_url_ok strip_prefix after_first after_last until valid_id
    valid_user_id valid_name clean_cert clean_device
passes_the_guards = refl

checked-dials_example :
    (bytes : Str) × (some (take 32 pin) ≡ some bytes)
    × (connect_inner (record libs { trim = ascii.trim }) (lit "wss://host/ws") (some pin) ≡ (
        if starts_with (lit "wss://") (lit "wss://host/ws")
        then dials (pinned bytes)
        else dials standard))
    × ((starts_with (lit "wss://") (lit "wss://host/ws") || is_loopback (lit "wss://host/ws"))
        ≡ true)
checked-dials_example =
    checked-dials ascii libs (λ s. refl)
      (λ s h. (take 32 s, refl, length-take 32 s (ground (arith, h)))) pinned_form pinned_config pin
      passes_the_guards refl

abbrev session : ℕ → Serverless
session pc = record { pc = pc; transmit = false; chat = none; me = lit "Ann" }

-- Two offers, the second in place of the first, and then an engine; an offer that fails; a line of chat.
abbrev an_evening : List (Command Decimal ℕ)
an_evening =
    offers (Serverless.ok (session 5, lit "code")) (lit "Ann")
    ∷ toggles
    ∷ offers (Serverless.ok (session 6, lit "code")) (lit "Ann")
    ∷ connects (λ cfg. some engine) form
    ∷ offers (Serverless.err Serverless.library) (lit "Ann")
    ∷ says (λ s line. []) (lit "good night")
    ∷ []

run_commands-stopped_example :
    let (stopped, st) = run_commands ascii an_evening alone in
    let d = disconnect ascii false st in
    (stopped ++ d.stopped ≡ 4 ∷ 5 ∷ 6 ∷ []) × (d.state.engine ≡ none) × (d.state.serverless ≡ none)
unfolding valid_name
run_commands-stopped_example = run_commands-stopped ascii an_evening false alone
