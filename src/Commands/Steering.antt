-- ===== src/Commands/Steering.antt =====
-- apps/companion/src-tauri/src/lib.rs: the commands to what runs: the engine, or the serverless
-- session, which is asked first.
use rdoc_squad_link_lite.Base.{
  ℕ, ◌*◌, Bool, true, false, List, [], Option, none, some, Str, leb, length, if◌then◌else◌,
}
use rdoc_squad_link_lite.Audio.Float.{Float, Casts}
use rdoc_squad_link_lite.Audio.Dsp.{DspConfig}
use rdoc_squad_link_lite.Audio.Radio.{RadioCfg}
use rdoc_squad_link_lite.Inputs.Fields.{valid_user_id, live_device}
use rdoc_squad_link_lite.Inputs.Texts.{Chars, valid_channel, bounded_chat}
use rdoc_squad_link_lite.Inputs.Ranges.{clamp_vol, normalize_dsp, normalize_radio}
use rdoc_squad_link_lite.Engine.Messages
use rdoc_squad_link_lite.Engine.Messages.{Cmd}
use rdoc_squad_link_lite.Engine.Handle
use rdoc_squad_link_lite.Engine.Handle.{Engine, send}
use rdoc_squad_link_lite.Serverless
use rdoc_squad_link_lite.Serverless.{Serverless, Effect}
use rdoc_squad_link_lite.Control.{ControlServer, Json, publish_state}
use rdoc_squad_link_lite.Commands.{AppState}

-- The state, and what the serverless session does.
pub record Steered (F S : Type 0) : Type 0 where
  pub state : AppState F S
  pub effects : List Effect

module _ {F S : Type 0} where
  abbrev pub map_engine : (Engine F S → Engine F S) → Option (Engine F S) → Option (Engine F S)
  map_engine go none = none
  map_engine go (some e) = some (go e)

  -- `if let Some(e) = state.engine.lock().unwrap().as_ref()`.
  abbrev pub to_engine : (Engine F S → Engine F S) → AppState F S → AppState F S
  to_engine go st = record st { engine = map_engine go st.engine }

  abbrev pub steered :
      AppState F S → (Serverless → Serverless × List Effect) → Cmd → Option Serverless → Steered F S
  steered st go cmd none = record { state = to_engine (send cmd) st; effects = [] }
  steered st go cmd (some s) =
      let (s', fx) = go s in record { state = record st { serverless = some s' }; effects = fx }

  unfoldable pub toggle_transmit : AppState F S → Steered F S
  toggle_transmit st = steered st Serverless.toggle_transmit Messages.toggle_tx st.serverless

  unfoldable pub set_transmit : Bool → AppState F S → Steered F S
  set_transmit on st = steered st (Serverless.set_transmit on) (Messages.set_tx on) st.serverless

  -- `say` is `Serverless::send_chat`.
  unfoldable pub send_chat :
      Chars → (Serverless → Str → List Effect) → Str → AppState F S → Steered F S
  send_chat u say text st = elim (bounded_chat u text) [
    | none ↦ record { state = st; effects = [] }
    | some t ↦ steered st (λ s. (s, say s t)) (Messages.Cmd.chat t) st.serverless
  ]

  unfoldable pub rotate_key : AppState F S → AppState F S
  rotate_key = to_engine (send Messages.rekey)

  unfoldable pub reconnect_session : AppState F S → AppState F S
  reconnect_session = to_engine (send Messages.reconnect)

  -- The Boolean says whether the name is accepted.
  unfoldable pub set_channel : Chars → Str → AppState F S → AppState F S × Bool
  set_channel u name st =
      let name = u.trim name in
      if valid_channel u name
      then (to_engine (send (Messages.set_channel name)) st, true)
      else (st, false)

  unfoldable pub remove_channel : Chars → Str → AppState F S → AppState F S × Bool
  remove_channel u name st =
      let name = u.trim name in
      if valid_channel u name
      then (to_engine (send (Messages.remove_channel name)) st, true)
      else (st, false)

  unfoldable pub set_monitor : Bool → AppState F S → AppState F S
  set_monitor on = to_engine (Handle.set_monitor on)

  unfoldable pub set_low_bandwidth : Bool → AppState F S → AppState F S
  set_low_bandwidth on = to_engine (Handle.set_low_bandwidth on)

  unfoldable pub set_input_device : Chars → Option Str → AppState F S → AppState F S
  set_input_device u name = to_engine (Handle.set_input_device (live_device u.trim name))

  unfoldable pub set_output_device : Chars → Option Str → AppState F S → AppState F S
  set_output_device u name = to_engine (Handle.set_output_device (live_device u.trim name))

  module _ {A : Type 0} (f : Float F) (casts : Casts F S A) where
    unfoldable pub set_dsp : DspConfig F → AppState F S → AppState F S
    set_dsp cfg = to_engine (Handle.set_dsp (normalize_dsp f cfg))

    unfoldable pub set_radio_fx : RadioCfg F → AppState F S → AppState F S
    set_radio_fx cfg = to_engine (Handle.set_radio (normalize_radio f cfg))

    unfoldable pub set_master_volume : F → AppState F S → AppState F S
    set_master_volume v = to_engine (Handle.set_master_volume f casts (clamp_vol f v))

    unfoldable pub set_peer_volume : Str → F → AppState F S → AppState F S × Bool
    set_peer_volume user_id v st =
        if valid_user_id user_id 64
        then (to_engine (Handle.set_peer_volume f casts user_id (clamp_vol f v)) st, true)
        else (st, false)

    unfoldable pub set_earcon : Bool → AppState F S → AppState F S
    set_earcon on = to_engine (Handle.set_earcon f casts on)

    unfoldable pub set_earcon_volume : F → AppState F S → AppState F S
    set_earcon_volume v = to_engine (Handle.set_earcon_volume f casts (clamp_vol f v))

    unfoldable pub ptt_latch_cue : Bool → AppState F S → AppState F S
    ptt_latch_cue on = to_engine (Handle.ptt_latch_cue f casts on)

abbrev pub max_control_state : ℕ
max_control_state = 16 * 1024

abbrev pub size_ok : Option Str → Bool
size_ok none = false
size_ok (some s) = leb (length s) max_control_state

-- `to_string` of the JSON, `alive` as for `publish_state`.
unfoldable pub control_state :
    {V : Type 0}
    → Json V
    → (V → Option Str)
    → (ℕ → Bool)
    → V
    → Option (ControlServer V)
    → Option (ControlServer V × List (ℕ × V))
control_state json to_string alive snapshot none = none
control_state json to_string alive snapshot (some srv) =
    if size_ok (to_string snapshot) then some (publish_state json alive snapshot srv) else none
