-- ===== src/Engine/Handle.antt =====
-- apps/companion-core/src/lib.rs: `Engine`, the handle of a running engine. A method sends a command
-- to the loop or sets what the threads of the audio read.
use rdoc_squad_link_lite.Base.{ℕ, Bool, List, [], ◌∷◌, ◌++◌, Option, Str, Dict, if◌then◌else◌}
use rdoc_squad_link_lite.Engine.Messages.{Cmd}
use rdoc_squad_link_lite.Audio.Float.{Float, Casts}
use rdoc_squad_link_lite.Audio.Gains
use rdoc_squad_link_lite.Audio.Gains.{Gains}
use rdoc_squad_link_lite.Audio.Dsp.{DspConfig}
use rdoc_squad_link_lite.Audio.Radio.{RadioCfg}
use rdoc_squad_link_lite.Audio.Earcon
use rdoc_squad_link_lite.Audio.Earcon.{Earcon}
use rdoc_squad_link_lite.Audio.Devices
use rdoc_squad_link_lite.Audio.Devices.{DevCmd}

pub record Engine (F S : Type 0) : Type 0 where
  -- What was sent to the loop and to the thread of the devices.
  pub cmds : List Cmd
  pub dev_cmds : List DevCmd
  pub dsp : DspConfig F
  pub radio : RadioCfg F
  pub monitor : Bool
  pub bitrate : ℕ
  pub dtx : Bool
  pub gains : Gains F
  pub earcon : Earcon F S
  pub mix : Dict (List S)

module _ {F S : Type 0} where
  unfoldable pub send : Cmd → Engine F S → Engine F S
  send c e = record e { cmds = e.cmds ++ c ∷ [] }

  unfoldable pub set_dsp : DspConfig F → Engine F S → Engine F S
  set_dsp cfg e = record e { dsp = cfg }

  unfoldable pub set_radio : RadioCfg F → Engine F S → Engine F S
  set_radio cfg e = record e { radio = cfg }

  unfoldable pub set_monitor : Bool → Engine F S → Engine F S
  set_monitor on e = record e { monitor = on }

  unfoldable pub set_input_device : Option Str → Engine F S → Engine F S
  set_input_device name e = record e { dev_cmds = e.dev_cmds ++ Devices.set_input name ∷ [] }

  unfoldable pub set_output_device : Option Str → Engine F S → Engine F S
  set_output_device name e = record e { dev_cmds = e.dev_cmds ++ Devices.set_output name ∷ [] }

  unfoldable pub set_low_bandwidth : Bool → Engine F S → Engine F S
  set_low_bandwidth on e = record e { bitrate = (if on then 14000 else 0); dtx = on }

  module _ {A : Type 0} (f : Float F) (casts : Casts F S A) where
    unfoldable pub set_master_volume : F → Engine F S → Engine F S
    set_master_volume v e = record e { gains = Gains.set_master f v e.gains }

    unfoldable pub set_peer_volume : Str → F → Engine F S → Engine F S
    set_peer_volume user_id v e = record e { gains = Gains.set_peer f user_id v e.gains }

    unfoldable pub set_earcon : Bool → Engine F S → Engine F S
    set_earcon on e = record e { earcon = Earcon.set_enabled f casts on e.earcon }

    unfoldable pub set_earcon_volume : F → Engine F S → Engine F S
    set_earcon_volume v e = record e { earcon = Earcon.set_volume f casts v e.earcon }

    unfoldable pub ptt_latch_cue : Bool → Engine F S → Engine F S
    ptt_latch_cue on e = record e { mix = Earcon.latch_cue f casts on e.earcon e.mix }
