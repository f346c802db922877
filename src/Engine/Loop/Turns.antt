-- ===== src/Engine/Loop/Turns.antt =====
-- The loop as a whole: the arms of its `select!`, and the data channels, whose tasks run in between.
use rdoc_squad_link_lite.Base.{ℕ, List, [], ◌∷◌, Option, Str, if◌then◌else◌}
use rdoc_squad_link_lite.Protocol.ToServer.{ClientMsg}
use rdoc_squad_link_lite.Protocol.ToClient.{ServerMsg}
use rdoc_squad_link_lite.Engine.Messages.{MeshEvent, Cmd}
use rdoc_squad_link_lite.Mesh.Ctrl.{on_open, on_message}
use rdoc_squad_link_lite.Engine.Loop.{Config, Libraries, Turn, Loop, Step, continue}
use rdoc_squad_link_lite.Engine.Loop.Signals.{on_signal}
use rdoc_squad_link_lite.Engine.Loop.Events.{on_event}
use rdoc_squad_link_lite.Engine.Loop.Commands.{on_cmd, on_dropped, on_promote}
use rdoc_squad_link_lite.Engine.Loop.Reconnect.{
  on_lost, on_connected, on_failed, on_uplink, try_due,
}
use rdoc_squad_link_lite.Engine.Loop.Tick.{on_tick}

-- `attempt` is a try to connect, with the error if it failed. `opened` and `received` are of the data
-- channel of a peer, with what the handshake draws.
pub data Arm : Type 0 where
  tick lost dropped : Arm
  uplink : ClientMsg → Arm
  attempt : Option Str → Arm
  signal : ServerMsg → Arm
  event : MeshEvent → Arm
  cmd : ℕ → Cmd → Arm
  promoted : ℕ → Arm
  opened : Str → Str → Str → Arm
  received : Str → Str → Str → Str → Arm

module _ (cfg : Config) (libs : Libraries) where
  abbrev pub attempted : ℕ → Loop → Option Str → Step
  attempted now l Option.none = on_connected cfg l
  attempted now l (Option.some e) = on_failed now e l

  -- A message of the server comes only over a connection.
  unfoldable pub turn : Turn → Loop → Arm → Step
  turn t l tick = on_tick cfg t l
  turn t l lost = if l.cur_in then on_lost t.now l else continue l []
  turn t l dropped = on_dropped cfg libs t l
  turn t l (uplink msg) = on_uplink l msg
  turn t l (attempt o) = if try_due t.now l then attempted t.now l o else continue l []
  turn t l (signal msg) = if l.cur_in then on_signal cfg libs t l msg else continue l []
  turn t l (event ev) = on_event cfg libs t l ev
  turn t l (cmd wall c) = on_cmd cfg libs t wall l c
  turn t l (promoted g) = on_promote cfg libs t l g
  turn t l (opened seed x_secret peer) =
      let (crypto, sent) = on_open libs.crypto libs.codec seed x_secret l.mesh.crypto l.chan peer in
      continue (record l { mesh = record l.mesh { crypto = crypto } }) []
  turn t l (received coins x_secret peer text) =
      let r = on_message libs.crypto libs.codec coins x_secret l.mesh.crypto l.chan peer text in
      continue (record l { mesh = record l.mesh { crypto = r.crypto }; chan = r.chan }) []

  -- The loop after a series of turns, up to the one that ends it.
  unfoldable pub run : Loop → List (Turn × Arm) → Loop
  run l [] = l
  run l ((t, a) ∷ turns) =
      let s = turn t l a in let rest = run s.loop turns in if s.goes_on then rest else s.loop
