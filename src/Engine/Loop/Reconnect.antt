-- ===== src/Engine/Loop/Reconnect.antt =====
-- The arms of the loop that lose the connection to the server and get it back.
pub mod Backoff
use rdoc_squad_link_lite.Base.{
  ℕ, ◌+◌, ◌*◌, min, Bool, true, false, not, ◌&&◌, List, [], ◌∷◌, ◌++◌, Option, none, some, Str, lit,
  leb, if◌then◌else◌,
}
use rdoc_squad_link_lite.Base.Decimal.{decimal}
use rdoc_squad_link_lite.Protocol.{protocol_version}
use rdoc_squad_link_lite.Protocol.ToServer
use rdoc_squad_link_lite.Protocol.ToServer.{ClientMsg}
use rdoc_squad_link_lite.Engine.Messages
use rdoc_squad_link_lite.Engine.Watchdog.{secs}
use rdoc_squad_link_lite.Engine.Loop.{Config, Loop, Step, ui, to_server, continue}

-- The channel of the server ended.
unfoldable pub on_lost : ℕ → Loop → Step
on_lost now l =
    continue
      (record l { cur_in = false; cur_out = false; backoff = 2; next_try = some (now + secs 2) })
      (ui (Messages.signaling false)
        ∷ ui (Messages.log (lit "Signaling verloren - automatischer Reconnect laeuft."))
        ∷ [])

abbrev pub due_at : ℕ → Option ℕ → Bool
due_at now none = false
due_at now (some at) = leb at now

-- The arm is on only without a connection, and it runs at `next_try`.
unfoldable pub try_due : ℕ → Loop → Bool
try_due now l = not l.cur_in && due_at now l.next_try

unfoldable pub on_connected : Config → Loop → Step
on_connected cfg l =
    continue (record l { cur_in = true; cur_out = true; next_try = none; backoff = 2 })
      (to_server (ToServer.join protocol_version cfg.room cfg.user_id cfg.name cfg.token cfg.secret)
        ∷ ui (Messages.signaling true)
        ∷ ui (Messages.log (lit "Signaling wiederverbunden."))
        ∷ [])

-- `now` is the time after the attempt, `e` the text of the error.
unfoldable pub on_failed : ℕ → Str → Loop → Step
on_failed now e l =
    let backoff = min (l.backoff * 2) 30 in
    continue (record l { backoff = backoff; next_try = some (now + secs backoff) })
      (ui (
          Messages.log (
            lit "Reconnect fehlgeschlagen ("
            ++ (e ++ (lit ") - neuer Versuch in " ++ (decimal backoff ++ lit "s.")))))
        ∷ [])

-- A message of the mesh goes to the connection of the moment, or is dropped.
unfoldable pub on_uplink : Loop → ClientMsg → Step
on_uplink l msg = continue l (if l.cur_out then to_server msg ∷ [] else [])
