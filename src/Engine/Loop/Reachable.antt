-- ===== src/Engine/Loop/Reachable.antt =====
-- The invariant of the loop, turn by turn.
use rdoc_squad_link_lite.Base.{
  ℕ, ◌+◌, ◌*◌, min, ◌≤◌, ◌≡◌, refl, Bool, true, false, ◌||◌, List, [], ◌∷◌, Option, none, some, Str,
  is_some, arith, if◌then◌else◌, str_eq_refl, Bool-cases, inl, inr,
}
use rdoc_squad_link_lite.Engine.Messages
use rdoc_squad_link_lite.Engine.Messages.{MeshEvent, Cmd}
use rdoc_squad_link_lite.Engine.Channels.{canon_channel, is_empty, default_channel}
use rdoc_squad_link_lite.Engine.Watchdog.{secs}
use rdoc_squad_link_lite.Mesh.Ctrl.{on_open}
use rdoc_squad_link_lite.Mesh.Ctrl.Gate.{on_message-Kept}
use rdoc_squad_link_lite.Engine.Loop.{Config, Libraries, Turn, Loop, Step, start, continue}
use rdoc_squad_link_lite.Engine.Loop.Signals.{on_signal}
use rdoc_squad_link_lite.Engine.Loop.Events.{on_event, on_link, on_secured, on_key, on_gen}
use rdoc_squad_link_lite.Engine.Loop.Commands.{on_cmd, set_tx, same_bool, on_dropped, on_promote}
use rdoc_squad_link_lite.Engine.Loop.Reconnect.{
  on_lost, on_connected, on_failed, on_uplink, try_due,
}
use rdoc_squad_link_lite.Engine.Loop.Tick.{on_tick}
use rdoc_squad_link_lite.Engine.Loop.Unchanged.{view, on_signal-view, on_link-view}
use rdoc_squad_link_lite.Engine.Loop.Turns.{
  Arm, turn, run, attempted, tick, lost, dropped, uplink, attempt, signal, event, cmd, promoted,
  opened, received,
}
use rdoc_squad_link_lite.Engine.Loop.Invariant.{
  IsConsistent, kept, on_peer_channels-IsConsistent, on_peer_channel_removed-IsConsistent,
  remove_channel-IsConsistent, set_channel-IsConsistent,
}

-- Whatever a test says.
either :
    (libs : Libraries) (b : Bool) (s s' : Step)
    → IsConsistent libs.unicode (view s.loop)
    → IsConsistent libs.unicode (view s'.loop)
    → IsConsistent libs.unicode (view (if b then s else s').loop)
either libs true s s' v w = v
either libs false s s' v w = w

module _ (cfg : Config) (libs : Libraries) (t : Turn) (l : Loop)
    (v : IsConsistent libs.unicode (view l)) where
  -- Another state of the connection, with the channels as they are.
  connection :
      (cur_in cur_out : Bool) (next_try : Option ℕ) (backoff : ℕ)
      → cur_out ≡ cur_in
      → (cur_in || is_some next_try) ≡ true
      → 2 ≤ backoff
      → backoff ≤ 30
      → IsConsistent libs.unicode (record (view l) {
        cur_in = cur_in;
        cur_out = cur_out;
        next_try = next_try;
        backoff = backoff;
      })
  connection cur_in cur_out next_try backoff h s p b = record {
    directory = v.directory;
    has_default = v.has_default;
    standing = v.standing;
    mirrored = v.mirrored;
    tuned = v.tuned;
    halves = h;
    scheduled = s;
    patient = p;
    bounded = b;
  }

  on_event-IsConsistent :
      (ev : MeshEvent) → IsConsistent libs.unicode (view (on_event cfg libs t l ev).loop)
  unfolding on_event on_secured on_key on_gen
  on_event-IsConsistent (Messages.chat from text) = v
  on_event-IsConsistent (Messages.badge peer badge) = v
  on_event-IsConsistent (Messages.link peer up) =
      kept cfg libs t l (on_link cfg libs t l peer up).loop (on_link-view cfg libs t l peer up) v
  on_event-IsConsistent (Messages.peer_channel peer name) = v
  on_event-IsConsistent (Messages.peer_channels names) =
      on_peer_channels-IsConsistent cfg libs t l names v
  on_event-IsConsistent (Messages.peer_channel_removed name) =
      on_peer_channel_removed-IsConsistent cfg libs t l name v
  on_event-IsConsistent (Messages.secure peer fingerprint) = v
  on_event-IsConsistent (Messages.room_key from gen key) = v
  on_event-IsConsistent (Messages.room_gen from gen) = v

  set_tx-IsConsistent : (on : Bool) → IsConsistent libs.unicode (view (set_tx cfg libs t l on).loop)
  unfolding set_tx
  set_tx-IsConsistent on = v

  on_cmd-IsConsistent :
      (wall : ℕ) (c : Cmd) → IsConsistent libs.unicode (view (on_cmd cfg libs t wall l c).loop)
  unfolding on_cmd set_tx
  on_cmd-IsConsistent wall Messages.toggle_tx = v
  on_cmd-IsConsistent wall (Messages.set_tx on) =
      either libs (same_bool cfg libs t l.transmit on) (continue l []) (set_tx cfg libs t l on) v v
  on_cmd-IsConsistent wall (Messages.chat text) = v
  on_cmd-IsConsistent wall Messages.rekey = v
  on_cmd-IsConsistent wall Messages.reconnect =
      either libs l.cur_in (continue l [])
        (continue (record l { backoff = 2; next_try = some t.now }) []) v
        (connection l.cur_in l.cur_out (some t.now) 2 v.halves (ground arith) (omega arith)
          (omega arith))
  on_cmd-IsConsistent wall (Messages.set_channel name) =
      set_channel-IsConsistent cfg libs t l name v
  on_cmd-IsConsistent wall (Messages.remove_channel name) =
      remove_channel-IsConsistent cfg libs t l name v

  attempted-IsConsistent :
      (o : Option Str) → IsConsistent libs.unicode (view (attempted cfg libs t.now l o).loop)
  unfolding on_connected on_failed
  attempted-IsConsistent none = connection true true none 2 refl refl (omega arith) (omega arith)
  attempted-IsConsistent (some e) =
      let patient = v.patient in
      connection l.cur_in l.cur_out (some (t.now + secs (min (l.backoff * 2) 30)))
        (min (l.backoff * 2) 30) v.halves (ground arith) (omega arith) (omega arith)

  turn-IsConsistent : (a : Arm) → IsConsistent libs.unicode (view (turn cfg libs t l a).loop)
  unfolding turn on_lost on_tick on_dropped on_uplink on_promote on_open
  turn-IsConsistent tick = v
  turn-IsConsistent lost =
      either libs l.cur_in (on_lost t.now l) (continue l [])
        (connection false false (some (t.now + secs 2)) 2 refl refl (omega arith) (omega arith)) v
  turn-IsConsistent dropped = v
  turn-IsConsistent (uplink msg) = v
  turn-IsConsistent (attempt o) =
      either libs (try_due t.now l) (attempted cfg libs t.now l o) (continue l [])
        (attempted-IsConsistent o) v
  turn-IsConsistent (signal msg) =
      let s = on_signal cfg libs t l msg in
      either libs l.cur_in s (continue l [])
        (kept cfg libs t l s.loop (on_signal-view cfg libs t l msg) v) v
  turn-IsConsistent (event ev) = on_event-IsConsistent ev
  turn-IsConsistent (cmd wall c) = on_cmd-IsConsistent wall c
  turn-IsConsistent (promoted g) = v
  turn-IsConsistent (opened seed x_secret peer) = v
  turn-IsConsistent (received coins x_secret peer text) =
      let same =
        on_message-Kept libs.crypto libs.codec peer l.chan coins x_secret l.mesh.crypto text in
      kept cfg libs t l (turn cfg libs t l (received coins x_secret peer text)).loop
        (rw (same.0, same.1) refl) v

module _ (cfg : Config) (libs : Libraries) where
  -- From a loop where it holds, whatever turns follow.
  pub run-IsConsistent :
      (l : Loop) (turns : List (Turn × Arm))
      → IsConsistent libs.unicode (view l)
      → IsConsistent libs.unicode (view (run cfg libs l turns))
  unfolding run
  run-IsConsistent l [] v = v
  run-IsConsistent l ((t, a) ∷ turns) v =
      let next = turn-IsConsistent cfg libs t l v a in
      elim (Bool-cases (turn cfg libs t l a).goes_on) [
        | inl e ↦ rw e (run-IsConsistent (turn cfg libs t l a).loop turns next)
        | inr e ↦ rw e next
      ]

  -- If the default channel is not blank once it is trimmed and lowercased: after whatever turns of
  -- the loop, the directory of channels has at most max_channels names, no two alike, the default
  -- one among them, and none that was removed; what the data channels announce is that directory,
  -- and what the gate of the audio reads is the user's channel; and while the server is away there
  -- is a time for the next attempt, with a wait of 2 to 30 seconds.
  pub run-start-IsConsistent :
      (turns : List (Turn × Arm))
      → is_empty (canon_channel libs.unicode default_channel) ≡ false
      → IsConsistent libs.unicode (view (run cfg libs (start cfg) turns))
  run-start-IsConsistent turns named = run-IsConsistent (start cfg) turns (record {
    directory = record { bounded = omega arith; unlike = (refl, tt); named = (named, tt) };
    has_default = ground (arith, str_eq_refl (canon_channel libs.unicode default_channel));
    standing = (refl, tt);
    mirrored = refl;
    tuned = refl;
    halves = refl;
    scheduled = refl;
    patient = omega arith;
    bounded = omega arith;
  })
