-- ===== src/Commands.antt =====
-- apps/companion/src-tauri/src/lib.rs: the commands of the webview. A command is a step on the state
-- that they share; the libraries, the starting of an engine, the answers to the methods of
-- `Serverless` and the control server are arguments. A command lists the serverless sessions, by
-- their connections, whose rig it stops and whose connection it closes.
pub mod Starting
pub mod Steering
pub mod Links
pub mod Guarded
pub mod Pinned
pub mod Ledger
mod Tests
use rdoc_squad_link_lite.Base.{
  Bool, true, false, List, [], ◌∷◌, Option, none, some, Str, if◌then◌else◌, is_some, ℕ,
}
use rdoc_squad_link_lite.Audio.Float.{Float}
use rdoc_squad_link_lite.Engine.Handle.{Engine}
use rdoc_squad_link_lite.Serverless.{Serverless}

pub record AppState (F S : Type 0) : Type 0 where
  pub engine : Option (Engine F S)
  pub serverless : Option Serverless

-- `Result<T, String>`, with the text of the error where it is the code's own.
pub data Reply : Type 0 where
  done : Option Str → Reply
  refused : Str → Reply
  failed : Reply

pub record Done (F S : Type 0) : Type 0 where
  pub state : AppState F S
  pub stopped : List ℕ
  pub closed : List ℕ
  pub reply : Reply

-- The session that is dropped, if there is one, by its connection.
abbrev pub closes : Option Serverless → List ℕ
closes none = []
closes (some s) = s.pc ∷ []

-- `Drop for Serverless` stops the rig; it closes the connection if a Tokio runtime is current.
abbrev pub dropped : {F S : Type 0} → Bool → AppState F S → AppState F S → Reply → Done F S
dropped runtime old new reply = record {
  state = new;
  stopped = closes old.serverless;
  closed = if runtime then closes old.serverless else [];
  reply = reply;
}

-- Nothing is dropped.
abbrev pub answer : {F S : Type 0} → AppState F S → Reply → Done F S
answer st reply = record { state = st; stopped = []; closed = []; reply = reply }

abbrev pub refuse : {F S : Type 0} → AppState F S → Str → Done F S
refuse st why = answer st (refused why)
