-- ===== src/Engine/Loop/Tick.antt =====
-- The periodic arm of the loop: the watchdogs of the room key and of the links. Not here: the rates
-- that the user sees, which are floating point.
pub mod Retries
pub mod Rebuilt
use rdoc_squad_link_lite.Base.{
  ℕ, ◌-◌, Bool, true, false, not, ◌&&◌, List, [], ◌∷◌, ◌++◌, Option, none, some, Str, lit, leb, any,
  ◌||◌, values, is_some, if◌then◌else◌,
}
use rdoc_squad_link_lite.Crypto.RoomAudio.{generation}
use rdoc_squad_link_lite.Engine.Member.{Member, Members}
use rdoc_squad_link_lite.Engine.Messages
use rdoc_squad_link_lite.Engine.Watchdog.{secs, relink_due, keyless_warn_due, or_now}
use rdoc_squad_link_lite.Mesh.{Mesh, Effect}
use rdoc_squad_link_lite.Mesh.Links.{Webrtc, relink, link_why}
use rdoc_squad_link_lite.Engine.Loop.{Config, Turn, Loop, Step, Output, ui, continue, mesh_out}
use rdoc_squad_link_lite.Engine.Loop.Signals.{log}

abbrev pub link_warn_after : ℕ
link_warn_after = secs 20

-- `m.last_relink.unwrap_or(since)`.
abbrev pub tried_at : ℕ → Option ℕ → ℕ
tried_at since none = since
tried_at since (some at) = at

abbrev pub retries : Str → ℕ → Str → Member → Bool
retries me now id m =
    let since = or_now now m.down_since in
    not m.linked && relink_due me id (now - since) (now - tried_at since m.last_relink)

abbrev pub warns : ℕ → Member → Bool
warns now m =
    not m.linked && (not m.link_warned && leb link_warn_after (now - or_now now m.down_since))

unfoldable pub watched : Str → ℕ → Str → Member → Member
watched me now id m = if m.linked then m else record m {
  down_since = some (or_now now m.down_since);
  last_relink = if retries me now id m then some now else m.last_relink;
  link_warned = m.link_warned || warns now m;
}

unfoldable pub watch : Str → ℕ → Members → Members
watch me now [] = []
watch me now ((id, m) ∷ members) = (id, watched me now id m) ∷ watch me now members

unfoldable pub to_retry : Str → ℕ → Members → List Str
to_retry me now [] = []
to_retry me now ((id, m) ∷ members) =
    let rest = to_retry me now members in if retries me now id m then id ∷ rest else rest

unfoldable pub to_warn : ℕ → Members → List (Str × Str)
to_warn now [] = []
to_warn now ((id, m) ∷ members) =
    let rest = to_warn now members in if warns now m then (id, m.name) ∷ rest else rest

unfoldable pub relink_each : Webrtc → Mesh → List Str → Mesh × List Effect
relink_each w m [] = (m, [])
relink_each w m (id ∷ ids) =
    let r = relink w m id in let (m', later) = relink_each w r.mesh ids in (m', r.effects ++ later)

abbrev pub link_text : Mesh → Str → Str → Str
link_text m id name =
    lit "Keine Verbindung zu "
    ++ (name
        ++ (lit
              " - ihr hoert euch gegenseitig nicht und seht die Kanaele des anderen nicht. Grund: "
            ++ (link_why m id ++ lit ". Neuaufbau laeuft automatisch.")))

unfoldable pub warnings_of : Mesh → List (Str × Str) → List Output
warnings_of m [] = []
warnings_of m ((id, name) ∷ ids) = log (link_text m id name) ∷ warnings_of m ids

abbrev pub keyless_text : Str
keyless_text =
    lit
      "Sprach-Schluessel nicht erhalten - keine direkte Verbindung zum Schluessel-Verwalter. Du hoerst die anderen nicht und wirst nicht gehoert. Abhilfe: \"Session neu verschluesseln\" druecken - das baut jede Verbindung neu auf und verteilt den Schluessel erneut. Hilft das nicht, sollte der Teilnehmer mit dem Stern in seiner Verschluesselungs-Zeile die Session neu betreten."

unfoldable pub on_tick : Config → Turn → Loop → Step
on_tick cfg t l =
    let keyless =
      not (is_some (generation l.keys.room)) && any (λ m. m.secure) (values l.members) in
    let (k, warned) = keyless_warn_due keyless l.keyless t.now in
    let (mesh, effects) = relink_each t.webrtc l.mesh (to_retry cfg.user_id t.now l.members) in
    let l' = record l { members = watch cfg.user_id t.now l.members; keyless = k; mesh = mesh } in
    continue l' (
      (if warned then log keyless_text ∷ [] else [])
      ++ (mesh_out effects ++ warnings_of mesh (to_warn t.now l.members)))
