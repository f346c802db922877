-- ===== src/Ptt/Raw.antt =====
-- apps/companion/src-tauri/src/lib.rs: `handle_raw`, what one raw key or mouse edge does. The
-- statics are the fields of `Input`; what `app.emit` is given is returned. A capture slot is `none`
-- for -1. The window is there, so that every event is emitted.
pub mod Capture
use rdoc_squad_link_lite.Base.{
  ℕ, Bool, true, false, not, ◌&&◌, ◌||◌, List, [], ◌∷◌, ◌++◌, Option, none, some, Str, lit, str_eq,
  ◌==◌, if◌then◌else◌, is_some, min,
}
use rdoc_squad_link_lite.Ptt.Chord.{
  Mods, mod_of_label, mods_ok, parse_binding, build_combo, set_mod,
}
use rdoc_squad_link_lite.Ptt.Sources.{PttSources, update}

-- An array with the slots 0 and 1.
pub record Slots (A : Type 0) : Type 0 where
  pub slot_0 : A
  pub slot_1 : A

abbrev pub put : {A : Type 0} → ℕ → A → Slots A → Slots A
put i a s = if i == 0 then record s { slot_0 = a } else record s { slot_1 = a }

pub record Input : Type 0 where
  pub held : Mods
  pub ptt_capture : Option ℕ
  pub chan_capture : Option ℕ
  pub ptt_bindings : Slots (Option Str)
  pub ptt_down : Slots Bool
  pub chan_bindings : Slots (Option Str)
  pub chan_down : Slots Bool
  pub chan_any_bound : Bool
  pub sources : PttSources

-- `chan_prev` is the event `chan-cycle` with -1, `chan_next` the one with 1.
pub data UiEvent : Type 0 where
  ptt : Bool → UiEvent
  ptt_bound chan_bound : ℕ → Str → UiEvent
  chan_prev chan_next : UiEvent

abbrev pub track : Str → Bool → Mods → Mods
track code down held = elim (mod_of_label code) [ none ↦ held | some key ↦ set_mod key down held ]

-- The press that binds a slot: the first one of a key that is no modifier.
abbrev pub binds : Str → Bool → Bool
binds code down = down && not (is_some (mod_of_label code))

unfoldable pub capture_ptt : ℕ → Input → Str → Bool → Input × List UiEvent
capture_ptt cap s code down =
    if binds code down
    then (let slot = min cap 1 in
        let combo = build_combo code s.held in
        (
          record s {
            ptt_capture = none;
            ptt_down = put slot false s.ptt_down;
            ptt_bindings = put slot (some combo) s.ptt_bindings;
          },
          ptt_bound slot combo ∷ [],
        ))
    else (s, [])

-- Setting a slot leaves a channel key bound, which is what `refresh_chan_bound` finds.
abbrev pub any_bound : Slots (Option Str) → Bool
any_bound b = is_some b.slot_0 || is_some b.slot_1

unfoldable pub capture_chan : ℕ → Input → Str → Bool → Input × List UiEvent
capture_chan cap s code down =
    if binds code down
    then (let slot = min cap 1 in
        let combo = build_combo code s.held in
        let bindings = put slot (some combo) s.chan_bindings in
        (
          record s {
            chan_capture = none;
            chan_down = put slot false s.chan_down;
            chan_bindings = bindings;
            chan_any_bound = any_bound bindings;
          },
          chan_bound slot combo ∷ [],
        ))
    else (s, [])

-- Whether the base key of a binding is down, after the edge.
abbrev pub edge : Str → Bool → Option Str → Bool → Bool
edge code down none was = was
edge code down (some bind) was = if str_eq (parse_binding bind).1 code then down else was

abbrev pub fires : Mods → Option Str → Bool → Bool
fires held none is_down = false
fires held (some bind) is_down = is_down && mods_ok (parse_binding bind).0 held

abbrev pub edges : Str → Bool → Slots (Option Str) → Slots Bool → Slots Bool
edges code down b was = record {
  slot_0 = edge code down b.slot_0 was.slot_0;
  slot_1 = edge code down b.slot_1 was.slot_1;
}

abbrev pub any_fires : Mods → Slots (Option Str) → Slots Bool → Bool
any_fires held b is_down = fires held b.slot_0 is_down.slot_0 || fires held b.slot_1 is_down.slot_1

abbrev pub told : Option Bool → List UiEvent
told none = []
told (some combined) = ptt combined ∷ []

unfoldable pub on_ptt_edge : Input → Str → Bool → Input × List UiEvent
unfolding update
on_ptt_edge s code down =
    let is_down = edges code down s.ptt_bindings s.ptt_down in
    let combined = any_fires s.held s.ptt_bindings is_down in
    let (sources, changed) = update s.sources (some combined) none in
    (record s { ptt_down = is_down; sources = sources }, told changed)

-- The step of a channel key: once for each press of its base key.
abbrev pub cycles : Mods → Str → Bool → Option Str → Bool → UiEvent → List UiEvent
cycles held code down none was event = []
cycles held code down (some bind) was event =
    let (m, base) = parse_binding bind in
    if str_eq base code && (down && (not was && mods_ok m held)) then event ∷ [] else []

unfoldable pub on_chan_edge : Input → Str → Bool → Input × List UiEvent
on_chan_edge s code down =
    if s.chan_any_bound
    then (
      record s { chan_down = edges code down s.chan_bindings s.chan_down },
      cycles s.held code down s.chan_bindings.slot_0 s.chan_down.slot_0 chan_prev
          ++ cycles s.held code down s.chan_bindings.slot_1 s.chan_down.slot_1 chan_next,
    )
    else (s, [])

unfoldable pub handle_raw : Input → Str → Bool → Input × List UiEvent
unfolding capture_ptt capture_chan on_ptt_edge on_chan_edge
handle_raw input code down =
    let s = record input { held = track code down input.held } in
    elim s.ptt_capture [
      | some cap ↦ capture_ptt cap s code down
      | none ↦ elim s.chan_capture [
        | some cap ↦ capture_chan cap s code down
        | none ↦
            let (s', events) = on_ptt_edge s code down in
            let (s'', more) = on_chan_edge s' code down in (s'', events ++ more)
      ]
    ]
