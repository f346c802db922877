-- ===== src/Ptt/Bindings.antt =====
-- apps/companion/src-tauri/src/lib.rs: the commands by which the webview sets a binding, or arms the
-- capture of one.
use rdoc_squad_link_lite.Base.{
  ℕ, false, ◌&&◌, Option, none, some, Str, leb, ltb, if◌then◌else◌, length,
}
use rdoc_squad_link_lite.Ptt.Raw.{Input, put, any_bound}

abbrev pub binding_code : Option Str → Option Str
binding_code none = none
binding_code (some c) = if leb 1 (length c) && leb (length c) 64 then some c else none

unfoldable pub set_ptt_binding : Input → ℕ → Option Str → Input
set_ptt_binding s slot code = if leb 2 slot then s else record s {
  ptt_down = put slot false s.ptt_down;
  ptt_bindings = put slot (binding_code code) s.ptt_bindings;
}

unfoldable pub start_ptt_capture : Input → ℕ → Input
start_ptt_capture s slot = if ltb slot 2 then record s { ptt_capture = some slot } else s

unfoldable pub set_chan_binding : Input → ℕ → Option Str → Input
set_chan_binding s slot code =
    if leb 2 slot
    then s
    else (let bindings = put slot (binding_code code) s.chan_bindings in
        record s {
          chan_down = put slot false s.chan_down;
          chan_bindings = bindings;
          chan_any_bound = any_bound bindings;
        })

unfoldable pub start_chan_capture : Input → ℕ → Input
start_chan_capture s slot = if ltb slot 2 then record s { chan_capture = some slot } else s
