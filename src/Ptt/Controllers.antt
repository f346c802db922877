-- ===== src/Ptt/Controllers.antt =====
-- apps/companion/src-tauri/src/lib.rs: what becomes of the commands of the control server: they merge
-- into the transmit state, or go to the webview.
use rdoc_squad_link_lite.Base.{Bool, List, [], ◌∷◌, map, Option, none, some}
use rdoc_squad_link_lite.Ptt.Sources.{update}
use rdoc_squad_link_lite.Ptt.Raw.{Input, UiEvent, told}
use rdoc_squad_link_lite.Control
use rdoc_squad_link_lite.Control.{CtlOut, ℤ}

-- The events `ptt`, `chan-cycle`, `ctl` and `ctl-refresh`.
pub data AppEvent (V : Type 0) : Type 0 where
  ptt_told : UiEvent → AppEvent V
  chan_cycled : ℤ → AppEvent V
  ctl_passed : V → AppEvent V
  ctl_refresh : AppEvent V

unfoldable pub publish_ptt : Option Bool → Option Bool → Input → Input × List UiEvent
publish_ptt key ctl s =
    let (sources, changed) = update s.sources key ctl in
    (record s { sources = sources }, told changed)

unfoldable pub on_ctl_out : {V : Type 0} → CtlOut V → Input → Input × List (AppEvent V)
on_ctl_out (Control.ptt on) s =
    let (s', out) = publish_ptt none (some on) s in (s', map (λ e. ptt_told e) out)
on_ctl_out (Control.chan_cycle d) s = (s, chan_cycled d ∷ [])
on_ctl_out (Control.ctl v) s = (s, ctl_passed v ∷ [])
on_ctl_out Control.refresh s = (s, ctl_refresh ∷ [])
