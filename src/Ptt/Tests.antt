-- ===== src/Ptt/Tests.antt =====
-- Push to talk at concrete inputs.
use rdoc_squad_link_lite.Base.{◌≡◌, true, false, lit, arith}
use rdoc_squad_link_lite.Ptt.Chord.{Mods, parse_binding, build_combo}
use rdoc_squad_link_lite.Ptt.Chord.RoundTrip.{parse_binding-build_combo}

abbrev ctrl_shift : Mods
ctrl_shift = record { shift = true; ctrl = true; alt = false; meta = false }

parse_binding-build_combo_example :
    parse_binding (build_combo (lit "F8") ctrl_shift) ≡ (ctrl_shift, lit "F8")
parse_binding-build_combo_example =
    parse_binding-build_combo ctrl_shift (lit "F8") (λ e. omega arith, (λ e. omega arith, tt))
