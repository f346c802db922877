-- ===== src/Ptt/Raw/Capture.antt =====
-- What a captured chord does.
use rdoc_squad_link_lite.Base.{
  ℕ, ◌≡◌, ◌≢◌, refl, Bool, true, false, none, some, Str, str_eq_refl, min, All, arith, ◌∙◌,
}
use rdoc_squad_link_lite.Ptt.Chord.{Mods, plus, mod_of_label, mods_ok, build_combo}
use rdoc_squad_link_lite.Ptt.Chord.RoundTrip.{parse_binding-build_combo}
use rdoc_squad_link_lite.Ptt.Sources.{update}
use rdoc_squad_link_lite.Ptt.Raw.{
  Input, track, put, handle_raw, edges, any_fires, on_ptt_edge, on_chan_edge, capture_ptt,
}

mods_ok_refl : (m : Mods) → mods_ok m m ≡ true
unfolding mods_ok
mods_ok_refl m = ground arith

key-on_ptt_edge :
    (s : Input) (code : Str) (down : Bool)
    → (on_ptt_edge s code down).0.sources.key
      ≡ any_fires s.held s.ptt_bindings (edges code down s.ptt_bindings s.ptt_down)
unfolding on_ptt_edge update
key-on_ptt_edge s code down = ground arith

sources-on_chan_edge :
    (s : Input) (code : Str) (down : Bool) → (on_chan_edge s code down).0.sources ≡ s.sources
unfolding on_chan_edge
sources-on_chan_edge s code down = ground arith

track_plain :
    (code : Str) (down : Bool) (held : Mods)
    → mod_of_label code ≡ none
    → track code down held ≡ held
track_plain code down held plain = rw (plain, track) refl

-- Outside of a capture the keys transmit where a bound chord is held after the edge.
key-handle_raw :
    (s : Input) (code : Str) (down : Bool)
    → s.ptt_capture ≡ none
    → s.chan_capture ≡ none
    → mod_of_label code ≡ none
    → (handle_raw s code down).0.sources.key
      ≡ any_fires s.held s.ptt_bindings (edges code down s.ptt_bindings s.ptt_down)
unfolding handle_raw
key-handle_raw s code down p q plain =
    rw
      (
        handle_raw,
        p,
        q,
        track_plain code down s.held plain,
        sources-on_chan_edge (on_ptt_edge s code down).0 code down,
      )
      (key-on_ptt_edge s code down)

-- The state after a capture.
abbrev captured : Input → ℕ → Str → Input
captured s slot code = record s {
  ptt_capture = none;
  ptt_down = put slot false s.ptt_down;
  ptt_bindings = put slot (some (build_combo code s.held)) s.ptt_bindings;
}

handle_raw-captured :
    (s : Input) (slot : ℕ) (code : Str)
    → s.ptt_capture ≡ some slot
    → mod_of_label code ≡ none
    → (handle_raw s code true).0 ≡ captured s (min slot 1) code
unfolding handle_raw capture_ptt
handle_raw-captured s slot code p plain =
    rw (handle_raw, p, capture_ptt, track_plain code true s.held plain, plain) refl

fires-captured :
    (s : Input) (slot : ℕ) (code : Str)
    → All (λ c. c ≢ plus) code
    → any_fires s.held
        (captured s slot code).ptt_bindings
        (edges code true (captured s slot code).ptt_bindings (captured s slot code).ptt_down)
      ≡ true
fires-captured s slot code h =
    ground (arith, parse_binding-build_combo s.held code h, str_eq_refl code, mods_ok_refl s.held)

-- While a slot is captured and no channel key is, the press of a key that is no modifier and has no
-- plus sign in its label leaves the transmit state as it is, and the same press once more, with the
-- same modifiers held, transmits.
pub handle_raw-capture :
    (s : Input) (slot : ℕ) (code : Str)
    → s.ptt_capture ≡ some slot
    → s.chan_capture ≡ none
    → mod_of_label code ≡ none
    → All (λ c. c ≢ plus) code
    → ((handle_raw s code true).0.sources ≡ s.sources)
      × ((handle_raw (handle_raw s code true).0 code true).0.sources.key ≡ true)
handle_raw-capture s slot code p q plain h =
    let e = handle_raw-captured s slot code p plain in
    (
      rw e refl,
      rw e (
          key-handle_raw (captured s (min slot 1) code) code true refl q plain
          ∙ fires-captured s (min slot 1) code h),
    )
