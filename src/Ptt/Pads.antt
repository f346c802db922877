-- ===== src/Ptt/Pads.antt =====
-- apps/companion/src-tauri/src/lib.rs: `diff_buttons`, from the report of a game pad to the presses
-- and releases of its buttons.
pub mod Edges
use rdoc_squad_link_lite.Base.{
  ℕ, Bool, true, false, List, [], ◌∷◌, ◌++◌, Str, lit, any, ◌==◌, if◌then◌else◌, not,
}
use rdoc_squad_link_lite.Base.Decimal.{decimal}
use rdoc_squad_link_lite.Ptt.Raw.{Input, UiEvent, handle_raw}

-- A button, and whether it goes down.
abbrev pub Edge : Type 0
Edge = ℕ × Bool

abbrev pub contains : List ℕ → ℕ → Bool
contains us u = any (λ v. v == u) us

-- The buttons of the first list that are not in the second, with the direction.
unfoldable pub edges : Bool → List ℕ → List ℕ → List Edge
edges down [] others = []
edges down (u ∷ us) others =
    let rest = edges down us others in if contains others u then rest else (u, down) ∷ rest

-- The presses, then the releases.
unfoldable pub diff_edges : List ℕ → List ℕ → List Edge
diff_edges prev now = edges true now prev ++ edges false prev now

-- `handle_raw(format!("Pad:{u}"), down)` for each edge.
unfoldable pub emit_edges : List Edge → Input → Input × List UiEvent
emit_edges [] s = (s, [])
emit_edges ((u, down) ∷ es) s =
    let (s', out) = handle_raw s (lit "Pad:" ++ decimal u) down in
    let (s'', later) = emit_edges es s' in (s'', out ++ later)

-- What is remembered of the device is the report.
unfoldable pub diff_buttons : List ℕ → List ℕ → Input → Input × List UiEvent × List ℕ
diff_buttons prev now s = let (s', out) = emit_edges (diff_edges prev now) s in (s', out, now)
