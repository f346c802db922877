-- ===== src/Ptt/Pads/Edges.antt =====
-- The edges lead from one report to the next.
use rdoc_squad_link_lite.Base.{
  ℕ, ◌≡◌, refl, Bool, true, false, List, [], ◌∷◌, ◌++◌, ◌==◌, if◌then◌else◌, arith,
}
use rdoc_squad_link_lite.Ptt.Pads.{Edge, contains, edges, diff_edges}

-- Whether the button `u` is down after the edges, if it was `b` before.
unfoldable pub down_after : ℕ → Bool → List Edge → Bool
down_after u b [] = b
down_after u b ((v, down) ∷ es) = down_after u (if v == u then down else b) es

down_after-++ :
    (u : ℕ) (b : Bool) (es fs : List Edge)
    → down_after u b (es ++ fs) ≡ down_after u (down_after u b es) fs
unfolding down_after
down_after-++ u b [] fs = refl
down_after-++ u b ((v, down) ∷ es) fs = down_after-++ u (if v == u then down else b) es fs

-- A button of the first list that is not in the second is in the direction of the edges after them;
-- any other is as it was.
down_after-edges :
    (u : ℕ) (b down : Bool) (us others : List ℕ)
    → down_after u b (edges down us others)
      ≡ (if contains others u then b else if contains us u then down else b)
unfolding down_after edges
down_after-edges u b down [] others = ground arith
down_after-edges u b down (v ∷ us) others =
    ground (arith, down_after-edges u b down us others, down_after-edges u down down us others)

-- Whatever the two reports: a button that was down before exactly if it is in the first is down after
-- the edges exactly if it is in the second.
pub down_after-diff_edges :
    (u : ℕ) (prev now : List ℕ)
    → down_after u (contains prev u) (diff_edges prev now) ≡ contains now u
unfolding diff_edges
down_after-diff_edges u prev now = ground (
  arith,
  down_after-++ u (contains prev u) (edges true now prev) (edges false prev now),
  down_after-edges u (contains prev u) true now prev,
  down_after-edges u true false prev now,
  down_after-edges u false false prev now,
)
