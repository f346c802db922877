-- ===== src/Mesh/Ice.antt =====
-- apps/companion-core/src/mesh.rs: the candidates of a peer, `add_or_queue_ice` and `flush_ice`.
pub mod Delivery
use rdoc_squad_link_lite.Base.{
  ℕ, Bool, true, false, List, [], ◌∷◌, ◌++◌, Str, length, ltb, if◌then◌else◌,
}
use rdoc_squad_link_lite.Mesh.{Effect, PeerConn, add_ice_candidate}
use rdoc_squad_link_lite.Mesh.Diag.{note_remote}

abbrev pub max_pending_ice : ℕ
max_pending_ice = 128

-- Whether `serde_json` reads a text as a candidate, and `str::trim_start`.
module _ (is_candidate : Str → Bool) (trim_start : Str → Str) where
  abbrev pub add_ice : ℕ → Str → List Effect
  add_ice pc cand = if is_candidate cand then add_ice_candidate pc cand ∷ [] else []

  unfoldable pub add_each : ℕ → List Str → List Effect
  add_each pc [] = []
  add_each pc (cand ∷ cands) = add_ice pc cand ++ add_each pc cands

  unfoldable pub add_or_queue_ice : PeerConn → Str → PeerConn × List Effect
  add_or_queue_ice c cand =
      let diag = note_remote trim_start c.diag cand in
      if c.remote_set
      then (record c { diag = diag }, add_ice c.pc cand)
      else if ltb (length c.pending_ice) max_pending_ice
      then (record c { diag = diag; pending_ice = c.pending_ice ++ cand ∷ [] }, [])
      else (record c { diag = diag }, [])

  unfoldable pub flush_ice : PeerConn → PeerConn × List Effect
  flush_ice c = (
    record c { remote_set = true; diag = record c.diag { remote_desc = true }; pending_ice = [] },
    add_each c.pc c.pending_ice,
  )
