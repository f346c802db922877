-- ===== src/Mesh/Ice/Delivery.antt =====
-- The candidates of a peer, before and after its description: which of them reach the connection.
use mathlib.Core.List.{append-nil, append_assoc}
use rdoc_squad_link_lite.Base.{
  ℕ, ◌≤◌, ◌≡◌, refl, ◌∙◌, sym, ap, Bool, true, false, List, [], ◌∷◌, ◌++◌, Str, length, take, arith,
  ltb, length-append, take_all, Bool-cases, inl, inr,
}
use rdoc_squad_link_lite.Base.Bytes.{take-append}
use rdoc_squad_link_lite.Mesh.{Effect, PeerConn}
use rdoc_squad_link_lite.Mesh.Diag.{note_remote}
use rdoc_squad_link_lite.Mesh.Ice.{add_or_queue_ice, flush_ice, add_ice, add_each, max_pending_ice}

module _ (is_candidate : Str → Bool) (trim_start : Str → Str) where
  pub arrive : PeerConn → List Str → PeerConn × List Effect
  arrive c [] = (c, [])
  arrive c (cand ∷ cands) =
      let (c', effects) = add_or_queue_ice is_candidate trim_start c cand in
      let (c'', later) = arrive c' cands in (c'', effects ++ later)

  abbrev pub Queued : PeerConn → List Str → PeerConn × List Effect → Type 0
  Queued c cands r =
      (r.0.pc ≡ c.pc)
      × (r.0.remote_set ≡ false)
      × (r.0.pending_ice ≡ take max_pending_ice (c.pending_ice ++ cands))
      × (r.1 ≡ [])

  arrive-Queued :
      (c : PeerConn) (cands : List Str)
      → c.remote_set ≡ false
      → length c.pending_ice ≤ max_pending_ice
      → Queued c cands (arrive c cands)
  unfolding arrive add_or_queue_ice
  arrive-Queued c [] h le = (
    refl,
    h,
    sym (take_all max_pending_ice c.pending_ice le)
        ∙ ap (take max_pending_ice) (sym (append-nil c.pending_ice)),
    refl,
  )
  arrive-Queued c (cand ∷ cands) h le =
      let diag = note_remote trim_start c.diag cand in
      elim (Bool-cases (ltb (length c.pending_ice) max_pending_ice)) [
        | inl room ↦
            let queue = c.pending_ice ++ cand ∷ [] in
            let fits : length queue ≤ max_pending_ice =
              ground (arith, length-append c.pending_ice (cand ∷ [])) in
            let c' = record c { remote_set = false; diag = diag; pending_ice = queue } in
            let (pc, unset, pending, none_yet) = arrive-Queued c' cands refl fits in
            let assoc = append_assoc c.pending_ice (cand ∷ []) cands in
            rw (h, room) (pc, unset, pending ∙ ap (take max_pending_ice) assoc, none_yet)
        | inr full ↦
            let n : length c.pending_ice ≡ max_pending_ice = ground arith in
            let c' = record c { remote_set = false; diag = diag } in
            let (pc, unset, pending, none_yet) = arrive-Queued c' cands refl le in
            let cut = λ (xs : List Str). take-append max_pending_ice c.pending_ice xs n in
            rw (h, full) (pc, unset, pending ∙ (cut cands ∙ sym (cut (cand ∷ cands))), none_yet)
      ]

  arrive_set :
      (c : PeerConn) (cands : List Str)
      → c.remote_set ≡ true
      → (arrive c cands).1 ≡ add_each is_candidate trim_start c.pc cands
  unfolding arrive add_or_queue_ice add_each
  arrive_set c [] h = refl
  arrive_set c (cand ∷ cands) h = rw h (
      ap (λ e. add_ice is_candidate trim_start c.pc cand ++ e)
        (arrive_set (record c { remote_set = true; diag = note_remote trim_start c.diag cand })
          cands refl))

  add_each-append :
      (pc : ℕ) (xs ys : List Str)
      → add_each is_candidate trim_start pc (xs ++ ys)
        ≡ add_each is_candidate trim_start pc xs ++ add_each is_candidate trim_start pc ys
  unfolding add_each
  add_each-append pc [] ys = refl
  add_each-append pc (x ∷ xs) ys =
      ap (λ e. add_ice is_candidate trim_start pc x ++ e) (add_each-append pc xs ys)
      ∙ sym (
          append_assoc (add_ice is_candidate trim_start pc x)
            (add_each is_candidate trim_start pc xs) (add_each is_candidate trim_start pc ys))

  -- Whatever candidates come before the peer's description and after it: the connection is given
  -- the first max_pending_ice of the earlier ones, when the description is there, and then all of
  -- the later ones, in order, but for those that are no candidates.
  pub arrive-flush_ice :
      (c : PeerConn) (before after : List Str)
      → c.remote_set ≡ false
      → c.pending_ice ≡ []
      → let (c1, effects1) = arrive c before in
        let (c2, effects2) = flush_ice is_candidate trim_start c1 in
        (effects1 ≡ [])
        × (effects2 ++ (arrive c2 after).1
            ≡ add_each is_candidate trim_start c.pc (take max_pending_ice before ++ after))
  unfolding flush_ice
  arrive-flush_ice c before after h e =
      let (pc, unset, pending, none_yet) = arrive-Queued c before h (ground arith) in
      let c2 = (flush_ice is_candidate trim_start (arrive c before).0).0 in
      (
        none_yet,
        rw (arrive_set c2 after refl, pc, pending, e)
            (sym (add_each-append c.pc (take max_pending_ice before) after)),
      )
