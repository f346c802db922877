-- ===== src/Audio/Decode/Silence.antt =====
-- What the sweep of the silent peers leaves.
use rdoc_squad_link_lite.Base.{
  ℕ, ◌-◌, ◌/◌, ◌≡◌, refl, Bool, true, false, ◌&&◌, List, [], ◌∷◌, none, some, Str, str_eq,
  str_eq_iff, leb, arith, if◌then◌else◌, any, Dict, get, remove, get-remove,
}
use rdoc_squad_link_lite.Audio.Decode.{Decoding, remove_all, is_stale, stale_peers, collect}

abbrev pub listed : Str → List Str → Bool
listed p ks = any (λ k. str_eq k p) ks

pub get-remove_all :
    {V : Type 0} (ks : List Str) (p : Str) (m : Dict V)
    → get p (remove_all ks m) ≡ (if listed p ks then none else get p m)
unfolding remove_all
get-remove_all [] p m = refl
get-remove_all (k ∷ ks) p m =
    ground (arith, get-remove_all ks p (remove k m), get-remove k p m, str_eq_iff k p)

stale_peers-listed :
    {D : Type 0} (idle now : ℕ) (m : Dict (D × ℕ)) (p : Str) (e : D × ℕ)
    → get p m ≡ some e
    → is_stale idle now e ≡ true
    → listed p (stale_peers idle now m) ≡ true
unfolding stale_peers get
stale_peers-listed idle now [] p e h s = cc
stale_peers-listed idle now ((k, x) ∷ m) p e h s = ground (arith, stale_peers-listed idle now m p e)

-- A queue of the mix is left as it was, or removed; a decoder too, and when the sweep is due only
-- those are left that are not silent for too long.
pub collect-decoders :
    {D S : Type 0} (idle now : ℕ) (st : Decoding D S) (p : Str) (e : D × ℕ)
    → get p (collect idle now st).decoders ≡ some e
    → (get p st.decoders ≡ some e)
      × (leb (idle / 2) (now - st.last_gc) && is_stale idle now e ≡ false)
unfolding collect
collect-decoders idle now st p e h = ground (
  arith,
  get-remove_all (stale_peers idle now st.decoders) p st.decoders,
  stale_peers-listed idle now st.decoders p e,
)

-- A queue that is left had a queue before, and its peer still has a decoder if it had one.
pub collect-mix :
    {D S : Type 0} (idle now : ℕ) (st : Decoding D S) (p : Str) (q : List S)
    → get p (collect idle now st).mix ≡ some q
    → (get p st.mix ≡ some q) × (get p (collect idle now st).decoders ≡ get p st.decoders)
unfolding collect
collect-mix idle now st p q h =
    let stale = stale_peers idle now st.decoders in
    ground (arith, get-remove_all stale p st.decoders, get-remove_all stale p st.mix)

pub collect-last_gc :
    {D S : Type 0} (idle now : ℕ) (st : Decoding D S)
    → (collect idle now st).last_gc
      ≡ (if leb (idle / 2) (now - st.last_gc) then now else st.last_gc)
unfolding collect
collect-last_gc idle now st = ground arith
