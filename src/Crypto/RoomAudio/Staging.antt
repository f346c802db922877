-- ===== src/Crypto/RoomAudio/Staging.antt =====
-- The order of the keys, and what staging, promoting and installing keep.
use rdoc_squad_link_lite.Base.{
  ap, ◌∙◌, subst, All, ℕ, ◌≡◌, refl, true, false, List, [], ◌∷◌, Option, none, some, Str,
  if◌then◌else◌, arith, str_lt_trans, str_lt_asym, str_lt_total,
}
use mathlib.Core.List.{Permᴰ}
use mathlib.Core.Path.{ap₂}
use mathlib.Core.List.Permᴰ.{nil, cons, swap, trans}
use rdoc_squad_link_lite.Crypto.RoomAudio.{RoomKey, RoomAudio, stage, better}

better_trans : (a b c : RoomKey) → better a b ≡ true → better b c ≡ true → better a c ≡ true
unfolding better
better_trans a b c p q = ground (arith, str_lt_trans a.auth b.auth c.auth)

better_asym : (a b : RoomKey) → better a b ≡ true → better b a ≡ false
unfolding better
better_asym a b p = ground (arith, str_lt_asym a.auth b.auth)

-- Two keys are ordered unless they have one generation and one authority.
better_total :
    (a b : RoomKey) → better a b ≡ false → better b a ≡ false → (a.gen ≡ b.gen) × (a.auth ≡ b.auth)
unfolding better
better_total a b p q = ground (arith, str_lt_total a.auth b.auth)

abbrev pick : RoomKey → RoomKey → RoomKey
pick c k = if better k c then k else c

abbrev best : Option RoomKey → RoomKey → RoomKey
best none k = k
best (some c) k = pick c k

cur-stage : (r : RoomAudio) (k : RoomKey) → (stage r k).0.cur ≡ some (best r.cur k)
unfolding stage
cur-stage r k = ground arith

pick_comm :
    (c a b : RoomKey)
    → (a.gen ≡ b.gen → a.auth ≡ b.auth → a ≡ b)
    → pick (pick c a) b ≡ pick (pick c b) a
pick_comm c a b h = ground (
  arith,
  better_trans a b c,
  better_trans b a c,
  better_asym a b,
  better_asym b a,
  better_total a b,
  better_trans a c b,
  better_trans b c a,
)

pick_tie : (a b : RoomKey) → (a.gen ≡ b.gen → a.auth ≡ b.auth → a ≡ b) → pick a b ≡ pick b a
pick_tie a b h = ground (arith, better_asym a b, better_asym b a, better_total a b)

best_comm :
    (c : Option RoomKey) (a b : RoomKey)
    → (a.gen ≡ b.gen → a.auth ≡ b.auth → a ≡ b)
    → best (some (best c a)) b ≡ best (some (best c b)) a
best_comm none a b h = pick_tie a b h
best_comm (some c) a b h = pick_comm c a b h

-- Two keys staged in either order leave the same newest key, if one generation of one authority is
-- one key: nodes that receive the same keys in different orders agree.
pub stage_comm :
    (r : RoomAudio) (a b : RoomKey)
    → (a.gen ≡ b.gen → a.auth ≡ b.auth → a ≡ b)
    → (stage (stage r a).0 b).0.cur ≡ (stage (stage r b).0 a).0.cur
stage_comm r a b h =
    rw (cur-stage (stage r a).0 b, cur-stage (stage r b).0 a, cur-stage r a, cur-stage r b)
      (ap some (best_comm r.cur a b h))

pub stage_all : RoomAudio → List RoomKey → RoomAudio
stage_all r [] = r
stage_all r (k ∷ ks) = stage_all (stage r k).0 ks

-- Each pair of generation and authority has one key: what `mint` gives for it.
abbrev pub Minted : (ℕ → Str → Str) → RoomKey → Type 0
Minted mint k = k.key ≡ mint k.gen k.auth

Minted-eq :
    (mint : ℕ → Str → Str) (a b : RoomKey)
    → Minted mint a
    → Minted mint b
    → a.gen ≡ b.gen
    → a.auth ≡ b.auth
    → a ≡ b
Minted-eq mint a b p q g h = ground arith

bests : Option RoomKey → List RoomKey → Option RoomKey
bests c [] = c
bests c (k ∷ ks) = bests (some (best c k)) ks

cur-stage_all : (r : RoomAudio) (ks : List RoomKey) → (stage_all r ks).cur ≡ bests r.cur ks
unfolding stage_all bests
cur-stage_all r [] = refl
cur-stage_all r (k ∷ ks) = rw (cur-stage_all (stage r k).0 ks, cur-stage r k)

module _ (mint : ℕ → Str → Str) where
  All-Perm : {xs ys : List RoomKey} → Permᴰ xs ys → All (Minted mint) xs → All (Minted mint) ys
  All-Perm nil h = h
  All-Perm (cons e p) h = (subst (Minted mint) e h.0, All-Perm p h.1)
  All-Perm (swap e f) h = (subst (Minted mint) f h.1.0, (subst (Minted mint) e h.0, h.1.1))
  All-Perm (trans p q) h = All-Perm q (All-Perm p h)

  bests-Perm :
      {xs ys : List RoomKey} (c : Option RoomKey)
      → Permᴰ xs ys
      → All (Minted mint) xs
      → bests c xs ≡ bests c ys
  unfolding bests
  bests-Perm c nil h = refl
  bests-Perm c (cons {a = a} {b = b} {l₂ = l₂} e p) h =
      bests-Perm (some (best c a)) p h.1 ∙ ap (λ x. bests (some (best c x)) l₂) e
  bests-Perm c (swap {a = a} {b = b} {l = l} e f) h =
      ap (λ x. bests (some x) l) (best_comm c a b (Minted-eq mint a b h.0 h.1.0))
      ∙ ap₂ (λ x y. bests (some (best (some (best c x)) y)) l) f e
  bests-Perm c (trans p q) h = bests-Perm c p h ∙ bests-Perm c q (All-Perm p h)

  -- Nodes in the same state that stage the same keys in different orders hold the same newest key,
  -- where each pair of generation and authority has one key.
  pub stage_all-Perm :
      (r : RoomAudio) {xs ys : List RoomKey}
      → Permᴰ xs ys
      → All (Minted mint) xs
      → (stage_all r xs).cur ≡ (stage_all r ys).cur
  stage_all-Perm r {xs} {ys} p h =
      rw (cur-stage_all r xs, cur-stage_all r ys) (bests-Perm r.cur p h)
