-- ===== src/Engine/Coordinator/Convergence.antt =====
-- A node that joins late and is the authority by its id learns of the generation that is in use
-- and takes over.
use rdoc_squad_link_lite.Base.{
  ℕ, suc, ◌+◌, ◌≤◌, ◌<◌, ◌≡◌, refl, true, false, List, [], ◌∷◌, some, Str, arith,
  saturating_add_u32, u32_max, contains_key,
}
use rdoc_squad_link_lite.Crypto.RoomAudio.{RoomAudio, RoomKey, stage, generation, better}
use rdoc_squad_link_lite.Crypto.RoomAudio.Plaintext.{cur-promote}
use rdoc_squad_link_lite.Engine.Member.{Members}
use rdoc_squad_link_lite.Engine.Authority.{am_authority, is_authority_peer}
use rdoc_squad_link_lite.Engine.Coordinator.{
  Coordinator, adopt, activate, rotate, on_secure, on_room_key, on_room_gen, unwrap_or_zero,
  room_gen_bound, mint, hand_out, send_gen,
}
use rdoc_squad_link_lite.Engine.Coordinator.Generations.{IsAhead, staged}

cur-stage :
    (r : RoomAudio) (k : RoomKey)
    → unwrap_or_zero (generation r) < k.gen
    → ((stage r k).0.cur ≡ some k) × ((stage r k).1 ≡ true)
unfolding stage better
cur-stage r k h = ground arith

cur-activate : (c : Coordinator) (room : RoomAudio) → (activate c room).room.cur ≡ room.cur
unfolding activate
cur-activate c room = ground (arith, cur-promote room (unwrap_or_zero (generation room)))

-- A newer key is taken and is the current one then.
cur-adopt :
    (c : Coordinator) (k : RoomKey)
    → staged c < k.gen
    → ((adopt c k).0.room.cur ≡ some k) × ((adopt c k).1 ≡ true)
unfolding adopt
cur-adopt c k h = ground (arith, cur-stage c.room k h, cur-activate c (stage c.room k).0)

-- A rotation below the largest generation mints the next one and hands it out.
pub rotate_lem :
    (c : Coordinator) (fresh : Str) (peers : List Str)
    → IsAhead c
    → c.room_gen < u32_max
    → let k : RoomKey = record { gen = suc c.room_gen; auth = c.me_id; key = fresh } in
      ((rotate c fresh peers).1 ≡ hand_out (some k) peers)
      × ((rotate c fresh peers).0.room.cur ≡ some k)
unfolding rotate
rotate_lem c fresh peers ahead small =
    let k : RoomKey = record { gen = suc c.room_gen; auth = c.me_id; key = fresh } in
    let e : mint c (saturating_add_u32 c.room_gen 1) fresh ≡ k = ground arith in
    let cur = (cur-adopt c k (omega arith)).0 in (rw (e, cur) refl, rw (e, cur) refl)

reported :
    (a : Coordinator) (of_a : Members) (from fresh : Str) (gen : ℕ) (peers : List Str)
    → am_authority a.me_id of_a ≡ true
    → contains_key from of_a ≡ true
    → a.room_gen < gen
    → gen ≤ a.room_gen + room_gen_bound
    → gen < u32_max
    → on_room_gen a fresh from gen of_a peers ≡ rotate (record a { room_gen = gen }) fresh peers
unfolding on_room_gen
reported a of_a from fresh gen peers aa am newer near small = ground arith

handed :
    (m : Coordinator) (of_m : Members) (from key : Str) (gen : ℕ)
    → is_authority_peer from m.me_id of_m ≡ true
    → gen ≤ suc m.room_gen
    → gen ≤ u32_max
    → on_room_key m from gen key of_m ≡ adopt m (record { gen = gen; auth = from; key = key })
unfolding on_room_key
handed m of_m from key gen auth near small = ground arith

-- A member with a newer key reports its generation to the authority that it has secured a channel
-- with; the authority mints the next generation and hands it out; the member takes it, so that both
-- have the same current key. The generation may be ahead of the authority's counter by
-- room_gen_bound at most, and is below the largest u32.
pub late_authority-converges :
    (a m : Coordinator) (of_a of_m : Members) (other fresh : Str) (k : RoomKey) (peers : List Str)
    → am_authority a.me_id of_a ≡ true
    → contains_key m.me_id of_a ≡ true
    → am_authority m.me_id of_m ≡ false
    → is_authority_peer a.me_id m.me_id of_m ≡ true
    → m.room.cur ≡ some k
    → IsAhead a
    → IsAhead m
    → a.room_gen < k.gen
    → k.gen ≤ a.room_gen + room_gen_bound
    → k.gen < u32_max
    → let new_key : RoomKey = record { gen = suc k.gen; auth = a.me_id; key = fresh } in
      let (a', sent) = on_room_gen a fresh m.me_id k.gen of_a peers in
      let (m', taken) = on_room_key m a.me_id (suc k.gen) fresh of_m in
      (on_secure m other a.me_id of_m ≡ (m, send_gen a.me_id k.gen ∷ []))
      × (sent ≡ hand_out (some new_key) peers)
      × (a'.room.cur ≡ some new_key)
      × (taken ≡ true)
      × (m'.room.cur ≡ some new_key)
unfolding on_secure
late_authority-converges a m of_a of_m other fresh k peers aa am ma auth cur ahead_a ahead_m newer
      near small =
    let new_key : RoomKey = record { gen = suc k.gen; auth = a.me_id; key = fresh } in
    let behind : k.gen ≤ m.room_gen = grind arith in
    let minted = rotate_lem (record a { room_gen = k.gen }) fresh peers (omega arith) small in
    let gen = reported a of_a m.me_id fresh k.gen peers aa am newer near small in
    let key = handed m of_m a.me_id fresh (suc k.gen) auth (omega arith) (omega arith) in
    let taken = cur-adopt m new_key (grind arith) in
    (ground arith, rw gen minted.0, rw gen minted.1, rw key taken.1, rw key taken.0)
