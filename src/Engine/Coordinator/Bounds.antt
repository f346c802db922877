-- ===== src/Engine/Coordinator/Bounds.antt =====
-- How far one message can push the generation counter of a coordinator.
use rdoc_squad_link_lite.Base.{
  ℕ, suc, ◌+◌, ◌≤◌, ◌<◌, List, ◌&&◌, Str, ltb, leb, arith, saturating_add_u32, max, Bool-cases, inl,
  inr, contains_key,
}
use rdoc_squad_link_lite.Crypto.RoomAudio.{RoomAudio, RoomKey, stage, generation, better}
use rdoc_squad_link_lite.Engine.Member.{Members}
use rdoc_squad_link_lite.Engine.Authority.{am_authority}
use rdoc_squad_link_lite.Engine.Coordinator.{
  Coordinator, adopt, rotate, ensure_key, on_secure, on_room_key, on_room_gen, unwrap_or_zero,
  room_gen_bound, mint,
}
use rdoc_squad_link_lite.Engine.Coordinator.Generations.{
  IsAhead, activate-room, Event, handle, secure, room_key, room_gen, rekey,
}

generation-stage :
    (r : RoomAudio) (k : RoomKey)
    → unwrap_or_zero (generation (stage r k).0) ≤ max (unwrap_or_zero (generation r)) k.gen
unfolding stage better
generation-stage r k = ground arith

room_gen-adopt :
    (c : Coordinator) (k : RoomKey) → IsAhead c → (adopt c k).0.room_gen ≤ max c.room_gen k.gen
unfolding adopt
room_gen-adopt c k h = grind (arith, generation-stage c.room k, activate-room c (stage c.room k).0)

room_gen-rotate :
    (c : Coordinator) (fresh : Str) (peers : List Str)
    → IsAhead c
    → (rotate c fresh peers).0.room_gen ≤ suc c.room_gen
unfolding rotate
room_gen-rotate c fresh peers h =
    grind (arith, room_gen-adopt c (mint c (saturating_add_u32 c.room_gen 1) fresh) h)

room_gen-ensure_key :
    (c : Coordinator) (fresh : Str) → IsAhead c → (ensure_key c fresh).room_gen ≤ max c.room_gen 1
unfolding ensure_key
room_gen-ensure_key c fresh h =
    let c' = record c { room_gen = max c.room_gen 1 } in
    ground (arith, room_gen-adopt c' (mint c' c'.room_gen fresh) (omega arith))

room_gen-on_room_gen :
    (c : Coordinator) (fresh from : Str) (gen : ℕ) (members : Members) (peers : List Str)
    → IsAhead c
    → (on_room_gen c fresh from gen members peers).0.room_gen ≤ suc (c.room_gen + room_gen_bound)
unfolding on_room_gen
room_gen-on_room_gen c fresh from gen members peers h =
    elim (Bool-cases (
      am_authority c.me_id members
      && (contains_key from members
          && (ltb c.room_gen gen && leb gen (saturating_add_u32 c.room_gen room_gen_bound))))) [
            | inl e ↦
                let lt : c.room_gen < gen = grind arith in
                let le : gen ≤ c.room_gen + room_gen_bound = grind arith in
                rw (e, on_room_gen)
                  (omega (
                    arith,
                    room_gen-rotate (record c { room_gen = gen }) fresh peers (omega arith),
                  ))
            | inr e ↦ rw (e, on_room_gen) (omega arith)
          ]

-- No event raises the generation counter by more than room_gen_bound + 1, whoever it comes from and
-- whatever generation it names.
pub room_gen-handle-le :
    (c : Coordinator) (e : Event)
    → IsAhead c
    → (handle c e).room_gen ≤ suc (c.room_gen + room_gen_bound)
unfolding handle on_secure on_room_key
room_gen-handle-le c (secure fresh peer members) h = ground (arith, room_gen-ensure_key c fresh h)
room_gen-handle-le c (room_key from gen key members) h =
    ground (arith, room_gen-adopt c (record { gen = gen; auth = from; key = key }) h)
room_gen-handle-le c (room_gen fresh from gen members peers) h =
    room_gen-on_room_gen c fresh from gen members peers h
room_gen-handle-le c (rekey fresh peers) h = omega (arith, room_gen-rotate c fresh peers h)
