-- ===== src/Engine/Coordinator/Generations.antt =====
-- The generation counter of a coordinator never falls behind its key, and never falls.
use rdoc_squad_link_lite.Base.{
  ℕ, ◌≤◌, ◌<◌, ◌≡◌, List, ◌&&◌, Str, ltb, leb, arith, saturating_add_u32, contains_key, max,
  Bool-cases, inl, inr, is_some,
}
use rdoc_squad_link_lite.Crypto.RoomAudio.{RoomAudio, RoomKey, stage, generation, better}
use rdoc_squad_link_lite.Crypto.RoomAudio.Plaintext.{cur-promote}
use rdoc_squad_link_lite.Engine.Member.{Members}
use rdoc_squad_link_lite.Engine.Authority.{am_authority}
use rdoc_squad_link_lite.Engine.Coordinator.{
  Coordinator, adopt, activate, rotate, ensure_key, on_secure, on_room_key, on_room_gen,
  unwrap_or_zero, room_gen_bound, mint,
}

-- The newest staged generation, 0 for none.
abbrev pub staged : Coordinator → ℕ
staged c = unwrap_or_zero (generation c.room)

abbrev pub IsAhead : Coordinator → Type 0
IsAhead c = staged c ≤ c.room_gen

-- What a handler may do: counter and key move up, and the counter stays ahead of the key.
pub record Climbs (c c' : Coordinator) : Type 0 where
  pub counter : c.room_gen ≤ c'.room_gen
  pub key : staged c ≤ staged c'
  pub ahead : IsAhead c'

staged-stage :
    (room : RoomAudio) (k : RoomKey)
    → unwrap_or_zero (generation room) ≤ unwrap_or_zero (generation (stage room k).0)
unfolding stage better
staged-stage room k = ground arith

pub activate-room :
    (c : Coordinator) (room : RoomAudio)
    → (staged (activate c room) ≡ unwrap_or_zero (generation room))
      × ((activate c room).room_gen ≡ max c.room_gen (unwrap_or_zero (generation room)))
unfolding activate
activate-room c room = ground (arith, cur-promote room (unwrap_or_zero (generation room)))

activate-Climbs :
    (c : Coordinator) (room : RoomAudio)
    → staged c ≤ unwrap_or_zero (generation room)
    → Climbs c (activate c room)
activate-Climbs c room h = record {
  counter = omega (arith, activate-room c room);
  key = omega (arith, activate-room c room);
  ahead = omega (arith, activate-room c room);
}

adopt-Climbs : (c : Coordinator) (k : RoomKey) → IsAhead c → Climbs c (adopt c k).0
unfolding adopt
adopt-Climbs c k h = elim (Bool-cases (stage c.room k).1) [
  | inl e ↦ rw (e, adopt) (activate-Climbs c (stage c.room k).0 (staged-stage c.room k))
  | inr e ↦ rw (e, adopt) (record { counter = omega arith; key = omega arith; ahead = h })
]

-- The events that the coordinator handles, with the bytes that a fresh key would get.
pub data Event : Type 0 where
  secure : Str → Str → Members → Event
  room_key : Str → ℕ → Str → Members → Event
  room_gen : Str → Str → ℕ → Members → List Str → Event
  rekey : Str → List Str → Event

unfoldable pub handle : Coordinator → Event → Coordinator
handle c (secure fresh peer members) = (on_secure c fresh peer members).0
handle c (room_key from gen key members) = (on_room_key c from gen key members).0
handle c (room_gen fresh from gen members peers) = (on_room_gen c fresh from gen members peers).0
handle c (rekey fresh peers) = (rotate c fresh peers).0

Climbs-refl : (c : Coordinator) → IsAhead c → Climbs c c
Climbs-refl c h = record { counter = omega arith; key = omega arith; ahead = h }

-- Raising the counter first.
raise-Climbs :
    (c c' : Coordinator) (g : ℕ)
    → c.room_gen ≤ g
    → Climbs (record c { room_gen = g }) c'
    → Climbs c c'
raise-Climbs c c' g h v = record {
  counter = omega (arith, v.counter);
  key = v.key;
  ahead = v.ahead;
}

rotate-Climbs :
    (c : Coordinator) (fresh : Str) (peers : List Str)
    → IsAhead c
    → Climbs c (rotate c fresh peers).0
unfolding rotate
rotate-Climbs c fresh peers h = adopt-Climbs c (mint c (saturating_add_u32 c.room_gen 1) fresh) h

ensure_key-Climbs : (c : Coordinator) (fresh : Str) → IsAhead c → Climbs c (ensure_key c fresh)
unfolding ensure_key
ensure_key-Climbs c fresh h = elim (Bool-cases (is_some (generation c.room))) [
  | inl e ↦ rw (e, ensure_key) (Climbs-refl c h)
  | inr e ↦
      let c' = record c { room_gen = max c.room_gen 1 } in
      rw (e, ensure_key)
        (raise-Climbs c (adopt c' (mint c' c'.room_gen fresh)).0 (max c.room_gen 1) (omega arith)
          (adopt-Climbs c' (mint c' c'.room_gen fresh) (omega arith)))
]

room_gen-Climbs :
    (c : Coordinator) (fresh from : Str) (gen : ℕ) (members : Members) (peers : List Str)
    → IsAhead c
    → Climbs c (on_room_gen c fresh from gen members peers).0
unfolding on_room_gen
room_gen-Climbs c fresh from gen members peers h =
    elim (Bool-cases (
      am_authority c.me_id members
      && (contains_key from members
          && (ltb c.room_gen gen && leb gen (saturating_add_u32 c.room_gen room_gen_bound))))) [
            | inl e ↦
                let lt : c.room_gen < gen = grind arith in
                rw (e, on_room_gen)
                  (raise-Climbs c (rotate (record c { room_gen = gen }) fresh peers).0 gen
                    (omega arith)
                    (rotate-Climbs (record c { room_gen = gen }) fresh peers (omega arith)))
            | inr e ↦ rw (e, on_room_gen) (Climbs-refl c h)
          ]

-- Whatever event is handled, the generation counter and the generation of the newest staged key
-- never fall, and the counter never falls behind the key: a fresh mint lands above all keys that
-- the node has seen.
pub handle-Climbs : (c : Coordinator) (e : Event) → IsAhead c → Climbs c (handle c e)
unfolding handle on_secure on_room_key on_room_gen
handle-Climbs c (secure fresh peer members) h =
    ground (arith, ensure_key-Climbs c fresh h, Climbs-refl c h)
handle-Climbs c (room_key from gen key members) h =
    ground (arith, adopt-Climbs c (record { gen = gen; auth = from; key = key }) h, Climbs-refl c h)
handle-Climbs c (room_gen fresh from gen members peers) h =
    room_gen-Climbs c fresh from gen members peers h
handle-Climbs c (rekey fresh peers) h = rotate-Climbs c fresh peers h
