-- ===== src/Engine/Coordinator.antt =====
-- apps/companion-core/src/lib.rs: `RoomKeyCoordinator`, who mints the room key, at which generation,
-- and who is told what. The bytes of a fresh key are an argument; `timers` are the promotions that
-- the spawned tasks send after the grace.
pub mod Generations
pub mod Convergence
pub mod Bounds
use rdoc_squad_link_lite.Base.{
  ℕ, Bool, true, false, List, [], ◌∷◌, ◌++◌, ◌&&◌, not, Option, none, some, Str, ltb, leb, max, map,
  if◌then◌else◌, contains_key, saturating_add_u32, is_some,
}
use rdoc_squad_link_lite.Crypto.RoomAudio.{RoomAudio, RoomKey, stage, promote, generation, has_send}
use rdoc_squad_link_lite.Engine.Member.{Members}
use rdoc_squad_link_lite.Engine.Authority.{am_authority, is_authority_peer}

abbrev pub room_gen_bound : ℕ
room_gen_bound = 1024

pub data KeyAction : Type 0 where
  send_key : Str → ℕ → Str → KeyAction
  send_gen : Str → ℕ → KeyAction

pub record Coordinator : Type 0 where
  pub me_id : Str
  pub room : RoomAudio
  pub room_gen : ℕ
  pub timers : List ℕ

abbrev pub new : Str → RoomAudio → Coordinator
new me_id room = record { me_id = me_id; room = room; room_gen = 0; timers = [] }

abbrev pub unwrap_or_zero : Option ℕ → ℕ
unwrap_or_zero none = 0
unwrap_or_zero (some g) = g

-- `adopt` once the key is staged in `room`.
unfoldable pub activate : Coordinator → RoomAudio → Coordinator
activate c room =
    let g = unwrap_or_zero (generation room) in
    if not (has_send c.room)
    then record c { room = promote room g; room_gen = max c.room_gen g }
    else record c { room = room; room_gen = max c.room_gen g; timers = c.timers ++ g ∷ [] }

unfoldable pub adopt : Coordinator → RoomKey → Coordinator × Bool
unfolding activate
adopt c k =
    let (room, taken) = stage c.room k in if taken then (activate c room, true) else (c, false)

abbrev pub mint : Coordinator → ℕ → Str → RoomKey
mint c g fresh = record { gen = g; auth = c.me_id; key = fresh }

abbrev pub hand_out : Option RoomKey → List Str → List KeyAction
hand_out none peers = []
hand_out (some k) peers = map (λ id. send_key id k.gen k.key) peers

unfoldable pub rotate : Coordinator → Str → List Str → Coordinator × List KeyAction
unfolding adopt
rotate c fresh secure_peers =
    let c' = (adopt c (mint c (saturating_add_u32 c.room_gen 1) fresh)).0 in
    (c', hand_out c'.room.cur secure_peers)

-- The first key of the room, if we hold none.
unfoldable pub ensure_key : Coordinator → Str → Coordinator
unfolding adopt
ensure_key c fresh =
    if is_some (generation c.room)
    then c
    else (let c' = record c { room_gen = max c.room_gen 1 } in
        (adopt c' (mint c' c'.room_gen fresh)).0)

abbrev pub report : Str → Option ℕ → List KeyAction
report peer none = []
report peer (some gen) = send_gen peer gen ∷ []

unfoldable pub on_secure : Coordinator → Str → Str → Members → Coordinator × List KeyAction
unfolding ensure_key
on_secure c fresh peer members =
    if am_authority c.me_id members
    then (let c' = ensure_key c fresh in (c', hand_out c'.room.cur (peer ∷ [])))
    else if is_authority_peer peer c.me_id members
    then (c, report peer (generation c.room))
    else (c, [])

unfoldable pub on_room_key : Coordinator → Str → ℕ → Str → Members → Coordinator × Bool
unfolding adopt
on_room_key c from gen key members =
    if is_authority_peer from c.me_id members
      && leb gen (saturating_add_u32 c.room_gen room_gen_bound)
    then adopt c (record { gen = gen; auth = from; key = key })
    else (c, false)

unfoldable pub on_room_gen :
    Coordinator → Str → Str → ℕ → Members → List Str → Coordinator × List KeyAction
unfolding rotate
on_room_gen c fresh from gen members secure_peers =
    if am_authority c.me_id members
      && (contains_key from members
          && (ltb c.room_gen gen && leb gen (saturating_add_u32 c.room_gen room_gen_bound)))
    then rotate (record c { room_gen = gen }) fresh secure_peers
    else (c, [])
