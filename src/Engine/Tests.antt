-- ===== src/Engine/Tests.antt =====
-- The room key coordination at concrete inputs.
use rdoc_squad_link_lite.Base.{
  ◌≡◌, refl, true, [], ◌∷◌, none, some, Str, lit, arith, get, str_eq, str_lt,
}
use rdoc_squad_link_lite.Crypto.RoomAudio.{RoomKey}
use rdoc_squad_link_lite.Engine.Member
use rdoc_squad_link_lite.Engine.Member.{Member, Members}
use rdoc_squad_link_lite.Engine.Authority.{am_authority, is_authority_peer}
use rdoc_squad_link_lite.Engine.Coordinator.{
  Coordinator, on_secure, on_room_key, on_room_gen, send_gen, hand_out,
}
use rdoc_squad_link_lite.Engine.Coordinator.Convergence.{late_authority-converges}

abbrev alice : Str
alice = lit "alice"

abbrev bob : Str
bob = lit "bob"

abbrev someone : Str → Member
someone name = Member.new name [] true 0

abbrev of_alice : Members
of_alice = (bob, someone bob) ∷ []

abbrev of_bob : Members
of_bob = (alice, someone alice) ∷ []

abbrev bobs_key : RoomKey
bobs_key = record { gen = 7; auth = bob; key = lit "old" }

-- Bob has had the room to himself for seven generations.
abbrev at_bob : Coordinator
at_bob = record {
  me_id = bob;
  room = record { send = some bobs_key; cur = some bobs_key; prev = [] };
  room_gen = 7;
  timers = [];
}

abbrev at_alice : Coordinator
at_alice = record {
  me_id = alice;
  room = record { send = none; cur = none; prev = [] };
  room_gen = 0;
  timers = [];
}

abbrev alices_key : RoomKey
alices_key = record { gen = 8; auth = alice; key = lit "new" }

late_authority-converges_example :
    (on_secure at_bob (lit "unused") alice of_bob ≡ (at_bob, send_gen alice 7 ∷ []))
    × ((on_room_gen at_alice (lit "new") bob 7 of_alice (bob ∷ [])).1
        ≡ hand_out (some alices_key) (bob ∷ []))
    × ((on_room_gen at_alice (lit "new") bob 7 of_alice (bob ∷ [])).0.room.cur ≡ some alices_key)
    × ((on_room_key at_bob alice 8 (lit "new") of_bob).1 ≡ true)
    × ((on_room_key at_bob alice 8 (lit "new") of_bob).0.room.cur ≡ some alices_key)
unfolding get str_eq am_authority str_lt is_authority_peer
late_authority-converges_example =
    late_authority-converges at_alice at_bob of_alice of_bob (lit "unused") (lit "new") bobs_key
      (bob ∷ []) refl refl refl refl refl (omega arith) (omega arith) (omega arith) (omega arith)
      (omega arith)
