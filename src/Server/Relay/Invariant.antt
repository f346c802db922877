-- ===== src/Server/Relay/Invariant.antt =====
-- The rooms that the server can come to: no room is empty or above the cap, and no id stands twice.
use rdoc_squad_link_lite.Base.{
  ℕ, ◌≤◌, ◌≡◌, true, false, not, ◌&&◌, [], ◌∷◌, Option, none, some, Str, leb, ◌==◌, arith, get,
  insert, remove, contains_key, length, Bool-cases, Option-cases, inl, inr, Distinct, All,
  insert-Distinct, remove-Distinct, length-remove-le, length-remove_present, remove-All, insert-All,
  get-All,
}
use rdoc_squad_link_lite.Protocol.ToServer.{ClientMsg, join, offer, answer, ice, ptt, rekey, leave}
use rdoc_squad_link_lite.Server.Relay.{AppState, Socket, PeerHandle, Room, or_default, hard_cap}
use rdoc_squad_link_lite.Server.Relay.Join.{Config, enter, admit, on_join, may_take_over}
use rdoc_squad_link_lite.Server.Relay.Frames.{
  on_message, on_rekey, on_text, tick, Parsed, parsed, failed, on_parsed, cleanup, left, cooling,
  is_mine,
}

-- The states that the server comes to, from the start on: a frame of any socket or the end of any
-- socket, in whatever order.
pub data Reachable (cfg : Config) (parse : Str → Parsed) : AppState → Type 0 where
  start : Reachable cfg parse (record { rooms = []; rekeys = [] })
  frame :
      (s : AppState) (k : Socket) (now_secs now : ℕ) (text : Str)
      → Reachable cfg parse s
      → Reachable cfg parse (on_text cfg parse now_secs s k now text).state
  closed : (s : AppState) (k : Socket) → Reachable cfg parse s → Reachable cfg parse (cleanup s k).0

pub record IsRoom (r : Room) : Type 0 where
  pub capped : length r ≤ hard_cap
  pub peopled : 1 ≤ length r
  pub distinct : Distinct r

pub record IsValid (s : AppState) : Type 0 where
  pub distinct : Distinct s.rooms
  pub each : All (λ e. IsRoom e.1) s.rooms

put-IsValid :
    (s : AppState) (room : Str) (r : Room)
    → IsRoom r
    → IsValid s
    → IsValid (record s { rooms = insert room r s.rooms })
put-IsValid s room r h v = record {
  distinct = insert-Distinct room r s.rooms v.distinct;
  each = insert-All (λ e. IsRoom e.1) room r s.rooms h v.each;
}

admitted-IsRoom :
    (r : Room) (user_id : Str) (h : PeerHandle)
    → Distinct r
    → length r ≤ hard_cap
    → (leb hard_cap (length r) && not (contains_key user_id r)) ≡ false
    → IsRoom (insert user_id h (remove user_id r))
unfolding insert
admitted-IsRoom r user_id h d cap free = record {
  capped = ground (
    arith,
    length-remove-le user_id (remove user_id r),
    length-remove-le user_id r,
    length-remove_present user_id r,
  );
  peopled = omega arith;
  distinct = insert-Distinct user_id h (remove user_id r) (remove-Distinct user_id r d);
}

room_of : (s : AppState) (room : Str) (r : Room) → IsValid s → get room s.rooms ≡ some r → IsRoom r
room_of s room r v e = get-All (λ e. IsRoom e.1) room r s.rooms v.each e

-- A room that is not there counts as an empty one.
or_default_of :
    (s : AppState) (room : Str)
    → IsValid s
    → (length (or_default (get room s.rooms)) ≤ hard_cap) × Distinct (or_default (get room s.rooms))
or_default_of s room v = elim (Option-cases (get room s.rooms)) [
  | inl e ↦ rw e (omega arith, tt)
  | inr (r, e) ↦ let h = room_of s room r v e in rw e (h.capped, h.distinct)
]

-- A room in which somebody is was there before.
occupied :
    (s : AppState) (room : Str)
    → IsValid s
    → 1 ≤ length (or_default (get room s.rooms))
    → IsRoom (or_default (get room s.rooms))
occupied s room v n =
    let h = or_default_of s room v in record { capped = h.0; peopled = n; distinct = h.1 }

held-occupied :
    (user_id secret : Str) (r : Room)
    → not (may_take_over secret (get user_id r)) ≡ true
    → 1 ≤ length r
unfolding get
held-occupied user_id secret [] h = ground arith
held-occupied user_id secret (e ∷ r) h = omega arith

enter-IsValid :
    (cfg : Config) (now_secs : ℕ) (s : AppState) (k : Socket) (room user_id name secret : Str)
    → IsValid s
    → IsValid (enter cfg now_secs s k room user_id name secret).state
unfolding enter admit
enter-IsValid cfg now_secs s k room user_id name secret v =
    let r = or_default (get room s.rooms) in
    let (cap, distinct) = or_default_of s room v in
    elim (Bool-cases (leb hard_cap (length r) && not (contains_key user_id r))) [
      | inl full ↦ rw (full, enter) (put-IsValid s room r (occupied s room v (ground arith)) v)
      | inr free ↦ elim (Bool-cases (not (may_take_over secret (get user_id r)))) [
        | inl held ↦
            rw (free, held, enter)
              (put-IsValid s room r (occupied s room v (held-occupied user_id secret r held)) v)
        | inr ours ↦
            let h : PeerHandle = record { name = name; tx = k.tx; secret = secret } in
            rw (free, ours, enter)
              (put-IsValid s room (insert user_id h (remove user_id r))
                (admitted-IsRoom r user_id h distinct cap free) v)
      ]
    ]

on_join-IsValid :
    (cfg : Config) (now_secs : ℕ) (s : AppState) (k : Socket) (proto : ℕ) (room user_id name : Str)
    (token : Option Str) (secret : Str)
    → IsValid s
    → IsValid (on_join cfg now_secs s k proto room user_id name token secret).state
unfolding on_join
on_join-IsValid cfg now_secs s k proto room user_id name token secret v =
    ground (arith, enter-IsValid cfg now_secs s k room user_id name secret v)

rekey-IsValid :
    (s : AppState) (me : Option (Str × Str)) (now : ℕ) → IsValid s → IsValid (on_rekey s me now).0
unfolding on_rekey
rekey-IsValid s none now v = v
rekey-IsValid s (some (room, from)) now v = elim (Bool-cases (cooling now (get room s.rekeys))) [
  | inl e ↦ rw (e, on_rekey) v
  | inr e ↦ rw (e, on_rekey) (record { distinct = v.distinct; each = v.each })
]

on_message-IsValid :
    (cfg : Config) (now_secs : ℕ) (s : AppState) (k : Socket) (now : ℕ) (msg : ClientMsg)
    → IsValid s
    → IsValid (on_message cfg now_secs s k now msg).state
unfolding on_message
on_message-IsValid cfg now_secs s k now (join proto room user_id name token secret) v =
    on_join-IsValid cfg now_secs s k proto room user_id name token secret v
on_message-IsValid cfg now_secs s k now (offer to sdp) v = ground arith
on_message-IsValid cfg now_secs s k now (answer to sdp) v = ground arith
on_message-IsValid cfg now_secs s k now (ice to candidate) v = ground arith
on_message-IsValid cfg now_secs s k now (ptt active) v = v
on_message-IsValid cfg now_secs s k now rekey v = rekey-IsValid s k.me now v
on_message-IsValid cfg now_secs s k now leave v = v

on_parsed-IsValid :
    (cfg : Config) (now_secs : ℕ) (s : AppState) (k : Socket) (now : ℕ) (p : Parsed)
    → IsValid s
    → IsValid (on_parsed cfg now_secs s k now p).state
on_parsed-IsValid cfg now_secs s k now (parsed msg) v =
    on_message-IsValid cfg now_secs s k now msg v
on_parsed-IsValid cfg now_secs s k now (failed text is_join) v = ground arith

on_text-IsValid :
    (cfg : Config) (parse : Str → Parsed) (now_secs : ℕ) (s : AppState) (k : Socket) (now : ℕ)
    (text : Str)
    → IsValid s
    → IsValid (on_text cfg parse now_secs s k now text).state
unfolding on_text
on_text-IsValid cfg parse now_secs s k now text v =
    ground (arith, on_parsed-IsValid cfg now_secs s (tick k now).0 now (parse text) v)

left-IsValid :
    (s : AppState) (room : Str) (r : Room) (user_id : Str)
    → IsRoom r
    → IsValid s
    → IsValid (left s room r user_id).0
left-IsValid s room r user_id h v = elim (Bool-cases (length (remove user_id r) == 0)) [
  | inl e ↦ rw e (record {
    distinct = remove-Distinct room s.rooms v.distinct;
    each = remove-All (λ e. IsRoom e.1) room s.rooms v.each;
  })
  | inr e ↦
      let smaller = length-remove-le user_id r in
      let cap = h.capped in
      rw e (
        put-IsValid s room (remove user_id r)
          (record {
            capped = omega arith;
            peopled = ground arith;
            distinct = remove-Distinct user_id r h.distinct;
          })
          v)
]

cleanup-IsValid : (s : AppState) (k : Socket) → IsValid s → IsValid (cleanup s k).0
unfolding cleanup
cleanup-IsValid s k v = elim (Option-cases k.me) [
  | inl e ↦ rw (e, cleanup) v
  | inr ((room, user_id), e) ↦ elim (Option-cases (get room s.rooms)) [
    | inl none_there ↦ rw (e, none_there, cleanup) v
    | inr (r, there) ↦ elim (Bool-cases (is_mine k.tx (get user_id r))) [
      | inl mine ↦
          rw (e, there, mine, cleanup) (left-IsValid s room r user_id (room_of s room r v there) v)
      | inr other ↦ rw (e, there, other, cleanup) v
    ]
  ]
]

-- In every state that the server comes to, by whatever frames of whatever sockets, each room has at
-- least one and at most hard_cap members, no id twice, and no room stands twice.
pub Reachable-IsValid :
    (cfg : Config) (parse : Str → Parsed) (s : AppState) → Reachable cfg parse s → IsValid s
unfolding get
Reachable-IsValid cfg parse _ start = record { distinct = tt; each = tt }
Reachable-IsValid cfg parse _ (frame s k now_secs now text r) =
    on_text-IsValid cfg parse now_secs s k now text (Reachable-IsValid cfg parse s r)
Reachable-IsValid cfg parse _ (closed s k r) = cleanup-IsValid s k (Reachable-IsValid cfg parse s r)
