-- ===== src/Server/Relay/Holders.antt =====
-- Who holds an id in a room, and who can take it away.
use rdoc_squad_link_lite.Base.{
  ℕ, ◌≡◌, ◌⊎◌, refl, true, not, ◌&&◌, [], ◌∷◌, Option, none, some, Str, str_eq, str_eq_iff, leb,
  ◌==◌, arith, if◌then◌else◌, get, insert, remove, contains_key, length, Bool-cases, Option-cases,
  inl, inr, get-remove, get-insert, subst,
}
use rdoc_squad_link_lite.Protocol.ToServer.{ClientMsg, join, offer, answer, ice, ptt, rekey, leave}
use rdoc_squad_link_lite.Server.Relay.{AppState, Socket, PeerHandle, Room, or_default, hard_cap}
use rdoc_squad_link_lite.Server.Relay.Join.{Config, enter, admit, on_join, may_take_over}
use rdoc_squad_link_lite.Server.Relay.Frames.{
  on_message, on_rekey, on_text, tick, Parsed, parsed, failed, on_parsed, cleanup, left,
}

abbrev pub member : Option Room → Str → Option PeerHandle
member none id = none
member (some r) id = get id r

-- The connection that has the id in the room.
abbrev pub holder : AppState → Str → Str → Option PeerHandle
holder s room id = member (get room s.rooms) id

-- The handle in a place has the secret, if there is one.
abbrev pub HasSecret : Str → Option PeerHandle → Type 0
HasSecret secret none = Unit
HasSecret secret (some old) = old.secret ≡ secret

may_take_over-HasSecret :
    (secret : Str) (o : Option PeerHandle) → may_take_over secret o ≡ true → HasSecret secret o
may_take_over-HasSecret secret none h = tt
may_take_over-HasSecret secret (some old) h = (str_eq_iff old.secret secret).0 h

-- A handle stays, or the socket `tx` has put its own in its place, with the secret of the handle
-- that it found, if it found one.
abbrev pub Kept : ℕ → Option PeerHandle → Option PeerHandle → Type 0
Kept tx before after =
    (after ≡ before)
    ⊎ ((h : PeerHandle) × (after ≡ some h) × (h.tx ≡ tx) × HasSecret h.secret before)

holder-put :
    (s : AppState) (room room' id : Str) (r : Room)
    → holder (record s { rooms = insert room r s.rooms }) room' id
      ≡ (if str_eq room room' then get id r else holder s room' id)
holder-put s room room' id r = ground (arith, get-insert room room' r s.rooms)

holder-default :
    (s : AppState) (room id : Str) → get id (or_default (get room s.rooms)) ≡ holder s room id
unfolding get
holder-default s room id = ground arith

-- Making the room's entry changes no holder.
made-holder :
    (s : AppState) (room room' id : Str)
    → holder (record s { rooms = insert room (or_default (get room s.rooms)) s.rooms }) room' id
      ≡ holder s room' id
made-holder s room room' id = ground (
  arith,
  holder-put s room room' id (or_default (get room s.rooms)),
  holder-default s room id,
  str_eq_iff room room',
)

admitted-Kept :
    (s : AppState) (room user_id : Str) (h : PeerHandle) (room' id : Str)
    → let r = or_default (get room s.rooms) in
      may_take_over h.secret (get user_id r) ≡ true
      → Kept h.tx (holder s room' id) (
          holder
            (record s { rooms = insert room (insert user_id h (remove user_id r)) s.rooms })
            room'
            id)
admitted-Kept s room user_id h room' id ours =
    let r = or_default (get room s.rooms) in
    let put = holder-put s room room' id (insert user_id h (remove user_id r)) in
    let put_id = get-insert user_id id h (remove user_id r) in
    let kept = get-remove user_id id r in
    let before = holder-default s room id in
    let rooms = str_eq_iff room room' in
    let ids = str_eq_iff user_id id in
    elim (Bool-cases (str_eq room room' && str_eq user_id id)) [
      | inl e ↦
          let found : holder s room' id ≡ get user_id r = ground arith in
          inr (
            h,
            ground arith,
            refl,
            rw found (may_take_over-HasSecret h.secret (get user_id r) ours),
          )
      | inr e ↦ inl (ground arith)
    ]

enter-Kept :
    (cfg : Config) (now_secs : ℕ) (s : AppState) (k : Socket)
    (room user_id name secret room' id : Str)
    → Kept k.tx
        (holder s room' id)
        (holder (enter cfg now_secs s k room user_id name secret).state room' id)
unfolding enter admit
enter-Kept cfg now_secs s k room user_id name secret room' id =
    let r = or_default (get room s.rooms) in
    let made = made-holder s room room' id in
    elim (Bool-cases (leb hard_cap (length r) && not (contains_key user_id r))) [
      | inl full ↦ inl (rw (full, enter) made)
      | inr free ↦ elim (Bool-cases (may_take_over secret (get user_id r))) [
        | inl ours ↦
            rw (free, ours, enter)
              (admitted-Kept s room user_id (record { name = name; tx = k.tx; secret = secret })
                room' id ours)
        | inr held ↦ inl (rw (free, held, enter) made)
      ]
    ]

on_join-Kept :
    (cfg : Config) (now_secs : ℕ) (s : AppState) (k : Socket) (proto : ℕ) (room user_id name : Str)
    (token : Option Str) (secret room' id : Str)
    → Kept k.tx
        (holder s room' id)
        (holder (on_join cfg now_secs s k proto room user_id name token secret).state room' id)
unfolding on_join
on_join-Kept cfg now_secs s k proto room user_id name token secret room' id =
    ground (arith, enter-Kept cfg now_secs s k room user_id name secret room' id)

holder-rekey :
    (s : AppState) (me : Option (Str × Str)) (now : ℕ) (room id : Str)
    → holder (on_rekey s me now).0 room id ≡ holder s room id
unfolding on_rekey
holder-rekey s none now room id = refl
holder-rekey s (some (own, from)) now room id = ground arith

on_message-Kept :
    (cfg : Config) (now_secs : ℕ) (s : AppState) (k : Socket) (now : ℕ) (msg : ClientMsg)
    (room id : Str)
    → Kept k.tx (holder s room id) (holder (on_message cfg now_secs s k now msg).state room id)
unfolding on_message
on_message-Kept cfg now_secs s k now (join proto own user_id name token secret) room id =
    on_join-Kept cfg now_secs s k proto own user_id name token secret room id
on_message-Kept cfg now_secs s k now (offer to sdp) room id = inl (ground arith)
on_message-Kept cfg now_secs s k now (answer to sdp) room id = inl (ground arith)
on_message-Kept cfg now_secs s k now (ice to candidate) room id = inl (ground arith)
on_message-Kept cfg now_secs s k now (ptt active) room id = inl refl
on_message-Kept cfg now_secs s k now rekey room id = inl (holder-rekey s k.me now room id)
on_message-Kept cfg now_secs s k now leave room id = inl refl

on_parsed-Kept :
    (cfg : Config) (now_secs : ℕ) (s : AppState) (k : Socket) (now : ℕ) (p : Parsed) (room id : Str)
    → Kept k.tx (holder s room id) (holder (on_parsed cfg now_secs s k now p).state room id)
on_parsed-Kept cfg now_secs s k now (parsed msg) room id =
    on_message-Kept cfg now_secs s k now msg room id
on_parsed-Kept cfg now_secs s k now (failed text is_join) room id = inl (ground arith)

tx-tick : (k : Socket) (now : ℕ) → (tick k now).0.tx ≡ k.tx
unfolding tick
tx-tick k now = ground arith

-- Whatever a socket sends, in each room each id keeps its connection, or the socket itself has it
-- then, and has presented the secret of the connection that it found.
pub on_text-Kept :
    (cfg : Config) (parse : Str → Parsed) (now_secs : ℕ) (s : AppState) (k : Socket) (now : ℕ)
    (text room id : Str)
    → Kept k.tx (holder s room id) (holder (on_text cfg parse now_secs s k now text).state room id)
unfolding on_text
on_text-Kept cfg parse now_secs s k now text room id =
    let k' = (tick k now).0 in
    let handled =
      subst
        (λ tx.
          Kept tx (holder s room id)
            (holder (on_parsed cfg now_secs s k' now (parse text)).state room id))
        (tx-tick k now) (on_parsed-Kept cfg now_secs s k' now (parse text) room id) in
    elim (Bool-cases (tick k now).1) [
      | inl e ↦ rw (e, on_text) handled
      | inr e ↦ inl (rw (e, on_text) refl)
    ]

-- What the end of the socket `tx` may do: give its own handle up.
abbrev pub Released : ℕ → Option PeerHandle → Option PeerHandle → Type 0
Released tx before after =
    (after ≡ before) ⊎ ((h : PeerHandle) × (before ≡ some h) × (h.tx ≡ tx) × (after ≡ none))

empty_room : (r : Room) (id : Str) → length r ≡ 0 → get id r ≡ none
unfolding get
empty_room [] id h = refl
empty_room (e ∷ r) id h = ground arith

holder-left :
    (s : AppState) (room : Str) (r : Room) (user_id room' id : Str)
    → get room s.rooms ≡ some r
    → holder (left s room r user_id).0 room' id
      ≡ (if str_eq room room' && str_eq user_id id then none else holder s room' id)
holder-left s room r user_id room' id there =
    let r' = remove user_id r in
    let kept = get-remove user_id id r in
    let rooms = str_eq_iff room room' in
    elim (Bool-cases (length r' == 0)) [
      | inl e ↦ ground (arith, get-remove room room' s.rooms, empty_room r' id)
      | inr e ↦ ground (arith, holder-put s room room' id r')
    ]

-- At the end of a socket each id keeps its connection in each room, but for an id whose connection
-- was that socket's, which has none then: a superseded socket takes nothing with it.
pub cleanup-Released :
    (s : AppState) (k : Socket) (room id : Str)
    → Released k.tx (holder s room id) (holder (cleanup s k).0 room id)
unfolding cleanup
cleanup-Released s k room id = elim (Option-cases k.me) [
  | inl e ↦ inl (rw (e, cleanup) refl)
  | inr ((own, user_id), e) ↦ elim (Option-cases (get own s.rooms)) [
    | inl gone ↦ inl (rw (e, gone, cleanup) refl)
    | inr (r, there) ↦ elim (Option-cases (get user_id r)) [
      | inl out ↦ inl (rw (e, there, out, cleanup) refl)
      | inr (h, found) ↦ elim (Bool-cases (h.tx == k.tx)) [
        | inr other ↦ inl (rw (e, there, found, other, cleanup) refl)
        | inl mine ↦
            let after = holder-left s own r user_id room id there in
            elim (Bool-cases (str_eq own room && str_eq user_id id)) [
              | inr differs ↦ rw (e, there, found, mine, cleanup) (inl (rw (after, differs) refl))
              | inl same ↦
                  rw (e, there, found, mine, cleanup)
                    (inr (
                      h,
                      ground (arith, str_eq_iff own room, str_eq_iff user_id id),
                      ground arith,
                      rw (after, same) refl,
                    ))
            ]
      ]
    ]
  ]
]
