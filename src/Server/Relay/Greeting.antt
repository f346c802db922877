-- ===== src/Server/Relay/Greeting.antt =====
-- What a socket that joins hears.
use rdoc_squad_link_lite.Base.{
  ℕ, suc, ◌≡◌, ◌≢◌, refl, true, false, not, ◌&&◌, List, [], ◌∷◌, ◌++◌, none, some, Str, str_eq_iff,
  leb, ◌==◌, arith, if◌then◌else◌, get, insert, remove, contains_key, length, All, remove-All, ap,
  ◌∙◌,
}
use rdoc_squad_link_lite.Protocol.ToClient.{ServerMsg, roster, turn, warn, peer_joined}
use rdoc_squad_link_lite.Server.Turn.{mint}
use rdoc_squad_link_lite.Server.Relay.{
  AppState, Socket, PeerHandle, Room, Send, or_default, hard_cap, warn_cap, to_all, to_others,
}
use rdoc_squad_link_lite.Server.Relay.Join.{
  Config, enter, admit, may_take_over, roster_of, warning, superseded, turn_creds,
}

-- The messages to one channel.
unfoldable pub received : ℕ → List Send → List ServerMsg
received tx [] = []
received tx ((to, msg) ∷ sends) =
    let rest = received tx sends in if to == tx then msg ∷ rest else rest

received-append : (tx : ℕ) (a b : List Send) → received tx (a ++ b) ≡ received tx a ++ received tx b
unfolding received
received-append tx [] b = refl
received-append tx ((to, msg) ∷ a) b = ground (arith, received-append tx a b)

-- No handle of the room has the channel.
abbrev pub IsNew : ℕ → Room → Type 0
IsNew tx r = All (λ e. e.1.tx ≢ tx) r

received-to_others :
    (tx : ℕ) (user_id : Str) (r : Room) (msg : ServerMsg)
    → IsNew tx r
    → received tx (to_others user_id r msg) ≡ []
unfolding received to_others
received-to_others tx user_id [] msg h = refl
received-to_others tx user_id ((id, e) ∷ r) msg h =
    ground (arith, h.0, received-to_others tx user_id r msg h.1)

received-to_all :
    (tx : ℕ) (r : Room) (msg : ServerMsg) → IsNew tx r → received tx (to_all r msg) ≡ []
unfolding received
received-to_all tx [] msg h = refl
received-to_all tx ((id, e) ∷ r) msg h = ground (arith, h.0, received-to_all tx r msg h.1)

received-superseded :
    (tx : ℕ) (user_id : Str) (r : Room) → IsNew tx r → received tx (superseded (get user_id r)) ≡ []
unfolding received get
received-superseded tx user_id [] h = refl
received-superseded tx user_id ((id, e) ∷ r) h =
    ground (arith, h.0, received-superseded tx user_id r h.1)

abbrev pub warned : ℕ → List ServerMsg
warned size = if leb warn_cap size then warn size warn_cap ∷ [] else []

abbrev pub credentials : Config → ℕ → Str → List ServerMsg
credentials cfg now_secs user_id = elim cfg.turn_config [
  | none ↦ []
  | some t ↦ turn (mint cfg.hmac_base64 t now_secs user_id) ∷ []
]

received-creds :
    (cfg : Config) (now_secs : ℕ) (user_id : Str) (tx : ℕ)
    → received tx (turn_creds cfg now_secs user_id tx) ≡ credentials cfg now_secs user_id
unfolding received
received-creds cfg now_secs user_id tx = ground arith

received-warning :
    (r : Room) (user_id : Str) (h : PeerHandle)
    → IsNew h.tx r
    → received h.tx (warning ((user_id, h) ∷ r)) ≡ warned (suc (length r))
unfolding received
received-warning r user_id h new =
    ground (arith, received-to_all h.tx r (warn (suc (length r)) warn_cap) new)

received-own :
    (tx : ℕ) (msg : ServerMsg) (a : List Send) → received tx ((tx, msg) ∷ a) ≡ msg ∷ received tx a
unfolding received
received-own tx msg a = ground arith

received-newcomer :
    (r : Room) (user_id : Str) (h : PeerHandle) (msg : ServerMsg)
    → IsNew h.tx r
    → received h.tx (to_others user_id ((user_id, h) ∷ r) msg) ≡ []
unfolding to_others
received-newcomer r user_id h msg new =
    ground (arith, received-to_others h.tx user_id r msg new, str_eq_iff user_id user_id)

-- Nothing in the first two parts.
received-parts :
    (tx : ℕ) (a b w c : List Send) (msg : ServerMsg)
    → received tx a ≡ []
    → received tx b ≡ []
    → received tx (((a ++ b) ++ ((tx, msg) ∷ w)) ++ c) ≡ msg ∷ (received tx w ++ received tx c)
received-parts tx a b w c msg p q =
    rw
      (
        received-append tx ((a ++ b) ++ ((tx, msg) ∷ w)) c,
        received-append tx (a ++ b) ((tx, msg) ∷ w),
        received-append tx a b,
        p,
        q,
        received-own tx msg w,
      )
      refl

admit-received :
    (cfg : Config) (now_secs : ℕ) (s : AppState) (k : Socket) (r : Room)
    (room user_id name secret : Str)
    → IsNew k.tx r
    → let others = remove user_id r in
      received k.tx (admit cfg now_secs s k r (get user_id r) room user_id name secret).sends
      ≡ roster (roster_of others)
        ∷ (warned (suc (length (remove user_id others))) ++ credentials cfg now_secs user_id)
unfolding admit insert
admit-received cfg now_secs s k r room user_id name secret new =
    let others = remove user_id r in
    let rest = remove user_id others in
    let h : PeerHandle = record { name = name; tx = k.tx; secret = secret } in
    let new_rest : IsNew k.tx rest =
      remove-All (λ e. e.1.tx ≢ k.tx) user_id others
        (remove-All (λ e. e.1.tx ≢ k.tx) user_id r new) in
    let joined = peer_joined user_id name in
    let hello = roster (roster_of others) in
    let warns = warning ((user_id, h) ∷ rest) in
    let creds = turn_creds cfg now_secs user_id k.tx in
    received-parts k.tx (superseded (get user_id r))
      (to_others user_id ((user_id, h) ∷ rest) joined) warns creds hello
      (received-superseded k.tx user_id r new) (received-newcomer rest user_id h joined new_rest)
    ∙ ap (λ x. hello ∷ (x ++ received k.tx creds)) (received-warning rest user_id h new_rest)
    ∙ ap (λ x. hello ∷ (warned (suc (length rest)) ++ x)) (received-creds cfg now_secs user_id k.tx)

-- A socket whose channel is in no handle of the room yet, and that the room has a place for, hears
-- the roster first, without itself or the connection that it supersedes, then the warning where the
-- room has reached the soft cap, and then its TURN credentials, and nothing else.
pub enter-received :
    (cfg : Config) (now_secs : ℕ) (s : AppState) (k : Socket) (room user_id name secret : Str)
    → (leb hard_cap (length (or_default (get room s.rooms)))
        && not (contains_key user_id (or_default (get room s.rooms))))
      ≡ false
    → may_take_over secret (get user_id (or_default (get room s.rooms))) ≡ true
    → IsNew k.tx (or_default (get room s.rooms))
    → let others = remove user_id (or_default (get room s.rooms)) in
      let joined = enter cfg now_secs s k room user_id name secret in
      (received k.tx joined.sends
        ≡ roster (roster_of others)
          ∷ (warned (suc (length (remove user_id others))) ++ credentials cfg now_secs user_id))
      × (joined.socket.me ≡ some (room, user_id))
unfolding enter admit
enter-received cfg now_secs s k room user_id name secret free ours new =
    let r = or_default (get room s.rooms) in
    (
      rw (free, ours, enter) (admit-received cfg now_secs s k r room user_id name secret new),
      rw (free, ours, enter, admit) refl,
    )
