-- ===== src/Sessions.antt =====
-- server/init/src/sessions.rs: PIN-protected session brokering. The map behind the mutex is a
-- dictionary from share codes; the clock is an argument, and so is what `rand` draws. Times are
-- `u64` seconds.
pub mod Lockout
pub mod Store
pub mod Draws
pub mod Pins
mod Tests
use rdoc_squad_link_lite.Base.{
  ℕ, ◌+◌, ◌-◌, ◌/◌, ◌%◌, Bool, true, false, List, [], ◌∷◌, ◌++◌, map, Option, none, some, Str, lit,
  Dict, get, insert, contains_key, ltb, leb, if◌then◌else◌, wrapping_add_u32, saturating_add_u64,
  get_or,
}
use rdoc_squad_link_lite.ConstantTime.{ct_eq}

abbrev pub max_age_secs : ℕ
max_age_secs = 86400

abbrev pub empty_grace_secs : ℕ
empty_grace_secs = 300

abbrev pub max_attempts : ℕ
max_attempts = 6

abbrev pub lock_secs : ℕ
lock_secs = 600

pub record Session : Type 0 where
  pub room : Str
  pub token : Option Str
  pub pin : Str
  pub created : ℕ
  pub last_active : ℕ
  pub attempts : ℕ
  pub locked_at : ℕ

-- `Result<(String, Option<String>), JoinError>`.
pub data JoinResult : Type 0 where
  joined : Str → Option Str → JoinResult
  not_found locked bad_pin : JoinResult

-- An index into the alphabet for each letter; `gen_range` draws them below its length.
abbrev pub alphabet : Str
alphabet = lit "abcdefghijkmnpqrstuvwxyz23456789"

unfoldable pub rand_code : List ℕ → Str
rand_code draws = map (λ i. get_or alphabet i 0) draws

-- `format!("{n:06}")` for the drawn `n` below 1_000_000.
unfoldable pub rand_pin : ℕ → Str
rand_pin n =
    (b'0' + n / 100000 % 10)
    ∷ (b'0' + n / 10000 % 10)
    ∷ (b'0' + n / 1000 % 10)
    ∷ (b'0' + n / 100 % 10)
    ∷ (b'0' + n / 10 % 10)
    ∷ (b'0' + n % 10)
    ∷ []

-- `while map.contains_key(&code) { code = rand_code(); }` over the codes drawn: the first one that
-- is free, and `none` if the draws end before.
unfoldable pub fresh_code : Dict Session → List Str → Option Str
fresh_code map [] = none
fresh_code map (code ∷ draws) = if contains_key code map then fresh_code map draws else some code

abbrev pub new_session : Str → Option Str → Str → ℕ → Session
new_session room token pin t = record {
  room = room;
  token = token;
  pin = pin;
  created = t;
  last_active = t;
  attempts = 0;
  locked_at = 0;
}

-- `rand_hex` gives the room's random part; `hex::encode` has made text of it.
unfoldable pub create :
    (Str → Option Str)
    → Str
    → ℕ
    → List Str
    → ℕ
    → Dict Session
    → Option ((Str × Str × Str × Option Str) × Dict Session)
create token_for hex n draws t map =
    let room = lit "squad-" ++ hex in
    let token = token_for room in
    let pin = rand_pin n in
    elim (fresh_code map draws) [
      | none ↦ none
      | some code ↦ some ((code, pin, room, token), insert code (new_session room token pin t) map)
    ]

-- The comparison and what follows it in `join_at`.
unfoldable pub check_pin : Session → Str → ℕ → Session × JoinResult
check_pin s pin t =
    if ct_eq s.pin pin
    then (record s { last_active = t }, joined s.room s.token)
    else (let attempts = wrapping_add_u32 s.attempts 1 in
        (
          record s {
            attempts = attempts;
            locked_at = (if leb max_attempts attempts then t else s.locked_at);
          },
          bad_pin,
        ))

-- `join_at` on the session that the code names.
unfoldable pub guess : Session → Str → ℕ → Session × JoinResult
unfolding check_pin
guess s pin t =
    if leb max_attempts s.attempts
    then (if ltb t (saturating_add_u64 s.locked_at lock_secs)
        then (s, locked)
        else check_pin (record s { attempts = 0 }) pin t)
    else check_pin s pin t

unfoldable pub join_at : Dict Session → Str → Str → ℕ → Dict Session × JoinResult
join_at map code pin t = elim (get code map) [
  | none ↦ (map, not_found)
  | some s ↦ (let (s', r) = guess s pin t in (insert code s' map, r))
]

-- What the closure of `retain` does with one session.
unfoldable pub sweep : (Str → Bool) → ℕ → Session → Option Session
sweep room_nonempty n s =
    if leb max_age_secs (n - s.created)
    then none
    else if room_nonempty s.room
    then some (record s { last_active = n })
    else if ltb (n - s.last_active) empty_grace_secs
    then some s
    else none

abbrev pub keep_entry : Str → Option Session → Dict Session → Dict Session
keep_entry code none rest = rest
keep_entry code (some s) rest = (code, s) ∷ rest

unfoldable pub reap : (Str → Bool) → ℕ → Dict Session → Dict Session
reap room_nonempty n [] = []
reap room_nonempty n ((code, s) ∷ m) =
    keep_entry code (sweep room_nonempty n s) (reap room_nonempty n m)
