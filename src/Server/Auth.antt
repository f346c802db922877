-- ===== src/Server/Auth.antt =====
-- server/init/src/auth.rs: the token that opens a room. HMAC-SHA256 and the hex digits are an
-- argument.
use rdoc_squad_link_lite.Base.{
  ℕ, ◌+◌, ◌≡◌, ◌↔◌, refl, Bool, true, false, ◌&&◌, ◌||◌, [], ◌∷◌, map, Option, none, some, Str, lit,
  str_eq, str_eq_iff, arith, leb, if◌then◌else◌, ap,
}
use rdoc_squad_link_lite.ConstantTime.{ct_eq, ct_eq-str_eq}

-- The server opens every room, or a room to its token only.
pub data AuthConfig : Type 0 where
  open_auth : AuthConfig
  hmac : Str → AuthConfig

pub data Configured : Type 0 where
  accepted : AuthConfig → Configured
  refused : Configured

abbrev pub to_ascii_lowercase : ℕ → ℕ
to_ascii_lowercase c = if leb 65 c && leb c 90 then c + 32 else c

abbrev pub eq_ignore_ascii_case : Str → Str → Bool
eq_ignore_ascii_case a b = str_eq (map to_ascii_lowercase a) (map to_ascii_lowercase b)

abbrev pub flagged : Option Str → Bool
flagged none = false
flagged (some v) = str_eq v (lit "1") || eq_ignore_ascii_case v (lit "true")

abbrev pub without_secret : Option Str → Configured
without_secret allow_open = if flagged allow_open then accepted open_auth else refused

unfoldable pub from_values : Option Str → Option Str → Configured
from_values (some (c ∷ s)) allow_open = accepted (hmac (c ∷ s))
from_values (some []) allow_open = without_secret allow_open
from_values none allow_open = without_secret allow_open

module _ (hmac_hex : Str → Str → Str) where
  unfoldable pub token_for : AuthConfig → Str → Option Str
  token_for open_auth room = none
  token_for (hmac key) room = some (hmac_hex key room)

  abbrev pub matches : Str → Option Str → Bool
  matches expected none = false
  matches expected (some t) = ct_eq t expected

  unfoldable pub check : AuthConfig → Str → Option Str → Bool
  check open_auth room token = true
  check (hmac key) room token = matches (hmac_hex key room) token

  -- With a secret that is not empty, whatever ALLOW_OPEN_AUTH says, the server starts, and opens a
  -- room to exactly the token that `token_for` mints for it.
  pub check-token_for :
      (c : ℕ) (s : Str) (allow_open : Option Str) (room : Str) (token : Option Str)
      → (cfg : AuthConfig) × (from_values (some (c ∷ s)) allow_open ≡ accepted cfg)
        × ((check cfg room token ≡ true) ↔ (token ≡ token_for cfg room))
  unfolding from_values check token_for
  check-token_for c s allow_open room none = (hmac (c ∷ s), refl, (λ h. cc, λ h. cc))
  check-token_for c s allow_open room (some t) =
      let expected = hmac_hex (c ∷ s) room in
      let same = str_eq_iff t expected in
      (
        hmac (c ∷ s),
        refl,
        (
          λ h. ap some (same.0 (rw (← ct_eq-str_eq t expected) h)),
          λ h. rw (ct_eq-str_eq t expected) (same.1 (cc h)),
        ),
      )

abbrev pub is_set : Option Str → Bool
is_set none = false
is_set (some []) = false
is_set (some (c ∷ s)) = true

-- A server that opens every room has no secret, and was told to by ALLOW_OPEN_AUTH.
pub open_only_if_flagged :
    (secret allow_open : Option Str)
    → from_values secret allow_open ≡ accepted open_auth
    → (flagged allow_open ≡ true) × (is_set secret ≡ false)
unfolding from_values
open_only_if_flagged secret allow_open h = ground arith
