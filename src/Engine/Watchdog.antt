-- ===== src/Engine/Watchdog.antt =====
-- apps/companion-core/src/lib.rs: what the periodic tick decides. Durations and instants are numbers of
-- nanoseconds.
pub mod Episodes
use rdoc_squad_link_lite.Base.{
  ℕ, ◌*◌, ◌-◌, Bool, true, false, not, ◌&&◌, ◌||◌, List, [], ◌∷◌, Option, none, some, Str, lit,
  str_eq, str_lt, leb, if◌then◌else◌, keys, filter, any, is_some,
}
use rdoc_squad_link_lite.Protocol.{PeerInfo, err_id_in_use, err_protocol_mismatch}
use rdoc_squad_link_lite.Engine.Member.{Members}

abbrev pub secs : ℕ → ℕ
secs n = n * 1000000000

abbrev pub keyless_warn_after : ℕ
keyless_warn_after = secs 8

abbrev pub link_retry_offerer : ℕ
link_retry_offerer = secs 8

abbrev pub link_retry_answerer : ℕ
link_retry_answerer = secs 24

unfoldable pub relink_due : Str → Str → ℕ → ℕ → Bool
relink_due me_id peer_id down_for since_try =
    let due = if str_lt me_id peer_id then link_retry_offerer else link_retry_answerer in
    leb due down_for && leb due since_try

unfoldable pub departed : Members → List PeerInfo → List Str
departed known roster = filter (λ id. not (any (λ p. str_eq p.user_id id) roster)) (keys known)

-- Since when the node has been without a key, and whether it was warned of that.
pub record Keyless : Type 0 where
  pub since : Option ℕ
  pub warned : Bool

abbrev pub or_now : ℕ → Option ℕ → ℕ
or_now now none = now
or_now now (some t) = t

unfoldable pub keyless_warn_due : Bool → Keyless → ℕ → Keyless × Bool
keyless_warn_due keyless k now =
    let start = or_now now k.since in
    if not keyless
    then (record { since = none; warned = false }, false)
    else if not k.warned && leb keyless_warn_after (now - start)
    then (record { since = some start; warned = true }, true)
    else (record { since = some start; warned = k.warned }, false)

-- The server errors after which a reconnection would be refused forever, with what the user is told.
unfoldable pub terminal_error_text : Str → Option Str
terminal_error_text code =
    if str_eq code err_id_in_use
    then some (
        lit
          "Dieser Name ist in der Sitzung bereits vergeben - bitte mit anderem Namen neu beitreten.")
    else if str_eq code err_protocol_mismatch
    then some (lit "Diese subraum-Version passt nicht zum Server - bitte subraum aktualisieren.")
    else none
