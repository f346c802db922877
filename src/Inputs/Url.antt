-- ===== src/Inputs/Url.antt =====
-- apps/companion-core/src/signaling.rs: `url_host` and `server_url_ok`. Trimming of Unicode is an
-- argument.
pub mod Policy
use rdoc_squad_link_lite.Base.{
  ℕ, ◌+◌, Bool, true, false, not, ◌&&◌, ◌||◌, List, [], ◌∷◌, map, Option, none, some, Str, lit,
  str_eq, ◌==◌, if◌then◌else◌, is_some, any,
}
use rdoc_squad_link_lite.Server.Auth.{to_ascii_lowercase}

unfoldable pub strip_prefix : Str → Str → Option Str
strip_prefix [] s = some s
strip_prefix (p ∷ ps) [] = none
strip_prefix (p ∷ ps) (c ∷ s) = let rest = strip_prefix ps s in if p == c then rest else none

-- `split_once(pat)?.1`.
unfoldable pub after_first : Str → Str → Option Str
after_first pat [] = strip_prefix pat []
after_first pat (c ∷ s) =
    let later = after_first pat s in
    elim (strip_prefix pat (c ∷ s)) [ some r ↦ some r | none ↦ later ]

-- `split([..]).next()`: up to the first of the separators.
unfoldable pub until : List ℕ → Str → Str
until seps [] = []
until seps (c ∷ s) = let rest = until seps s in if any (λ sep. sep == c) seps then [] else c ∷ rest

-- `rsplit(sep).next()`: what follows the last separator.
unfoldable pub after_last : ℕ → Str → Str
after_last sep [] = []
after_last sep (c ∷ s) =
    let rest = after_last sep s in
    if any (λ d. d == sep) s then rest else if c == sep then s else c ∷ s

abbrev pub non_empty : Str → Option Str
non_empty [] = none
non_empty (c ∷ s) = some (c ∷ s)

-- `[ipv6]` or `host:port`.
abbrev pub host_of : Str → Str
host_of hostport = elim (strip_prefix (lit "[") hostport) [
  | some after ↦ until (lit "]") after
  | none ↦ until (lit ":") hostport
]

unfoldable pub url_host : Str → Option Str
url_host url = elim (after_first (lit "://") url) [
  | none ↦ none
  | some rest ↦ elim (non_empty (host_of (after_last 64 (until (lit "/?#") rest)))) [
    | none ↦ none
    | some host ↦ some (map to_ascii_lowercase host)
  ]
]

abbrev pub loopback_name : Option Str → Bool
loopback_name none = false
loopback_name (some h) =
    str_eq h (lit "localhost") || (str_eq h (lit "127.0.0.1") || str_eq h (lit "::1"))

unfoldable pub is_loopback : Str → Bool
unfolding url_host
is_loopback url = loopback_name (url_host url)

unfoldable pub server_url_ok : (Str → Str) → Str → Bool
unfolding url_host is_loopback
server_url_ok trim url =
    let u = trim url in
    elim (strip_prefix (lit "wss://") u) [
      | some stripped ↦ is_some (non_empty stripped) && is_some (url_host u)
      | none ↦ if is_some (strip_prefix (lit "ws://") u) then is_loopback u else false
    ]
