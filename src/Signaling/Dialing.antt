-- ===== src/Signaling/Dialing.antt =====
-- Whom the client connects to, and when the certificate is pinned.
use rdoc_squad_link_lite.Base.{
  ◌≡◌, ap, ◌∙◌, Bool, true, false, ◌||◌, Option, none, some, Str, lit, ◌==◌, length, arith,
  Bool-cases, Option-cases, inl, inr,
}
use rdoc_squad_link_lite.Inputs.Url.{server_url_ok, is_loopback}
use rdoc_squad_link_lite.Inputs.Url.Policy.{server_url_ok_lem}
use rdoc_squad_link_lite.Signaling.{
  Libs, pinned, standard, Dialed, refused, bad_pin, dials, pinned_connector, pin_of_32, starts_with,
  connect_inner,
}

-- A text that is no pin: no hex, or not 32 bytes of it.
abbrev pub is_pin : Option Str → Bool
is_pin none = false
is_pin (some bytes) = length bytes == 32

-- What comes of a URL and a pin.
abbrev pub Honours : Libs → Str → Str → Dialed → Type 0
Honours libs url pin refused = server_url_ok libs.trim url ≡ false
Honours libs url pin bad_pin =
    (server_url_ok libs.trim url ≡ true)
    × (starts_with (lit "wss://") url ≡ true)
    × (is_pin (libs.hex_decode (libs.trim pin)) ≡ false)
Honours libs url pin (dials (pinned bytes)) =
    (server_url_ok libs.trim url ≡ true)
    × (starts_with (lit "wss://") url ≡ true)
    × (libs.hex_decode (libs.trim pin) ≡ some bytes)
    × (length bytes ≡ 32)
Honours libs url pin (dials standard) =
    (server_url_ok libs.trim url ≡ true)
    × (starts_with (lit "wss://") url ≡ false)
    × ((starts_with (lit "wss://") (libs.trim url) || is_loopback (libs.trim url)) ≡ true)

pin_of_32-Honours :
    (libs : Libs) (url pin : Str)
    → server_url_ok libs.trim url ≡ true
    → starts_with (lit "wss://") url ≡ true
    → Honours libs url pin (pin_of_32 (libs.hex_decode (libs.trim pin)))
pin_of_32-Honours libs url pin allowed h = elim (Option-cases (libs.hex_decode (libs.trim pin))) [
  | inl n ↦ rw n (allowed, h, ap is_pin n)
  | inr (bytes, n) ↦ elim (Bool-cases (length bytes == 32)) [
    | inl e ↦ rw (n, e) (allowed, h, n, ground (arith, e))
    | inr e ↦ rw (n, e) (allowed, h, ap is_pin n ∙ e)
  ]
]

-- With a pin, of any URL: it is refused exactly if it is not allowed. Of those that are allowed, one
-- that starts with wss:// is dialed for the certificate with the 32 bytes of the pin only, or not at
-- all, and then the pin is not 32 bytes in hex; one that does not is dialed without the pin, and once
-- it is trimmed it is for this host, or starts with wss:// after all.
pub connect_inner-Honours :
    (libs : Libs) (url pin : Str) → Honours libs url pin (connect_inner libs url (some pin))
unfolding connect_inner pinned_connector
connect_inner-Honours libs url pin = elim (Bool-cases (server_url_ok libs.trim url)) [
  | inr e ↦ rw e e
  | inl e ↦ elim (Bool-cases (starts_with (lit "wss://") url)) [
    | inl w ↦ rw (e, w) (pin_of_32-Honours libs url pin e w)
    | inr w ↦ rw (e, w) (e, w, (server_url_ok_lem libs.trim url e).1)
  ]
]
