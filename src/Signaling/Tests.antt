-- ===== src/Signaling/Tests.antt =====
-- The connection to the server at concrete inputs.
use rdoc_squad_link_lite.Base.{◌≡◌, refl, some, Str, [], ◌∷◌, lit, str_eq, ◌==◌, if◌then◌else◌}
use rdoc_squad_link_lite.Inputs.Url.{
  url_host, server_url_ok, strip_prefix, after_first, until, after_last, is_loopback,
}
use rdoc_squad_link_lite.Signaling.{Libs, dials, standard, connect_inner}
use rdoc_squad_link_lite.Signaling.Dialing.{Honours, connect_inner-Honours}

-- The one blank in front is trimmed.
abbrev trim_blank : Str → Str
trim_blank [] = []
trim_blank (c ∷ s) = if c == 32 then s else c ∷ s

abbrev libs : Libs
libs = record { trim = trim_blank; hex_decode = λ s. some s; sha256 = λ s. s }

abbrev pin : Str
pin = lit "0123456789abcdef0123456789abcdef"

connect_inner-Honours_example :
    Honours libs (lit "wss://host") pin (connect_inner libs (lit "wss://host") (some pin))
connect_inner-Honours_example = connect_inner-Honours libs (lit "wss://host") pin

-- A blank before the URL, and the pin is not used.
blank_before_url : connect_inner libs (lit " wss://host") (some pin) ≡ dials standard
unfolding connect_inner server_url_ok is_loopback url_host strip_prefix after_first until after_last
    str_eq
blank_before_url = refl
