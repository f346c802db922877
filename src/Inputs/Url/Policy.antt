-- ===== src/Inputs/Url/Policy.antt =====
-- Which servers a companion connects to.
use rdoc_squad_link_lite.Base.{
  ◌≡◌, refl, Bool, true, ◌||◌, Option, none, some, Str, lit, is_some, arith,
}
use rdoc_squad_link_lite.Inputs.Url.{
  server_url_ok, is_loopback, url_host, strip_prefix, loopback_name,
}

abbrev pub is_wss : Str → Bool
is_wss url = is_some (strip_prefix (lit "wss://") url)

loopback-is_some : (host : Option Str) → loopback_name host ≡ true → is_some host ≡ true
loopback-is_some none h = cc
loopback-is_some (some name) h = refl

-- A URL that is accepted has a host once it is trimmed, and is a wss:// one or its host is a
-- loopback name.
pub server_url_ok_lem :
    (trim : Str → Str) (url : Str)
    → server_url_ok trim url ≡ true
    → (is_some (url_host (trim url)) ≡ true)
      × ((is_wss (trim url) || is_loopback (trim url)) ≡ true)
unfolding server_url_ok is_loopback
server_url_ok_lem trim url h = ground (arith, loopback-is_some (url_host (trim url)))
