-- ===== src/Inputs/Tests.antt =====
-- The guards at concrete inputs.
use rdoc_squad_link_lite.Base.{◌≡◌, refl, true, false, none, some, lit, str_eq}
use rdoc_squad_link_lite.Inputs.Url.{
  url_host, server_url_ok, strip_prefix, after_first, until, after_last, is_loopback,
}
use rdoc_squad_link_lite.Audio.Decimals.{decimals, decimals-IsClamping}
use rdoc_squad_link_lite.Audio.Dsp.{default_config}
use rdoc_squad_link_lite.Audio.Radio.{default_radio}
use rdoc_squad_link_lite.Inputs.Ranges.{
  normalize_dsp, normalize_radio, IsNormalDsp, IsNormalRadio, normalize-IsNormal,
}
use rdoc_squad_link_lite.Inputs.Fields.{valid_id, valid_user_id, clean_cert, err, valid_hex}

host_of_ipv6 : url_host (lit "ws://[::1]") ≡ some (lit "::1")
unfolding url_host strip_prefix after_first until after_last
host_of_ipv6 = refl

host_after_userinfo : url_host (lit "wss://a@b@Host:1/x") ≡ some (lit "host")
unfolding url_host strip_prefix after_first until after_last
host_after_userinfo = refl

no_host : url_host (lit "wss://:443/ws") ≡ none
unfolding url_host strip_prefix after_first until after_last
no_host = refl

plain_to_loopback : server_url_ok (λ s. s) (lit "ws://localhost:1420") ≡ true
unfolding server_url_ok is_loopback url_host strip_prefix after_first until after_last str_eq
plain_to_loopback = refl

plain_to_host : server_url_ok (λ s. s) (lit "ws://evil.example/127.0.0.1") ≡ false
unfolding server_url_ok is_loopback url_host strip_prefix after_first until after_last str_eq
plain_to_host = refl

dot_in_user_id : valid_user_id (lit "a.b") 64 ≡ true
unfolding valid_user_id
dot_in_user_id = refl

dot_in_id : valid_id (lit "a.b") 64 ≡ false
unfolding valid_id
dot_in_id = refl

short_cert : clean_cert (λ s. s) (some (lit "abcd")) ≡ err
unfolding clean_cert valid_hex
short_cert = refl

-- A threshold of 7 and a low cut of 2 Hz.
normalize-IsNormal_example :
    IsNormalDsp decimals
      (normalize_dsp decimals (record (default_config decimals) { gate_threshold = (7, 0) }))
    × IsNormalRadio decimals
        (normalize_radio decimals (record (default_radio decimals) { low_cut = (2, 0) }))
normalize-IsNormal_example =
    normalize-IsNormal decimals decimals-IsClamping
      (record (default_config decimals) { gate_threshold = (7, 0) })
      (record (default_radio decimals) { low_cut = (2, 0) })
