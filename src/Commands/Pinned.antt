-- ===== src/Commands/Pinned.antt =====
-- From the form to the connection: the pin that the user gives is the one that is checked.
use rdoc_squad_link_lite.Base.{
  ◌≡◌, refl, sym, ap, subst, ◌∙◌, true, ◌&&◌, ◌||◌, some, Str, lit, ◌==◌, length, arith,
  if◌then◌else◌,
}
use rdoc_squad_link_lite.Inputs.Fields.{valid_hex}
use rdoc_squad_link_lite.Inputs.Texts.{Chars}
use rdoc_squad_link_lite.Inputs.Url.{is_loopback}
use rdoc_squad_link_lite.Inputs.Url.Policy.{server_url_ok_lem}
use rdoc_squad_link_lite.Signaling.{
  Libs, pinned, standard, dials, pinned_connector, starts_with, connect_inner,
}
use rdoc_squad_link_lite.Commands.Starting.{Form, EngineConfig, good, checked}
use rdoc_squad_link_lite.Commands.Guarded.{IsAllowed, Allows, checked-Allows, holds_if}

module _ (u : Chars) (libs : Libs) (idempotent : (s : Str) → u.trim (u.trim s) ≡ u.trim s)
    (hex_of_64 : (s : Str)
      → (length s == 64 && valid_hex s 64) ≡ true
      → (bytes : Str) × (libs.hex_decode s ≡ some bytes) × (length bytes ≡ 32)) where
  trimmed_same : (t s : Str) → t ≡ u.trim s → u.trim t ≡ t
  trimmed_same t s e = ap u.trim e ∙ (idempotent s ∙ sym e)

  -- Whom a configuration with a pin is dialed for, if it passes the guards.
  IsAllowed-dials :
      (cfg : EngineConfig) (pin : Str)
      → IsAllowed u cfg
      → cfg.cert_sha256 ≡ some pin
      → (bytes : Str) × (libs.hex_decode pin ≡ some bytes)
        × (connect_inner (record libs { trim = u.trim }) cfg.server cfg.cert_sha256 ≡ (
            if starts_with (lit "wss://") cfg.server then dials (pinned bytes) else dials standard))
        × ((starts_with (lit "wss://") cfg.server || is_loopback cfg.server) ≡ true)
  unfolding connect_inner pinned_connector
  IsAllowed-dials cfg pin allowed has_pin =
      let (form_server, server_eq) = allowed.server_trimmed in
      let (form_pin, pin_eq) = allowed.cert_trimmed pin has_pin in
      let is_hex : (length pin == 64 && valid_hex pin 64) ≡ true =
        sym (ap (holds_if (λ c. length c == 64 && valid_hex c 64)) has_pin) ∙ allowed.cert in
      let (bytes, decoded, size) = hex_of_64 pin is_hex in
      let of_32 : (length bytes == 32) ≡ true = ground (arith, size) in
      let same_url = trimmed_same cfg.server form_server server_eq in
      let policy = (server_url_ok_lem u.trim cfg.server allowed.server).1 in
      (
        bytes,
        decoded,
        rw (has_pin, allowed.server, trimmed_same pin form_pin pin_eq, decoded, of_32) refl,
        subst (λ x. (starts_with (lit "wss://") x || is_loopback x) ≡ true) same_url policy,
      )

  -- Where trimming twice is trimming once, and 64 digits of hex stand for 32 bytes: what `connect`
  -- makes of a form with a pin is dialed, for the certificate with exactly those bytes if the URL
  -- starts with wss://; it starts with that, or is for this host.
  pub checked-dials :
      (form : Form) (cfg : EngineConfig) (pin : Str)
      → checked u form ≡ good cfg
      → cfg.cert_sha256 ≡ some pin
      → (bytes : Str) × (libs.hex_decode pin ≡ some bytes)
        × (connect_inner (record libs { trim = u.trim }) cfg.server cfg.cert_sha256 ≡ (
            if starts_with (lit "wss://") cfg.server then dials (pinned bytes) else dials standard))
        × ((starts_with (lit "wss://") cfg.server || is_loopback cfg.server) ≡ true)
  checked-dials form cfg pin e has_pin =
      IsAllowed-dials cfg pin (subst (Allows u) e (checked-Allows u form)) has_pin
