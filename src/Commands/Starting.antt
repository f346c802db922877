-- ===== src/Commands/Starting.antt =====
-- apps/companion/src-tauri/src/lib.rs: `connect`, `disconnect` and the commands of the serverless
-- mode. The dashes in the texts of the errors are written as hyphens.
use rdoc_squad_link_lite.Base.{
  Bool, true, false, Option, none, some, Str, lit, if◌then◌else◌, is_some,
}
use rdoc_squad_link_lite.Inputs.Url.{server_url_ok}
use rdoc_squad_link_lite.Inputs.Fields
use rdoc_squad_link_lite.Inputs.Fields.{
  Cleaned, valid_id, valid_user_id, clean_token, clean_cert, clean_device,
}
use rdoc_squad_link_lite.Inputs.Texts.{Chars, valid_name, valid_code}
use rdoc_squad_link_lite.Engine.Handle.{Engine}
use rdoc_squad_link_lite.Serverless
use rdoc_squad_link_lite.Serverless.{Serverless, Result}
use rdoc_squad_link_lite.Commands.{AppState, Reply, Done, done, failed, dropped, answer, refuse}

-- The arguments of `connect`.
pub record Form : Type 0 where
  pub server : Str
  pub room : Str
  pub user_id : Str
  pub name : Str
  pub token : Option Str
  pub cert_sha256 : Option Str
  pub input_device : Option Str
  pub output_device : Option Str
  pub relay_enabled : Option Bool

pub record EngineConfig : Type 0 where
  pub server : Str
  pub room : Str
  pub user_id : Str
  pub name : Str
  pub token : Option Str
  pub cert_sha256 : Option Str
  pub input_device : Option Str
  pub output_device : Option Str
  pub relay_enabled : Bool

pub data Checked : Type 0 where
  good : EngineConfig → Checked
  bad : Str → Checked

-- `if !test { return Err(why) }`, and `?` on a field that is cleaned.
abbrev pub ensure_or : Str → Bool → Checked → Checked
ensure_or why test rest = if test then rest else bad why

abbrev pub cleaned_or : Str → Cleaned → (Option Str → Checked) → Checked
cleaned_or why Fields.err rest = bad why
cleaned_or why (Fields.ok v) rest = rest v

abbrev pub or_false : Option Bool → Bool
or_false none = false
or_false (some b) = b

abbrev pub bad_name : Str
bad_name = lit "invalid name (1-64 chars, no control chars)"

abbrev pub answered_reply : Result (Unit {0}) → Reply
answered_reply (Serverless.err e) = failed
answered_reply (Serverless.ok x) = done none

module _ (u : Chars) where
  unfoldable pub checked : Form → Checked
  checked form =
      let server = u.trim form.server in
      let name = u.trim form.name in
      ensure_or (lit "invalid server URL - use wss:// or loopback ws://")
        (server_url_ok u.trim server)
        (ensure_or (lit "invalid room") (valid_id form.room 64) (
          ensure_or (lit "invalid user_id") (valid_user_id form.user_id 64) (
            ensure_or bad_name (valid_name u name) (
              cleaned_or (lit "invalid token") (clean_token u.trim form.token) (λ token.
                cleaned_or (lit "invalid cert_sha256 (64 hex chars)")
                  (clean_cert u.trim form.cert_sha256)
                  (λ cert.
                    cleaned_or (lit "invalid device name") (clean_device u.trim form.input_device)
                      (λ input.
                        cleaned_or (lit "invalid device name")
                          (clean_device u.trim form.output_device)
                          (λ output. good (record {
                            server = server;
                            room = form.room;
                            user_id = form.user_id;
                            name = name;
                            token = token;
                            cert_sha256 = cert;
                            input_device = input;
                            output_device = output;
                            relay_enabled = or_false form.relay_enabled;
                          })))))))))

  module _ {F S : Type 0} where
    abbrev pub connected : AppState F S → Option (Engine F S) → Done F S
    connected st none = dropped true st (record st { serverless = none }) failed
    connected st (some e) =
        dropped true st (record { engine = some e; serverless = none }) (done none)

    abbrev pub connect_checked :
        (EngineConfig → Option (Engine F S)) → AppState F S → Checked → Done F S
    connect_checked start st (bad why) = refuse st why
    connect_checked start st (good cfg) =
        if is_some st.engine
        then refuse st (lit "already connected - disconnect first")
        else connected st (start cfg)

    unfoldable pub connect : (EngineConfig → Option (Engine F S)) → Form → AppState F S → Done F S
    connect start form st = connect_checked start st (checked form)

    -- The command is not `async`: whether a runtime is current on its thread is an argument.
    unfoldable pub disconnect : Bool → AppState F S → Done F S
    disconnect runtime st =
        dropped runtime st (record { engine = none; serverless = none }) (done none)

    -- What a role of the serverless mode makes takes the place of what was there.
    abbrev pub replaced : AppState F S → Result (Serverless × Str) → Done F S
    replaced st (Serverless.err e) = answer st failed
    replaced st (Serverless.ok (s, code)) =
        dropped true st (record st { serverless = some s }) (done (some code))

    -- `create` is `Serverless::create_offer`, `accept` `Serverless::accept_offer`.
    unfoldable pub serverless_offer :
        (Str → Result (Serverless × Str)) → Str → AppState F S → Done F S
    serverless_offer create name st =
        let name = u.trim name in
        if valid_name u name then replaced st (create name) else refuse st bad_name

    unfoldable pub serverless_accept_offer :
        (Str → Str → Result (Serverless × Str)) → Str → Str → AppState F S → Done F S
    serverless_accept_offer accept name code st =
        let name = u.trim name in
        if valid_name u name
        then (if valid_code u code
            then replaced st (accept code name)
            else refuse st (lit "invalid code"))
        else refuse st bad_name

    unfoldable pub serverless_accept_answer :
        (Serverless → Str → Result (Unit {0})) → Str → AppState F S → Done F S
    serverless_accept_answer accept code st =
        if valid_code u code
        then elim st.serverless [
          | none ↦ refuse st (lit "keine offene Serverless-Sitzung")
          | some s ↦ answer st (answered_reply (accept s code))
        ]
        else refuse st (lit "invalid code")
