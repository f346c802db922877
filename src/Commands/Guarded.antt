-- ===== src/Commands/Guarded.antt =====
-- What the webview can start.
use rdoc_squad_link_lite.Base.{
  ◌≡◌, refl, sym, ap, ◌∙◌, Bool, true, false, ◌&&◌, [], ◌∷◌, Option, none, some, Str, leb, ◌==◌,
  length, arith, is_some, Option-cases, inl, inr,
}
use rdoc_squad_link_lite.Inputs.Url.{server_url_ok}
use rdoc_squad_link_lite.Inputs.Fields
use rdoc_squad_link_lite.Inputs.Fields.{
  Cleaned, valid_id, valid_user_id, valid_hex, clean_token, clean_cert, clean_device, cleaned,
  clean,
}
use rdoc_squad_link_lite.Inputs.Texts.{Chars, valid_name}
use rdoc_squad_link_lite.Engine.Handle.{Engine}
use rdoc_squad_link_lite.Commands.{AppState, Reply, Done, done, refused, failed, closes}
use rdoc_squad_link_lite.Commands.Starting.{
  Form, EngineConfig, Checked, good, bad, ensure_or, cleaned_or, checked, connect, connect_checked,
}

abbrev pub holds_if : (Str → Bool) → Option Str → Bool
holds_if p none = true
holds_if p (some s) = p s

module _ (u : Chars) where
  -- A configuration that passes every guard, its server and its certificate as they are trimmed.
  pub record IsAllowed (cfg : EngineConfig) : Type 0 where
    pub server : server_url_ok u.trim cfg.server ≡ true
    pub server_trimmed : (s : Str) × (cfg.server ≡ u.trim s)
    pub room : valid_id cfg.room 64 ≡ true
    pub user_id : valid_user_id cfg.user_id 64 ≡ true
    pub name : valid_name u cfg.name ≡ true
    pub token : holds_if (λ t. valid_hex t 128) cfg.token ≡ true
    pub cert : holds_if (λ c. length c == 64 && valid_hex c 64) cfg.cert_sha256 ≡ true
    pub cert_trimmed : (c : Str) → cfg.cert_sha256 ≡ some c → (s : Str) × (c ≡ u.trim s)
    pub input : holds_if (λ d. leb (length d) 256) cfg.input_device ≡ true
    pub output : holds_if (λ d. leb (length d) 256) cfg.output_device ≡ true

  abbrev pub Allows : Checked → Type 0
  Allows (bad why) = Unit
  Allows (good cfg) = IsAllowed cfg

  ensure_or-Allows :
      (why : Str) (test : Bool) (rest : Checked)
      → (test ≡ true → Allows rest)
      → Allows (ensure_or why test rest)
  ensure_or-Allows why true rest h = h refl
  ensure_or-Allows why false rest h = tt

  cleaned_or-Allows :
      (why : Str) (c : Cleaned) (rest : Option Str → Checked)
      → ((v : Option Str) → c ≡ Fields.ok v → Allows (rest v))
      → Allows (cleaned_or why c rest)
  cleaned_or-Allows why (Fields.ok v) rest h = h v refl
  cleaned_or-Allows why Fields.err rest h = tt

  cleaned-holds :
      (p : Str → Bool) (s : Str) (v : Option Str) → cleaned p s ≡ Fields.ok v → holds_if p v ≡ true
  cleaned-holds p [] v h = ground (arith, h)
  cleaned-holds p (c ∷ s) v h = ground (arith, h)

  clean-holds :
      (p : Str → Bool) (o v : Option Str) → clean u.trim p o ≡ Fields.ok v → holds_if p v ≡ true
  clean-holds p none v h = ground (arith, h)
  clean-holds p (some s) v h = cleaned-holds p (u.trim s) v h

  cleaned-same : (p : Str → Bool) (s c : Str) → cleaned p s ≡ Fields.ok (some c) → c ≡ s
  cleaned-same p [] c h = ground (arith, h)
  cleaned-same p (d ∷ s) c h = ground (arith, h)

  clean-trimmed :
      (p : Str → Bool) (o : Option Str) (c : Str)
      → clean u.trim p o ≡ Fields.ok (some c)
      → (s : Str) × (c ≡ u.trim s)
  clean-trimmed p none c h = absurd (ground (arith, h))
  clean-trimmed p (some s) c h = (s, cleaned-same p (u.trim s) c h)

  pub checked-Allows : (form : Form) → Allows (checked u form)
  unfolding checked clean_token clean_cert clean_device
  checked-Allows form =
      let server = u.trim form.server in
      let name = u.trim form.name in
      ensure_or-Allows _ (server_url_ok u.trim server) _ (λ a.
        ensure_or-Allows _ (valid_id form.room 64) _ (λ b.
          ensure_or-Allows _ (valid_user_id form.user_id 64) _ (λ c.
            ensure_or-Allows _ (valid_name u name) _ (λ d.
              cleaned_or-Allows _ (clean_token u.trim form.token) _ (λ token e.
                cleaned_or-Allows _ (clean_cert u.trim form.cert_sha256) _ (λ cert g.
                  cleaned_or-Allows _ (clean_device u.trim form.input_device) _ (λ input h.
                    cleaned_or-Allows _ (clean_device u.trim form.output_device) _ (λ output i.
                      record {
                        server = a;
                        server_trimmed = (form.server, refl);
                        room = b;
                        user_id = c;
                        name = d;
                        token = clean-holds (λ t. valid_hex t 128) form.token token e;
                        cert =
                            clean-holds (λ s. length s == 64 && valid_hex s 64) form.cert_sha256
                              cert g;
                        cert_trimmed = λ c k.
                            clean-trimmed (λ s. length s == 64 && valid_hex s 64) form.cert_sha256 c
                              (g ∙ ap Fields.ok k);
                        input = clean-holds (λ s. leb (length s) 256) form.input_device input h;
                        output = clean-holds (λ s. leb (length s) 256) form.output_device output i;
                      }))))))))

  module _ {F S : Type 0} (start : EngineConfig → Option (Engine F S)) (st : AppState F S) where
    -- Refused: nothing happens. Else no engine ran; one was started with a configuration that passes
    -- the guards, and runs, if that did not fail; and no serverless session is left, open or hidden.
    abbrev pub Connects : Done F S → Reply → Type 0
    Connects d (refused why) = (d.state ≡ st) × (d.stopped ≡ []) × (d.closed ≡ [])
    Connects d (done v) =
        (st.engine ≡ none)
        × (d.state.serverless ≡ none)
        × (d.stopped ≡ closes st.serverless)
        × (d.closed ≡ closes st.serverless)
        × ((cfg : EngineConfig) × IsAllowed cfg
            × (d.state.engine ≡ start cfg)
            × (is_some (start cfg) ≡ true))
    Connects d failed =
        (d.state.engine ≡ none)
        × (d.state.serverless ≡ none)
        × (d.stopped ≡ closes st.serverless)
        × (d.closed ≡ closes st.serverless)
        × ((cfg : EngineConfig) × IsAllowed cfg × (start cfg ≡ none))

    connect_checked-Connects :
        (c : Checked)
        → Allows c
        → Connects (connect_checked u start st c) (connect_checked u start st c).reply
    connect_checked-Connects (bad why) h = (refl, refl, refl)
    connect_checked-Connects (good cfg) h = elim (Option-cases st.engine) [
      | inr (e, running) ↦ rw running (refl, refl, refl)
      | inl idle ↦ elim (Option-cases (start cfg)) [
        | inl f ↦ rw (idle, f) (refl, refl, refl, refl, (cfg, h, f))
        | inr (e, f) ↦ rw (idle, f) (refl, refl, refl, refl, (cfg, h, sym f, rw f refl))
      ]
    ]

    -- Whatever the form and whatever runs. If `connect` refuses, nothing changes. Else no engine ran:
    -- the one that runs then was started with a configuration that passes every guard, or the start
    -- with such a one failed and none runs; and of a serverless session that was there the rig is
    -- stopped and the connection closed.
    pub connect-Connects :
        (form : Form) → Connects (connect u start form st) (connect u start form st).reply
    unfolding connect
    connect-Connects form = connect_checked-Connects (checked u form) (checked-Allows form)
