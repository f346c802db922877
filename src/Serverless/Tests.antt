-- ===== src/Serverless/Tests.antt =====
-- The serverless mode at concrete inputs: texts are their own base64, and a line of chat is JSON with
-- its time in front.
use rdoc_squad_link_lite.Base.{
  ℕ, ◌≡◌, refl, sym, ap, true, false, not, [], ◌∷◌, Option, none, some, Str, lit, ◌==◌, length,
  take, filter,
}
use rdoc_squad_link_lite.Engine.Messages
use rdoc_squad_link_lite.Serverless.{
  Serverless, Rtc, Text, start_rig, open_pc, remote, send_text, ui, ok, create_offer, accept_offer,
  accept_answer, send_chat,
}
use rdoc_squad_link_lite.Serverless.Rigs.{OwnsRig, make-OwnsRig}
use rdoc_squad_link_lite.Serverless.Exchange.{
  IsFaithful, Succeeds, SendsOrTells, exchange, on_message-send_chat,
}

abbrev read_line : Str → Option (Str × ℕ)
read_line [] = none
read_line (ts ∷ text) = some (text, ts)

abbrev texts : Text
texts = record {
  without_whitespace = filter (λ c. not (c == 32));
  encode = λ s. s;
  decode = λ s. some s;
  is_utf8 = λ s. true;
  to_json = λ text ts. some (ts ∷ text);
  from_json = read_line;
  count_chars = λ s. length s;
  take_chars = λ n s. take n s;
}

abbrev read_some : Option Str → Option (Str × ℕ)
read_some none = none
read_some (some j) = read_line j

texts-IsFaithful : IsFaithful texts
texts-IsFaithful = record {
  decode-encode = λ bytes. refl;
  from_json-to_json = λ text j ts h. sym (ap read_some h);
}

-- A connection whose full description is `sdp`.
abbrev working : ℕ → Str → Rtc
working pc sdp = record {
  setup_audio = true;
  new_pc = some pc;
  add_track = true;
  create_data_channel = some 5;
  create_offer = some (lit "v=0");
  create_answer = some (lit "v=0");
  parse = λ o s. true;
  set_local_description = λ s. true;
  set_remote_description = λ o s. true;
  local_description = some sdp;
}

-- The answer cannot be made.
abbrev answerless : Rtc
answerless = record (working 1 (lit "sdp")) { create_answer = none }

working-Succeeds : (pc : ℕ) (sdp : Str) → Succeeds (working pc sdp) pc sdp
working-Succeeds pc sdp = record {
  rig = refl;
  conn = refl;
  track = refl;
  dc = 5;
  channel = refl;
  draft = lit "v=0";
  offer = refl;
  answer = refl;
  local = refl;
  full = refl;
  parses = λ o s. refl;
  remotes = λ o s. refl;
}

make-OwnsRig_example :
    OwnsRig (create_offer answerless texts (lit "Ann"))
    × OwnsRig (accept_offer answerless texts (lit "code") (lit "Ann"))
make-OwnsRig_example = make-OwnsRig answerless texts (lit "code") (lit "Ann")

exchange_example :
    (s : Serverless) × (create_offer (working 1 (lit "off")) texts (lit "Ann")
      ≡ (ok (s, lit "off"), start_rig ∷ open_pc 1 ∷ []))
    × (accept_offer (working 2 (lit "ans")) texts (lit "o f f") (lit "Bob") ≡ (
      ok (record { pc = 2; transmit = false; chat = none; me = lit "Bob" }, lit "ans"),
      start_rig ∷ open_pc 2 ∷ remote 2 true (lit "off") ∷ [],
    ))
    × (accept_answer (working 1 (lit "off")) texts s (lit "an s")
        ≡ (ok tt, remote 1 false (lit "ans") ∷ []))
exchange_example =
    exchange (working 1 (lit "off")) (working 2 (lit "ans")) texts (lit "Ann") (lit "Bob")
      (lit "o f f") (lit "an s") (working-Succeeds 1 (lit "off")) (working-Succeeds 2 (lit "ans"))
      texts-IsFaithful refl refl refl refl

abbrev ann : Serverless
ann = record { pc = 1; transmit = false; chat = some 5; me = lit "Ann" }

on_message-send_chat_example :
    SendsOrTells texts 9
      (λ j. true)
      ann
      (lit "hello")
      (send_text 5 (9 ∷ lit "hello") ∷ ui (Messages.UiEvent.chat (lit "Ann") (lit "hello")) ∷ [])
unfolding send_chat
on_message-send_chat_example =
    on_message-send_chat texts 9 (λ j. true) ann (lit "hello") texts-IsFaithful
