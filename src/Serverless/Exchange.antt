-- ===== src/Serverless/Exchange.antt =====
-- The two texts that the peers hand each other, and a line of chat.
use rdoc_squad_link_lite.Base.{
  ℕ, ◌≤◌, ◌≡◌, refl, Bool, true, false, not, ◌||◌, ◌⊎◌, List, [], ◌∷◌, Option-cases, Bool-cases,
  inl, inr, none, some, Str, lit, arith, length, ltb, if◌then◌else◌,
}
use rdoc_squad_link_lite.Engine.Messages
use rdoc_squad_link_lite.Mesh.Ctrl.{max_chat_chars}
use rdoc_squad_link_lite.Serverless.{
  Serverless, Rtc, Text, Effect, start_rig, open_pc, remote, send_text, ui, ok, decode_code,
  build_pc, create_offer, accept_offer, accept_answer, offer_steps, answer_steps, send_chat,
  on_message, max_chat_bytes,
}

-- base64 and JSON read what they wrote; what base64 writes has no whitespace to lose.
pub record IsFaithful (t : Text) : Type 0 where
  pub decode-encode : (bytes : Str) → t.decode (t.encode bytes) ≡ some bytes
  pub from_json-to_json :
      (text j : Str) (ts : ℕ) → t.to_json text ts ≡ some j → t.from_json j ≡ some (text, ts)

-- All that a peer asks of the devices and the connection succeeds: `pc` is the connection, `sdp` its
-- full description.
pub record Succeeds (rtc : Rtc) (pc : ℕ) (sdp : Str) : Type 0 where
  pub rig : rtc.setup_audio ≡ true
  pub conn : rtc.new_pc ≡ some pc
  pub track : rtc.add_track ≡ true
  pub dc : ℕ
  pub channel : rtc.create_data_channel ≡ some dc
  pub draft : Str
  pub offer : rtc.create_offer ≡ some draft
  pub answer : rtc.create_answer ≡ some draft
  pub local : rtc.set_local_description draft ≡ true
  pub full : rtc.local_description ≡ some sdp
  pub parses : (o : Bool) (s : Str) → rtc.parse o s ≡ true
  pub remotes : (o : Bool) (s : Str) → rtc.set_remote_description o s ≡ true

build_pc-Succeeds :
    {pc : ℕ} {sdp : Str} (rtc : Rtc)
    → Succeeds rtc pc sdp
    → build_pc rtc ≡ (some pc, start_rig ∷ open_pc pc ∷ [])
unfolding build_pc
build_pc-Succeeds rtc h = rw (h.rig, h.conn, h.track) refl

decode_code-encode :
    (t : Text) (code sdp : Str)
    → IsFaithful t
    → t.without_whitespace code ≡ t.encode sdp
    → t.is_utf8 sdp ≡ true
    → decode_code t code ≡ ok sdp
unfolding decode_code
decode_code-encode t code sdp h same utf8 = rw (same, h.decode-encode sdp, utf8) refl

create_offer-Succeeds :
    {pc : ℕ} {sdp : Str} (rtc : Rtc) (t : Text) (me : Str) (h : Succeeds rtc pc sdp)
    → create_offer rtc t me ≡ (
      ok (record { pc = pc; transmit = false; chat = some h.dc; me = me }, t.encode sdp),
      start_rig ∷ open_pc pc ∷ [],
    )
unfolding create_offer offer_steps
create_offer-Succeeds rtc t me h =
    rw (build_pc-Succeeds rtc h, h.channel, h.offer, h.local, h.full) refl

accept_offer-Succeeds :
    {pc : ℕ} {sdp : Str} (rtc : Rtc) (t : Text) (code me offer : Str)
    → Succeeds rtc pc sdp
    → decode_code t code ≡ ok offer
    → accept_offer rtc t code me ≡ (
      ok (record { pc = pc; transmit = false; chat = none; me = me }, t.encode sdp),
      start_rig ∷ open_pc pc ∷ remote pc true offer ∷ [],
    )
unfolding accept_offer answer_steps
accept_offer-Succeeds rtc t code me offer h d =
    rw
      (
        d,
        accept_offer,
        h.parses true offer,
        build_pc-Succeeds rtc h,
        h.remotes true offer,
        h.answer,
        h.local,
        h.full,
      )
      refl

accept_answer-Succeeds :
    {pc : ℕ} {sdp : Str} (rtc : Rtc) (t : Text) (s : Serverless) (code answer : Str)
    → Succeeds rtc pc sdp
    → decode_code t code ≡ ok answer
    → accept_answer rtc t s code ≡ (ok tt, remote s.pc false answer ∷ [])
unfolding accept_answer
accept_answer-Succeeds rtc t s code answer h d =
    rw (d, accept_answer, h.parses false answer, h.remotes false answer) refl

-- The offer and the answer, each with whitespace put in on the way: where all calls succeed, the
-- second peer's connection is given the description of the first as an offer, and the first one's
-- that of the second as an answer, and no text is refused.
pub exchange :
    (a b : Rtc) (t : Text) (me_a me_b code_a code_b : Str) {pc_a pc_b : ℕ} {sdp_a sdp_b : Str}
    (h : Succeeds a pc_a sdp_a)
    → Succeeds b pc_b sdp_b
    → IsFaithful t
    → t.without_whitespace code_a ≡ t.encode sdp_a
    → t.without_whitespace code_b ≡ t.encode sdp_b
    → t.is_utf8 sdp_a ≡ true
    → t.is_utf8 sdp_b ≡ true
    → (s : Serverless) × (create_offer a t me_a
        ≡ (ok (s, t.encode sdp_a), start_rig ∷ open_pc pc_a ∷ []))
      × (accept_offer b t code_a me_b ≡ (
        ok (record { pc = pc_b; transmit = false; chat = none; me = me_b }, t.encode sdp_b),
        start_rig ∷ open_pc pc_b ∷ remote pc_b true sdp_a ∷ [],
      ))
      × (accept_answer a t s code_b ≡ (ok tt, remote pc_a false sdp_b ∷ []))
exchange a b t me_a me_b code_a code_b {pc_a} {sdp_a} {sdp_b} h k f same_a same_b utf_a utf_b = (
  record { pc = pc_a; transmit = false; chat = some h.dc; me = me_a },
  create_offer-Succeeds a t me_a h,
  accept_offer-Succeeds b t code_a me_b sdp_a k (decode_code-encode t code_a sdp_a f same_a utf_a),
  accept_answer-Succeeds a t _ code_b sdp_b h (decode_code-encode t code_b sdp_b f same_b utf_b),
)

-- What the peer is shown of a text.
abbrev pub cut_chat : Text → Str → Str
cut_chat t text =
    if ltb max_chat_chars (t.count_chars text) then t.take_chars max_chat_chars text else text

-- What `send_chat` may do: nothing, a report to the user, or the text on the channel and an echo.
abbrev pub SendsOrTells : Text → ℕ → (Str → Bool) → Serverless → Str → List Effect → Type 0
SendsOrTells t ts sends s text [] = (dc : ℕ) × (s.chat ≡ some dc) × (t.to_json text ts ≡ none)
SendsOrTells t ts sends s text (ui (Messages.log why) ∷ []) =
    (s.chat ≡ none)
    ⊎ ((j : Str) × (t.to_json text ts ≡ some j)
        × (ltb max_chat_bytes (length j) || not (sends j) ≡ true))
SendsOrTells t ts sends s text (send_text dc j ∷ ui (Messages.UiEvent.chat name echo) ∷ []) =
    (s.chat ≡ some dc)
    × (t.to_json text ts ≡ some j)
    × (length j ≤ max_chat_bytes)
    × (sends j ≡ true)
    × (name ≡ s.me)
    × (echo ≡ text)
    × (on_message t j ≡ ui (Messages.UiEvent.chat (lit "Peer") (cut_chat t text)) ∷ [])
SendsOrTells t ts sends s text _ = ⊥

-- Whatever line of chat is sent, on whatever session: if it goes out, on the channel that is open, it
-- fits into 4096 bytes and the channel took it, the sender is shown the line under his name, and what
-- arrives shows the peer the line, cut to 2000 characters if it is longer. Else nothing goes out and
-- nothing is echoed: the user is told, and then there is no channel, or the line is too long or is not
-- taken; or he is not told, and then it cannot be written as JSON.
pub on_message-send_chat :
    (t : Text) (ts : ℕ) (sends : Str → Bool) (s : Serverless) (text : Str)
    → IsFaithful t
    → SendsOrTells t ts sends s text (send_chat t ts sends s text)
unfolding send_chat on_message
on_message-send_chat t ts sends s text f = elim (Option-cases s.chat) [
  | inl shut ↦ rw (shut, send_chat) (inl refl)
  | inr (dc, is_open) ↦ elim (Option-cases (t.to_json text ts)) [
    | inl json ↦ rw (is_open, send_chat, json) (dc, refl, json)
    | inr (j, json) ↦ elim (Bool-cases (ltb max_chat_bytes (length j))) [
      | inl long ↦ rw (is_open, send_chat, json, long) (inr (j, json, ground (arith, long)))
      | inr fits ↦ elim (Bool-cases (sends j)) [
        | inr lost ↦ rw (is_open, send_chat, json, fits, lost) (inr (j, json, ground (arith, lost)))
        | inl sent ↦
            rw (is_open, send_chat, json, fits, sent)
              (
                refl,
                json,
                ground (arith, fits),
                sent,
                refl,
                refl,
                rw (fits, f.from_json-to_json text j ts json) refl,
              )
      ]
    ]
  ]
]
