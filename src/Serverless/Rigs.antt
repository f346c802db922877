-- ===== src/Serverless/Rigs.antt =====
-- No microphone stays open behind an error.
use rdoc_squad_link_lite.Base.{
  ℕ, suc, ◌≤◌, ◌≡◌, refl, Bool, true, false, List, [], ◌∷◌, ◌++◌, none, some, Str, arith,
  Bool-cases, Option-cases, inl, inr,
}
use rdoc_squad_link_lite.Serverless.{
  Serverless, Rtc, Text, Effect, start_rig, stop_rig, open_pc, close_pc, remote, send_text, ui,
  Result, ok, err, decode_code, build_pc, Made, described, built, offer_steps, with_remote,
  answer_steps, create_offer, accept_offer,
}

-- The rigs that effects start and stop.
abbrev pub starts : List Effect → ℕ
starts [] = 0
starts (start_rig ∷ fx) = suc (starts fx)
starts (stop_rig ∷ fx) = starts fx
starts (open_pc pc ∷ fx) = starts fx
starts (close_pc pc ∷ fx) = starts fx
starts (remote pc o s ∷ fx) = starts fx
starts (send_text dc s ∷ fx) = starts fx
starts (ui e ∷ fx) = starts fx

abbrev pub stops : List Effect → ℕ
stops [] = 0
stops (start_rig ∷ fx) = stops fx
stops (stop_rig ∷ fx) = suc (stops fx)
stops (open_pc pc ∷ fx) = stops fx
stops (close_pc pc ∷ fx) = stops fx
stops (remote pc o s ∷ fx) = stops fx
stops (send_text dc s ∷ fx) = stops fx
stops (ui e ∷ fx) = stops fx

-- A session that was made has the one rig that was started; an error leaves none running.
abbrev pub OwnsRig : Made → Type 0
OwnsRig (ok (s, code), fx) = (starts fx ≡ 1) × (stops fx ≡ 0)
OwnsRig (err e, fx) = (starts fx ≡ stops fx) × (starts fx ≤ 1)

-- What is done with the session once it owns the rig.
abbrev Keeps : Made → Type 0
Keeps (ok r, fx) = (starts fx ≡ 0) × (stops fx ≡ 0)
Keeps (err e, fx) = (starts fx ≡ 0) × (stops fx ≡ 1)

added-OwnsRig : (pc : ℕ) (r : Made) → Keeps r → OwnsRig (r.0, (start_rig ∷ open_pc pc ∷ []) ++ r.1)
added-OwnsRig pc (ok (s, code), fx) k = (omega (arith, k), k.1)
added-OwnsRig pc (err e, fx) k = (omega (arith, k), omega (arith, k))

built-OwnsRig :
    (me : Str) (go : Serverless → Made) (rtc : Rtc)
    → ((s : Serverless) → Keeps (go s))
    → OwnsRig (built me go (build_pc rtc))
unfolding build_pc
built-OwnsRig me go rtc keeps = elim (Bool-cases rtc.setup_audio) [
  | inr e ↦ rw e (refl, omega arith)
  | inl e ↦ elim (Option-cases rtc.new_pc) [
    | inl n ↦ rw (e, n) (refl, omega arith)
    | inr (pc, n) ↦ elim (Bool-cases rtc.add_track) [
      | inr t ↦ rw (e, n, t) (refl, omega arith)
      | inl t ↦
          let s : Serverless = record { pc = pc; transmit = false; chat = none; me = me } in
          rw (e, n, t) (added-OwnsRig pc (go s) (keeps s))
    ]
  ]
]

described-Keeps :
    (rtc : Rtc) (t : Text) (s : Serverless) (sdp : Str) → Keeps (described rtc t s sdp)
described-Keeps rtc t s sdp = elim (Bool-cases (rtc.set_local_description sdp)) [
  | inr e ↦ rw e (refl, refl)
  | inl e ↦ elim (Option-cases rtc.local_description) [
    | inl n ↦ rw (e, n) (refl, refl)
    | inr (full, n) ↦ rw (e, n) (refl, refl)
  ]
]

offer_steps-Keeps : (rtc : Rtc) (t : Text) (s : Serverless) → Keeps (offer_steps rtc t s)
unfolding offer_steps
offer_steps-Keeps rtc t s = elim (Option-cases rtc.create_data_channel) [
  | inl n ↦ rw n (refl, refl)
  | inr (dc, n) ↦ elim (Option-cases rtc.create_offer) [
    | inl o ↦ rw (n, o) (refl, refl)
    | inr (offer, o) ↦ rw (n, o) (described-Keeps rtc t (record s { chat = some dc }) offer)
  ]
]

remote-Keeps : (pc : ℕ) (o : Bool) (sdp : Str) (r : Made) → Keeps r → Keeps (with_remote pc o sdp r)
remote-Keeps pc o sdp (ok x, fx) k = k
remote-Keeps pc o sdp (err e, fx) k = k

answer_steps-Keeps :
    (rtc : Rtc) (t : Text) (offer : Str) (s : Serverless) → Keeps (answer_steps rtc t offer s)
unfolding answer_steps
answer_steps-Keeps rtc t offer s = elim (Bool-cases (rtc.set_remote_description true offer)) [
  | inr e ↦ rw e (refl, refl)
  | inl e ↦ elim (Option-cases rtc.create_answer) [
    | inl n ↦ rw (e, n) (refl, refl)
    | inr (answer, n) ↦ rw (e, n) (remote-Keeps s.pc true offer _ (described-Keeps rtc t s answer))
  ]
]

accept_offer-OwnsRig :
    (rtc : Rtc) (t : Text) (code me : Str) (r : Result Str)
    → decode_code t code ≡ r
    → OwnsRig (accept_offer rtc t code me)
unfolding accept_offer
accept_offer-OwnsRig rtc t code me (err e) h = rw (h, accept_offer) (refl, omega arith)
accept_offer-OwnsRig rtc t code me (ok sdp) h = elim (Bool-cases (rtc.parse true sdp)) [
  | inr e ↦ rw (h, accept_offer, e) (refl, omega arith)
  | inl e ↦
      rw (h, accept_offer, e)
        (built-OwnsRig me (answer_steps rtc t sdp) rtc (answer_steps-Keeps rtc t sdp))
]

-- Whatever the devices and the connection answer, at whatever step one fails, in both roles: a
-- session that is made has the one rig that was started, which runs; after an error each rig that was
-- started, one at most, is stopped.
pub make-OwnsRig :
    (rtc : Rtc) (t : Text) (code me : Str)
    → OwnsRig (create_offer rtc t me) × OwnsRig (accept_offer rtc t code me)
unfolding create_offer
make-OwnsRig rtc t code me = (
  built-OwnsRig me (offer_steps rtc t) rtc (offer_steps-Keeps rtc t),
  accept_offer-OwnsRig rtc t code me (decode_code t code) refl,
)
