-- ===== src/Crypto/RoomAudio/Plaintext.antt =====
-- Once a node holds a room key it neither sends nor plays plaintext audio.
use rdoc_squad_link_lite.Base.{
  ℕ, ◌≤◌, ◌≡◌, refl, Bool, true, false, List, [], ◌∷◌, Option, none, some, Str, ◌==◌, length, arith,
  is_some, length-take-le, sym, ◌∙◌, Bool-cases, Option-cases, inl, inr,
}
use rdoc_squad_link_lite.Crypto.Primitives.{Primitives}
use rdoc_squad_link_lite.Crypto.RoomAudio.{
  RoomKey, RoomAudio, new, stage, promote, install, audio_raw, generation, room_key_prev_slots,
}

-- The calls that change a `RoomAudio`.
pub data Call : Type 0 where
  stages installs : RoomKey → Call
  promotes : ℕ → Call

pub step : RoomAudio → Call → RoomAudio
step r (stages k) = (stage r k).0
step r (installs k) = install r k
step r (promotes g) = promote r g

pub run : RoomAudio → List Call → RoomAudio
run r [] = r
run r (c ∷ cs) = run (step r c) cs

-- At most two superseded keys are kept, and there is a send key only where a key is staged.
pub record IsValid (r : RoomAudio) : Type 0 where
  pub bounded : length r.prev ≤ room_key_prev_slots
  pub staged : r.cur ≡ none → (r.prev ≡ []) × (r.send ≡ none)

new-IsValid : IsValid new
new-IsValid = record { bounded = omega arith; staged = λ _. (refl, refl) }

stage-keyed : (r : RoomAudio) (k : RoomKey) → is_some (stage r k).0.cur ≡ true
unfolding stage
stage-keyed r k = ground arith

pub cur-promote : (r : RoomAudio) (g : ℕ) → (promote r g).cur ≡ r.cur
unfolding promote
cur-promote r g = ground arith

stage_prev :
    (r : RoomAudio) (k : RoomKey) (c : Option RoomKey)
    → r.cur ≡ c
    → length r.prev ≤ room_key_prev_slots
    → length (stage r k).0.prev ≤ room_key_prev_slots
unfolding stage
stage_prev r k none e h = ground arith
stage_prev r k (some old) e h = ground (arith, length-take-le room_key_prev_slots (old ∷ r.prev))

stage-IsValid : (r : RoomAudio) (k : RoomKey) → IsValid r → IsValid (stage r k).0
stage-IsValid r k v = record {
  bounded = stage_prev r k r.cur refl v.bounded;
  staged = λ e. ground (arith, stage-keyed r k);
}

promote-IsValid : (r : RoomAudio) (g : ℕ) → IsValid r → IsValid (promote r g)
unfolding promote
promote-IsValid r g v = record {
  bounded = ground arith;
  staged = λ e. let empty = v.staged (sym (cur-promote r g) ∙ e) in ground (arith, empty);
}

-- `install` stages, and then promotes at most.
install_cases {ℓ} :
    (P : RoomAudio → Type ℓ) (r : RoomAudio) (k : RoomKey)
    → P (stage r k).0
    → ((g : ℕ) → P (promote (stage r k).0 g))
    → P (install r k)
unfolding install
install_cases P r k kept promoted = elim (Bool-cases (stage r k).1) [
  | inl e ↦ elim (Option-cases (generation (stage r k).0)) [
    | inl n ↦ rw (e, n, install) (promoted k.gen)
    | inr (g, n) ↦ rw (e, n, install) (promoted g)
  ]
  | inr e ↦ rw (e, install) kept
]

-- Every call keeps the ring within its bound and the send key behind a staged one.
pub step-IsValid : (r : RoomAudio) (c : Call) → IsValid r → IsValid (step r c)
unfolding step
step-IsValid r (stages k) v = stage-IsValid r k v
step-IsValid r (installs k) v =
    install_cases IsValid r k (stage-IsValid r k v)
      (λ g. promote-IsValid (stage r k).0 g (stage-IsValid r k v))
step-IsValid r (promotes g) v = promote-IsValid r g v

run-IsValid : (r : RoomAudio) (cs : List Call) → IsValid r → IsValid (run r cs)
unfolding run
run-IsValid r [] v = v
run-IsValid r (c ∷ cs) v = run-IsValid (step r c) cs (step-IsValid r c v)

-- Whatever calls were made from the start, at most two superseded keys are kept, and there is a
-- send key only where a key is staged.
pub run-new-IsValid : (cs : List Call) → IsValid (run new cs)
run-new-IsValid cs = run-IsValid new cs new-IsValid

-- The first byte of a frame.
abbrev pub is_plain : Option Str → Bool
is_plain none = false
is_plain (some []) = false
is_plain (some (t ∷ frame)) = t == audio_raw
