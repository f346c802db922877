-- ===== src/Audio/Buffers.antt =====
-- apps/companion-core/src/audio.rs: the queues of samples, `Buf` and the values of `MixMap`. All of
-- them drop their oldest samples at a bound.
pub mod Latest
use rdoc_squad_link_lite.Base.{
  ℕ, ◌+◌, ◌-◌, List, [], ◌∷◌, ◌++◌, length, drop, leb, ltb, if◌then◌else◌, Dict, get, Str, Option,
  none, some,
}

-- 20 ms at 48 kHz.
abbrev pub frame_size : ℕ
frame_size = 960

abbrev pub cap_max : ℕ
cap_max = 96000

-- The bound of a peer's queue in the mix, 400 ms.
abbrev pub jitter_max : ℕ
jitter_max = 19200

-- The bound of the user's own queue in the mix, 200 ms.
abbrev pub monitor_max : ℕ
monitor_max = 9600

abbrev pub pop_front : {A : Type 0} → List A → List A
pop_front = drop 1

-- `cap_push`, with its `CAP_MAX` as an argument.
unfoldable pub cap_push : {A : Type 0} → ℕ → List A → A → List A
cap_push max b s = (if leb max (length b) then pop_front b else b) ++ s ∷ []

-- A callback of the input stream pushes what it is given.
unfoldable pub cap_push_all : {A : Type 0} → ℕ → List A → List A → List A
cap_push_all max b [] = b
cap_push_all max b (s ∷ ss) = cap_push_all max (cap_push max b s) ss

-- `while b.len() > max { b.pop_front(); }`.
unfoldable pub trim_to : {A : Type 0} → ℕ → List A → List A
trim_to max [] = []
trim_to max (s ∷ b) = let rest = trim_to max b in if ltb max (length (s ∷ b)) then rest else s ∷ b

-- `entry(key).or_default()`.
abbrev pub queue_of : {A : Type 0} → Str → Dict (List A) → List A
queue_of key mix = elim (get key mix) [ none ↦ [] | some b ↦ b ]
