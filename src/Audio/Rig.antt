-- ===== src/Audio/Rig.antt =====
-- apps/companion-core/src/audio.rs: what happens to the mix, by all the threads that share it:
-- a step of the decoding, of the test of the microphone, of a cue or of the mixer.
pub mod Tidy
use rdoc_squad_link_lite.Base.{
  ℕ, ◌+◌, ◌≤◌, ◌<◌, ◌/◌, ◌≡◌, Bool, true, ◌||◌, List, [], ◌∷◌, ◌++◌, Option, some, Str, lit, str_eq,
  is_some, Dict, get, insert, length, if◌then◌else◌, leb,
}
use rdoc_squad_link_lite.Audio.Buffers.{jitter_max}
use rdoc_squad_link_lite.Audio.Earcon.{earcon_key, queue_cue}
use rdoc_squad_link_lite.Audio.Encode.{listen}
use rdoc_squad_link_lite.Audio.Decode.{Opus, Decoding, on_packet}
use rdoc_squad_link_lite.Audio.Mixer.{popped}

-- A packet of a peer, some time after the one before; a frame of the user's own voice; a cue; and a
-- round of the mixer.
pub data Event (S : Type 0) : Type 0 where
  packet : ℕ → Str → Str → Event S
  own_frame : List S → Event S
  cue : List S → Event S
  round : Event S

pub record Rig (D S : Type 0) : Type 0 where
  pub now : ℕ
  pub decoding : Decoding D S

module _ {D S : Type 0} where
  abbrev pub silent_rig : Rig D S
  silent_rig = record { now = 0; decoding = record { decoders = []; mix = []; last_gc = 0 } }

  abbrev pub with_mix : Dict (List S) → Rig D S → Rig D S
  with_mix mix r = record r { decoding = record r.decoding { mix = mix } }

  unfoldable pub on_event : Opus D S → ℕ → Event S → Rig D S → Rig D S
  on_event opus idle (packet dt peer payload) r = record {
    now = r.now + dt;
    decoding = on_packet opus idle (r.now + dt) peer payload r.decoding;
  }
  on_event opus idle (own_frame frame) r = with_mix (listen true frame r.decoding.mix) r
  on_event opus idle (cue src) r = with_mix (queue_cue src r.decoding.mix) r
  on_event opus idle round r = with_mix (popped r.decoding.mix) r

  unfoldable pub run : Opus D S → ℕ → List (Event S) → Rig D S → Rig D S
  run opus idle [] r = r
  run opus idle (e ∷ es) r = run opus idle es (on_event opus idle e r)

-- A cue fits the bound of a queue.
abbrev pub fits : {S : Type 0} → Event S → Bool
fits (packet dt peer payload) = true
fits (own_frame frame) = true
fits (cue src) = leb (length src) jitter_max
fits round = true

abbrev pub is_local : Str → Bool
is_local key = str_eq key (lit "self") || str_eq key earcon_key

-- No queue is longer than the bound of a peer's; each is the user's own, that of the cues, or that of
-- a peer with a decoder; and no decoder has been silent for one and a half times the idle time when
-- the last packet came.
pub record IsTidy {D S : Type 0} (idle : ℕ) (r : Rig D S) : Type 0 where
  pub bounded : (key : Str) (q : List S) → get key r.decoding.mix ≡ some q → length q ≤ jitter_max
  pub owned :
      (key : Str) (q : List S)
      → get key r.decoding.mix ≡ some q
      → (is_local key || is_some (get key r.decoding.decoders)) ≡ true
  pub heard :
      (key : Str) (d : D) (seen : ℕ)
      → get key r.decoding.decoders ≡ some (d, seen)
      → (r.now < seen + idle + idle / 2) × (r.decoding.last_gc < seen + idle)
  pub collected : (r.decoding.last_gc ≤ r.now) × (r.now < r.decoding.last_gc + idle / 2)
