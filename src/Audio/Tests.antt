-- ===== src/Audio/Tests.antt =====
-- The audio at concrete inputs, with codecs that count their calls.
use rdoc_squad_link_lite.Base.{ℕ, suc, ◌≡◌, refl, true, false, List, [], ◌∷◌, some, lit, arith}
use rdoc_squad_link_lite.Audio.Decimals.{Decimal, decimals, casts}
use rdoc_squad_link_lite.Audio.Buffers.{cap_push_all}
use rdoc_squad_link_lite.Audio.Buffers.Latest.{cap_push_all-latest}
use rdoc_squad_link_lite.Audio.Dsp.{default_config, new_dsp}
use rdoc_squad_link_lite.Audio.Decode.{Opus}
use rdoc_squad_link_lite.Audio.Encode.{Flags, Encoder, Encoding, Processing, on_chunk}
use rdoc_squad_link_lite.Audio.Encode.Gate.{on_chunk-shut}
use rdoc_squad_link_lite.Audio.Mixer.{replicate}
use rdoc_squad_link_lite.Audio.Rig.{Event, packet, own_frame, cue, round, silent_rig, run, IsTidy}
use rdoc_squad_link_lite.Audio.Rig.Tidy.{run-silent_rig-IsTidy}

cap_push_all-latest_example : cap_push_all {A = ℕ} 3 (1 ∷ 2 ∷ []) (3 ∷ 4 ∷ 5 ∷ []) ≡ 3 ∷ 4 ∷ 5 ∷ []
cap_push_all-latest_example =
    cap_push_all-latest 3 (1 ∷ 2 ∷ []) (3 ∷ 4 ∷ 5 ∷ []) (omega arith) (omega arith)

-- A decoder that counts its packets and gives back what it reads.
abbrev counting : Opus ℕ ℕ
counting = record { fresh = 0; decode = λ d payload. (suc d, some payload) }

-- Two peers, the user's own voice, a cue, and a second packet after the first peer is stale.
abbrev a_while : List (Event ℕ)
a_while =
    packet 1 (lit "a") (lit "xyz")
    ∷ own_frame (1 ∷ 2 ∷ [])
    ∷ cue (3 ∷ [])
    ∷ round
    ∷ packet 20 (lit "b") (lit "uvw")
    ∷ []

run-silent_rig-IsTidy_example : IsTidy 10 (run counting 10 a_while silent_rig)
run-silent_rig-IsTidy_example = run-silent_rig-IsTidy counting 10 (omega arith) a_while refl

abbrev counter : Encoder ℕ ℕ
counter = record { set_bitrate = λ br e. br; encode = λ e frame. (suc e, some frame) }

-- Neither rates nor noise.
abbrev plain_proc : Processing Decimal ℕ ℕ
plain_proc = record {
  new_resampler = λ rate. rate;
  resample = λ r xs. (r, xs);
  denoise = λ n xs. (suc n, xs);
}

-- The user transmits while the microphone is tested.
abbrev testing : Flags Decimal
testing = record {
  transmit = true;
  monitor = true;
  bitrate = 0;
  dtx = false;
  config = default_config decimals;
}

abbrev fresh_encoding : Encoding Decimal ℕ ℕ ℕ
fresh_encoding = record {
  enc = 0;
  last_br = 0;
  cur_rate = 48000;
  up = 48000;
  den = 0;
  dsp = new_dsp decimals;
  buf48 = [];
  clean = [];
}

on_chunk-shut_example :
    (on_chunk decimals casts counter plain_proc
      (λ i. testing)
      48000
      (replicate 960 7)
      fresh_encoding
      []).2
    ≡ []
on_chunk-shut_example =
    on_chunk-shut decimals casts counter plain_proc (λ i. testing) (λ i. refl) 48000
      (replicate 960 7) fresh_encoding []
