-- ===== src/Audio/Encode.antt =====
-- apps/companion-core/src/audio.rs: `encode_loop`, from captured samples to packets. A round of the
-- loop takes what was captured. The resampler, RNNoise and the encoder of Opus are arguments.
pub mod Gate
use rdoc_squad_link_lite.Base.{
  ℕ, zero, suc, ◌+◌, Bool, true, false, not, ◌&&◌, List, [], ◌∷◌, ◌++◌, map, Option, none, some,
  Str, lit, ltb, leb, ◌==◌, length, take, drop, all, if◌then◌else◌, Dict, insert,
}
use rdoc_squad_link_lite.Audio.Float.{Float, Casts, one}
use rdoc_squad_link_lite.Audio.Buffers.{frame_size, monitor_max, trim_to, queue_of}
use rdoc_squad_link_lite.Audio.Dsp
use rdoc_squad_link_lite.Audio.Dsp.{DspConfig, Dsp}

-- 10 ms at 48 kHz, the frame of RNNoise.
abbrev pub denoise_size : ℕ
denoise_size = 480

abbrev pub silence_bound : ℕ
silence_bound = 250

-- `while buf.len() >= n { buf.drain(..n) }`: the blocks, and what is left. There are at most as many
-- blocks as samples.
unfoldable pub blocks : {A : Type 0} → ℕ → ℕ → List A → List (List A) × List A
blocks n zero xs = ([], xs)
blocks n (suc fuel) xs =
    let (bs, rest) = blocks n fuel (drop n xs) in
    if leb n (length xs) then (take n xs ∷ bs, rest) else ([], xs)

-- What the threads share, as it is loaded for a frame.
pub record Flags (F : Type 0) : Type 0 where
  pub transmit : Bool
  pub monitor : Bool
  pub bitrate : ℕ
  pub dtx : Bool
  pub config : DspConfig F

-- `Encoder`: the bit rate, where 0 is `Auto`, and the packet, where there is no error.
pub record Encoder (E S : Type 0) : Type 0 where
  pub set_bitrate : ℕ → E → E
  pub encode : E → List S → E × Option Str

-- The locals of the loop.
pub record Encoding (F E N R : Type 0) : Type 0 where
  pub enc : E
  pub last_br : ℕ
  pub cur_rate : ℕ
  pub up : R
  pub den : N
  pub dsp : Dsp F
  pub buf48 : List F
  pub clean : List F

-- `Resampler::new(rate, OPUS_SR)` and `process`; `process_frame`.
pub record Processing (F N R : Type 0) : Type 0 where
  pub new_resampler : ℕ → R
  pub resample : R → List F → R × List F
  pub denoise : N → List F → N × List F

-- The user's own queue, while the microphone is tested.
abbrev pub listen : {S : Type 0} → Bool → List S → Dict (List S) → Dict (List S)
listen monitor frame mix =
    if monitor
    then insert (lit "self") (trim_to monitor_max (queue_of (lit "self") mix ++ frame)) mix
    else mix

module _ {F S A E N R : Type 0} (f : Float F) (casts : Casts F S A) (encoder : Encoder E S)
    (proc : Processing F N R) where
  abbrev pub State : Type 0
  State = Encoding F E N R

  unfoldable pub dsp_frame : DspConfig F → Dsp F → List F → Dsp F × List S
  dsp_frame c d [] = (d, [])
  dsp_frame c d (s ∷ ss) =
      let (d', y) = Dsp.process f c d s in
      let (d'', out) = dsp_frame c d' ss in (d'', casts.i16_of_f32 (f.mul y (f.num 32767 0)) ∷ out)

  abbrev pub with_bitrate : ℕ → State → State
  with_bitrate br st =
      if br == st.last_br
      then st
      else record st { enc = encoder.set_bitrate br st.enc; last_br = br }

  abbrev pub packets : Option Str → List Str
  packets none = []
  packets (some p) = p ∷ []

  unfoldable pub send_frame : Flags F → List S → State → State × List Str
  send_frame fl frame st =
      let st' = with_bitrate fl.bitrate st in
      let (enc, packet) = encoder.encode st'.enc frame in
      if fl.transmit && not fl.monitor
      then (if fl.dtx && all (λ s. casts.quieter s silence_bound) frame
          then (st', [])
          else (record st' { enc = enc }, packets packet))
      else (st, [])

  unfoldable pub on_frame :
      Flags F → List F → State → Dict (List S) → State × Dict (List S) × List Str
  on_frame fl block st mix =
      let (dsp, frame) = dsp_frame fl.config st.dsp block in
      let (st', sent) = send_frame fl frame (record st { dsp = dsp }) in
      (st', listen fl.monitor frame mix, sent)

  -- The flags are loaded anew for each frame.
  unfoldable pub on_frames :
      (ℕ → Flags F) → List (List F) → State → Dict (List S) → State × Dict (List S) × List Str
  on_frames flags [] st mix = (st, mix, [])
  on_frames flags (b ∷ bs) st mix =
      let (st', mix', sent) = on_frame (flags (length bs)) b st mix in
      let (st'', mix'', later) = on_frames flags bs st' mix' in (st'', mix'', sent ++ later)

  unfoldable pub denoise_all : N → List (List F) → N × List F
  denoise_all n [] = (n, [])
  denoise_all n (b ∷ bs) =
      let full = f.num 32768 0 in
      let (n', out) = proc.denoise n (map (λ s. f.mul s full) b) in
      let (n'', later) = denoise_all n' bs in
      (n'', map (λ s. f.clamp (f.div s full) (f.neg (one f)) (one f)) out ++ later)

  abbrev pub retuned : ℕ → State → State
  retuned rate st =
      if rate == st.cur_rate
      then st
      else record st { cur_rate = rate; up = proc.new_resampler rate }

  -- A round in which the queue is not empty: `chunk` is what was captured, at the rate `rate`.
  unfoldable pub on_chunk :
      (ℕ → Flags F) → ℕ → List S → State → Dict (List S) → State × Dict (List S) × List Str
  on_chunk flags rate chunk st mix =
      let st1 = retuned rate st in
      let (up, more) =
        proc.resample st1.up (map (λ s. f.div (casts.f32_of_i16 s) (f.num 32768 0)) chunk) in
      let buf = st1.buf48 ++ more in
      let (noisy, buf') = blocks denoise_size (length buf) buf in
      let (den, quiet) = denoise_all st1.den noisy in
      let clean = st1.clean ++ quiet in
      let (frames, clean') = blocks frame_size (length clean) clean in
      on_frames flags frames (record st1 { up = up; den = den; buf48 = buf'; clean = clean' }) mix
