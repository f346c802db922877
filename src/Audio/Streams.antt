-- ===== src/Audio/Streams.antt =====
-- apps/companion-core/src/audio.rs: `build_input` and `build_output`, the callbacks of the two streams.
-- A frame has a sample for each channel, and a device one channel at least.
pub mod Playing
use rdoc_squad_link_lite.Base.{ℕ, zero, suc, List, [], ◌∷◌, map, length, take, drop}
use rdoc_squad_link_lite.Audio.Float.{Float, Casts, one, nil}
use rdoc_squad_link_lite.Audio.Buffers.{cap_max, cap_push_all}

-- `chunks`: the last one may be shorter. There are at most as many chunks as samples.
unfoldable pub chunks : {A : Type 0} → ℕ → ℕ → List A → List (List A)
chunks n zero xs = []
chunks n (suc fuel) [] = []
chunks n (suc fuel) (x ∷ xs) = take n (x ∷ xs) ∷ chunks n fuel (drop n (x ∷ xs))

abbrev pub frames_of : {A : Type 0} → ℕ → List A → List (List A)
frames_of channels samples = chunks channels (length samples) samples

module _ {F S A : Type 0} (f : Float F) (casts : Casts F S A) where
  -- From the left.
  abbrev pub sum_f32 : F → List F → F
  sum_f32 sum [] = sum
  sum_f32 sum (x ∷ xs) = sum_f32 (f.add sum x) xs

  abbrev pub sum_i32 : A → List S → A
  sum_i32 sum [] = sum
  sum_i32 sum (x ∷ xs) = sum_i32 (casts.add_i32 sum (casts.i32_of_i16 x)) xs

  -- One channel of many.
  unfoldable pub mono_f32 : ℕ → List F → S
  mono_f32 channels frame =
      let s = f.div (sum_f32 (nil f) frame) (f.num channels 0) in
      casts.i16_of_f32 (f.mul (f.clamp s (f.neg (one f)) (one f)) (f.num 32767 0))

  unfoldable pub mono_i16 : ℕ → List S → S
  mono_i16 channels frame =
      casts.i16_of_i32 (casts.div_i32 (sum_i32 casts.empty_sum frame) channels)

  unfoldable pub capture_f32 : ℕ → List F → List S → List S
  capture_f32 channels samples cap =
      cap_push_all cap_max cap (map (mono_f32 channels) (frames_of channels samples))

  unfoldable pub capture_i16 : ℕ → List S → List S → List S
  capture_i16 channels samples cap =
      cap_push_all cap_max cap (map (mono_i16 channels) (frames_of channels samples))

  -- `b.pop_front().unwrap_or(0)` for each of so many frames: the samples, and what is left.
  unfoldable pub play_frames : ℕ → List S → List S × List S
  play_frames zero b = ([], b)
  play_frames (suc n) [] = let (out, rest) = play_frames n [] in (casts.silence ∷ out, rest)
  play_frames (suc n) (s ∷ b) = let (out, rest) = play_frames n b in (s ∷ out, rest)

  unfoldable pub play_f32 : ℕ → List S → List F × List S
  play_f32 n b =
      let (out, rest) = play_frames n b in
      (map (λ s. f.div (casts.f32_of_i16 s) (f.num 32768 0)) out, rest)
