-- ===== src/Audio/Dsp/Range.antt =====
-- What comes out of the voice's processing, and out of the radio effect.
use rdoc_squad_link_lite.Base.{◌≡◌, refl, true, false, ◌||◌}
use rdoc_squad_link_lite.Audio.Float.{Float, IsClamping, is_nan, within, one}
use rdoc_squad_link_lite.Audio.Dsp
use rdoc_squad_link_lite.Audio.Dsp.{DspConfig, Dsp}
use rdoc_squad_link_lite.Audio.Radio
use rdoc_squad_link_lite.Audio.Radio.{RadioCfg, RadioFx}

module _ {F : Type 0} (f : Float F) (law : IsClamping f) where
  -- A sample of full scale, or no number.
  abbrev pub IsSample : F → Type 0
  IsSample x = (is_nan f x || within f (f.neg (one f)) (one f) x) ≡ true

  clamp-IsSample : (x : F) → IsSample (f.clamp x (f.neg (one f)) (one f))
  clamp-IsSample x = law.clamp_within x (f.neg (one f)) (one f) law.neg_one_le_one

  -- Whatever the settings, the state and the sample that comes in: what the processing of the voice
  -- puts out is within full scale or no number, and so is what the radio effect puts out while it is
  -- on; while it is off it puts out what came in, and its state stays.
  pub process-IsSample :
      (c : DspConfig F) (d : Dsp F) (r : RadioCfg F) (fx : RadioFx F) (x : F)
      → IsSample (Dsp.process f c d x).1
        × IsSample (Radio.process f (record r { enabled = true }) fx x).1
        × (Radio.process f (record r { enabled = false }) fx x ≡ (fx, x))
  unfolding Dsp.process Radio.process
  process-IsSample c d r fx x = (clamp-IsSample _, clamp-IsSample _, refl)
