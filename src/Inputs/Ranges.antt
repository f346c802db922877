-- ===== src/Inputs/Ranges.antt =====
-- apps/companion/src-tauri/src/lib.rs: the settings of the sound that the webview hands over.
use rdoc_squad_link_lite.Base.{ℕ, ◌*◌, ◌^◌, ◌≤◌, ◌≡◌, true, arith, if◌then◌else◌}
use rdoc_squad_link_lite.Audio.Float.{Float, IsClamping, within, one, nil}
use rdoc_squad_link_lite.Audio.Dsp.{DspConfig}
use rdoc_squad_link_lite.Audio.Radio.{RadioCfg}

module _ {F : Type 0} (f : Float F) where
  unfoldable pub norm_f32 : F → F → F → F → F
  norm_f32 v lo hi dflt = if f.is_finite v then f.clamp v lo hi else dflt

  unfoldable pub clamp_vol : F → F
  clamp_vol v = if f.is_finite v then f.clamp v (nil f) (f.num 20 1) else one f

  unfoldable pub normalize_dsp : DspConfig F → DspConfig F
  normalize_dsp cfg = record cfg {
    gate_threshold = norm_f32 cfg.gate_threshold (f.num 0 1) (f.num 5 1) (f.num 15 3);
    comp_threshold = norm_f32 cfg.comp_threshold (f.num 1 2) (f.num 10 1) (f.num 15 2);
    comp_ratio = norm_f32 cfg.comp_ratio (f.num 10 1) (f.num 200 1) (f.num 30 1);
    comp_makeup = norm_f32 cfg.comp_makeup (f.num 1 1) (f.num 40 1) (f.num 14 1);
    limiter_ceiling = norm_f32 cfg.limiter_ceiling (f.num 5 2) (f.num 10 1) (f.num 97 2);
  }

  unfoldable pub normalize_radio : RadioCfg F → RadioCfg F
  normalize_radio cfg = record cfg {
    low_cut = norm_f32 cfg.low_cut (f.num 500 1) (f.num 10000 1) (f.num 3000 1);
    high_cut = norm_f32 cfg.high_cut (f.num 12000 1) (f.num 120000 1) (f.num 34000 1);
    saturation = norm_f32 cfg.saturation (f.num 0 1) (f.num 10 1) (f.num 35 2);
    destruction = norm_f32 cfg.destruction (f.num 0 1) (f.num 10 1) (f.num 15 2);
  }

  -- Each setting is a number in its range.
  abbrev pub IsNormalDsp : DspConfig F → Type 0
  IsNormalDsp c =
      (within f (f.num 0 1) (f.num 5 1) c.gate_threshold ≡ true)
      × (within f (f.num 1 2) (f.num 10 1) c.comp_threshold ≡ true)
      × (within f (f.num 10 1) (f.num 200 1) c.comp_ratio ≡ true)
      × (within f (f.num 1 1) (f.num 40 1) c.comp_makeup ≡ true)
      × (within f (f.num 5 2) (f.num 10 1) c.limiter_ceiling ≡ true)

  abbrev pub IsNormalRadio : RadioCfg F → Type 0
  IsNormalRadio c =
      (within f (f.num 500 1) (f.num 10000 1) c.low_cut ≡ true)
      × (within f (f.num 12000 1) (f.num 120000 1) c.high_cut ≡ true)
      × (within f (f.num 0 1) (f.num 10 1) c.saturation ≡ true)
      × (within f (f.num 0 1) (f.num 10 1) c.destruction ≡ true)

  module _ (law : IsClamping f) where
    norm_f32-within :
        (v lo hi dflt : F)
        → f.fle lo hi ≡ true
        → f.fle lo dflt ≡ true
        → f.fle dflt hi ≡ true
        → within f lo hi (norm_f32 v lo hi dflt) ≡ true
    unfolding norm_f32
    norm_f32-within v lo hi dflt p q r =
        ground (arith, law.clamp_within v lo hi p, law.clamp_number v lo hi, law.finite_number v)

    norm_num_within :
        (v : F) (n k m j d i : ℕ)
        → n * 10 ^ j ≤ m * 10 ^ k
        → n * 10 ^ i ≤ d * 10 ^ k
        → d * 10 ^ j ≤ m * 10 ^ i
        → within f (f.num n k) (f.num m j) (norm_f32 v (f.num n k) (f.num m j) (f.num d i)) ≡ true
    norm_num_within v n k m j d i p q r =
        norm_f32-within v (f.num n k) (f.num m j) (f.num d i) (law.num_le n k m j p)
          (law.num_le n k d i q) (law.num_le d i m j r)

    -- Whatever the webview sends, infinite or no number at all: after normalizing each setting of the
    -- voice and of the radio effect is a number in its range.
    pub normalize-IsNormal :
        (c : DspConfig F) (r : RadioCfg F)
        → IsNormalDsp (normalize_dsp c) × IsNormalRadio (normalize_radio r)
    unfolding normalize_dsp normalize_radio
    normalize-IsNormal c r = (
      (
        norm_num_within c.gate_threshold 0 1 5 1 15 3 (omega arith) (omega arith) (omega arith),
        norm_num_within c.comp_threshold 1 2 10 1 15 2 (omega arith) (omega arith) (omega arith),
        norm_num_within c.comp_ratio 10 1 200 1 30 1 (omega arith) (omega arith) (omega arith),
        norm_num_within c.comp_makeup 1 1 40 1 14 1 (omega arith) (omega arith) (omega arith),
        norm_num_within c.limiter_ceiling 5 2 10 1 97 2 (omega arith) (omega arith) (omega arith),
      ),
      (
        norm_num_within r.low_cut 500 1 10000 1 3000 1 (omega arith) (omega arith) (omega arith),
        norm_num_within r.high_cut 12000 1 120000 1 34000 1 (omega arith) (omega arith)
            (omega arith),
        norm_num_within r.saturation 0 1 10 1 35 2 (omega arith) (omega arith) (omega arith),
        norm_num_within r.destruction 0 1 10 1 15 2 (omega arith) (omega arith) (omega arith),
      ),
    )
