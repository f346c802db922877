-- ===== src/Audio/Dsp.antt =====
-- apps/companion-core/src/audio.rs: `Dsp`, what the voice goes through before it is encoded: noise
-- gate, compressor, limiter.
pub mod Range
use rdoc_squad_link_lite.Base.{Bool, true, if◌then◌else◌}
use rdoc_squad_link_lite.Audio.Float.{Float, one, nil}

pub record DspConfig (F : Type 0) : Type 0 where
  pub gate : Bool
  pub gate_threshold : F
  pub compressor : Bool
  pub comp_threshold : F
  pub comp_ratio : F
  pub comp_makeup : F
  pub limiter : Bool
  pub limiter_ceiling : F

pub record Dsp (F : Type 0) : Type 0 where
  pub gate_env : F
  pub gate_gain : F
  pub comp_env : F
  pub lim_gain : F
  pub atk : F
  pub rel : F
  pub gate_open : F
  pub gate_close : F
  pub lim_rel : F

module _ {F : Type 0} (f : Float F) where
  unfoldable pub default_config : DspConfig F
  default_config = record {
    gate = true;
    gate_threshold = f.num 15 3;
    compressor = true;
    comp_threshold = f.num 15 2;
    comp_ratio = f.num 30 1;
    comp_makeup = f.num 14 1;
    limiter = true;
    limiter_ceiling = f.num 97 2;
  }

  -- `(-1.0 / (seconds * sr)).exp()`.
  abbrev pub coefficient : F → F
  coefficient seconds = f.exp (f.div (f.neg (one f)) (f.mul seconds (f.num 48000 0)))

  unfoldable pub new_dsp : Dsp F
  new_dsp = record {
    gate_env = nil f;
    gate_gain = one f;
    comp_env = nil f;
    lim_gain = one f;
    atk = coefficient (f.num 5 3);
    rel = coefficient (f.num 80 3);
    gate_open = coefficient (f.num 2 3);
    gate_close = coefficient (f.num 150 3);
    lim_rel = coefficient (f.num 50 3);
  }

  -- `coef * a + (1.0 - coef) * b`.
  abbrev pub blend : F → F → F → F
  blend coef a b = f.add (f.mul coef a) (f.mul (f.sub (one f) coef) b)

  unfoldable pub gate_stage : DspConfig F → Dsp F → F → Dsp F × F
  gate_stage c d s =
      let a = f.abs s in
      let env = if f.flt d.gate_env a then a else blend d.rel d.gate_env a in
      let target = if f.fle c.gate_threshold env then one f else nil f in
      let coef = if f.flt d.gate_gain target then d.gate_open else d.gate_close in
      let gain = blend coef d.gate_gain target in
      (record d { gate_env = env; gate_gain = gain }, f.mul s gain)

  unfoldable pub compressor_stage : DspConfig F → Dsp F → F → Dsp F × F
  compressor_stage c d s =
      let a = f.abs s in
      let coef = if f.flt d.comp_env a then d.atk else d.rel in
      let env = blend coef d.comp_env a in
      let gain =
        if f.flt c.comp_threshold env
        then f.div
            (f.add c.comp_threshold
              (f.div (f.sub env c.comp_threshold) (f.fmax c.comp_ratio (one f))))
            (f.fmax env (f.num 1 6))
        else one f in
      (record d { comp_env = env }, f.mul (f.mul s gain) c.comp_makeup)

  unfoldable pub limiter_stage : DspConfig F → Dsp F → F → Dsp F × F
  limiter_stage c d s =
      let ceil = f.clamp c.limiter_ceiling (f.num 5 2) (one f) in
      let peak = f.abs s in
      let target = if f.flt ceil peak then f.div ceil peak else one f in
      let gain =
        if f.flt target d.lim_gain
        then target
        else f.add (f.mul d.lim_rel d.lim_gain) (f.sub (one f) d.lim_rel) in
      (record d { lim_gain = gain }, f.mul s gain)

  abbrev pub stage_if : Bool → (Dsp F → F → Dsp F × F) → Dsp F × F → Dsp F × F
  stage_if on stage (d, s) = if on then stage d s else (d, s)

  unfoldable pub process : DspConfig F → Dsp F → F → Dsp F × F
  process c d x =
      let (d', s) =
        stage_if c.limiter (limiter_stage c)
          (stage_if c.compressor (compressor_stage c) (stage_if c.gate (gate_stage c) (d, x))) in
      (d', f.clamp s (f.neg (one f)) (one f))
