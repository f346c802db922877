-- ===== src/Audio/Radio.antt =====
-- apps/companion-core/src/audio.rs: `RadioFx`, the effect on what the room is heard through.
use rdoc_squad_link_lite.Base.{Bool, true, false, if◌then◌else◌}
use rdoc_squad_link_lite.Audio.Float.{Float, one, nil}

pub record RadioCfg (F : Type 0) : Type 0 where
  pub enabled : Bool
  pub low_cut : F
  pub high_cut : F
  pub saturation : F
  pub destruction : F

pub record Biquad (F : Type 0) : Type 0 where
  pub b0 : F
  pub b1 : F
  pub b2 : F
  pub a1 : F
  pub a2 : F
  pub x1 : F
  pub x2 : F
  pub y1 : F
  pub y2 : F
  pub tuned_for : F
  pub highpass : Bool

pub record RadioFx (F : Type 0) : Type 0 where
  pub hp : Biquad F
  pub lp : Biquad F
  pub held : F
  pub hold_phase : F

module _ {F : Type 0} (f : Float F) where
  unfoldable pub default_radio : RadioCfg F
  default_radio = record {
    enabled = false;
    low_cut = f.num 3000 1;
    high_cut = f.num 34000 1;
    saturation = f.num 35 2;
    destruction = f.num 15 2;
  }

  unfoldable pub new_biquad : Bool → Biquad F
  new_biquad highpass = record {
    b0 = one f;
    b1 = nil f;
    b2 = nil f;
    a1 = nil f;
    a2 = nil f;
    x1 = nil f;
    x2 = nil f;
    y1 = nil f;
    y2 = nil f;
    tuned_for = nil f;
    highpass = highpass;
  }

  unfoldable pub new_fx : RadioFx F
  new_fx = record { hp = new_biquad true; lp = new_biquad false; held = nil f; hold_phase = nil f }

  unfoldable pub tune : F → Biquad F → Biquad F
  tune cutoff b =
      let two = f.num 2 0 in
      let w = f.div (f.mul (f.mul two f.pi) cutoff) (f.num 48000 0) in
      let cw = f.cos w in
      let alpha = f.div (f.sin w) (f.mul two f.frac_1_sqrt_2) in
      let a0 = f.add (one f) alpha in
      let outer =
        f.div (f.div (if b.highpass then f.add (one f) cw else f.sub (one f) cw) two) a0 in
      if f.feq cutoff b.tuned_for then b else record b {
        tuned_for = cutoff;
        b0 = outer;
        b1 =
            (if b.highpass
              then f.div (f.neg (f.add (one f) cw)) a0
              else f.div (f.sub (one f) cw) a0);
        b2 = outer;
        a1 = f.div (f.mul (f.neg two) cw) a0;
        a2 = f.div (f.sub (one f) alpha) a0;
      }

  unfoldable pub filter_sample : F → Biquad F → Biquad F × F
  filter_sample x b =
      let y =
        f.sub
          (f.sub (f.add (f.add (f.mul b.b0 x) (f.mul b.b1 b.x1)) (f.mul b.b2 b.x2))
            (f.mul b.a1 b.y1))
          (f.mul b.a2 b.y2) in
      (record b { x2 = b.x1; x1 = x; y2 = b.y1; y1 = y }, y)

  unfoldable pub saturate : RadioCfg F → F → F
  saturate c s =
      let drive = f.add (one f) (f.mul c.saturation (f.num 90 1)) in
      let half = f.num 5 1 in
      if f.flt (nil f) c.saturation
      then f.mul (f.tanh (f.mul s drive)) (f.div half (f.tanh (f.mul half drive)))
      else s

  -- Sample and hold, then fewer steps.
  unfoldable pub destroy : RadioCfg F → RadioFx F → F → RadioFx F × F
  destroy c fx s =
      let factor = f.add (one f) (f.mul c.destruction (f.num 110 1)) in
      let phase = f.add fx.hold_phase (one f) in
      let due = f.fle factor phase in
      let held = if due then s else fx.held in
      let bits = f.sub (f.num 160 1) (f.mul c.destruction (f.num 110 1)) in
      let steps = f.powf (f.num 2 0) (f.sub bits (one f)) in
      if f.flt (nil f) c.destruction
      then (
        record fx { hold_phase = (if due then f.sub phase factor else phase); held = held },
        f.div (f.round (f.mul held steps)) steps,
      )
      else (fx, s)

  unfoldable pub process : RadioCfg F → RadioFx F → F → RadioFx F × F
  process c fx x =
      let (hp, low) = filter_sample x (tune c.low_cut fx.hp) in
      let (lp, s) = filter_sample low (tune c.high_cut fx.lp) in
      let (fx', out) = destroy c (record fx { hp = hp; lp = lp }) (saturate c s) in
      if c.enabled then (fx', f.clamp out (f.neg (one f)) (one f)) else (fx, x)
