-- ===== src/Audio/Earcon.antt =====
-- apps/companion-core/src/audio.rs: `Earcon`, the click at the start of a transmission and the cue of
-- the latch, and `render_click`.
use rdoc_squad_link_lite.Base.{Bool, List, map, Str, lit, Dict, insert, if◌then◌else◌}
use rdoc_squad_link_lite.Audio.Float.{Float, Casts, one, nil}

abbrev pub earcon_key : Str
earcon_key = lit "__earcon__"

pub record Earcon (F S : Type 0) : Type 0 where
  pub enabled : Bool
  pub volume : F
  pub samples : List S
  pub latch_on : List S
  pub latch_off : List S

-- `clear` and `extend` of the queue under `earcon_key`.
abbrev pub queue_cue : {S : Type 0} → List S → Dict (List S) → Dict (List S)
queue_cue = insert earcon_key

module _ {F S A : Type 0} (f : Float F) (casts : Casts F S A) where
  unfoldable pub set_enabled : Bool → Earcon F S → Earcon F S
  set_enabled on e = record e { enabled = on }

  unfoldable pub set_volume : F → Earcon F S → Earcon F S
  set_volume v e = record e {
    volume = (if f.is_finite v then f.clamp v (nil f) (f.num 2 0) else one f);
  }

  abbrev pub at_volume : F → List S → List S
  at_volume vol src =
      if f.flt (f.abs (f.sub vol (one f))) f.epsilon
      then src
      else map
          (λ s.
            casts.i16_of_f32
              (f.clamp (f.mul (casts.f32_of_i16 s) vol) (f.neg (f.num 32768 0)) (f.num 32767 0)))
          src

  abbrev pub cue : F → List S → Dict (List S) → Dict (List S)
  cue vol src mix = if f.fle vol (nil f) then mix else queue_cue (at_volume vol src) mix

  unfoldable pub click : Earcon F S → Dict (List S) → Dict (List S)
  click e mix = if e.enabled then cue e.volume e.samples mix else mix

  unfoldable pub latch_cue : Bool → Earcon F S → Dict (List S) → Dict (List S)
  latch_cue on e mix = cue e.volume (if on then e.latch_on else e.latch_off) mix
