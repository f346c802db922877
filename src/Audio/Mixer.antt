-- ===== src/Audio/Mixer.antt =====
-- apps/companion-core/src/audio.rs: `mixer_loop`, from the queues of the peers to the speaker. A round
-- mixes one frame. The resampler is an argument.
pub mod Sums
use rdoc_squad_link_lite.Base.{
  ℕ, zero, suc, ◌*◌, ◌/◌, List, [], ◌∷◌, ◌++◌, map, Option, Str, leb, if◌then◌else◌, length, drop,
  take, ◌==◌, Dict,
}
use rdoc_squad_link_lite.Audio.Float.{Float, Casts, one}
use rdoc_squad_link_lite.Audio.Buffers.{frame_size, trim_to}
use rdoc_squad_link_lite.Audio.Gains.{Gains, peer_v, master_v}
use rdoc_squad_link_lite.Audio.Radio
use rdoc_squad_link_lite.Audio.Radio.{RadioCfg, RadioFx}

-- `cur_rate * 60 / 1000`, and `cur_rate / 2`.
abbrev pub target_of : ℕ → ℕ
target_of rate = rate * 60 / 1000

abbrev pub cap_of : ℕ → ℕ
cap_of rate = rate / 2

pub record Mixing (F S R : Type 0) : Type 0 where
  pub play : List S
  pub down : R
  pub fx : RadioFx F

abbrev pub replicate : {A : Type 0} → ℕ → A → List A
replicate zero a = []
replicate (suc n) a = a ∷ replicate n a

unfoldable pub popped : {S : Type 0} → Dict (List S) → Dict (List S)
popped [] = []
popped ((peer, b) ∷ m) = (peer, drop frame_size b) ∷ popped m

module _ {F S A R : Type 0} (f : Float F) (casts : Casts F S A)
    (resample : R → List F → R × List F) where
  -- `*x += (b.pop_front() as f32 * g) as i32` at as many places as the queue has samples.
  unfoldable pub add_scaled : F → List S → List A → List A
  add_scaled g [] mixed = mixed
  add_scaled g (s ∷ ss) [] = []
  add_scaled g (s ∷ ss) (x ∷ mixed) =
      casts.add_i32 x (casts.i32_of_f32 (f.mul (casts.f32_of_i16 s) g)) ∷ add_scaled g ss mixed

  -- The loop over `m.iter_mut()`: the sums. `popped` is what is left in the queues.
  unfoldable pub mix_peers : Gains F → Dict (List S) → List A → List A
  mix_peers gains [] mixed = mixed
  mix_peers gains ((peer, b) ∷ m) mixed =
      mix_peers gains m (add_scaled (peer_v f peer gains) b mixed)

  unfoldable pub shape : RadioCfg F → F → RadioFx F → List A → RadioFx F × List F
  shape c master fx [] = (fx, [])
  shape c master fx (v ∷ vs) =
      let (fx', y) = Radio.process f c fx (f.div (casts.f32_of_i32 v) (f.num 32768 0)) in
      let (fx'', ys) = shape c master fx' vs in (fx'', f.tanh (f.mul y master) ∷ ys)

  -- One round of the refill, in which the ring is below its target.
  unfoldable pub mix_round :
      ℕ → Gains F → RadioCfg F → Dict (List S) → Mixing F S R → Dict (List S) × Mixing F S R
  mix_round rate gains c mix st =
      let mixed = mix_peers gains mix (replicate frame_size casts.empty_sum) in
      let (fx, shaped) = shape c (master_v f gains) st.fx mixed in
      let (down, out) = resample st.down shaped in
      (
        popped mix,
        record {
          play =
              trim_to (cap_of rate)
                (st.play ++ map (λ v. casts.i16_of_f32 (f.mul v (f.num 32767 0))) out);
          down = down;
          fx = fx;
        },
      )

  -- The refill: as many rounds as it takes, but `fuel` at most.
  unfoldable pub refill :
      ℕ → ℕ → Gains F → RadioCfg F → Dict (List S) → Mixing F S R → Dict (List S) × Mixing F S R
  refill zero rate gains c mix st = (mix, st)
  refill (suc fuel) rate gains c mix st =
      let (mix', st') = mix_round rate gains c mix st in
      let more = refill fuel rate gains c mix' st' in
      if leb (target_of rate) (length st.play) then (mix, st) else more

  -- The locals of the loop, and a turn of it: another rate of the device makes a new resampler.
  pub record Loop : Type 0 where
    pub cur_rate : ℕ
    pub mixing : Mixing F S R

  abbrev pub at_rate : (ℕ → R) → ℕ → Loop → Loop
  at_rate new_resampler rate l =
      if rate == l.cur_rate
      then l
      else record { cur_rate = rate; mixing = record l.mixing { down = new_resampler rate } }

  unfoldable pub mixer_turn :
      (ℕ → R) → ℕ → ℕ → Gains F → RadioCfg F → Dict (List S) → Loop → Dict (List S) × Loop
  mixer_turn new_resampler fuel rate gains c mix l =
      let l' = at_rate new_resampler rate l in
      let (mix', mixing) = refill fuel l'.cur_rate gains c mix l'.mixing in
      (mix', record l' { mixing = mixing })
