-- ===== src/Audio/Mixer/Sums.antt =====
-- The mix does not depend on the order in which the map of the peers is gone through.
use rdoc_squad_link_lite.Base.{ℕ, ◌≡◌, refl, ap, ◌∙◌, List, [], ◌∷◌, Dict}
use mathlib.Core.List.{Permᴰ}
use mathlib.Core.Path.{ap₂}
use mathlib.Core.List.Permᴰ.{nil, cons, swap, trans}
use rdoc_squad_link_lite.Audio.Float.{Float, Casts}
use rdoc_squad_link_lite.Audio.Gains.{Gains, peer_v}
use rdoc_squad_link_lite.Audio.Mixer.{Mixing, add_scaled, mix_peers, mix_round, replicate}
use rdoc_squad_link_lite.Audio.Buffers.{frame_size}
use rdoc_squad_link_lite.Audio.Radio.{RadioCfg}

module _ {F S A R : Type 0} (f : Float F) (casts : Casts F S A) (resample : R → List F → R × List F)
    (exchange : (x y z : A)
      → casts.add_i32 (casts.add_i32 x y) z ≡ casts.add_i32 (casts.add_i32 x z) y) where
  add_scaled_comm :
      (g h : F) (b c : List S) (mixed : List A)
      → add_scaled f casts resample g b (add_scaled f casts resample h c mixed)
        ≡ add_scaled f casts resample h c (add_scaled f casts resample g b mixed)
  unfolding add_scaled
  add_scaled_comm g h [] c mixed = refl
  add_scaled_comm g h (s ∷ b) [] mixed = refl
  add_scaled_comm g h (s ∷ b) (t ∷ c) [] = refl
  add_scaled_comm g h (s ∷ b) (t ∷ c) (x ∷ mixed) =
      ap₂ ◌∷◌ (exchange x _ _) (add_scaled_comm g h b c mixed)

  mix_peers-Perm :
      (gains : Gains F) {m m' : Dict (List S)} (mixed : List A)
      → Permᴰ m m'
      → mix_peers f casts resample gains m mixed ≡ mix_peers f casts resample gains m' mixed
  unfolding mix_peers
  mix_peers-Perm gains mixed nil = refl
  mix_peers-Perm gains mixed (cons {a = a} {l₂ = l₂} e p) =
      mix_peers-Perm gains (add_scaled f casts resample (peer_v f a.0 gains) a.1 mixed) p
      ∙ ap
          (λ x.
            mix_peers f casts resample gains l₂
              (add_scaled f casts resample (peer_v f x.0 gains) x.1 mixed))
          e
  mix_peers-Perm gains mixed (swap {a = a} {b = b} {l = l} e h) =
      ap (mix_peers f casts resample gains l)
        (add_scaled_comm (peer_v f b.0 gains) (peer_v f a.0 gains) b.1 a.1 mixed)
      ∙ ap₂
          (λ x y. mix_peers f casts resample gains l (
            add_scaled f casts resample (peer_v f x.0 gains) x.1
              (add_scaled f casts resample (peer_v f y.0 gains) y.1 mixed)))
          e h
  mix_peers-Perm gains mixed (trans p q) =
      mix_peers-Perm gains mixed p ∙ mix_peers-Perm gains mixed q

  -- A round of the mixer plays the same, and leaves the same effect and resampler, in whatever order
  -- the map of the peers is gone through, if summands can be exchanged.
  pub mix_round-Perm :
      (rate : ℕ) (gains : Gains F) (c : RadioCfg F) {m m' : Dict (List S)} (st : Mixing F S R)
      → Permᴰ m m'
      → (mix_round f casts resample rate gains c m st).1
        ≡ (mix_round f casts resample rate gains c m' st).1
  unfolding mix_round
  mix_round-Perm rate gains c {m} {m'} st p =
      rw (mix_peers-Perm gains (replicate frame_size casts.empty_sum) p) refl
