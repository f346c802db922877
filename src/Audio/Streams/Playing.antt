-- ===== src/Audio/Streams/Playing.antt =====
-- What is heard of the queue of the speaker.
use rdoc_squad_link_lite.Base.{
  ℕ, zero, suc, ◌-◌, ◌≡◌, refl, List, [], ◌∷◌, ◌++◌, length, take, drop, arith,
}
use rdoc_squad_link_lite.Audio.Float.{Float, Casts}
use rdoc_squad_link_lite.Audio.Mixer.{replicate}
use rdoc_squad_link_lite.Audio.Streams.{play_frames}

module _ {F S A : Type 0} (f : Float F) (casts : Casts F S A) where
  take_nil : (n : ℕ) → take {A = S} n [] ≡ []
  take_nil zero = refl
  take_nil (suc n) = refl

  drop_nil : (n : ℕ) → drop {A = S} n [] ≡ []
  drop_nil zero = refl
  drop_nil (suc n) = refl

  -- A callback hears the first samples of the queue, in order, then silence, and leaves the others.
  pub play_frames-take :
      (n : ℕ) (b : List S)
      → play_frames f casts n b ≡ (take n b ++ replicate (n - length b) casts.silence, drop n b)
  unfolding play_frames
  play_frames-take zero b = let e : 0 - length b ≡ 0 = omega arith in rw e refl
  play_frames-take (suc n) [] =
      let e : suc n - 0 ≡ suc (n - 0) = omega arith in
      rw (e, play_frames-take n [], take_nil n, drop_nil n) refl
  play_frames-take (suc n) (s ∷ b) =
      let e : suc n - suc (length b) ≡ n - length b = omega arith in
      rw (e, play_frames-take n b) refl
