-- ===== src/Audio/Encode/Gate.antt =====
-- What leaves the microphone, and that no captured sample is lost on the way to the frames.
use rdoc_squad_link_lite.Base.{
  ℕ, zero, suc, ◌≤◌, ◌<◌, ◌≡◌, refl, ap, ◌∙◌, false, not, ◌&&◌, List, [], ◌∷◌, ◌++◌, Dict, All, leb,
  leb→le, length, length-take, take, drop, arith, Bool-cases, inl, inr,
}
use mathlib.Core.List.{append_assoc}
use rdoc_squad_link_lite.Audio.Float.{Float, Casts}
use rdoc_squad_link_lite.Audio.Buffers.Latest.{length-drop}
use rdoc_squad_link_lite.Audio.Encode.{
  Flags, Encoder, Encoding, Processing, blocks, send_frame, on_frame, on_frames, on_chunk,
}

module _ {A : Type 0} where
  abbrev pub concat : List (List A) → List A
  concat [] = []
  concat (b ∷ bs) = b ++ concat bs

  take-drop : (n : ℕ) (xs : List A) → take n xs ++ drop n xs ≡ xs
  take-drop zero xs = refl
  take-drop (suc n) [] = refl
  take-drop (suc n) (x ∷ xs) = ap (λ r. x ∷ r) (take-drop n xs)

  -- A block has `n` samples.
  abbrev pub IsBlock : ℕ → List A → Type 0
  IsBlock n b = length b ≡ n

  -- The blocks and the rest are what there was, in order, each block is full, and there is no full
  -- block left.
  abbrev pub Splits : ℕ → List A → List (List A) × List A → Type 0
  Splits n xs r = (concat r.0 ++ r.1 ≡ xs) × All (IsBlock n) r.0 × (length r.1 < n)

  blocks-fuel :
      (n fuel : ℕ) (xs : List A) → 0 < n → length xs ≤ fuel → Splits n xs (blocks n fuel xs)
  unfolding blocks
  blocks-fuel n zero [] p h = (refl, tt, p)
  blocks-fuel n zero (x ∷ xs) p h = absurd (omega arith)
  blocks-fuel n (suc fuel) xs p h = elim (Bool-cases (leb n (length xs))) [
    | inr e ↦ rw e (refl, tt, ground (arith, e))
    | inl e ↦
        let full = leb→le n (length xs) e in
        let later = blocks-fuel n fuel (drop n xs) p (omega (arith, length-drop n xs, full)) in
        rw e (
          append_assoc (take n xs) (concat (blocks n fuel (drop n xs)).0)
                (blocks n fuel (drop n xs)).1
              ∙ (ap (λ r. take n xs ++ r) later.0 ∙ take-drop n xs),
          (length-take n xs full, later.1),
          later.2,
        )
  ]

  -- The loops that take a block at a time end with less than a block, whatever there is: the blocks
  -- and the rest are what there was, in order, and each block is full. A block is not empty.
  pub blocks-Splits : (n : ℕ) (xs : List A) → 0 < n → Splits n xs (blocks n (length xs) xs)
  blocks-Splits n xs p = blocks-fuel n (length xs) xs p (omega arith)

module _ {F S A E N R : Type 0} (f : Float F) (casts : Casts F S A) (encoder : Encoder E S)
    (proc : Processing F N R) (flags : ℕ → Flags F)
    (shut : (i : ℕ) → (flags i).transmit && not (flags i).monitor ≡ false) where
  on_frame-shut :
      (i : ℕ) (b : List F) (st : Encoding F E N R) (mix : Dict (List S))
      → (on_frame f casts encoder proc (flags i) b st mix).2 ≡ []
  unfolding on_frame send_frame
  on_frame-shut i b st mix = rw (shut i) refl

  on_frames-shut :
      (bs : List (List F)) (st : Encoding F E N R) (mix : Dict (List S))
      → (on_frames f casts encoder proc flags bs st mix).2 ≡ []
  unfolding on_frames
  on_frames-shut [] st mix = refl
  on_frames-shut (b ∷ bs) st mix =
      let now = on_frame f casts encoder proc (flags (length bs)) b st mix in
      rw (on_frame-shut (length bs) b st mix, on_frames-shut bs now.0 now.1) refl

  -- While the user does not transmit, or tests the microphone, at each frame, nothing is sent,
  -- whatever is captured.
  pub on_chunk-shut :
      (rate : ℕ) (chunk : List S) (st : Encoding F E N R) (mix : Dict (List S))
      → (on_chunk f casts encoder proc flags rate chunk st mix).2 ≡ []
  unfolding on_chunk
  on_chunk-shut rate chunk st mix = on_frames-shut _ _ _
