-- ===== src/Audio/Buffers/Latest.antt =====
-- What a bounded queue promises: the latest samples.
use rdoc_squad_link_lite.Base.{
  ℕ, zero, suc, sym, ◌∙◌, leb→le, ◌-◌, ◌≤◌, ◌<◌, ◌≡◌, refl, List, [], ◌∷◌, ◌++◌, length,
  length-append, drop, leb, ltb, arith, Bool-cases, inl, inr,
}
use mathlib.Core.List.{append_assoc, append-nil}
use rdoc_squad_link_lite.Audio.Buffers.{cap_push, cap_push_all, trim_to}

module _ {A : Type 0} where
  -- The abstract queue of at most `max` samples: the last `max` of all that came.
  abbrev pub latest : ℕ → List A → List A
  latest max xs = drop (length xs - max) xs

  drop_all : (n : ℕ) (xs : List A) → length xs ≤ n → drop n xs ≡ []
  drop_all zero [] h = refl
  drop_all zero (x ∷ xs) h = elim h [ ]
  drop_all (suc n) [] h = refl
  drop_all (suc n) (x ∷ xs) h = drop_all n xs (omega arith)

  pub length-drop : (n : ℕ) (xs : List A) → length (drop n xs) ≡ length xs - n
  length-drop zero xs = omega arith
  length-drop (suc n) [] = omega arith
  length-drop (suc n) (x ∷ xs) = omega (arith, length-drop n xs)

  drop-append : (n : ℕ) (xs ys : List A) → n ≤ length xs → drop n (xs ++ ys) ≡ drop n xs ++ ys
  drop-append zero xs ys h = refl
  drop-append (suc n) [] ys h = absurd (omega arith)
  drop-append (suc n) (x ∷ xs) ys h = drop-append n xs ys (omega arith)

  latest_cons : (max : ℕ) (s : A) (b : List A) → max ≤ length b → latest max (s ∷ b) ≡ latest max b
  latest_cons max s b h =
      let e : suc (length b) - max ≡ suc (length b - max) = omega arith in rw e refl

  latest_all : (max : ℕ) (b : List A) → length b ≤ max → latest max b ≡ b
  latest_all max b h = let e : length b - max ≡ 0 = omega arith in rw e refl

  pub length-latest : (max : ℕ) (b : List A) → length (latest max b) ≤ max
  length-latest max b = omega (arith, length-drop (length b - max) b)

  -- Popping while the queue is too long leaves the latest samples.
  pub trim_to-latest : (max : ℕ) (b : List A) → trim_to max b ≡ latest max b
  unfolding trim_to
  trim_to-latest max [] = sym (latest_all max [] (omega arith))
  trim_to-latest max (s ∷ b) = elim (Bool-cases (ltb max (suc (length b)))) [
    | inl e ↦ rw e (trim_to-latest max b ∙ sym (latest_cons max s b (ground arith)))
    | inr e ↦ rw e (sym (latest_all max (s ∷ b) (ground arith)))
  ]

  length-cap_push :
      (max : ℕ) (b : List A) (s : A) → 0 < max → length b ≤ max → length (cap_push max b s) ≤ max
  unfolding cap_push
  length-cap_push max b s p h =
      ground (arith, length-append b (s ∷ []), length-append (drop 1 b) (s ∷ []), length-drop 1 b)

  cap_push-latest :
      (max : ℕ) (b : List A) (s : A) (ss : List A)
      → 0 < max
      → length b ≤ max
      → latest max (cap_push max b s ++ ss) ≡ latest max (b ++ s ∷ ss)
  unfolding cap_push
  cap_push-latest max [] s ss p h = elim (Bool-cases (leb max 0)) [
    | inl e ↦ absurd (ground arith)
    | inr e ↦ rw e refl
  ]
  cap_push-latest max (x ∷ b) s ss p h = elim (Bool-cases (leb max (suc (length b)))) [
    | inl e ↦
        let long : max ≤ length (b ++ s ∷ ss) =
          omega (arith, length-append b (s ∷ ss), leb→le max (suc (length b)) e) in
        rw (e, append_assoc b (s ∷ []) ss) (sym (latest_cons max x (b ++ s ∷ ss) long))
    | inr e ↦ rw (e, append_assoc b (s ∷ []) ss) refl
  ]

  -- The capture queue refines the abstract one: from a queue within the bound, whatever the callbacks
  -- push, it holds the latest samples of what was there and what was pushed, in order.
  pub cap_push_all-latest :
      (max : ℕ) (b ss : List A)
      → 0 < max
      → length b ≤ max
      → cap_push_all max b ss ≡ latest max (b ++ ss)
  unfolding cap_push_all
  cap_push_all-latest max b [] p h = rw append-nil (sym (latest_all max b h))
  cap_push_all-latest max b (s ∷ ss) p h =
      cap_push_all-latest max (cap_push max b s) ss p (length-cap_push max b s p h)
      ∙ cap_push-latest max b s ss p h
