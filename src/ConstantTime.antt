-- ===== src/ConstantTime.antt =====
-- The comparison of secrets that does not stop at the first difference: `ct_eq` of
-- server/init/src/sessions.rs and, with the same text, of server/init/src/auth.rs; the control
-- server compares in the same way.
use Prim.Native.Nat.{bit_or, bit_xor}
use rdoc_squad_link_lite.Base.{
  ℕ, ◌≡◌, refl, Bool, Bool-ext, true, false, [], ◌∷◌, arith, Str, str_eq, str_eq_iff, ◌==◌,
  if◌then◌else◌, length,
}
use rdoc_squad_link_lite.Base.Bits.{bit_or-eq-zero, bit_xor-eq-zero, bit_xor_self, zero-bit_or}

-- The loop over the zipped bytes: `diff |= x ^ y`.
unfoldable pub ct_diff : ℕ → Str → Str → ℕ
ct_diff diff (x ∷ a) (y ∷ b) = ct_diff (bit_or diff (bit_xor x y)) a b
ct_diff diff _ _ = diff

unfoldable pub ct_eq : Str → Str → Bool
ct_eq a b = if length a == length b then ct_diff 0 a b == 0 else false

-- What was different stays different.
ct_diff-zero : (a b : Str) (diff : ℕ) → ct_diff diff a b ≡ 0 → diff ≡ 0
unfolding ct_diff
ct_diff-zero [] [] diff h = h
ct_diff-zero [] (y ∷ b) diff h = h
ct_diff-zero (x ∷ a) [] diff h = h
ct_diff-zero (x ∷ a) (y ∷ b) diff h =
    let all = ct_diff-zero a b (bit_or diff (bit_xor x y)) h in
    (bit_or-eq-zero diff diff (bit_xor x y) (omega arith) all).0

ct_diff_sound : (a b : Str) (diff : ℕ) → length a ≡ length b → ct_diff diff a b ≡ 0 → a ≡ b
unfolding ct_diff
ct_diff_sound [] [] diff e h = refl
ct_diff_sound [] (y ∷ b) diff e h = absurd (omega arith)
ct_diff_sound (x ∷ a) [] diff e h = absurd (omega arith)
ct_diff_sound (x ∷ a) (y ∷ b) diff e h =
    let all = ct_diff-zero a b (bit_or diff (bit_xor x y)) h in
    let same =
      bit_xor-eq-zero x x y (omega arith)
        (bit_or-eq-zero diff diff (bit_xor x y) (omega arith) all).1 in
    cc (same, ct_diff_sound a b (bit_or diff (bit_xor x y)) (omega arith) h)

ct_diff_self : (a : Str) → ct_diff 0 a a ≡ 0
unfolding ct_diff
ct_diff_self [] = refl
ct_diff_self (x ∷ a) = rw (bit_xor_self x x (omega arith), zero-bit_or 0) (ct_diff_self a)

ct_eq_sound : (a b : Str) → ct_eq a b ≡ true → a ≡ b
unfolding ct_eq
ct_eq_sound a b h = ct_diff_sound a b 0 (ground arith) (ground arith)

pub ct_eq_refl : (a : Str) → ct_eq a a ≡ true
unfolding ct_eq
ct_eq_refl a = ground (arith, ct_diff_self a)

-- The constant-time comparison decides equality of the byte strings.
pub ct_eq-str_eq : (a b : Str) → ct_eq a b ≡ str_eq a b
ct_eq-str_eq a b =
    Bool-ext (ct_eq a b) (str_eq a b) (λ h. (str_eq_iff a b).1 (ct_eq_sound a b h))
      (λ h. rw ((str_eq_iff a b).0 h) (ct_eq_refl b))
