-- ===== src/Base/Bits.antt =====
-- The binary digits of `|` and `^` on unsigned words, at variables.
use Prim.Native.Nat.{
  ℕ, zero, suc, ◌+◌, ◌*◌, ◌/◌, ◌%◌, ◌^◌, ◌≤◌, ◌<◌, max, bit_or, bit_xor, bit_or-bitwise,
  bit_xor-bitwise, digits, differ,
}
use mathlib.Core.Path.{◌≡◌, refl, ap, sym, ◌∙◌}
use native.Mathlib.Nat.{pow-succ', div-div-eq-div-mul, mod-add-div, one-le-pow}
use native.Mathlib.Omega.{arith}
use rdoc_squad_link_lite.Base.Tests.{if◌then◌else◌, ◌==◌}

-- Enough fuel is as good as more.
digits_fuel :
    (f : ℕ → ℕ → ℕ) (n m a b : ℕ)
    → a ≤ n
    → a ≤ m
    → digits (λ b. b) f n a b ≡ digits (λ b. b) f m a b
digits_fuel f zero zero a b p q = refl
digits_fuel f zero (suc m) zero b p q = refl
digits_fuel f zero (suc m) (suc a) b p q = absurd (omega arith)
digits_fuel f (suc n) zero zero b p q = refl
digits_fuel f (suc n) zero (suc a) b p q = absurd (omega arith)
digits_fuel f (suc n) (suc m) zero b p q = refl
digits_fuel f (suc n) (suc m) (suc a) b p q =
    omega (arith, digits_fuel f n m (suc a / 2) (b / 2) (omega arith) (omega arith))

pub zero-bit_or : (b : ℕ) → bit_or 0 b ≡ b
zero-bit_or b = bit_or-bitwise 0 b

zero-bit_xor : (b : ℕ) → bit_xor 0 b ≡ b
zero-bit_xor b = bit_xor-bitwise 0 b

-- The lowest digit and the others.
pub bit_or_step : (a b : ℕ) → bit_or a b ≡ bit_or (a / 2) (b / 2) * 2 + max (a % 2) (b % 2)
bit_or_step zero b = omega (arith, zero-bit_or b, zero-bit_or (b / 2))
bit_or_step (suc a) b = omega (
  arith,
  bit_or-bitwise (suc a) b,
  bit_or-bitwise (suc a / 2) (b / 2),
  digits_fuel max a (suc a / 2) (suc a / 2) (b / 2) (omega arith) (omega arith),
)

differ_zero : (b : ℕ) → differ 0 b ≡ b
differ_zero b = refl

pub bit_xor_step : (a b : ℕ) → bit_xor a b ≡ bit_xor (a / 2) (b / 2) * 2 + differ (a % 2) (b % 2)
bit_xor_step zero b = omega (arith, zero-bit_xor b, zero-bit_xor (b / 2))
bit_xor_step (suc a) b = omega (
  arith,
  bit_xor-bitwise (suc a) b,
  bit_xor-bitwise (suc a / 2) (b / 2),
  digits_fuel differ a (suc a / 2) (suc a / 2) (b / 2) (omega arith) (omega arith),
)

-- Digit `k` of `n`: `(n >> k) & 1`.
abbrev pub bit : ℕ → ℕ → ℕ
bit n k = n / 2 ^ k % 2

bit-suc : (n k : ℕ) → bit n (suc k) ≡ bit (n / 2) k
bit-suc n k = rw (div-div-eq-div-mul n 2 (2 ^ k)) (rw (pow-succ' 2 k))

pub bit-bit_or : (k a b : ℕ) → bit (bit_or a b) k ≡ max (bit a k) (bit b k)
bit-bit_or zero a b = omega (arith, bit_or_step a b)
bit-bit_or (suc k) a b =
    let halves : bit_or a b / 2 ≡ bit_or (a / 2) (b / 2) = omega (arith, bit_or_step a b) in
    rw (bit-suc (bit_or a b) k, bit-suc a k, bit-suc b k, halves) (bit-bit_or k (a / 2) (b / 2))

pub bit_or-eq-zero : (n a b : ℕ) → a ≤ n → bit_or a b ≡ 0 → (a ≡ 0) × (b ≡ 0)
bit_or-eq-zero zero zero b p h = (refl, sym (zero-bit_or b) ∙ h)
bit_or-eq-zero zero (suc a) b p h = absurd (omega arith)
bit_or-eq-zero (suc n) a b p h =
    let low : bit_or (a / 2) (b / 2) ≡ 0 = omega (arith, bit_or_step a b) in
    let ih = bit_or-eq-zero n (a / 2) (b / 2) (omega arith) low in
    omega (arith, bit_or_step a b, ih)

differ-eq : (x y : ℕ) → differ x y ≡ 0 → x ≡ y
differ-eq zero y h = omega arith
differ-eq (suc x) zero h = omega arith
differ-eq (suc x) (suc y) h = ap suc (differ-eq x y h)

pub bit_xor-eq-zero : (n a b : ℕ) → a ≤ n → bit_xor a b ≡ 0 → a ≡ b
bit_xor-eq-zero zero zero b p h = sym (sym (zero-bit_xor b) ∙ h)
bit_xor-eq-zero zero (suc a) b p h = absurd (omega arith)
bit_xor-eq-zero (suc n) a b p h =
    let low : bit_xor (a / 2) (b / 2) ≡ 0 = omega (arith, bit_xor_step a b) in
    let high : differ (a % 2) (b % 2) ≡ 0 = omega (arith, bit_xor_step a b) in
    omega
      (arith, bit_xor-eq-zero n (a / 2) (b / 2) (omega arith) low, differ-eq (a % 2) (b % 2) high)

differ_self : (x : ℕ) → differ x x ≡ 0
differ_self zero = refl
differ_self (suc x) = differ_self x

pub bit_xor_self : (n a : ℕ) → a ≤ n → bit_xor a a ≡ 0
bit_xor_self zero zero p = zero-bit_xor 0
bit_xor_self zero (suc a) p = absurd (omega arith)
bit_xor_self (suc n) a p =
    omega (arith, bit_xor_step a a, bit_xor_self n (a / 2) (omega arith), differ_self (a % 2))

half_mod : (x m : ℕ) → 0 < m → x % (2 * m) / 2 ≡ x / 2 % m
half_mod x m h = grind (arith, mod-add-div x (2 * m), mod-add-div (x / 2) m)

double_pow : (x s : ℕ) → x * 2 ^ suc s ≡ 2 * (x * 2 ^ s)
double_pow x s = omega (arith, ap (λ (t : ℕ). x * t) (pow-succ' 2 s))

-- Dropping high digits keeps the low ones.
pub bit-mod : (n k x : ℕ) → k < n → bit (x % 2 ^ n) k ≡ bit x k
bit-mod zero k x h = absurd (omega arith)
bit-mod (suc n) zero x h = grind (arith, mod-add-div x (2 * 2 ^ n), pow-succ' 2 n, one-le-pow n 2)
bit-mod (suc n) (suc k) x h =
    let half : x % 2 ^ suc n / 2 ≡ x / 2 % 2 ^ n =
      rw (pow-succ' 2 n) (half_mod x (2 ^ n) (omega (arith, one-le-pow n 2))) in
    rw (bit-suc (x % 2 ^ suc n) k, bit-suc x k, half) (bit-mod n k (x / 2) (omega arith))

-- `x << s`, before the high digits are dropped.
pub bit-shl : (s k x : ℕ) → bit (x * 2 ^ s) (k + s) ≡ bit x k
bit-shl zero k x =
    let same : x * 2 ^ 0 ≡ x = omega arith in
    let index : k + 0 ≡ k = omega arith in rw (same, index)
bit-shl (suc s) k x =
    let half : x * 2 ^ suc s / 2 ≡ x * 2 ^ s = omega (arith, double_pow x s) in
    let next : k + suc s ≡ suc (k + s) = omega arith in
    rw (next, bit-suc (x * 2 ^ suc s) (k + s), half) (bit-shl s k x)

pub bit-shl_low : (s k x : ℕ) → k < s → bit (x * 2 ^ s) k ≡ 0
bit-shl_low zero k x h = absurd (omega arith)
bit-shl_low (suc s) zero x h = omega (arith, double_pow x s)
bit-shl_low (suc s) (suc k) x h =
    let half : x * 2 ^ suc s / 2 ≡ x * 2 ^ s = omega (arith, double_pow x s) in
    rw (bit-suc (x * 2 ^ suc s) k, half) (bit-shl_low s k x (omega arith))

pub bit-zero : (k : ℕ) → bit 0 k ≡ 0
bit-zero zero = refl
bit-zero (suc k) = rw (bit-suc 0 k) (bit-zero k)

-- `1 << k` has the one digit.
pub bit-pow : (k j : ℕ) → bit (2 ^ k) j ≡ (if k == j then 1 else 0)
bit-pow zero zero = refl
bit-pow zero (suc j) = rw (bit-suc 1 j) (ground (arith, bit-zero j))
bit-pow (suc k) zero = ground (arith, pow-succ' 2 k)
bit-pow (suc k) (suc j) =
    let half : 2 ^ suc k / 2 ≡ 2 ^ k = omega (arith, pow-succ' 2 k) in
    rw (bit-suc (2 ^ suc k) j, half) (ground (arith, bit-pow k j))
