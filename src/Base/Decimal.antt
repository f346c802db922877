-- ===== src/Base/Decimal.antt =====
-- Numbers in decimal, as `to_string` and `format!` print them.
use Prim.Native.Nat.{ℕ, zero, suc, ◌+◌, ◌-◌, ◌*◌, ◌/◌, ◌%◌, ◌≤◌, ◌<◌, ◌^◌}
use mathlib.Core.Path.{◌≡◌, refl}
use mathlib.Core.List.{[], ◌∷◌, ◌++◌}
use native.Mathlib.Omega.{arith}
use rdoc_squad_link_lite.Base.Tests.{if◌then◌else◌, ltb, u64_max}
use rdoc_squad_link_lite.Base.Text.{Str}

-- At most `fuel + 1` digits; 20 are enough for 64 bits.
unfoldable pub digits : ℕ → ℕ → Str
digits zero n = (48 + n % 10) ∷ []
digits (suc fuel) n =
    let rest = digits fuel (n / 10) in
    if ltb n 10 then (48 + n) ∷ [] else rest ++ (48 + n % 10) ∷ []

abbrev pub decimal : ℕ → Str
decimal n = digits 19 n

-- The number that decimal digits stand for, after `acc` from the digits before them.
unfoldable pub value : ℕ → Str → ℕ
value acc [] = acc
value acc (d ∷ ds) = value (acc * 10 + (d - 48)) ds

value-append :
    (acc : ℕ) (xs : Str) (d : ℕ) → value acc (xs ++ d ∷ []) ≡ value acc xs * 10 + (d - 48)
unfolding value
value-append acc [] d = refl
value-append acc (x ∷ xs) d = value-append (acc * 10 + (x - 48)) xs d

value-digits : (fuel n : ℕ) → n < 10 ^ suc fuel → value 0 (digits fuel n) ≡ n
unfolding digits value
value-digits zero n h = omega arith
value-digits (suc fuel) n h = ground (
  arith,
  value-append 0 (digits fuel (n / 10)) (48 + n % 10),
  value-digits fuel (n / 10) (omega arith),
)

-- A number of up to 64 bits reads back from its decimal digits.
pub value-decimal : (n : ℕ) → n ≤ u64_max → value 0 (decimal n) ≡ n
value-decimal n h = value-digits 19 n (omega arith)
