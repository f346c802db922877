-- ===== src/Sessions/Pins.antt =====
-- What `rand_pin` and `rand_code` of server/init/src/sessions.rs can return.
use rdoc_squad_link_lite.Base.{
  ℕ, ◌+◌, ◌-◌, ◌*◌, ◌/◌, ◌%◌, ◌<◌, ◌≡◌, refl, Bool, true, List, [], ◌∷◌, arith, Str, leb, ◌==◌,
  ◌&&◌, any, All, length, get_or, passes_below, passes_below_at,
}
use rdoc_squad_link_lite.Sessions.{alphabet, rand_code, rand_pin}

-- The number that decimal digits stand for.
pub pin_value : ℕ → Str → ℕ
pin_value acc [] = acc
pin_value acc (d ∷ ds) = pin_value (acc * 10 + (d - b'0')) ds

pub is_digit : ℕ → Bool
is_digit c = leb b'0' c && leb c b'9'

last_digit : (n : ℕ) → is_digit (b'0' + n % 10) ≡ true
unfolding is_digit
last_digit n = ground arith

-- A PIN has six digits, leading zeros included, and different draws have different PINs: the PIN
-- reads back as the number drawn.
pub rand_pin_lem :
    (n : ℕ)
    → n < 1000000
    → (length (rand_pin n) ≡ 6)
      × All (λ c. is_digit c ≡ true) (rand_pin n)
      × (pin_value 0 (rand_pin n) ≡ n)
unfolding rand_pin pin_value
rand_pin_lem n h = (
  refl,
  (
    last_digit (n / 100000),
    (
      last_digit (n / 10000),
      (last_digit (n / 1000), (last_digit (n / 100), (last_digit (n / 10), (last_digit n, tt)))),
    ),
  ),
  omega arith,
)

pub in_alphabet : ℕ → Bool
in_alphabet c = any (λ a. a == c) alphabet

letters : passes_below 32 (λ i. in_alphabet (get_or alphabet i 0)) ≡ true
unfolding passes_below in_alphabet
letters = refl

-- A share code has a letter for each draw, all from the alphabet without 0, o, 1 and l.
pub rand_code_lem :
    (draws : List ℕ)
    → All (λ i. i < 32) draws
    → (length (rand_code draws) ≡ length draws) × All (λ c. in_alphabet c ≡ true) (rand_code draws)
unfolding rand_code
rand_code_lem [] h = (refl, tt)
rand_code_lem (i ∷ draws) h =
    let rest = rand_code_lem draws h.1 in
    (
      omega (arith, rest.0),
      (passes_below_at 32 (λ i. in_alphabet (get_or alphabet i 0)) i letters h.0, rest.1),
    )
