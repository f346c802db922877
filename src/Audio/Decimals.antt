-- ===== src/Audio/Decimals.antt =====
-- Decimal fractions without a sign, an instance of `Float` at which the audio is run. The functions
-- of analysis, which no test depends on, give their argument back.
use rdoc_squad_link_lite.Base.{
  ℕ, ◌+◌, ◌-◌, ◌*◌, ◌/◌, ◌^◌, refl, true, not, leb, ◌==◌, if◌then◌else◌, arith, le→leb,
}
use rdoc_squad_link_lite.Audio.Float.{Float, Casts, IsClamping}

-- `n` with `k` digits after the point.
abbrev pub Decimal : Type 0
Decimal = ℕ × ℕ

abbrev pub decimals : Float Decimal
decimals = record {
  num = λ n k. (n, k);
  add = λ a b. (a.0 * 10 ^ b.1 + b.0 * 10 ^ a.1, a.1 + b.1);
  sub = λ a b. (a.0 * 10 ^ b.1 - b.0 * 10 ^ a.1, a.1 + b.1);
  mul = λ a b. (a.0 * b.0, a.1 + b.1);
  div = λ a b. a;
  neg = λ a. (0, 0);
  abs = λ a. a;
  fmax = λ a b. if leb (a.0 * 10 ^ b.1) (b.0 * 10 ^ a.1) then b else a;
  exp = λ a. a;
  sin = λ a. a;
  cos = λ a. a;
  tanh = λ a. a;
  powf = λ a b. a;
  round = λ a. a;
  pi = (314, 2);
  frac_1_sqrt_2 = (707, 3);
  epsilon = (1, 7);
  flt = λ a b. not (leb (b.0 * 10 ^ a.1) (a.0 * 10 ^ b.1));
  fle = λ a b. leb (a.0 * 10 ^ b.1) (b.0 * 10 ^ a.1);
  feq = λ a b. a.0 * 10 ^ b.1 == b.0 * 10 ^ a.1;
  is_finite = λ a. true;
  clamp = λ x low high.
      if leb (low.0 * 10 ^ x.1) (x.0 * 10 ^ low.1)
      then (if leb (x.0 * 10 ^ high.1) (high.0 * 10 ^ x.1) then x else high)
      else low;
}

pub decimals-IsClamping : IsClamping decimals
decimals-IsClamping = record {
  clamp_within = λ x low high h. ground (arith, h);
  clamp_number = λ x low high h. ground (arith, h);
  clamp_same = λ x low high h. ground (arith, h);
  finite_number = λ x h. ground arith;
  num_le = λ n k m j h. le→leb _ _ h;
  neg_one_le_one = refl;
  num_finite = λ n k. refl;
}

abbrev pub casts : Casts Decimal ℕ ℕ
casts = record {
  silence = 0;
  empty_sum = 0;
  f32_of_i16 = λ s. (s, 0);
  i16_of_f32 = λ a. a.0;
  i32_of_f32 = λ a. a.0;
  f32_of_i32 = λ s. (s, 0);
  add_i32 = λ a b. a + b;
  div_i32 = λ a n. a / n;
  i32_of_i16 = λ s. s;
  i16_of_i32 = λ a. a;
  quieter = λ s bound. not (leb bound s);
}
