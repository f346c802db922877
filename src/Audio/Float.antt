-- ===== src/Audio/Float.antt =====
-- `f32` as audio.rs uses it: the operations of the standard library, and what it documents of
-- `clamp`.
use rdoc_squad_link_lite.Base.{ℕ, ◌≡◌, Bool, true, false, ◌||◌, ◌&&◌, ◌≤◌, ◌*◌, ◌^◌, not}

pub record Float (F : Type 0) : Type 0 where
  -- The literal of `n` with `k` digits after the point.
  pub num : ℕ → ℕ → F
  pub add : F → F → F
  pub sub : F → F → F
  pub mul : F → F → F
  pub div : F → F → F
  pub neg : F → F
  pub abs : F → F
  pub fmax : F → F → F
  pub exp : F → F
  pub sin : F → F
  pub cos : F → F
  pub tanh : F → F
  pub powf : F → F → F
  pub round : F → F
  pub pi : F
  pub frac_1_sqrt_2 : F
  pub epsilon : F
  -- `a < b`, `a <= b` and `a == b`.
  pub flt : F → F → Bool
  pub fle : F → F → Bool
  pub feq : F → F → Bool
  pub is_finite : F → Bool
  pub clamp : F → F → F → F

module _ {F : Type 0} (f : Float F) where
  abbrev pub one : F
  one = f.num 1 0

  abbrev pub nil : F
  nil = f.num 0 0

  abbrev pub within : F → F → F → Bool
  within low high x = f.fle low x && f.fle x high

  -- A value that is no number is not ordered with itself.
  abbrev pub is_nan : F → Bool
  is_nan x = not (f.feq x x)

  -- What is documented of `f32::clamp` and `is_finite`: between ordered bounds the result is within
  -- them, or it is no number, as only the result for no number is; a value within them stays. A finite
  -- value is a number. Literals are finite and ordered as they are written.
  pub record IsClamping : Type 0 where
    pub clamp_within :
        (x low high : F)
        → f.fle low high ≡ true
        → (is_nan (f.clamp x low high) || within low high (f.clamp x low high)) ≡ true
    pub clamp_number : (x low high : F) → is_nan x ≡ false → is_nan (f.clamp x low high) ≡ false
    pub clamp_same : (x low high : F) → within low high x ≡ true → f.clamp x low high ≡ x
    pub finite_number : (x : F) → f.is_finite x ≡ true → is_nan x ≡ false
    pub num_le : (n k m j : ℕ) → n * 10 ^ j ≤ m * 10 ^ k → f.fle (f.num n k) (f.num m j) ≡ true
    pub neg_one_le_one : f.fle (f.neg one) one ≡ true
    pub num_finite : (n k : ℕ) → f.is_finite (f.num n k) ≡ true

-- Samples of `i16`, sums of `i32`, and the casts between them and `f32`.
pub record Casts (F S A : Type 0) : Type 0 where
  pub silence : S
  pub empty_sum : A
  pub f32_of_i16 : S → F
  pub i16_of_f32 : F → S
  pub i32_of_f32 : F → A
  pub f32_of_i32 : A → F
  pub add_i32 : A → A → A
  pub div_i32 : A → ℕ → A
  pub i32_of_i16 : S → A
  pub i16_of_i32 : A → S
  -- `(s as i32).abs() < bound`
  pub quieter : S → ℕ → Bool
