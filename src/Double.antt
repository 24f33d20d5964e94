-- ===== src/Double.antt =====
-- The `double` of the program, with the part of <math.h> that the server calls. The type and its
-- operations are parameters: the modules below take them as an instance. `lit m e` is the decimal
-- literal m / 10 ^ e as the compiler rounds it, `pi` is M_PI, and `of_int` is the conversion of an
-- integer.
pub mod Whole
use realtimebattle.Base.{ℕ, ◌*◌, ◌^◌, ◌≤◌, ◌<◌, ◌≡◌, ◌⊎◌, Bool, true, false, arith, if◌then◌else◌}
use realtimebattle.Base.Int.{ℤ}

pub record Double {ℓ} (W : Type ℓ) : Type ℓ where
  pub lit : ℕ → ℕ → W
  pub pi : W
  pub of_int : ℤ → W
  pub neg : W → W
  pub add : W → W → W
  pub sub : W → W → W
  pub mul : W → W → W
  pub div : W → W → W
  pub fabs : W → W
  pub sqrt : W → W
  pub rint : W → W
  pub floor : W → W
  pub to_int : W → ℤ
  pub log : W → W
  pub cos : W → W
  pub sin : W → W
  pub atan2 : W → W → W
  pub lt : W → W → Bool
  pub le : W → W → Bool
  pub eq : W → W → Bool

infix 4 ◌≺◌ ◌⊀◌
abbrev pub ◌≺◌ {ℓ} : {W : Type ℓ} ⦃d : Double W⦄ → W → W → Type 0
◌≺◌ ⦃d⦄ x y = d.lt x y ≡ true

abbrev pub ◌⊀◌ {ℓ} : {W : Type ℓ} ⦃d : Double W⦄ → W → W → Type 0
◌⊀◌ ⦃d⦄ x y = d.lt x y ≡ false

-- What IEEE 754 says of the comparisons. NaN compares false with everything, so `<` is a strict
-- order with no totality, and `!(x < y)` does not give `y <= x`.
pub record IsOrdered {ℓ} (W : Type ℓ) ⦃d : Double W⦄ : Type ℓ where
  pub lt_asymm : (x y : W) → x ≺ y → y ⊀ x
  pub lt_trans : (x y z : W) → x ≺ y → y ≺ z → x ≺ z
  pub not_lt_of_le : (x y : W) → d.le x y ≡ true → y ⊀ x
  pub lt_neg : (x y : W) → d.lt (d.neg y) (d.neg x) ≡ d.lt x y
  pub neg_zero : (x : W) → d.lt (d.neg (d.lit 0 0)) x ≡ d.lt (d.lit 0 0) x
  pub lit_lt : (m n : ℕ) → m < n → n ≤ 2 ^ 53 → d.lit m 0 ≺ d.lit n 0

-- What the program relies on of rounded arithmetic: `<=` is transitive, rounding is monotone, and
-- 2 * M_PI scales as numbers do.
pub record IsRounded {ℓ} (W : Type ℓ) ⦃d : Double W⦄ : Type ℓ where
  pub le_trans : (x y z : W) → d.le x y ≡ true → d.le y z ≡ true → d.le x z ≡ true
  pub lit_le : (m e n f : ℕ) → m * 10 ^ f ≤ n * 10 ^ e → d.le (d.lit m e) (d.lit n f) ≡ true
  pub le_neg : (x y : W) → d.le (d.neg y) (d.neg x) ≡ d.le x y
  pub neg_le_lit : (m e n f : ℕ) → d.le (d.neg (d.lit m e)) (d.lit n f) ≡ true
  pub pi_nonneg : (n : ℕ) → d.le (d.lit 0 0) (d.div d.pi (d.lit n 0)) ≡ true
  pub pi_grows :
      (m n : ℕ) → 0 < m → 0 < n → d.le (d.div d.pi (d.lit m 0)) (d.mul d.pi (d.lit n 0)) ≡ true
  pub two_pi_grows :
      (m n : ℕ)
      → 0 < m
      → 0 < n
      → d.le
          (d.div (d.mul (d.lit 2 0) d.pi) (d.lit m 0))
          (d.mul (d.mul (d.lit 2 0) d.pi) (d.lit n 0))
        ≡ true
  pub two_pi_shrinks :
      (m n : ℕ)
      → 0 < m
      → m ≤ n
      → d.le
          (d.div (d.mul (d.lit 2 0) d.pi) (d.lit n 0))
          (d.div (d.mul (d.lit 2 0) d.pi) (d.lit m 0))
        ≡ true

-- What IEEE 754 says besides. A number is what equals itself: `<` holds of numbers only, every number
-- is above the lower or below the upper of two that are apart, and what is not below 0 is not below
-- the negative of such another.
pub record IsSigned {ℓ} (W : Type ℓ) ⦃d : Double W⦄ : Type ℓ where
  pub number_of_lt : (x y : W) → x ≺ y → d.eq x x ≡ true
  pub lt_connected : (x y z : W) → d.eq y y ≡ true → x ≺ z → (x ≺ y) ⊎ (y ≺ z)
  pub fabs_nonneg : (x : W) → d.fabs x ⊀ d.lit 0 0
  pub nonneg_not_below : (x m : W) → x ⊀ d.lit 0 0 → m ⊀ d.lit 0 0 → x ⊀ d.neg m
  pub fabs_not_above : (x m : W) → x ⊀ d.lit 0 0 → m ⊀ x → m ⊀ d.fabs x
  pub fabs_number : (x : W) → d.eq x x ≡ true → d.eq (d.fabs x) (d.fabs x) ≡ true
  pub mul_one : (x : W) → d.mul x (d.lit 1 0) ≡ x
  pub mul_minus_one : (x : W) → d.mul x (d.neg (d.lit 1 0)) ≡ d.neg x
  pub neg_not_above : (x m : W) → x ⊀ d.lit 0 0 → m ⊀ d.lit 0 0 → m ⊀ d.neg x

module _ {ℓ} {W : Type ℓ} ⦃d : Double W⦄ where
  open d use {lit, neg, lt, le}

  -- The macros of Various.h, with `a > b` as `b < a`.
  abbrev pub min_rtb : W → W → W
  min_rtb a b = if lt a b then a else b

  abbrev pub max_rtb : W → W → W
  max_rtb a b = if lt b a then a else b

  abbrev pub sgn_rtb : W → W
  sgn_rtb a = if lt (lit 0 0) a then lit 1 0 else neg (lit 1 0)

  -- `infinity_rtb` of ArenaBase.h, 1.0e10.
  abbrev pub infinity_rtb : W
  infinity_rtb = lit 10_000_000_000 0

  module _ (laws : IsOrdered W) where
    open laws use {lt_asymm, lit_lt}

    pub lt_irrefl : (x : W) → x ⊀ x
    lt_irrefl x = ground (arith, lt_asymm x x)

    pub min_rtb-not_above : (a b : W) → b ⊀ min_rtb a b
    min_rtb-not_above a b = ground (arith, lt_asymm a b, lt_irrefl b)

    pub max_rtb-not_below : (a b : W) → max_rtb a b ⊀ b
    max_rtb-not_below a b = ground (arith, lt_asymm b a, lt_irrefl b)

    pub infinity_rtb_pos : lit 0 0 ≺ infinity_rtb
    infinity_rtb_pos = lit_lt 0 10_000_000_000 (omega arith) (omega arith)
