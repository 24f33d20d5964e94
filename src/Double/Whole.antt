-- ===== src/Double/Whole.antt =====
-- An instance of `Double` on which the theorems are tried: whole numbers, with `none` for NaN. It
-- meets the laws of `IsOrdered` and `IsSigned`.
use realtimebattle.Base.{
  ◌≡◌, refl, ◌+◌, ◌/◌, ◌^◌, Bool, false, Option, none, some, arith, leb, if◌then◌else◌,
}
use realtimebattle.Base.Int.{ℤ, pos, negsuc, pos_part, neg_part, sub_ℕ, ltb_ℤ, ◌+ℤ◌, ◌-ℤ◌, ◌*ℤ◌}
use realtimebattle.Double.{Double, IsOrdered, IsSigned}

abbrev pub Whole : Type 0
Whole = Option ℤ

abbrev lift1 : (ℤ → ℤ) → Whole → Whole
lift1 f (some a) = some (f a)
lift1 f none = none

abbrev lift2 : (ℤ → ℤ → ℤ) → Whole → Whole → Whole
lift2 f (some a) (some b) = some (f a b)
lift2 f _ _ = none

abbrev test2 : (ℤ → ℤ → Bool) → Whole → Whole → Bool
test2 f (some a) (some b) = f a b
test2 f _ _ = false

abbrev neg_ℤ : ℤ → ℤ
neg_ℤ a = sub_ℕ (neg_part a) (pos_part a)

abbrev abs_ℤ : ℤ → ℤ
abs_ℤ a = pos (pos_part a + neg_part a)

abbrev le_ℤ : ℤ → ℤ → Bool
le_ℤ a b = leb (pos_part a + neg_part b) (pos_part b + neg_part a)

abbrev eq_ℤ : ℤ → ℤ → Bool
eq_ℤ a b = if le_ℤ a b then le_ℤ b a else false

-- towards zero
abbrev quot_ℤ : ℤ → ℤ → ℤ
quot_ℤ a b =
    sub_ℕ (pos_part a / (pos_part b + neg_part b)) (neg_part a / (pos_part b + neg_part b))
    *ℤ (if ltb_ℤ b (pos 0) then negsuc 0 else pos 1)

instance abbrev pub whole_double : Double Whole
whole_double = record {
  lit = λ m e. some (pos (m / 10 ^ e));
  pi = some (pos 3);
  of_int = some;
  neg = lift1 neg_ℤ;
  add = lift2 ◌+ℤ◌;
  sub = lift2 ◌-ℤ◌;
  mul = lift2 ◌*ℤ◌;
  div = lift2 quot_ℤ;
  fabs = lift1 abs_ℤ;
  sqrt = λ a. a;
  rint = λ a. a;
  floor = λ a. a;
  to_int = λ a. elim a [ some z ↦ z | none ↦ pos 0 ];
  log = λ a. a;
  cos = λ a. a;
  sin = λ a. a;
  atan2 = λ a b. a;
  lt = test2 ltb_ℤ;
  le = test2 le_ℤ;
  eq = test2 eq_ℤ;
}

pub Whole-IsOrdered : IsOrdered Whole
Whole-IsOrdered = record {
  lt_asymm = ground arith;
  lt_trans = ground arith;
  not_lt_of_le = ground arith;
  lt_neg = ground arith;
  neg_zero = ground arith;
  lit_lt = λ m n h k. ground arith;
}

mul_one_Whole : (x : Whole) → whole_double.mul x (whole_double.lit 1 0) ≡ x
unfolding ◌*ℤ◌
mul_one_Whole none = refl
mul_one_Whole (some (pos n)) = ground arith
mul_one_Whole (some (negsuc n)) = ground arith

mul_minus_one_Whole :
    (x : Whole) → whole_double.mul x (whole_double.neg (whole_double.lit 1 0)) ≡ whole_double.neg x
unfolding ◌*ℤ◌
mul_minus_one_Whole none = refl
mul_minus_one_Whole (some (pos n)) = ground arith
mul_minus_one_Whole (some (negsuc n)) = ground arith

pub Whole-IsSigned : IsSigned Whole
Whole-IsSigned = record {
  number_of_lt = ground arith;
  lt_connected = λ x y z. ground arith;
  fabs_nonneg = ground arith;
  nonneg_not_below = ground arith;
  fabs_not_above = ground arith;
  fabs_number = ground arith;
  mul_one = mul_one_Whole;
  mul_minus_one = mul_minus_one_Whole;
  neg_not_above = ground arith;
}
