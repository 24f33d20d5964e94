-- ===== src/Tests/Colours.antt =====
-- The theorem on colours at concrete inputs, with numbers of six decimals for the doubles.
use realtimebattle.Base.{
  ℕ, ◌/◌, ◌*◌, ◌^◌, ◌==◌, ◌≡◌, refl, ap, false, some, none, [], ◌∷◌, if◌then◌else◌,
}
use realtimebattle.Base.Int.{pos, sub_ℕ, pos_part, neg_part, ◌*ℤ◌}
use realtimebattle.Double.{Double}
use realtimebattle.Double.Whole.{Whole, whole_double}
use realtimebattle.Options.{Options}
use realtimebattle.Colours.{Painted, find_free_colour}
use realtimebattle.Colours.Apart.{IsFree, shrink, find_free_colour-IsFree}

abbrev million : ℕ
million = 1000000

abbrev scaled_down : Whole → Whole
scaled_down (some a) = some (sub_ℕ (pos_part a / million) (neg_part a / million))
scaled_down none = none

abbrev decimal_double : Double Whole
decimal_double = record whole_double {
  lit = λ m e. some (pos (m * million / 10 ^ e));
  of_int = λ z. some (z *ℤ pos million);
  mul = λ x y. scaled_down (whole_double.mul x y);
  div = λ x y. whole_double.div (whole_double.mul x (some (pos million))) y;
}

abbrev no_options : Options Whole
no_options = record { all_double_options = []; all_long_options = []; all_string_options = [] }

-- The first robot is white, all others are red.
abbrev painted : ℕ → Painted
painted p = record {
  in_team = false;
  team_name = "";
  colour_given = false;
  rgb_colour = if p == 0 then pos 16777215 else pos 255;
}

shrunk : shrink ⦃d = decimal_double⦄ 11 (decimal_double.lit 1 1) ≡ some (pos 8588)
unfolding ◌*ℤ◌
shrunk = refl

find_free_colour-IsFree_example :
    IsFree ⦃d = decimal_double⦄ no_options
      (λ n. n * 74565)
      painted
      (0 ∷ 1 ∷ 2 ∷ [])
      0
      (find_free_colour ⦃d = decimal_double⦄ no_options
        (λ n. n * 74565)
        painted
        (0 ∷ 1 ∷ 2 ∷ [])
        0
        12
        (pos 255)
        (pos 65280)
        false
        3)
find_free_colour-IsFree_example =
    find_free_colour-IsFree ⦃d = decimal_double⦄ no_options (λ n. n * 74565) painted
      (0 ∷ 1 ∷ 2 ∷ []) 0 (pos 255) (pos 65280) false 3
      (ap (decimal_double.lt (decimal_double.lit 1 2)) shrunk)
