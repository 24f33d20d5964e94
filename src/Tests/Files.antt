-- ===== src/Tests/Files.antt =====
-- The theorems on arena and option files at concrete inputs.
use realtimebattle.Base.{ℕ, ◌≡◌, refl, true, false, [], ◌∷◌, Option, some, none, arith, ◌++◌}
use realtimebattle.Base.Int.{pos, ◌+ℤ◌, ◌*ℤ◌, ◌-ℤ◌}
use realtimebattle.Double.Whole.{Whole, whole_double, Whole-IsOrdered}
use realtimebattle.Input.Tokens.{
  Token, text, number, letter, Tokens, token_input, token_doubles, tokens_consumed,
}
use realtimebattle.Vector2D.{vec}
use realtimebattle.ArenaFile.{Plan, Parsed, Brush, is_zero_length, parse_closed_polygon}
use realtimebattle.ArenaFile.Growth.{disc_at, line_between, path, parse_closed_polygon-walls}
use realtimebattle.ArenaFile.Lines.{parse_arena_file}
use realtimebattle.ArenaFile.Sound.{IsSound, parse_arena_file-IsSound}
use realtimebattle.ArenaFile.Curve.{Pen, goes_on, curve_loop}
use realtimebattle.ArenaFile.Curve.Ends.{Left, curve_loop_ends, curve_loop_for_ever}
use realtimebattle.Options.{Options, option_info, entry_int, entry_double, environment, misc}
use realtimebattle.Options.Read.{read_options_file}
use realtimebattle.Options.Ranges.{AllInRange, read_options_file-InRange}

abbrev whole : ℕ → Whole
whole n = some (pos n)

abbrev n : ℕ → Token
n k = number (pos k)

abbrev empty_plan : Plan Whole
empty_plan = record {
  boundary0 = vec (whole 0) (whole 0);
  boundary1 = vec (whole 0) (whole 0);
  exclusion_points = [];
  walls = [];
  scale = whole 1;
  succession = 1;
  angle_factor = whole 1;
}

abbrev in_walls : Plan Whole
in_walls = record empty_plan { succession = 4 }

-- bounce, hardness, thickness, 3 vertices and the triangle of (0, 0), (5, 0) and (5, 5)
abbrev triangle : Tokens
triangle = n 1 ∷ n 1 ∷ n 2 ∷ n 3 ∷ n 0 ∷ n 0 ∷ n 5 ∷ n 0 ∷ n 5 ∷ n 5 ∷ []

-- Half of the thickness, which is 0 in whole numbers.
abbrev brush : Brush Whole
brush = record { bounce_c = whole 1; hardn = whole 1; thickness = whole 0 }

parse_closed_polygon-walls_example :
    (parse_closed_polygon in_walls triangle).plan ≡ record in_walls {
      walls =
          disc_at brush (whole 1) (vec (whole 0) (whole 0))
            ∷ path brush
                (whole 1)
                (vec (whole 0) (whole 0))
                (vec (whole 5) (whole 0) ∷ vec (whole 5) (whole 5) ∷ [])
          ++ (line_between brush (whole 1) (vec (whole 5) (whole 5)) (vec (whole 0) (whole 0))
              ∷ []);
    }
unfolding parse_closed_polygon is_zero_length ◌+ℤ◌ ◌*ℤ◌ ◌-ℤ◌
parse_closed_polygon-walls_example = parse_closed_polygon-walls in_walls triangle refl

abbrev arena_file : Tokens
arena_file = text "boundary" ∷ n 0 ∷ n 0 ∷ n 9 ∷ n 9 ∷ text "polygon" ∷ triangle

abbrev result : Option (Parsed Whole Tokens)
result = parse_arena_file 9 9 (whole 1) empty_plan arena_file

abbrev or_empty : Option (Parsed Whole Tokens) → Parsed Whole Tokens
or_empty (some r) = r
or_empty none = record { ok = false; plan = empty_plan; file = [] }

parse_arena_file-IsSound_example : IsSound (or_empty result).plan
unfolding parse_arena_file is_zero_length ◌+ℤ◌ ◌*ℤ◌ ◌-ℤ◌
parse_arena_file-IsSound_example =
    parse_arena_file-IsSound 9 9 (whole 1) empty_plan arena_file (or_empty result) refl refl refl
      refl

abbrev straight_pen : Pen Whole
straight_pen = record {
  current_pos = vec (whole 0) (whole 0);
  direction = vec (whole 1) (whole 0);
  command = 84;
}

abbrev thin : Brush Whole
thin = record { bounce_c = whole 1; hardn = whole 1; thickness = whole 1 }

-- L 3 and Q
abbrev short_curve : Tokens
short_curve = letter 76 ∷ n 3 ∷ letter 81 ∷ []

curve_loop_ends_example :
    Left tokens_consumed 0
      (curve_loop 3 thin (vec (whole 0) (whole 0)) (goes_on straight_pen in_walls short_curve))
curve_loop_ends_example =
    curve_loop_ends tokens_consumed thin (vec (whole 0) (whole 0)) straight_pen in_walls short_curve

curve_loop_for_ever_example :
    (pen' : Pen Whole) × (curve_loop {S = Tokens} 100 thin
        (vec (whole 0) (whole 0))
        (goes_on straight_pen in_walls [])
      ≡ goes_on pen' in_walls [])
curve_loop_for_ever_example =
    curve_loop_for_ever {S = Tokens} 100 thin (vec (whole 0) (whole 0)) straight_pen in_walls []
      (λ ch. refl) refl refl

abbrev two_options : Options Whole
two_options = record {
  all_double_options =
      option_info entry_double environment (whole 5) (whole 0) (whole 9) 4 true false "Speed" ∷ [];
  all_long_options = option_info entry_int misc (pos 1) (pos 0) (pos 20) 4 true false "Robots" ∷ [];
  all_string_options = [];
}

abbrev option_file : Tokens
option_file = text "Robots" ∷ n 100 ∷ text "Speed" ∷ n 7 ∷ []

read_options_file-InRange_example :
    (o : Options Whole) × (read_options_file 5 true two_options (some option_file) ≡ some o)
    × AllInRange o
read_options_file-InRange_example =
    read_options_file-InRange Whole-IsOrdered tokens_consumed 5 true two_options option_file
      (
        (
          record {
            range = refl;
            value_ge = refl;
            value_le = refl;
            default_ge = refl;
            default_le = refl;
          },
          tt,
        ),
        (omega arith, tt),
      )
      (omega arith)
