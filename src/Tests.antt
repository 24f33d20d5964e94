-- ===== src/Tests.antt =====
-- The theorems at concrete inputs.
mod Files
mod Speeds
mod Arenas
mod Colours
mod Searches
mod Motions
mod Replays
use Prim.Native.String.{String}
use realtimebattle.Base.{
  ℕ, zero, suc, ◌/◌, ◌^◌, ◌*◌, ◌<◌, ◌≡◌, ◌≢◌, ◌⊎◌, inl, inr, refl, sym, ◌+◌, Bool, true, false,
  List, [], ◌∷◌, ◌++◌, Option, some, none, arith, All, length, get_elem?, map, ◌==◌, if◌then◌else◌,
}
use realtimebattle.Base.Int.{pos, pos_part, ◌*ℤ◌}
use realtimebattle.Double.{Double, infinity_rtb, ◌⊀◌}
use realtimebattle.Double.Whole.{Whole, whole_double, Whole-IsOrdered}
use realtimebattle.Vector2D.{Vector2D, vec}
use realtimebattle.Shapes.{Shape, Circle, circle, get_distance}
use realtimebattle.Shapes.Distance.{get_distance_not_negative}
use realtimebattle.ObjectLists.{ObjectType, Item, ObjectLists, object_list, get_shortest_distance}
use realtimebattle.ObjectLists.Shortest.{NoneNearer, IsResult, get_shortest_distance_minimal}
use realtimebattle.Schedule.{complete_round, scaled_rand, binomial}
use realtimebattle.Schedule.Shuffle.{
  reorder_pointer_array, IsShuffled, reorder_pointer_array-IsShuffled,
}
use realtimebattle.Schedule.Table.{made, robots_in_sequence}
use realtimebattle.Schedule.Table.Made.{IsTable, robots_in_sequence-IsTable}
use realtimebattle.Schedule.Rounds.{choose}
use realtimebattle.Schedule.Complete.{IsSequence, complete_round_each_once}
use realtimebattle.Schedule.Rest.{
  Entrant, Draw, Outcome, done, fault, rest_rows, match_row, place, taken, enrol, drawn,
}
use realtimebattle.Schedule.Fair.{IsFair, IsNear}
use realtimebattle.Schedule.Inside.{IsWithin}
use realtimebattle.Schedule.Draws.{IsDrawn, rest_rows-IsFair, rest_rows_can_end, CanDraw}
use realtimebattle.Names.{Named, check_name_uniqueness}
use realtimebattle.Names.Unique.{Apart, IsNumbered, check_name_uniqueness-Apart}
use realtimebattle.Rotation.{Rotation, set_rot, sweep_right, update_rotation}
use realtimebattle.Rotation.UnderWay.{IsUnderWay, update_rotation-IsUnderWay}

abbrev whole : ℕ → Whole
whole n = some (pos n)

abbrev point : ℕ → ℕ → Vector2D Whole
point a b = vec (whole a) (whole b)

abbrev disc : ℕ → ℕ → ℕ → Shape Whole
disc a b r = circle (record { center = point a b; radius = whole r })

get_distance_not_negative_example :
    get_distance (disc 9 0 1) (point 0 0) (point 1 0) (whole 1) ⊀ whole 0
get_distance_not_negative_example =
    get_distance_not_negative Whole-IsOrdered (disc 9 0 1) (point 0 0) (point 1 0) (whole 1)

abbrev two_discs : ObjectLists Whole
two_discs = record {
  robots = record { address = 1; id = 1; shape = disc 0 0 1 } ∷ [];
  shots = [];
  walls = record { address = 2; id = 2; shape = disc 9 0 1 } ∷ [];
  cookies = record { address = 3; id = 3; shape = disc 20 0 1 } ∷ [];
  mines = [];
}

get_shortest_distance_minimal_example :
    ((t : ObjectType)
      → NoneNearer Whole-IsOrdered
          (point 0 0)
          (point 1 0)
          (whole 0)
          (some 1)
          (get_shortest_distance (point 0 0) (point 1 0) (whole 0) (some 1) two_discs).dist
          t
          (object_list two_discs t))
    × IsResult Whole-IsOrdered
        (point 0 0)
        (point 1 0)
        (whole 0)
        (some 1)
        two_discs
        (get_shortest_distance (point 0 0) (point 1 0) (whole 0) (some 1) two_discs)
get_shortest_distance_minimal_example =
    get_shortest_distance_minimal Whole-IsOrdered (point 0 0) (point 1 0) (whole 0) (some 1)
      two_discs

-- Numbers with sixths, so that rand() with a RAND_MAX of 3 draws each of three robots.
abbrev div_6 : Whole → Whole
div_6 a = whole_double.div a (whole 6)

abbrev sixths : Double Whole
sixths = record whole_double {
  lit = λ m e. some (pos (6 * m / 10 ^ e));
  of_int = λ z. whole_double.mul (whole 6) (some z);
  mul = λ a b. div_6 (whole_double.mul a b);
  div = λ a b. whole_double.div (whole_double.mul (whole 6) a) b;
  floor = λ a. whole_double.mul (whole 6) (div_6 a);
  to_int = λ a. whole_double.to_int (div_6 a);
}

two_of_four : binomial sixths 4 2 ≡ pos (choose 4 2)
unfolding binomial ◌*ℤ◌
two_of_four = refl

complete_round_each_once_example :
    (rows : List (List ℕ)) × (complete_round (pos_part (binomial sixths 4 2)) 4 2 ≡ some rows)
    × (length rows ≡ choose 4 2)
    × All (IsSequence 4 2) rows
    × ((cs : List ℕ)
        → IsSequence 4 2 cs
        → (i : ℕ) × (get_elem? rows i ≡ some cs) × ((j : ℕ) → get_elem? rows j ≡ some cs → j ≡ i))
complete_round_each_once_example =
    complete_round_each_once sixths 4 2 (omega arith) (omega arith) two_of_four

abbrev entrant : ℕ → Entrant
entrant played = record { playing = false; played = played }

-- Three robots of which the last has played once.
abbrev three : Draw
three = record {
  entrants = entrant 0 ∷ entrant 0 ∷ entrant 1 ∷ [];
  min_matches_played = 0;
  number_of_robots_on_min_matches = 2;
}

three-IsFair : IsFair 3 three
three-IsFair = record {
  size = refl;
  near = (inl refl, (inl refl, (inr refl, tt)));
  on_min = refl;
  some_left = omega arith;
  room = inl refl;
}

abbrev after_three : Draw
after_three = record {
  entrants =
      record { playing = true; played = 1 }
      ∷ record { playing = true; played = 1 }
      ∷ entrant 1
      ∷ [];
  min_matches_played = 1;
  number_of_robots_on_min_matches = 3;
}

abbrev one_row : List (List ℕ)
one_row = (2 ∷ 1 ∷ []) ∷ []

-- The third robot and then the second one are drawn in vain.
rest_of_three : rest_rows sixths 3 3 1 2 three (2 ∷ 1 ∷ 1 ∷ 0 ∷ []) ≡ done (one_row, after_three) []
unfolding rest_rows match_row place taken drawn scaled_rand ◌*ℤ◌ enrol
rest_of_three = refl

rest_rows-IsFair_example :
    IsDrawn sixths 3 3 1 2 (rest_rows sixths 3 3 1 2 three (2 ∷ 1 ∷ 1 ∷ 0 ∷ []))
    × (All (IsWithin sixths 3 3) (2 ∷ 1 ∷ 1 ∷ 0 ∷ [])
        → rest_rows sixths 3 3 1 2 three (2 ∷ 1 ∷ 1 ∷ 0 ∷ []) ≢ fault)
rest_rows-IsFair_example = rest_rows-IsFair sixths 3 3 1 2 three (2 ∷ 1 ∷ 1 ∷ 0 ∷ []) three-IsFair

three-CanDraw : CanDraw sixths 3 3
unfolding drawn scaled_rand ◌*ℤ◌
three-CanDraw zero h = (0, refl)
three-CanDraw (suc zero) h = (1, refl)
three-CanDraw (suc (suc zero)) h = (2, refl)
three-CanDraw (suc (suc (suc nr))) h = absurd (omega (arith, h))

rest_rows_can_end_example :
    (rands : List ℕ) × (a : List (List ℕ) × Draw) × ((rest : List ℕ)
      → rest_rows sixths 3 3 4 2 three (rands ++ rest) ≡ done a rest)
rest_rows_can_end_example =
    rest_rows_can_end sixths 3 3 three-CanDraw 4 2 three three-IsFair (omega arith)

abbrev sweeping : Rotation Whole
sweeping = set_rot (whole 3) (whole 2) (whole 0) (whole 4) sweep_right

update_rotation-IsUnderWay_example : IsUnderWay (update_rotation 2 sweeping (whole 1)).0
update_rotation-IsUnderWay_example = update_rotation-IsUnderWay 2 sweeping (whole 1)

abbrev robot_x : ℕ → ℕ → Named
robot_x address number = record {
  address = address;
  plain_robot_name = "x";
  robot_name_uniqueness_number = number;
  robot_name = "x";
}

abbrev digit : ℕ → String
digit k = if k == 1 then "1" else if k == 2 then "2" else "3"

abbrev three_x : List Named
three_x = robot_x 1 0 ∷ robot_x 2 2 ∷ robot_x 3 0 ∷ []

check_name_uniqueness-Apart_example :
    (k : ℕ) × IsNumbered (robot_x 3 0) k (check_name_uniqueness digit (robot_x 3 0) three_x)
    × Apart (robot_x 3 0) k (check_name_uniqueness digit (robot_x 3 0) three_x)
check_name_uniqueness-Apart_example = check_name_uniqueness-Apart digit (robot_x 3 0) three_x

-- The third robot gets the number 3, the first the number 1 then.
three_x_numbers :
    map (λ r. r.robot_name) (check_name_uniqueness digit (robot_x 3 0) three_x)
    ≡ "x(1)" ∷ "x" ∷ "x(3)" ∷ []
unfolding check_name_uniqueness
three_x_numbers = refl

abbrev two_rows : List (List ℕ)
two_rows = (1 ∷ 2 ∷ []) ∷ (1 ∷ 3 ∷ []) ∷ []

-- Values of rand() that draw both robots of the shuffle in turn.
abbrev swaps : List ℕ
swaps = 0 ∷ 1 ∷ 1 ∷ 1 ∷ 1 ∷ 0 ∷ 0 ∷ 0 ∷ 0 ∷ 1 ∷ 1 ∷ 0 ∷ 1 ∷ 1 ∷ 0 ∷ 0 ∷ 0 ∷ 1 ∷ 1 ∷ 1 ∷ []

swaps_within : All (λ r. drawn sixths 2 2 r < 2) swaps
unfolding drawn scaled_rand ◌*ℤ◌
swaps_within = omega arith

reorder_pointer_array-IsShuffled_example :
    (ys : List (List ℕ)) × (rest : List ℕ) × (reorder_pointer_array sixths 2 2 two_rows swaps
      ≡ done ys rest)
    × IsShuffled 2 two_rows ys
reorder_pointer_array-IsShuffled_example =
    reorder_pointer_array-IsShuffled sixths 2 2 two_rows swaps (omega arith) (omega arith)
      swaps_within

three_pairs : binomial sixths 3 2 ≡ pos (choose 3 2)
unfolding binomial ◌*ℤ◌
three_pairs = refl

robots_in_sequence-IsTable_example :
    ((rands : List ℕ) → IsTable sixths 3 3 2 4 (robots_in_sequence sixths 3 3 2 4 rands))
    × (CanDraw sixths 3 3
        → (rands : List ℕ) × (rows : List (List ℕ)) × (robots_in_sequence sixths 3 3 2 4 rands
            ≡ made rows []))
robots_in_sequence-IsTable_example =
    robots_in_sequence-IsTable sixths 3 3 2 4 (omega arith) (omega arith) three_pairs
