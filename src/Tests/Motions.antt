-- ===== src/Tests/Motions.antt =====
-- The theorems on motion at concrete inputs, with whole numbers for the doubles.
use realtimebattle.Base.{ℕ, true, none, some, [], ◌∷◌, arith}
use realtimebattle.Base.Int.{◌-ℤ◌, ◌*ℤ◌}
use realtimebattle.Double.{◌≺◌, ◌⊀◌}
use realtimebattle.Double.Whole.{Whole, whole_double, Whole-IsOrdered}
use realtimebattle.Vector2D.{vec}
use realtimebattle.Options.{Options, option_info, entry_double, environment}
use realtimebattle.Rotation.{set_rot, normal_rot}
use realtimebattle.Shapes.{circle, inner_circle}
use realtimebattle.Motion.{Field, move_robot}
use realtimebattle.Motion.Kept.{Kept}
use realtimebattle.Motion.Ends.{IsEnd, move_robot-IsEnd}
use realtimebattle.Motion.Shots.{move_shots}
use realtimebattle.Motion.Shots.Stays.{Stays, IsFlight}
use realtimebattle.Motion.Shots.Alive.{AliveAt, move_shots-all_alive}
use realtimebattle.Motion.Shooting.{energy_of_firing, fire_shot}
use realtimebattle.Motion.Shooting.Fired.{IsFired, fire_shot-IsFired}
use realtimebattle.Motion.Rounds.{Order, shoot_order, play_round}
use realtimebattle.Motion.Rounds.Lasts.{IsRound}
use realtimebattle.Motion.Rounds.Sound.{IsPlayed, play_round-IsPlayed}
use realtimebattle.Base.{List, replicate, false}
use realtimebattle.Base.Int.{pos}
use realtimebattle.Tests.Arenas.{whole, options, robot}

-- A robot that drives towards a cookie, a shot behind it, and a round wall about them.
abbrev field : Field Whole
field = record {
  robots = λ p. record robot { id = p; alive = true; velocity = vec (whole 1) (whole 0) };
  robots_on_arena = 0 ∷ [];
  shots =
      record {
        address = 0;
        id = 0;
        center = vec (whole 0) (whole 7);
        velocity = vec (whole 3) (whole 0);
        radius = whole 1;
        energy = whole 2;
        alive = true;
      }
      ∷ [];
  walls =
      record {
        shape = inner_circle (record { center = vec (whole 0) (whole 0); radius = whole 900 });
        bounce_coeff = whole 1;
        hardness_coeff = whole 0;
      }
      ∷ [];
  cookies =
      record {
        item = record {
          address = 4;
          id = 4;
          shape = circle (record { center = vec (whole 20) (whole 0); radius = whole 1 });
        };
        energy = whole 5;
      }
      ∷ [];
  mines = [];
  shot_count = 1;
}

sub_below_Whole :
    (x y z : Whole)
    → x ≺ z
    → y ⊀ whole_double.lit 0 0
    → whole_double.lit 0 0 ≺ whole_double.sub x y
    → whole_double.sub x y ≺ z
unfolding ◌-ℤ◌
sub_below_Whole none y z h k l = cc
sub_below_Whole (some a) none z h k l = cc
sub_below_Whole (some a) (some b) none h k l = cc
sub_below_Whole (some a) (some b) (some c) h k l = ground arith

move_robot-IsEnd_example : IsEnd (Kept options field) (move_robot options (whole 50) 0 field)
unfolding ◌*ℤ◌
move_robot-IsEnd_example =
    move_robot-IsEnd Whole-IsOrdered options sub_below_Whole (whole 50) 0 field (ground arith)
      (ground arith)

move_shots-all_alive_example :
    IsFlight Whole-IsOrdered options
      (λ g. Stays Whole-IsOrdered options field g × ((b : ℕ) → AliveAt Whole-IsOrdered options b g))
      (move_shots options (whole 50) field)
move_shots-all_alive_example =
    move_shots-all_alive Whole-IsOrdered options (whole 50) field (ground arith)

-- Every option is 2.
abbrev twos : Options Whole
twos = record options {
  all_double_options =
      replicate 60
        (option_info entry_double environment (whole 2) (whole 0) (whole 9) 5 false false "two");
}

-- The robot may shoot with an energy of at most 3.
abbrev armed : Field Whole
armed = record field {
  robots = λ p. record (field.robots p) {
    shot_energy = whole 3;
    energy = whole 2;
    angles = record {
      robot_angle = set_rot (whole 1) (whole 0) (whole 0) (whole 0) normal_rot;
      cannon_angle = (field.robots p).angles.cannon_angle;
      radar_angle = (field.robots p).angles.radar_angle;
    };
  };
}

fire_shot-IsFired_example :
    ((armed.robots 0).shot_energy ⊀ energy_of_firing twos (armed.robots 0) (whole 8))
    × IsFired Whole-IsOrdered twos
        (pos 2)
        []
        0
        (energy_of_firing twos (armed.robots 0) (whole 8))
        armed
        (fire_shot twos (pos 2) [] 0 (whole 8) armed)
fire_shot-IsFired_example = fire_shot-IsFired Whole-IsOrdered twos (pos 2) [] 0 (whole 8) armed

-- The robot shoots with an energy of 2 when it has moved.
abbrev shoots : ℕ → Field Whole → List (Order Whole)
shoots p f = shoot_order (whole 2) ∷ []

abbrev silent : ℕ → Field Whole → List (Order Whole)
silent p f = []

play_round-IsPlayed_example :
    IsRound
      (IsPlayed Whole-IsOrdered twos armed)
      (play_round twos (pos 2) [] silent shoots (whole 50) (0 ∷ []) armed)
unfolding ◌*ℤ◌
play_round-IsPlayed_example =
    play_round-IsPlayed Whole-IsOrdered twos (pos 2) [] silent shoots (whole 50) (0 ∷ []) armed
      sub_below_Whole (ground arith) (ground arith)
