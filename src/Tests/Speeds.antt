-- ===== src/Tests/Speeds.antt =====
-- The theorem on the rotation messages at a concrete input.
use realtimebattle.Base.{ℕ, refl, some, [], ◌∷◌}
use realtimebattle.Base.Int.{pos}
use realtimebattle.Double.Whole.{Whole, whole_double, Whole-IsOrdered, Whole-IsSigned}
use realtimebattle.Input.Tokens.{number, Tokens, token_input, token_doubles}
use realtimebattle.Rotation.{
  Rotation, set_rot, normal_rot, Angles, MaxRotate, sweep_msg, get_rotation_message,
}
use realtimebattle.Rotation.Limits.{IsLimited}
use realtimebattle.Rotation.Messages.{get_rotation_message-IsLimited}

abbrev whole : ℕ → Whole
whole n = some (pos n)

abbrev greatest : MaxRotate Whole
greatest = record { robot_max = whole 5; cannon_max = whole 6; radar_max = whole 7 }

abbrev at_rest : Rotation Whole
at_rest = set_rot (whole 3) (whole 0) (whole 0) (whole 9) normal_rot

abbrev resting : Angles Whole
resting = record { robot_angle = at_rest; cannon_angle = at_rest; radar_angle = at_rest }

-- The cannon and the radar, at a speed of 50, between 1 and 4.
abbrev fast_sweep : Tokens
fast_sweep = number (pos 6) ∷ number (pos 50) ∷ number (pos 1) ∷ number (pos 4) ∷ []

get_rotation_message-IsLimited_example :
    IsLimited Whole-IsOrdered Whole-IsSigned greatest
      (get_rotation_message greatest sweep_msg resting fast_sweep).0
get_rotation_message-IsLimited_example =
    get_rotation_message-IsLimited Whole-IsOrdered Whole-IsSigned greatest
      ((refl, refl), (refl, refl), (refl, refl)) sweep_msg resting fast_sweep
      ((refl, refl), (refl, refl), (refl, refl))
