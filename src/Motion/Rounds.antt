-- ===== src/Motion/Rounds.antt =====
-- A round of the game in progress: ArenaRealTime::update of src/ArenaRealTime.cc with read_robot_messages,
-- move_shots, and update_robots up to the removal of the dead, and update_radar_and_cannon of src/Robot.cc.
-- What is sent to robots, broadcast and drawn is left out.
pub mod Lasts
pub mod Sound
use realtimebattle.Base.{ℕ, Bool, true, false, List, [], ◌∷◌, if◌then◌else◌}
use realtimebattle.Base.Int.{ℤ}
use realtimebattle.Double.{Double, min_rtb}
use realtimebattle.Vector2D.{Vector2D}
use realtimebattle.Options.{Options, get_d}
use realtimebattle.Options as opt
use realtimebattle.Rotation.{Rotation, Angles, update_rotation}
use realtimebattle.Robot.{Robot, change_velocity}
use realtimebattle.Arena.Ticks.{still_alive}
use realtimebattle.Motion.{
  Field, Motion, moved, unknown_object, too_many_bounces, no_end, change_robot, move_robot,
}
use realtimebattle.Motion.Shots.{Flight, flown, lost, move_shots}
use realtimebattle.Motion.Shots as shots
use realtimebattle.Motion.Shooting.{fire_shot}

-- What the messages of a robot come to on the field: shots, and other members of the robot.
pub data Order {ℓ} (W : Type ℓ) : Type ℓ where
  shoot_order : W → Order W
  turn_order : Angles W → Order W
  drive_order : W → W → Order W

-- How a round ends.
pub data Fault : Type 0 where
  met_unknown bounced_too_often had_no_end freed : Fault

pub data Round {ℓ} (W : Type ℓ) : Type ℓ where
  played : Field W → Round W
  stopped : Fault → Round W

module _ {ℓ} {W : Type ℓ} where
  -- What a round goes on with.
  infixl 5 ◌>>=◌
  abbrev pub ◌>>=◌ : Round W → (Field W → Round W) → Round W
  ◌>>=◌ (played f) k = k f
  ◌>>=◌ (stopped e) k = stopped e

  abbrev pub of_motion : Motion W → Round W
  of_motion (moved f) = played f
  of_motion unknown_object = stopped met_unknown
  of_motion too_many_bounces = stopped bounced_too_often
  of_motion no_end = stopped had_no_end

  abbrev pub of_flight : Flight W → Round W
  of_flight (flown f) = played f
  of_flight shots.unknown_object = stopped met_unknown
  of_flight lost = stopped freed

module _ {ℓ} {W : Type ℓ} ⦃d : Double W⦄ where
  -- `erase` of the dead robots.
  unfoldable pub erase_robots : Field W → Field W
  unfolding still_alive
  erase_robots f = record f { robots_on_arena = still_alive f.robots f.robots_on_arena }

module _ {ℓ} {W : Type ℓ} ⦃d : Double W⦄ (o : Options W) where
  open d use {add, mul}

  -- The robot's own part of `update_radar_and_cannon`.
  unfoldable pub update_radar_and_cannon : W → Robot W → Robot W
  unfolding update_rotation
  update_radar_and_cannon timestep r =
      let turned = λ (a : Rotation W). (update_rotation r.send_rotation_reached a timestep).0 in
      record r {
        angles = record {
          robot_angle = turned r.angles.robot_angle;
          cannon_angle = turned r.angles.cannon_angle;
          radar_angle = turned r.angles.radar_angle;
        };
        shot_energy =
            min_rtb (get_d o opt.shot_max_energy)
              (add r.shot_energy (mul timestep (get_d o opt.shot_energy_increase_speed)));
      }

  -- The number of robots left and the exclusion points do not change in a round.
  module _ (left : ℤ) (exclusion_points : List (Vector2D W)) where
    unfoldable pub obey : ℕ → Order W → Field W → Round W
    unfolding fire_shot
    obey p (shoot_order wanted) f = of_flight (fire_shot o left exclusion_points p wanted f)
    obey p (turn_order angles) f = played (change_robot (λ r. record r { angles = angles }) p f)
    obey p (drive_order acc brk) f =
        played (change_robot (λ r. record r { acceleration = acc; brake_percent = brk }) p f)

    unfoldable pub obey_all : ℕ → List (Order W) → Field W → Round W
    unfolding obey
    obey_all p [] f = played f
    obey_all p (order ∷ rest) f = obey p order f >>= λ g. obey_all p rest g

    -- `get_messages` of a robot that is alive.
    abbrev pub listen : (ℕ → Field W → List (Order W)) → ℕ → Field W → Round W
    listen orders p f = if (f.robots p).alive then obey_all p (orders p f) f else played f

    unfoldable pub read_robot_messages : (ℕ → Field W → List (Order W)) → List ℕ → Field W → Round W
    unfolding obey_all
    read_robot_messages orders [] f = played f
    read_robot_messages orders (p ∷ ps) f =
        listen orders p f >>= λ g. read_robot_messages orders ps g

    -- The body of the first loop of `update_robots`.
    unfoldable pub update_robot : (ℕ → Field W → List (Order W)) → W → ℕ → Field W → Round W
    unfolding update_radar_and_cannon change_velocity move_robot obey_all
    update_robot orders timestep p f =
        let steer =
          λ (r : Robot W). change_velocity o timestep (update_radar_and_cannon timestep r) in
        let turn =
          if (f.robots p).alive
          then of_motion (move_robot o timestep p (change_robot steer p f))
          else played f in
        turn >>= λ g. listen orders p g

    unfoldable pub update_each : (ℕ → Field W → List (Order W)) → W → List ℕ → Field W → Round W
    unfolding update_robot
    update_each orders timestep [] f = played f
    update_each orders timestep (p ∷ ps) f =
        update_robot orders timestep p f >>= λ g. update_each orders timestep ps g

    -- `orders` are those before the shots move, and those after each robot has moved.
    unfoldable pub play_round :
        (ℕ → Field W → List (Order W))
        → (ℕ → Field W → List (Order W))
        → W
        → List ℕ
        → Field W
        → Round W
    unfolding read_robot_messages move_shots update_each erase_robots
    play_round early orders timestep sequence f = read_robot_messages early sequence f >>= λ g.
        of_flight (move_shots o timestep g) >>= λ h.
        update_each orders timestep h.robots_on_arena h >>= λ k. played (erase_robots k)
