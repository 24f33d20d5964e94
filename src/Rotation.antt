-- ===== src/Rotation.antt =====
-- The three angles of a robot: `rotation_t` of include/Structs.h, `update_rotation` of src/Robot.cc, and
-- what `get_messages` does there for ROTATE, ROTATE_TO, ROTATE_AMOUNT and SWEEP, once the message is
-- allowed.
pub mod UnderWay
pub mod Limits
pub mod Messages
use realtimebattle.Base.{
  ℕ, zero, suc, ◌%◌, ◌/◌, Bool, true, false, not, ◌&&◌, ◌==◌, leb, if◌then◌else◌,
}
use realtimebattle.Base.Int.{ℤ, pos, negsuc}
use realtimebattle.Double.{Double, min_rtb, max_rtb, sgn_rtb, infinity_rtb}
use realtimebattle.Input.{Input, DoubleInput}

pub data RotationMode : Type 0 where
  normal_rot sweep_left sweep_right rotate_to_right rotate_to_left : RotationMode

pub record Rotation {ℓ} (W : Type ℓ) : Type ℓ where
  pub position : W
  pub vel : W
  pub left : W
  pub right : W
  pub mode : RotationMode

abbrev pub set_rot {ℓ} : {W : Type ℓ} → W → W → W → W → RotationMode → Rotation W
set_rot p v l r m = record { position = p; vel = v; left = l; right = r; mode = m }

abbrev pub is_mode : RotationMode → RotationMode → Bool
is_mode normal_rot normal_rot = true
is_mode sweep_left sweep_left = true
is_mode sweep_right sweep_right = true
is_mode rotate_to_right rotate_to_right = true
is_mode rotate_to_left rotate_to_left = true
is_mode _ _ = false

-- The messages of `message_from_robot_type` that set a rotation.
pub data RotationMessage : Type 0 where
  rotate_msg rotate_to_msg rotate_amount_msg sweep_msg : RotationMessage

-- `robot_angle`, `cannon_angle` and `radar_angle`.
pub record Angles {ℓ} (W : Type ℓ) : Type ℓ where
  pub robot_angle : Rotation W
  pub cannon_angle : Rotation W
  pub radar_angle : Rotation W

-- The three options with the greatest speeds.
pub record MaxRotate {ℓ} (W : Type ℓ) : Type ℓ where
  pub robot_max : W
  pub cannon_max : W
  pub radar_max : W

-- `bits & mask` for a mask of one bit, on a two's complement `int`.
abbrev pub has_bit : ℤ → ℕ → Bool
has_bit (pos n) mask = n / mask % 2 == 1
has_bit (negsuc n) mask = n / mask % 2 == 0

module _ {ℓ} {W : Type ℓ} ⦃d : Double W⦄ where
  open d use {lit, pi, neg, add, sub, mul, div, fabs, rint, lt, le}

  abbrev pub minus_infinity : W
  minus_infinity = neg infinity_rtb

  -- The four tests in turn, each on what the one before leaves, the mode first; with `rot_reached`.
  unfoldable pub update_rotation : ℕ → Rotation W → W → Rotation W × Bool
  update_rotation send_rotation_reached angle timestep =
      let a0 : Rotation W = record angle {
        position = add angle.position (mul timestep angle.vel);
      } in
      let t1 = is_mode a0.mode rotate_to_right && le a0.right a0.position in
      let a1 =
        if t1 then set_rot a0.right (lit 0 0) minus_infinity infinity_rtb normal_rot else a0 in
      let r1 = t1 && leb 1 send_rotation_reached in
      let t2 = is_mode a1.mode sweep_right && le a1.right a1.position in
      let a2 = if t2 then set_rot a1.right (neg a1.vel) a1.left a1.right sweep_left else a1 in
      let r2 = if t2 && leb 2 send_rotation_reached then true else r1 in
      let t3 = is_mode a2.mode rotate_to_left && le a2.position a2.left in
      let a3 =
        if t3 then set_rot a2.left (lit 0 0) minus_infinity infinity_rtb normal_rot else a2 in
      let r3 = if t3 && leb 1 send_rotation_reached then true else r2 in
      let t4 = is_mode a3.mode sweep_left && le a3.position a3.left in
      let a4 = if t4 then set_rot a3.left (neg a3.vel) a3.left a3.right sweep_right else a3 in
      let r4 = if t4 && leb 2 send_rotation_reached then true else r3 in (a4, r4)

  abbrev pub limit_if : Bool → W → W → W
  limit_if b speed greatest = if b then min_rtb speed greatest else speed

  -- A turn by `rot_amount` at `rot_speed`.
  unfoldable pub turn_by : Rotation W → W → W → Rotation W
  turn_by a rot_speed rot_amount =
      if lt (lit 0 0) rot_amount
      then set_rot a.position rot_speed minus_infinity (add a.position rot_amount) rotate_to_right
      else set_rot a.position (neg rot_speed) (add a.position rot_amount) infinity_rtb
          rotate_to_left

  -- `pos -= rint( (pos - target) / (2.0*M_PI) ) * 2.0 * M_PI`
  unfoldable pub unwind : Rotation W → W → Rotation W
  unwind a target = record a {
    position =
        sub a.position
          (mul (mul (rint (div (sub a.position target) (mul (lit 2 0) pi))) (lit 2 0)) pi);
  }

  unfoldable pub turn_to : Rotation W → W → W → Rotation W
  unfolding turn_by unwind
  turn_to a rot_speed rot_end_angle =
      let a' = unwind a rot_end_angle in turn_by a' rot_speed (sub rot_end_angle a'.position)

  abbrev pub cut : W → W
  cut v = max_rtb (min_rtb v infinity_rtb) minus_infinity

  -- One of the two blocks of SWEEP: the angle, and the direction that it leaves in `rot_dir`.
  unfoldable pub sweep : Rotation W → W → W → W → RotationMode → Rotation W × RotationMode
  unfolding unwind
  sweep a rot_speed sweep_left_end sweep_right_end rot_dir0 =
      let a' = unwind a (mul (lit 5 1) (add sweep_left_end sweep_right_end)) in
      let moving = lt (lit 1 10) (fabs a'.vel) in
      let dir1 =
        if moving then if lt a'.vel (lit 0 0) then sweep_left else sweep_right else rot_dir0 in
      let dir2 = if le a'.position sweep_left_end then sweep_right else dir1 in
      let dir3 = if le sweep_right_end a'.position then sweep_left else dir2 in
      let speed = if is_mode dir3 sweep_left then neg rot_speed else rot_speed in
      (set_rot a'.position speed sweep_left_end sweep_right_end dir3, dir3)

module _ {ℓ κ} {W : Type ℓ} {S : Type κ} ⦃d : Double W⦄ ⦃inp : Input S⦄ ⦃dbl : DoubleInput W S⦄
    (m : MaxRotate W) where
  open d use {lit, neg, mul, fabs, lt}
  open inp use {read_int}
  open dbl use {read_double}

  -- case ROTATE
  unfoldable pub rotate : Angles W → S → Angles W × S
  rotate g s =
      let (bits, s1) = read_int s in
      let (rot_speed, s2) = read_double s1 in
      let robot = has_bit bits 1 in
      let cannon = has_bit bits 2 in
      let radar = has_bit bits 4 in
      let speed1 = limit_if robot (fabs rot_speed) m.robot_max in
      let speed2 = limit_if cannon speed1 m.cannon_max in
      let speed3 = limit_if radar speed2 m.radar_max in
      let v = mul speed3 (sgn_rtb rot_speed) in
      let free : Rotation W → Rotation W =
        λ a. set_rot a.position v minus_infinity infinity_rtb normal_rot in
      (
        record {
          robot_angle = if robot then free g.robot_angle else g.robot_angle;
          cannon_angle = if cannon then free g.cannon_angle else g.cannon_angle;
          radar_angle = if radar then free g.radar_angle else g.radar_angle;
        },
        s2,
      )

  -- case ROTATE_TO: not for the robot itself
  unfoldable pub rotate_to : Angles W → S → Angles W × S
  unfolding turn_to
  rotate_to g s =
      let (bits, s1) = read_int s in
      let (rot_speed, s2) = read_double s1 in
      let (end0, s3) = read_double s2 in
      let cannon = has_bit bits 2 in
      let radar = has_bit bits 4 in
      let speed1 = limit_if cannon (fabs rot_speed) m.cannon_max in
      let speed2 = limit_if radar speed1 m.radar_max in
      (
        record g {
          cannon_angle =
              if cannon then turn_to g.cannon_angle speed2 (cut end0) else g.cannon_angle;
          radar_angle = if radar then turn_to g.radar_angle speed2 (cut end0) else g.radar_angle;
        },
        s3,
      )

  -- case ROTATE_AMOUNT
  unfoldable pub rotate_amount : Angles W → S → Angles W × S
  unfolding turn_by
  rotate_amount g s =
      let (bits, s1) = read_int s in
      let (rot_speed, s2) = read_double s1 in
      let (amount, s3) = read_double s2 in
      let robot = has_bit bits 1 in
      let cannon = has_bit bits 2 in
      let radar = has_bit bits 4 in
      let speed1 = limit_if robot (fabs rot_speed) m.robot_max in
      let speed2 = limit_if cannon speed1 m.cannon_max in
      let speed3 = limit_if radar speed2 m.radar_max in
      (
        record {
          robot_angle = if robot then turn_by g.robot_angle speed3 amount else g.robot_angle;
          cannon_angle = if cannon then turn_by g.cannon_angle speed3 amount else g.cannon_angle;
          radar_angle = if radar then turn_by g.radar_angle speed3 amount else g.radar_angle;
        },
        s3,
      )

  -- case SWEEP: not for the robot itself; `rot_dir` of the cannon's block is where the radar's starts
  unfoldable pub sweep_message : Angles W → S → Angles W × S
  unfolding sweep
  sweep_message g s =
      let (bits, s1) = read_int s in
      let (rot_speed, s2) = read_double s1 in
      let (left0, s3) = read_double s2 in
      let (right0, s4) = read_double s3 in
      let cannon = has_bit bits 2 in
      let radar = has_bit bits 4 in
      let dir0 = if lt rot_speed (lit 0 0) then sweep_left else sweep_right in
      let speed1 = if cannon then min_rtb (fabs rot_speed) m.cannon_max else rot_speed in
      let speed2 = if radar then min_rtb (fabs speed1) m.radar_max else speed1 in
      let (c, dir1) =
        if cannon
        then sweep g.cannon_angle speed2 (cut left0) (cut right0) dir0
        else (g.cannon_angle, dir0) in
      let (r, dir2) =
        if radar
        then sweep g.radar_angle speed2 (cut left0) (cut right0) dir1
        else (g.radar_angle, dir1) in
      (record g { cannon_angle = c; radar_angle = r }, s4)

  -- The switch of `get_messages`, for these four.
  unfoldable pub get_rotation_message : RotationMessage → Angles W → S → Angles W × S
  unfolding rotate rotate_to rotate_amount sweep_message
  get_rotation_message rotate_msg g s = rotate g s
  get_rotation_message rotate_to_msg g s = rotate_to g s
  get_rotation_message rotate_amount_msg g s = rotate_amount g s
  get_rotation_message sweep_msg g s = sweep_message g s
