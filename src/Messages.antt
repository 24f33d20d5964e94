-- ===== src/Messages.antt =====
-- The messages of a robot: the table of include/Messagetypes.h, and `name2msg_from_robot_type`,
-- `check_state_for_message` and `get_messages` of src/Robot.cc, without what is sent back.
pub mod Names
pub mod Limits
use Prim.Native.String.{String}
use text.Mathlib.Text.{◌==◌ as str_eq}
use realtimebattle.Base.{
  ℕ, zero, suc, Bool, true, false, not, ◌&&◌, ◌||◌, List, [], ◌∷◌, Option, none, some, ◌==◌,
  get_elem?, if◌then◌else◌,
}
use realtimebattle.Base.Int.{ℤ, pos, negsuc, pos_part, ltb_ℤ}
use realtimebattle.Double.{Double, min_rtb, max_rtb}
use realtimebattle.Input.{Input, DoubleInput}
use realtimebattle.Options.{Options, get_d}
use realtimebattle.Options as opt
use realtimebattle.Rotation.{
  MaxRotate, RotationMessage, rotate_msg, rotate_to_msg, rotate_amount_msg, sweep_msg,
  get_rotation_message,
}
use realtimebattle.Motion.Shooting.{get_shooting_penalty}
use realtimebattle.Robot.{
  Robot, change_energy, kill_process_forcefully, set_values_at_process_start_up,
}
use realtimebattle.Arena.{State, no_state, starting_robots, game_in_progress, is_state, eq_ℤ}

-- `message_from_robot_type`, where UNKNOWN_MESSAGE_FROM_ROBOT is `none` below.
pub data MessageFromRobot : Type 0 where
  robot_option name colour rotate rotate_to rotate_amount sweep accelerate : MessageFromRobot
  brake break shoot print debug debug_line debug_circle : MessageFromRobot

-- The enumeration in its order, and the names of the table `message_from_robot` in theirs.
abbrev pub all_messages : List MessageFromRobot
all_messages =
    robot_option ∷ name ∷ colour ∷ rotate ∷ rotate_to ∷ rotate_amount ∷ sweep ∷ accelerate ∷ brake
    ∷ break ∷ shoot ∷ print ∷ debug ∷ debug_line ∷ debug_circle ∷ []

abbrev pub message_from_robot : List String
message_from_robot =
    "RobotOption" ∷ "Name" ∷ "Colour" ∷ "Rotate" ∷ "RotateTo" ∷ "RotateAmount" ∷ "Sweep"
    ∷ "Accelerate" ∷ "Brake" ∷ "Break" ∷ "Shoot" ∷ "Print" ∷ "Debug" ∷ "DebugLine" ∷ "DebugCircle"
    ∷ "" ∷ []

-- The value of a message in the enumeration.
unfoldable pub number : MessageFromRobot → ℕ
number robot_option = 0
number name = 1
number colour = 2
number rotate = 3
number rotate_to = 4
number rotate_amount = 5
number sweep = 6
number accelerate = 7
number brake = 8
number break = 9
number shoot = 10
number print = 11
number debug = 12
number debug_line = 13
number debug_circle = 14

-- The loop ends at the empty name. An index is the message of that number.
unfoldable pub search_name : List String → List MessageFromRobot → String → Option MessageFromRobot
search_name [] ms msg_name = none
search_name (t ∷ ts) [] msg_name = none
search_name (t ∷ ts) (m ∷ ms) msg_name =
    let rest = search_name ts ms msg_name in
    if str_eq t "" then none else if str_eq t msg_name then some m else rest

unfoldable pub name2msg_from_robot_type : String → Option MessageFromRobot
unfolding search_name
name2msg_from_robot_type msg_name = search_name message_from_robot all_messages msg_name

-- The robot with the 4 kB that it has sent (`bufferstream`), and what it has sent since (`instreamp`).
pub record Reader {ℓ κ} (W : Type ℓ) (S : Type κ) : Type (ℓ ⊔ κ) where
  pub robot : Robot W
  pub buffer : S
  pub instream : S

-- What get_messages asks outside the robot: the number of robots left, and two constants of the system, SIGUSR1
-- and NSIG. A name and a colour are no members of `Robot` here: Names and Colours have them. What a shot does to the
-- field is in Motion/Shooting; where that or a colour ends in a fatal error, nothing more is read.
pub record Outside : Type 0 where
  pub robots_left : ℤ
  pub sigusr1 : ℤ
  pub nsig : ℤ

-- `if( val < 0 ) val = 0; if( val > 2 ) val = 2;`
unfoldable pub clamp_to_2 : ℤ → ℕ
clamp_to_2 (negsuc n) = 0
clamp_to_2 (pos n) = if ltb_ℤ (pos 2) (pos n) then 2 else n

module _ {ℓ} {W : Type ℓ} ⦃d : Double W⦄ where
  -- The options of the greatest speeds.
  unfoldable pub max_rotate : Options W → MaxRotate W
  max_rotate o = record {
    robot_max = get_d o opt.robot_max_rotate;
    cannon_max = get_d o opt.robot_cannon_max_rotate;
    radar_max = get_d o opt.robot_radar_max_rotate;
  }

  unfoldable pub set_non_blocking_state : Bool → Robot W → Robot W
  unfolding kill_process_forcefully set_values_at_process_start_up
  set_non_blocking_state non_bl r =
      if (if non_bl then r.use_non_blocking else not r.use_non_blocking)
      then r
      else set_values_at_process_start_up
          (kill_process_forcefully (record r { use_non_blocking = non_bl }))

  unfoldable pub on_send_signal : Outside → ℤ → Robot W → Robot W
  on_send_signal out val r = record r {
    send_usr_signal = eq_ℤ val (pos 1);
    signal_to_send = out.sigusr1;
  }

  unfoldable pub on_signal : Outside → ℤ → Robot W → Robot W
  on_signal out val r =
      let known = ltb_ℤ (pos 0) val && ltb_ℤ val out.nsig in
      record r { signal_to_send = if known then val else pos 0; send_usr_signal = known }

  unfoldable pub on_use_non_blocking : ℤ → Robot W → Robot W
  unfolding set_non_blocking_state
  on_use_non_blocking val r =
      if r.network_robot then r else set_non_blocking_state (not (eq_ℤ val (pos 0))) r

module _ {ℓ κ} {W : Type ℓ} {S : Type κ} ⦃d : Double W⦄ ⦃inp : Input S⦄ ⦃dbl : DoubleInput W S⦄
    (o : Options W) (out : Outside) (st : State) where
  open d use {lit}
  open inp use {at_end, skip_ws, get_text, read_int, read_hex}
  open dbl use {read_double}

  abbrev with_robot : Reader W S → Robot W → S → Reader W S
  with_robot x r s = record x { robot = r; buffer = s }

  -- In another state, up to 79 characters of what the robot sends next are thrown away.
  unfoldable pub check_state_for_message :
      State → (Reader W S → Reader W S) → Reader W S → Reader W S
  check_state_for_message state1 f x =
      if is_state st state1 || is_state st no_state
      then f x
      else record x { instream = (get_text 80 10 x.instream).1 }

  -- The switch over `opt_nr`: SEND_SIGNAL, SEND_ROTATION_REACHED, SIGNAL and USE_NON_BLOCKING.
  unfoldable pub set_option : ℤ → Reader W S → Reader W S
  unfolding on_send_signal on_signal on_use_non_blocking clamp_to_2
  set_option opt_nr x =
      let (val, s) = read_int x.buffer in
      if eq_ℤ opt_nr (pos 0)
      then with_robot x (on_send_signal out val x.robot) s
      else if eq_ℤ opt_nr (pos 1)
      then with_robot x (record x.robot { send_rotation_reached = clamp_to_2 val }) s
      else if eq_ℤ opt_nr (pos 2)
      then with_robot x (on_signal out val x.robot) s
      else if eq_ℤ opt_nr (pos 3)
      then with_robot x (on_use_non_blocking val x.robot) s
      else x

  unfoldable pub robot_option_message : Reader W S → Reader W S
  unfolding set_option
  robot_option_message x =
      let (opt_nr, s) = read_int x.buffer in set_option opt_nr (record x { buffer = s })

  unfoldable pub name_message : Reader W S → Reader W S
  name_message x =
      let (text, s) = get_text 80 10 x.buffer in
      with_robot x (record x.robot { name_given = true }) s

  unfoldable pub colour_message : Reader W S → Reader W S
  colour_message x =
      let (home, s1) = read_hex x.buffer in
      let (away, s2) = read_hex s1 in with_robot x (record x.robot { colour_given = true }) s2

  unfoldable pub rotation_message : RotationMessage → Reader W S → Reader W S
  unfolding max_rotate get_rotation_message
  rotation_message m x =
      let (angles, s) = get_rotation_message (max_rotate o) m x.robot.angles x.buffer in
      with_robot x (record x.robot { angles = angles }) s

  -- The robot's part of a shot.
  unfoldable pub shoot_message : Reader W S → Reader W S
  unfolding change_energy get_shooting_penalty
  shoot_message x =
      let (wanted, s) = read_double x.buffer in
      let en = min_rtb wanted x.robot.shot_energy in
      if d.lt en (get_d o opt.shot_min_energy)
      then with_robot x x.robot s
      else with_robot x
          (change_energy o (d.mul (d.neg en) (get_shooting_penalty o out.robots_left))
            (record x.robot { shot_energy = d.sub x.robot.shot_energy en }))
          s

  unfoldable pub accelerate_message : Reader W S → Reader W S
  accelerate_message x =
      let (acc, s) = read_double x.buffer in
      with_robot x
        (record x.robot {
          acceleration =
              min_rtb (max_rtb acc (get_d o opt.robot_min_acceleration))
                (get_d o opt.robot_max_acceleration);
        })
        s

  unfoldable pub brake_message : Reader W S → Reader W S
  brake_message x =
      let (brk, s) = read_double x.buffer in
      with_robot x (record x.robot { brake_percent = min_rtb (max_rtb brk (lit 0 0)) (lit 1 0) }) s

  abbrev skip_text : ℕ → Reader W S → Reader W S
  skip_text n x = record x { buffer = (get_text n 10 x.buffer).1 }

  -- The switch over the message. DebugLine and DebugCircle draw, and leave their numbers unread.
  unfoldable pub on_message : Option MessageFromRobot → Reader W S → Reader W S
  unfolding check_state_for_message robot_option_message name_message colour_message
      rotation_message shoot_message accelerate_message brake_message
  on_message none x = skip_text 80 x
  on_message (some robot_option) x = check_state_for_message starting_robots robot_option_message x
  on_message (some name) x = check_state_for_message starting_robots name_message x
  on_message (some colour) x = check_state_for_message starting_robots colour_message x
  on_message (some rotate) x =
      check_state_for_message game_in_progress (rotation_message rotate_msg) x
  on_message (some rotate_to) x =
      check_state_for_message game_in_progress (rotation_message rotate_to_msg) x
  on_message (some rotate_amount) x =
      check_state_for_message game_in_progress (rotation_message rotate_amount_msg) x
  on_message (some sweep) x =
      check_state_for_message game_in_progress (rotation_message sweep_msg) x
  on_message (some accelerate) x = check_state_for_message game_in_progress accelerate_message x
  on_message (some brake) x = check_state_for_message game_in_progress brake_message x
  on_message (some break) x = check_state_for_message game_in_progress brake_message x
  on_message (some shoot) x = check_state_for_message game_in_progress shoot_message x
  on_message (some print) x = skip_text 160 x
  on_message (some debug) x = skip_text 160 x
  on_message (some debug_line) x = check_state_for_message game_in_progress (λ y. y) x
  on_message (some debug_circle) x = check_state_for_message game_in_progress (λ y. y) x

  -- The first rounds of the loop, at most `rounds` of them.
  unfoldable pub get_messages : ℕ → Reader W S → Reader W S
  unfolding on_message name2msg_from_robot_type
  get_messages zero x = x
  get_messages (suc rounds) x =
      let (msg_name, s1) = get_text 80 32 x.buffer in
      let x1 = on_message (name2msg_from_robot_type msg_name) (record x { buffer = skip_ws s1 }) in
      let rest = get_messages rounds (record x1 { buffer = skip_ws x1.buffer }) in
      if at_end x.buffer then x else rest
