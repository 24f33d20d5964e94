-- ===== src/Messages/Limits.antt =====
-- Whatever a robot sends, `get_messages` of src/Robot.cc keeps it within the limits of the options.
use realtimebattle.Base.{
  ℕ, zero, suc, ◌≤◌, ◌≡◌, refl, Bool, not, ◌||◌, Option, none, some, arith, if-holds, if◌then◌else◌,
}
use realtimebattle.Base.Int.{ℤ, pos, negsuc}
use realtimebattle.Double.{
  Double, IsOrdered, IsSigned, ◌⊀◌, min_rtb, max_rtb, min_rtb-not_above, max_rtb-not_below,
}
use realtimebattle.Input.{Input, DoubleInput}
use realtimebattle.Options.{Options, get_d}
use realtimebattle.Options as opt
use realtimebattle.Rotation.{
  Angles, RotationMessage, rotate_msg, rotate_to_msg, rotate_amount_msg, sweep_msg,
}
use realtimebattle.Rotation.Limits.{HasBounds, IsLimited}
use realtimebattle.Rotation.Messages.{get_rotation_message-IsLimited}
use realtimebattle.Motion.Shooting.{get_shooting_penalty}
use realtimebattle.Robot.{
  Robot, change_energy, die, kill_process_forcefully, set_values_at_process_start_up,
}
use realtimebattle.Arena.{State, no_state, starting_robots, game_in_progress, is_state, eq_ℤ}
use realtimebattle.Messages.{
  MessageFromRobot, robot_option, name, colour, rotate, rotate_to, rotate_amount, sweep, accelerate,
  brake, break, shoot, print, debug, debug_line, debug_circle, Reader, Outside, max_rotate,
  clamp_to_2, set_non_blocking_state, on_send_signal, on_signal, on_use_non_blocking, set_option,
  check_state_for_message, robot_option_message, name_message, colour_message, rotation_message,
  shoot_message, accelerate_message, brake_message, name2msg_from_robot_type, on_message,
  get_messages,
}

-- What a robot controls by its messages.
pub record Controls {ℓ} (W : Type ℓ) : Type ℓ where
  pub acceleration : W
  pub brake_percent : W
  pub send_rotation_reached : ℕ
  pub angles : Angles W

abbrev pub controls {ℓ} : {W : Type ℓ} → Robot W → Controls W
controls r = record {
  acceleration = r.acceleration;
  brake_percent = r.brake_percent;
  send_rotation_reached = r.send_rotation_reached;
  angles = r.angles;
}

clamp_to_2_le : (z : ℤ) → clamp_to_2 z ≤ 2
unfolding clamp_to_2
clamp_to_2_le (pos n) = ground arith
clamp_to_2_le (negsuc n) = omega arith

module _ {ℓ} {W : Type ℓ} ⦃d : Double W⦄ where
  non_blocking-same : (b : Bool) (r : Robot W) → controls (set_non_blocking_state b r) ≡ controls r
  unfolding set_non_blocking_state kill_process_forcefully set_values_at_process_start_up
  non_blocking-same b r =
      if-holds (λ (q : Robot W). controls q ≡ controls r)
        (if b then r.use_non_blocking else not r.use_non_blocking) refl refl

  on_use_non_blocking-same : (z : ℤ) (r : Robot W) → controls (on_use_non_blocking z r) ≡ controls r
  unfolding on_use_non_blocking
  on_use_non_blocking-same z r =
      if-holds (λ (q : Robot W). controls q ≡ controls r) r.network_robot refl
        (non_blocking-same (not (eq_ℤ z (pos 0))) r)

module _ {ℓ} {W : Type ℓ} ⦃d : Double W⦄ (laws : IsOrdered W) (signs : IsSigned W)
    (o : Options W) where
  open d use {lit}

  -- Between the least and the greatest acceleration, no or full brake, the three levels of
  -- notification, and the greatest speeds of rotation.
  abbrev pub IsDriven : Controls W → Type 0
  IsDriven c =
      ((get_d o opt.robot_max_acceleration ⊀ c.acceleration)
        × (c.acceleration ⊀ get_d o opt.robot_min_acceleration))
      × ((lit 1 0 ⊀ c.brake_percent) × (c.brake_percent ⊀ lit 0 0))
      × (c.send_rotation_reached ≤ 2)
      × IsLimited laws signs (max_rotate o) c.angles

  on_same : {x y : Controls W} → x ≡ y → IsDriven y → IsDriven x
  on_same e p = rw e p

  change_energy-same : (e : W) (r : Robot W) → controls (change_energy o e r) ≡ controls r
  unfolding change_energy die
  change_energy-same e r =
      let sum = min_rtb (d.add r.energy e) (get_d o opt.robot_max_energy) in
      let kept : Robot W → Type ℓ = λ q. controls q ≡ controls r in
      if-holds kept (d.le sum (lit 0 0)) (if-holds kept r.alive refl refl) refl

  -- `min_rtb(max_rtb(v, least), greatest)` for limits in their order.
  clamped :
      (v least greatest : W)
      → greatest ⊀ least
      → (greatest ⊀ min_rtb (max_rtb v least) greatest)
        × (min_rtb (max_rtb v least) greatest ⊀ least)
  clamped v least greatest h = (
    min_rtb-not_above laws (max_rtb v least) greatest,
    if-holds (λ x. x ⊀ least) (d.lt (max_rtb v least) greatest) (max_rtb-not_below laws v least) h,
  )

  module _ {κ} {S : Type κ} ⦃inp : Input S⦄ ⦃dbl : DoubleInput W S⦄ (out : Outside) (st : State)
      (bounds : HasBounds laws signs (max_rotate o))
      (accelerations : get_d o opt.robot_max_acceleration
        ⊀ get_d o opt.robot_min_acceleration) where
    abbrev IsKept : Reader W S → Type 0
    IsKept x = IsDriven (controls x.robot)

    check_state-IsKept :
        (s : State) (f : Reader W S → Reader W S) (x : Reader W S)
        → (IsKept x → IsKept (f x))
        → IsKept x
        → IsKept (check_state_for_message o out st s f x)
    unfolding check_state_for_message
    check_state-IsKept s f x keeps k =
        if-holds IsKept (is_state st s || is_state st no_state) {t = f x} (keeps k) k

    set_option-IsKept : (n : ℤ) (x : Reader W S) → IsKept x → IsKept (set_option o out st n x)
    unfolding set_option on_send_signal on_signal on_use_non_blocking
    set_option-IsKept n x (acc, brk, reached, angles) =
        let (val, s) = inp.read_int x.buffer in
        let as_before : IsKept x = (acc, brk, reached, angles) in
        let sent = record x { robot = on_send_signal out val x.robot; buffer = s } in
        let level : Reader W S = record x {
          robot = record x.robot { send_rotation_reached = clamp_to_2 val };
          buffer = s;
        } in
        let signalled = record x { robot = on_signal out val x.robot; buffer = s } in
        let non_blocking = record x { robot = on_use_non_blocking val x.robot; buffer = s } in
        if-holds IsKept (eq_ℤ n (pos 0)) {t = sent} as_before (
          if-holds IsKept (eq_ℤ n (pos 1)) {t = level} (acc, brk, clamp_to_2_le val, angles)
            (if-holds IsKept (eq_ℤ n (pos 2)) {t = signalled} as_before (
              if-holds IsKept (eq_ℤ n (pos 3)) {t = non_blocking} {u = x}
                (on_same (on_use_non_blocking-same val x.robot) as_before) as_before)))

    rotation_message-IsKept :
        (m : RotationMessage) (x : Reader W S) → IsKept x → IsKept (rotation_message o out st m x)
    unfolding rotation_message
    rotation_message-IsKept m x (acc, brk, reached, angles) = (
      acc,
      brk,
      reached,
      get_rotation_message-IsLimited laws signs (max_rotate o) bounds m x.robot.angles x.buffer
          angles,
    )

    accelerate_message-IsKept : (x : Reader W S) → IsKept x → IsKept (accelerate_message o out st x)
    unfolding accelerate_message
    accelerate_message-IsKept x (acc, brk, reached, angles) =
        (clamped (dbl.read_double x.buffer).0 _ _ accelerations, brk, reached, angles)

    brake_message-IsKept : (x : Reader W S) → IsKept x → IsKept (brake_message o out st x)
    unfolding brake_message
    brake_message-IsKept x (acc, brk, reached, angles) = (
      acc,
      clamped (dbl.read_double x.buffer).0 (lit 0 0) (lit 1 0)
          (laws.lt_asymm (lit 0 0) (lit 1 0) (laws.lit_lt 0 1 (omega arith) (omega arith))),
      reached,
      angles,
    )

    shoot_message-IsKept : (x : Reader W S) → IsKept x → IsKept (shoot_message o out st x)
    unfolding shoot_message
    shoot_message-IsKept x k =
        let (wanted, s) = dbl.read_double x.buffer in
        let en = min_rtb wanted x.robot.shot_energy in
        let charged : Robot W = record x.robot { shot_energy = d.sub x.robot.shot_energy en } in
        let paid =
          change_energy o (d.mul (d.neg en) (get_shooting_penalty o out.robots_left)) charged in
        if-holds IsKept (d.lt en (get_d o opt.shot_min_energy)) {t = record x { buffer = s }}
          {u = record x { robot = paid; buffer = s }} k (on_same (change_energy-same _ charged) k)

    name_message-IsKept : (x : Reader W S) → IsKept x → IsKept (name_message o out st x)
    unfolding name_message
    name_message-IsKept x k = k

    colour_message-IsKept : (x : Reader W S) → IsKept x → IsKept (colour_message o out st x)
    unfolding colour_message
    colour_message-IsKept x k = k

    on_message-IsKept :
        (m : Option MessageFromRobot) (x : Reader W S) → IsKept x → IsKept (on_message o out st m x)
    unfolding on_message robot_option_message
    on_message-IsKept none x k = k
    on_message-IsKept (some robot_option) x k =
        let (n, s) = inp.read_int x.buffer in
        check_state-IsKept starting_robots (robot_option_message o out st) x
          (set_option-IsKept n (record x { buffer = s })) k
    on_message-IsKept (some name) x k =
        check_state-IsKept starting_robots (name_message o out st) x (name_message-IsKept x) k
    on_message-IsKept (some colour) x k =
        check_state-IsKept starting_robots (colour_message o out st) x (colour_message-IsKept x) k
    on_message-IsKept (some rotate) x k =
        check_state-IsKept game_in_progress (rotation_message o out st rotate_msg) x
          (rotation_message-IsKept rotate_msg x) k
    on_message-IsKept (some rotate_to) x k =
        check_state-IsKept game_in_progress (rotation_message o out st rotate_to_msg) x
          (rotation_message-IsKept rotate_to_msg x) k
    on_message-IsKept (some rotate_amount) x k =
        check_state-IsKept game_in_progress (rotation_message o out st rotate_amount_msg) x
          (rotation_message-IsKept rotate_amount_msg x) k
    on_message-IsKept (some sweep) x k =
        check_state-IsKept game_in_progress (rotation_message o out st sweep_msg) x
          (rotation_message-IsKept sweep_msg x) k
    on_message-IsKept (some accelerate) x k =
        check_state-IsKept game_in_progress (accelerate_message o out st) x
          (accelerate_message-IsKept x) k
    on_message-IsKept (some brake) x k =
        check_state-IsKept game_in_progress (brake_message o out st) x (brake_message-IsKept x) k
    on_message-IsKept (some break) x k =
        check_state-IsKept game_in_progress (brake_message o out st) x (brake_message-IsKept x) k
    on_message-IsKept (some shoot) x k =
        check_state-IsKept game_in_progress (shoot_message o out st) x (shoot_message-IsKept x) k
    on_message-IsKept (some print) x k = k
    on_message-IsKept (some debug) x k = k
    on_message-IsKept (some debug_line) x k =
        check_state-IsKept game_in_progress (λ y. y) x (λ q. q) k
    on_message-IsKept (some debug_circle) x k =
        check_state-IsKept game_in_progress (λ y. y) x (λ q. q) k

    -- Whatever a robot sends, in whatever state of the arena, and however far its messages have been
    -- read: its acceleration stays between the least and the greatest, its brake between 0 and 1, the
    -- level of notification at most 2, and its speeds of rotation within the greatest, if they were; if
    -- the limits are in their order and are numbers.
    pub get_messages-IsDriven :
        (rounds : ℕ) (x : Reader W S)
        → IsDriven (controls x.robot)
        → IsDriven (controls (get_messages o out st rounds x).robot)
    unfolding get_messages
    get_messages-IsDriven zero x k = k
    get_messages-IsDriven (suc rounds) x k =
        let (msg_name, s1) = inp.get_text 80 32 x.buffer in
        let x1 =
          on_message o out st (name2msg_from_robot_type msg_name)
            (record x { buffer = inp.skip_ws s1 }) in
        let kept =
          on_message-IsKept (name2msg_from_robot_type msg_name)
            (record x { buffer = inp.skip_ws s1 }) k in
        let next = record x1 { buffer = inp.skip_ws x1.buffer } in
        if-holds IsKept (inp.at_end x.buffer) {t = x} {u = get_messages o out st rounds next} k
          (get_messages-IsDriven rounds next kept)
