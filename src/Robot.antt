-- ===== src/Robot.antt =====
-- A robot on the arena: the members of `Robot` and `stat_t` that the games change, and the operations
-- of src/Robot.cc on its life, its energy, its statistics and its velocity. What a robot is sent is
-- not modelled.
pub mod Vital
use realtimebattle.Base.{
  ℕ, Bool, true, false, not, ◌&&◌, ◌||◌, List, [], ◌∷◌, ◌++◌, if◌then◌else◌, ltb,
}
use realtimebattle.Base.Int.{ℤ, pos, ◌+ℤ◌, ◌-ℤ◌, ◌*ℤ◌}
use realtimebattle.Double.{Double, min_rtb, max_rtb, infinity_rtb}
use realtimebattle.Vector2D.{
  Vector2D, vec, ◌+ᵥ◌, ◌-ᵥ◌, ◌*ᵥ◌, negate, dot, vedge, lengthsqr, angle2vec, rotate90, unit,
}
use realtimebattle.Rotation.{Angles, set_rot, normal_rot, minus_infinity}
use realtimebattle.Options.{Options, get_d}
use realtimebattle.Options as opt

-- `stat_t`
pub record Stat {ℓ} (W : Type ℓ) : Type ℓ where
  pub sequence_nr : ℕ
  pub game_nr : ℕ
  pub position : ℤ
  pub points : W
  pub time_survived : W
  pub total_points : W

pub record Robot {ℓ} (W : Type ℓ) : Type ℓ where
  pub id : ℕ
  pub alive : Bool
  pub dead_but_stats_not_set : Bool
  pub has_competed : Bool
  pub network_robot : Bool
  pub process_running : Bool
  pub name_given : Bool
  pub send_usr_signal : Bool
  pub signal_to_send : ℤ
  pub send_rotation_reached : ℕ
  pub use_non_blocking : Bool
  pub colour_given : Bool
  pub center : Vector2D W
  pub start_pos : Vector2D W
  pub start_angle : W
  pub velocity : Vector2D W
  pub radius : W
  pub energy : W
  pub shot_energy : W
  pub brake_percent : W
  pub acceleration : W
  pub angles : Angles W
  pub position_this_game : ℤ
  pub time_survived_in_sequence : W
  pub statistics : List (Stat W)

-- What `set_stats` and `get_total_points` ask `the_arena` for.
pub record Game {ℓ} (W : Type ℓ) : Type ℓ where
  pub sequence_nr : ℕ
  pub game_nr : ℕ
  pub robots_per_game : ℕ
  pub robots_left : ℤ
  pub total_time : W

module _ {ℓ} {W : Type ℓ} where
  unfoldable pub live : Robot W → Robot W
  live r = record r { alive = true; dead_but_stats_not_set = false }

  unfoldable pub die : Robot W → Robot W
  die r = if r.alive then record r { alive = false; dead_but_stats_not_set = true } else r

  unfoldable pub kill_process_forcefully : Robot W → Robot W
  kill_process_forcefully r = record r { process_running = false }

  abbrev is_empty : List (Stat W) → Bool
  is_empty [] = true
  is_empty (s ∷ ss) = false

  abbrev pub last_total : W → List (Stat W) → W
  last_total t [] = t
  last_total t (s ∷ ss) = last_total s.total_points ss

module _ {ℓ} {W : Type ℓ} ⦃d : Double W⦄ where
  open d use {lit, of_int, neg, add, sub, mul, div, cos, lt, le}

  -- Without the cpu limits, the messages and the colour.
  unfoldable pub set_values_at_process_start_up : Robot W → Robot W
  set_values_at_process_start_up r =
      let first = is_empty r.statistics in
      record r {
        process_running = true;
        time_survived_in_sequence = lit 0 0;
        colour_given = if first then false else r.colour_given;
        name_given = if first then false else r.name_given;
      }

  -- The points of a robot that dies with `adjust` others, as they are counted.
  unfoldable pub points_for : Game W → ℤ → W
  unfolding ◌-ℤ◌
  points_for g adjust =
      sub (of_int (pos g.robots_per_game -ℤ g.robots_left)) (mul (of_int adjust) (lit 5 1))

  -- In a real game: the last total, and what is sure already if the robot lives.
  unfoldable pub get_total_points : Game W → Robot W → W
  unfolding ◌-ℤ◌
  get_total_points g r =
      let total_pnts = last_total (lit 0 0) r.statistics in
      if r.alive
      then add total_pnts (of_int (pos g.robots_per_game -ℤ g.robots_left))
      else total_pnts

  unfoldable pub set_stats : Game W → ℤ → Bool → Robot W → Robot W
  unfolding get_total_points points_for ◌+ℤ◌ ◌-ℤ◌ ◌*ℤ◌
  set_stats g robots_killed_same_time timeout r =
      let one_less = robots_killed_same_time -ℤ pos 1 in
      let adjust = if timeout then one_less *ℤ pos 2 else one_less in
      let position = g.robots_left +ℤ pos 1 in
      let points = points_for g adjust in
      record r {
        dead_but_stats_not_set = false;
        position_this_game = position;
        time_survived_in_sequence = add r.time_survived_in_sequence g.total_time;
        statistics =
            r.statistics
            ++ (record {
              sequence_nr = g.sequence_nr;
              game_nr = g.game_nr;
              position = position;
              points = points;
              time_survived = g.total_time;
              total_points = add (get_total_points g r) points;
            }
                ∷ []);
      }

module _ {ℓ} {W : Type ℓ} ⦃d : Double W⦄ (o : Options W) where
  open d use {lit, neg, add, sub, mul, cos, lt, le}

  unfoldable pub change_energy : W → Robot W → Robot W
  unfolding die
  change_energy energy_diff r =
      let e = min_rtb (add r.energy energy_diff) (get_d o opt.robot_max_energy) in
      let r' = record r { energy = e } in if le e (lit 0 0) then die r' else r'

  unfoldable pub set_values_before_game : Vector2D W → W → Robot W → Robot W
  set_values_before_game p angle r =
      let straight = set_rot (lit 0 0) (lit 0 0) minus_infinity infinity_rtb normal_rot in
      record r {
        center = p;
        start_pos = p;
        start_angle = angle;
        angles = record {
          robot_angle = set_rot angle (lit 0 0) minus_infinity infinity_rtb normal_rot;
          cannon_angle = straight;
          radar_angle = straight;
        };
        shot_energy = lit 0 0;
        radius = get_d o opt.robot_radius;
        energy = get_d o opt.robot_start_energy;
        velocity = vec (lit 0 0) (lit 0 0);
        position_this_game = pos 0;
        brake_percent = lit 0 0;
        acceleration = lit 0 0;
      }

  -- The four terms of the new velocity: the air, the engine, rolling along and sliding across.
  unfoldable pub change_velocity : W → Robot W → Robot W
  unfolding ◌+ᵥ◌ ◌*ᵥ◌ negate dot vedge angle2vec rotate90
  change_velocity timestep r =
      let dir = angle2vec r.angles.robot_angle.position in
      let gt = mul (get_d o opt.grav_const) timestep in
      let slide = get_d o opt.slide_friction in
      let fric =
        add (mul (get_d o opt.roll_friction) (sub (lit 1 0) r.brake_percent))
          (mul slide r.brake_percent) in
      record r {
        velocity =
            negate r.velocity *ᵥ min_rtb (mul (get_d o opt.air_resistance) timestep) (lit 5 1)
            +ᵥ dir *ᵥ mul timestep r.acceleration
            +ᵥ dir *ᵥ mul (dot r.velocity dir) (max_rtb (lit 0 0) (sub (lit 1 0) (mul gt fric)))
            +ᵥ rotate90 dir
              *ᵥ mul (vedge dir r.velocity) (max_rtb (lit 0 0) (sub (lit 1 0) (mul gt slide)));
      }

  -- Hardness, bounce coefficient and protection: of the front, if the front is hit.
  pub record Armour : Type ℓ where
    pub hardness : W
    pub bounce : W
    pub protection : W

  unfoldable pub armour : Bool → Armour
  armour true = record {
    hardness = get_d o opt.robot_front_hardness;
    bounce = get_d o opt.robot_front_bounce_coeff;
    protection = get_d o opt.robot_front_protection;
  }
  armour false = record {
    hardness = get_d o opt.robot_hardness;
    bounce = get_d o opt.robot_bounce_coeff;
    protection = get_d o opt.robot_protection;
  }

  -- `x > cos(frontsize * 0.5)`
  abbrev is_front : W → Bool
  is_front x = lt (cos (mul (get_d o opt.robot_frontsize) (lit 5 1))) x

  -- The energy that a change of velocity costs, by the hardness of both, e and p.
  unfoldable pub injury : Vector2D W → W → W → W → W
  unfolding lengthsqr
  injury change hardness e p =
      let en_diff = mul (mul (lit 5 1) (get_d o opt.robot_mass)) (lengthsqr change) in
      mul (mul (mul (mul en_diff (lit 5 1)) hardness) (sub (lit 1 0) e)) (sub (lit 1 0) p)

  -- The new velocity, and what it costs.
  unfoldable pub injured : Vector2D W → W → W → W → Robot W → Robot W
  unfolding injury change_energy ◌-ᵥ◌
  injured velocity hardness e p r =
      change_energy (neg (injury (r.velocity -ᵥ velocity) hardness e p))
        (record r { velocity = velocity })

  unfoldable pub bounce_on_wall : W → W → Vector2D W → Robot W → Robot W
  unfolding armour injured ◌-ᵥ◌ ◌*ᵥ◌ dot angle2vec
  bounce_on_wall bounce_c hardness_c normal r =
      let a = armour (is_front (neg (dot normal (angle2vec r.angles.robot_angle.position)))) in
      let e = mul a.bounce bounce_c in
      let velocity = r.velocity -ᵥ normal *ᵥ mul (add (lit 1 0) e) (dot normal r.velocity) in
      injured velocity (add a.hardness hardness_c) e a.protection r

  unfoldable pub bounce_on_robot : Robot W → Robot W → Vector2D W → Robot W × Robot W
  unfolding armour injured ◌+ᵥ◌ ◌-ᵥ◌ ◌*ᵥ◌ dot angle2vec unit
  bounce_on_robot robot1 robot2 normal =
      let dir1_2 = unit (robot2.center -ᵥ robot1.center) in
      let a1 = armour (is_front (dot dir1_2 (angle2vec robot1.angles.robot_angle.position))) in
      let a2 =
        armour (is_front (neg (dot dir1_2 (angle2vec robot2.angles.robot_angle.position)))) in
      let e = mul a1.bounce a2.bounce in
      let tmp =
        normal
        *ᵥ mul (d.div (add (lit 1 0) e) (lit 2 0))
            (dot (robot2.velocity -ᵥ robot1.velocity) normal) in
      let hardness = add a1.hardness a2.hardness in
      (
        injured (robot1.velocity +ᵥ tmp) hardness e a1.protection robot1,
        injured (robot2.velocity -ᵥ tmp) hardness e a2.protection robot2,
      )
