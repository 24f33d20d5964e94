-- ===== src/Motion/Shooting.antt =====
-- What SHOOT does once its energy is read: get_messages of src/Robot.cc, the constructor of Shot in
-- src/Shot.cc and get_shooting_penalty of src/ArenaBase.cc. What is sent and written to the log is left
-- out.
mod Hits
pub mod Fired
use realtimebattle.Base.{
  ℕ, ◌+◌, Bool, true, false, not, List, [], ◌∷◌, ◌++◌, Option, none, some, if◌then◌else◌,
}
use realtimebattle.Base.Int.{ℤ}
use realtimebattle.Double.{Double, min_rtb}
use realtimebattle.Vector2D.{Vector2D, ◌+ᵥ◌, ◌*ᵥ◌, angle2vec}
use realtimebattle.ObjectLists.{
  ObjectType, robot, shot, wall, cookie, mine, Item, Nearest, get_shortest_distance,
  space_available,
}
use realtimebattle.Options.{Options, get_d}
use realtimebattle.Options as opt
use realtimebattle.Robot.{Robot, change_energy}
use realtimebattle.Motion.{Shot, Field, lists_of, remove_extra, shot_at, change_robot}
use realtimebattle.Motion.Shots.{Flight, flown, unknown_object, lost, with_shot, shot_collision}

module _ {ℓ} {W : Type ℓ} ⦃d : Double W⦄ (o : Options W) where
  open d use {lit, of_int, neg, add, sub, mul, div, lt}

  unfoldable pub get_shooting_penalty : ℤ → W
  get_shooting_penalty robots_left =
      min_rtb (get_d o opt.shooting_penalty) (div (lit 5 1) (of_int robots_left))

  -- `new Shot`. Shots are never given back, so no other shot has its address: the number that it is
  -- counted with stands for it.
  abbrev pub new_shot : Vector2D W → Vector2D W → W → ℕ → Shot W
  new_shot c vel en shot_count = record {
    address = shot_count;
    id = shot_count;
    center = c;
    velocity = vel;
    radius = get_d o opt.shot_radius;
    energy = en;
    alive = true;
  }

  abbrev pub barrel : Robot W → Vector2D W
  barrel r = angle2vec (add r.angles.cannon_angle.position r.angles.robot_angle.position)

  abbrev pub shot_center : Robot W → Vector2D W
  shot_center r = r.center +ᵥ barrel r *ᵥ add r.radius (mul (lit 15 1) (get_d o opt.shot_radius))

  abbrev pub shot_vel : Robot W → Vector2D W
  shot_vel r = r.velocity +ᵥ barrel r *ᵥ get_d o opt.shot_speed

  abbrev pub shot_margin : W
  shot_margin = mul (get_d o opt.shot_radius) (lit 100001 5)

  -- The search along the barrel.
  abbrev pub ahead_of_barrel : ℕ → Field W → Nearest W
  ahead_of_barrel p f =
      let r = f.robots p in
      get_shortest_distance r.center (barrel r) shot_margin (some p) (lists_of f)

  -- The switch where there is no space for the shot.
  unfoldable pub direct_hit : Vector2D W → W → ObjectType → Item W → Field W → Flight W
  unfolding shot_collision
  direct_hit vel en wall i f = flown f
  direct_hit vel en robot i f = flown (change_robot (change_energy o (neg en)) i.address f)
  direct_hit vel en shot i f = elim (shot_at i.address f.shots) [
    | none ↦ lost
    | some s ↦
        let (s', count) = shot_collision o s vel en f.shot_count in
        flown (with_shot i.address s' (record f { shot_count = count }))
  ]
  direct_hit vel en cookie i f = flown (record f { cookies = remove_extra i.address f.cookies })
  direct_hit vel en mine i f = flown (record f { mines = remove_extra i.address f.mines })

  unfoldable pub hit_ahead : ℕ → W → Field W → Flight W
  unfolding direct_hit ◌+ᵥ◌ ◌*ᵥ◌ angle2vec
  hit_ahead p en f = elim (ahead_of_barrel p f).closest_shape [
    | none ↦ unknown_object
    | some t ↦ elim (ahead_of_barrel p f).colliding_object [
      | none ↦ unknown_object
      | some i ↦ direct_hit (shot_vel (f.robots p)) en t i f
    ]
  ]

  -- The shot leaves the barrel, or hits what is ahead.
  unfoldable pub fire : List (Vector2D W) → ℕ → W → Field W → Flight W
  unfolding hit_ahead
  fire exclusion_points p en f =
      let r = f.robots p in
      if space_available (lists_of f) exclusion_points (shot_center r) shot_margin
      then flown (record f {
        shots = f.shots ++ (new_shot (shot_center r) (shot_vel r) en f.shot_count ∷ []);
        shot_count = f.shot_count + 1;
      })
      else hit_ahead p en f

  abbrev pub use_shot_energy : W → ℕ → Field W → Field W
  use_shot_energy en p f = change_robot (λ r. record r { shot_energy = sub r.shot_energy en }) p f

  -- `change_energy` by the penalty, if there has been no error.
  abbrev pub penalize : ℤ → W → ℕ → Flight W → Flight W
  penalize robots_left en p (flown f) =
      flown (change_robot (change_energy o (mul (neg en) (get_shooting_penalty robots_left))) p f)
  penalize robots_left en p unknown_object = unknown_object
  penalize robots_left en p lost = lost

  abbrev pub energy_of_firing : Robot W → W → W
  energy_of_firing r wanted = min_rtb wanted r.shot_energy

  unfoldable pub fire_shot : ℤ → List (Vector2D W) → ℕ → W → Field W → Flight W
  unfolding fire get_shooting_penalty
  fire_shot robots_left exclusion_points p wanted f =
      let en = energy_of_firing (f.robots p) wanted in
      if lt en (get_d o opt.shot_min_energy)
      then flown f
      else penalize robots_left en p (fire exclusion_points p en (use_shot_energy en p f))
