-- ===== src/Motion.antt =====
-- The motion of robots: Robot::move of src/Robot.cc, with what a robot runs into. What is sent to robots
-- and written to the log is left out.
mod Ahead
pub mod Ends
pub mod Kept
pub mod Shots
pub mod Shooting
pub mod Rounds
use realtimebattle.Base.{
  ℕ, zero, suc, ◌+◌, Bool, true, false, not, ◌&&◌, List, [], ◌∷◌, Option, none, some, map,
  get_elem?, ltb, ◌==◌, if◌then◌else◌,
}
use realtimebattle.Double.{Double, max_rtb}
use realtimebattle.Vector2D.{Vector2D, ◌+ᵥ◌, ◌*ᵥ◌}
use realtimebattle.Shapes.{Shape, Circle, circle, get_normal}
use realtimebattle.ObjectLists.{
  ObjectType, robot, shot, wall, cookie, mine, Item, ObjectLists, Nearest, get_shortest_distance,
}
use realtimebattle.ArenaFile.{Wall}
use realtimebattle.Options.{Options}
use realtimebattle.Robot.{Robot, change_energy, bounce_on_wall, bounce_on_robot}
use realtimebattle.Arena.{Extra, at_pointer}

pub record Shot {ℓ} (W : Type ℓ) : Type ℓ where
  pub address : ℕ
  pub id : ℕ
  pub center : Vector2D W
  pub velocity : Vector2D W
  pub radius : W
  pub energy : W
  pub alive : Bool

-- What moves and what it may run into: the object lists, and the robots that the pointers lead to.
pub record Field {ℓ} (W : Type ℓ) : Type ℓ where
  pub robots : ℕ → Robot W
  pub robots_on_arena : List ℕ
  pub shots : List (Shot W)
  pub walls : List (Wall W)
  pub cookies : List (Extra W)
  pub mines : List (Extra W)
  pub shot_count : ℕ

module _ {ℓ} {W : Type ℓ} where
  abbrev robot_item : (ℕ → Robot W) → ℕ → Item W
  robot_item robots p = record {
    address = p;
    id = (robots p).id;
    shape = circle (record { center = (robots p).center; radius = (robots p).radius });
  }

  abbrev shot_item : Shot W → Item W
  shot_item s = record {
    address = s.address;
    id = s.id;
    shape = circle (record { center = s.center; radius = s.radius });
  }

  -- The address of a wall is its place in the list.
  abbrev wall_items : ℕ → List (Wall W) → List (Item W)
  wall_items n [] = []
  wall_items n (w ∷ ws) = record { address = n; id = 0; shape = w.shape } ∷ wall_items (n + 1) ws

  abbrev pub lists_of : Field W → ObjectLists W
  lists_of f = record {
    robots = map (robot_item f.robots) f.robots_on_arena;
    shots = map shot_item f.shots;
    walls = wall_items 0 f.walls;
    cookies = map (λ c. c.item) f.cookies;
    mines = map (λ m. m.item) f.mines;
  }

  -- `list::remove` of a pointer.
  abbrev pub remove_shot : ℕ → List (Shot W) → List (Shot W)
  remove_shot a [] = []
  remove_shot a (s ∷ ss) = if s.address == a then remove_shot a ss else s ∷ remove_shot a ss

  abbrev pub remove_extra : ℕ → List (Extra W) → List (Extra W)
  remove_extra a [] = []
  remove_extra a (e ∷ es) = if e.item.address == a then remove_extra a es else e ∷ remove_extra a es

  abbrev pub shot_at : ℕ → List (Shot W) → Option (Shot W)
  shot_at a [] = none
  shot_at a (s ∷ ss) = if s.address == a then some s else shot_at a ss

  abbrev extra_at : ℕ → List (Extra W) → Option (Extra W)
  extra_at a [] = none
  extra_at a (e ∷ es) = if e.item.address == a then some e else extra_at a es

  abbrev pub change_robot : (Robot W → Robot W) → ℕ → Field W → Field W
  change_robot g p f = record f { robots = at_pointer g p f.robots }

-- How a move ends: with the field after it, with one of its two fatal errors, or not within the fuel.
pub data Motion {ℓ} (W : Type ℓ) : Type ℓ where
  moved : Field W → Motion W
  unknown_object too_many_bounces no_end : Motion W

module _ {ℓ} {W : Type ℓ} ⦃d : Double W⦄ (o : Options W) where
  open d use {lit, neg, add, sub, mul, div, lt}

  -- `center += time*velocity`
  unfoldable pub advance : W → Robot W → Robot W
  unfolding ◌+ᵥ◌ ◌*ᵥ◌
  advance time r = record r { center = r.center +ᵥ r.velocity *ᵥ time }

  abbrev bounce_off : Option (Wall W) → Vector2D W → Robot W → Robot W
  bounce_off none normal r = r
  bounce_off (some w) normal r = bounce_on_wall o w.bounce_coeff w.hardness_coeff normal r

  abbrev pub energy_of_shot : Option (Shot W) → W
  energy_of_shot none = lit 0 0
  energy_of_shot (some s) = s.energy

  abbrev energy_of_extra : Option (Extra W) → W
  energy_of_extra none = lit 0 0
  energy_of_extra (some e) = e.energy

  unfoldable pub hit_wall : W → ℕ → Item W → Field W → Field W
  unfolding ◌+ᵥ◌ ◌*ᵥ◌
  hit_wall eps p i f =
      let normal = get_normal i.shape (f.robots p).center in
      let bounced = change_robot (bounce_off (get_elem? f.walls i.address) normal) p f in
      change_robot (λ r. record r { center = r.center +ᵥ normal *ᵥ eps }) p bounced

  unfoldable pub hit_robot : ℕ → Item W → Field W → Field W
  hit_robot p i f =
      let normal = get_normal i.shape (f.robots p).center in
      let (robot1, robot2) = bounce_on_robot o (f.robots p) (f.robots i.address) normal in
      change_robot (λ r. robot2) i.address (change_robot (λ r. robot1) p f)

  unfoldable pub hit_shot : ℕ → Item W → Field W → Field W
  hit_shot p i f =
      let en = neg (energy_of_shot (shot_at i.address f.shots)) in
      record (change_robot (change_energy o en) p f) { shots = remove_shot i.address f.shots }

  unfoldable pub hit_cookie : ℕ → Item W → Field W → Field W
  hit_cookie p i f =
      let en = energy_of_extra (extra_at i.address f.cookies) in
      record (change_robot (change_energy o en) p f) { cookies = remove_extra i.address f.cookies }

  unfoldable pub hit_mine : ℕ → Item W → Field W → Field W
  hit_mine p i f =
      let en = neg (energy_of_extra (extra_at i.address f.mines)) in
      record (change_robot (change_energy o en) p f) { mines = remove_extra i.address f.mines }

  -- The switch, with the time that remains.
  unfoldable pub hit : ObjectType → W → W → ℕ → Item W → Field W → Field W × W
  unfolding hit_wall hit_robot hit_shot hit_cookie hit_mine
  hit wall eps remaining p i f = (hit_wall eps p i f, remaining)
  hit robot eps remaining p i f = (hit_robot p i f, lit 0 0)
  hit shot eps remaining p i f = (hit_shot p i f, remaining)
  hit cookie eps remaining p i f = (hit_cookie p i f, remaining)
  hit mine eps remaining p i f = (hit_mine p i f, remaining)

  -- The time until the robot runs into something, which is not below eps after ten bounces.
  abbrev pub time_to_collision : ℕ → W → W → W
  time_to_collision iterstep eps dist = if ltb 10 iterstep then max_rtb dist eps else dist

  -- What the robot at p runs into first.
  abbrev pub ahead : ℕ → Field W → Nearest W
  ahead p f =
      let r = f.robots p in get_shortest_distance r.center r.velocity r.radius (some p) (lists_of f)

  -- After the switch; `more` is the call of the function for the time that remains.
  abbrev pub go_on : ℕ → ℕ → Field W × W → Motion W → Motion W
  go_on iterstep p (f, remaining) more =
      if ltb 65 iterstep
      then too_many_bounces
      else if (f.robots p).alive && lt (lit 0 0) remaining
      then more
      else moved f

  unfoldable pub move : ℕ → W → ℕ → W → ℕ → Field W → Motion W
  unfolding advance hit
  move zero timestep iterstep eps p f = no_end
  move (suc fuel) timestep iterstep eps p f =
      let n = ahead p f in
      if lt timestep n.dist
      then moved (change_robot (advance timestep) p f)
      else elim n.closest_shape [
        | none ↦ unknown_object
        | some t ↦ elim n.colliding_object [
          | none ↦ unknown_object
          | some i ↦
              let time = time_to_collision iterstep eps n.dist in
              let after = hit t eps (sub timestep time) p i (change_robot (advance time) p f) in
              let more = move fuel after.1 (iterstep + 1) eps p after.0 in
              go_on iterstep p after more
        ]
      ]

  unfoldable pub move_robot : W → ℕ → Field W → Motion W
  unfolding move
  move_robot timestep p f = move 66 timestep 1 (div timestep (lit 50 0)) p f
