-- ===== src/Motion/Shots.antt =====
-- The motion of shots: Shot::move, Shot::die and shot_collision of src/Shot.cc, and
-- ArenaBase::move_shots of src/ArenaBase.cc. What is sent to robots, written to the log and drawn is left out.
pub mod Listed
pub mod Stays
mod Flights
pub mod Alive
use realtimebattle.Base.{
  ℕ, ◌+◌, Bool, true, false, not, ◌||◌, List, [], ◌∷◌, Option, none, some, map, ◌==◌, if◌then◌else◌,
}
use realtimebattle.Double.{Double}
use realtimebattle.Vector2D.{Vector2D, ◌+ᵥ◌, ◌*ᵥ◌, ◌/ᵥ◌, dot, unit, length}
use realtimebattle.ObjectLists.{
  ObjectType, robot, shot, wall, cookie, mine, Item, Nearest, get_shortest_distance,
}
use realtimebattle.Options.{Options, get_d}
use realtimebattle.Options as opt
use realtimebattle.Robot.{change_energy}
use realtimebattle.Motion.{Shot, Field, lists_of, remove_shot, remove_extra, shot_at, change_robot}

-- How the move of a shot ends. It is lost if it has removed itself from the list, or has hit a shot that
-- is not on the list: the program reads freed memory then.
pub data Flight {ℓ} (W : Type ℓ) : Type ℓ where
  flown : Field W → Flight W
  unknown_object lost : Flight W

module _ {ℓ} {W : Type ℓ} where
  unfoldable pub shot_die : Shot W → Shot W
  shot_die s = if s.alive then record s { alive = false } else s

  -- The shot at an address, changed.
  abbrev pub put_shot : ℕ → Shot W → List (Shot W) → List (Shot W)
  put_shot a s' [] = []
  put_shot a s' (s ∷ ss) = if s.address == a then s' ∷ put_shot a s' ss else s ∷ put_shot a s' ss

  abbrev pub with_shot : ℕ → Shot W → Field W → Field W
  with_shot a s f = record f { shots = put_shot a s f.shots }

  abbrev pub addresses : List (Shot W) → List ℕ
  addresses [] = []
  addresses (s ∷ ss) = s.address ∷ addresses ss

module _ {ℓ} {W : Type ℓ} ⦃d : Double W⦄ (o : Options W) where
  open d use {lit, neg, add, mul, lt}

  -- The first shot of two that meet, and the number of shots.
  unfoldable pub shot_collision : Shot W → Vector2D W → W → ℕ → Shot W × ℕ
  unfolding ◌+ᵥ◌ ◌*ᵥ◌ ◌/ᵥ◌ dot unit length shot_die
  shot_collision s1 shot2_vel shot2_en count =
      let vel = (s1.velocity *ᵥ s1.energy +ᵥ shot2_vel *ᵥ shot2_en) /ᵥ add s1.energy shot2_en in
      let en = dot (unit s1.velocity *ᵥ s1.energy +ᵥ unit shot2_vel *ᵥ shot2_en) (unit vel) in
      if lt en (get_d o opt.shot_min_energy)
        || lt (length vel) (mul (get_d o opt.shot_speed) (lit 5 1))
      then (shot_die s1, count)
      else (record s1 { velocity = vel; energy = en; id = count }, count + 1)

  -- The other shot dies and leaves the list.
  unfoldable pub shots_meet : Shot W → Shot W → Field W → Field W
  unfolding shot_collision
  shots_meet s1 s2 f =
      let (s, count) = shot_collision s1 s2.velocity s2.energy f.shot_count in
      let g = with_shot s1.address s (record f { shot_count = count }) in
      record g { shots = remove_shot s2.address g.shots }

  unfoldable pub shot_hits : Shot W → ObjectType → Item W → Field W → Flight W
  unfolding shot_die shots_meet
  shot_hits s wall i f = flown (with_shot s.address (shot_die s) f)
  shot_hits s robot i f =
      let hurt = change_robot (change_energy o (neg s.energy)) i.address f in
      flown (with_shot s.address (shot_die s) hurt)
  shot_hits s shot i f = elim (shot_at i.address f.shots) [
    | none ↦ lost
    | some s2 ↦ if i.address == s.address then lost else flown (shots_meet s s2 f)
  ]
  shot_hits s cookie i f =
      let eaten = record f { cookies = remove_extra i.address f.cookies } in
      flown (with_shot s.address (shot_die s) eaten)
  shot_hits s mine i f =
      let gone = record f { mines = remove_extra i.address f.mines } in
      flown (with_shot s.address (shot_die s) gone)

  abbrev pub ahead_of_shot : Shot W → Field W → Nearest W
  ahead_of_shot s f = get_shortest_distance s.center s.velocity s.radius none (lists_of f)

  unfoldable pub move_shot : W → Shot W → Field W → Flight W
  unfolding ◌+ᵥ◌ ◌*ᵥ◌ shot_hits
  move_shot timestep s f =
      let n = ahead_of_shot s f in
      if lt timestep n.dist
      then flown (with_shot s.address (record s { center = s.center +ᵥ s.velocity *ᵥ timestep }) f)
      else elim n.closest_shape [
        | none ↦ unknown_object
        | some t ↦ elim n.colliding_object [ none ↦ unknown_object | some i ↦ shot_hits s t i f ]
      ]

  -- `erase` of a shot that is not alive.
  unfoldable pub erase_dead : ℕ → Field W → Field W
  erase_dead a f = elim (shot_at a f.shots) [
    | none ↦ f
    | some s ↦ if s.alive then f else record f { shots = remove_shot a f.shots }
  ]

  abbrev pub move_if_alive : W → Shot W → Field W → Flight W
  move_if_alive time_period s f = if s.alive then move_shot time_period s f else flown f

  -- The loop over the shots that were on the list; who has left it since is not met any more.
  unfoldable pub move_shots_from : W → List ℕ → Field W → Flight W
  unfolding move_shot erase_dead
  move_shots_from time_period [] f = flown f
  move_shots_from time_period (a ∷ rest) f = elim (shot_at a f.shots) [
    | none ↦ move_shots_from time_period rest f
    | some s ↦ elim (move_if_alive time_period s f) [
      | flown g ↦ move_shots_from time_period rest (erase_dead a g)
      | unknown_object ↦ unknown_object
      | lost ↦ lost
    ]
  ]

  unfoldable pub move_shots : W → Field W → Flight W
  unfolding move_shots_from
  move_shots time_period f = move_shots_from time_period (addresses f.shots) f
