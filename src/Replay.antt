-- ===== src/Replay.antt =====
-- A replay: the state of src/ArenaReplay.cc and include/ArenaReplay.h that the lines of a log change, and
-- the searches through its lists. The ids are those that the log gives. A pointer to a robot is a number,
-- and the replay has a function from numbers to robots. What is drawn and printed is left out.
pub mod Lines
mod Pieces
pub mod Undo
pub mod Positions
pub mod Revived
use realtimebattle.Base.{
  ℕ, ◌+◌, Bool, true, false, ◌&&◌, List, [], ◌∷◌, ◌++◌, Option, none, some, ◌==◌, if◌then◌else◌,
}
use realtimebattle.Base.Int.{ℤ, pos, negsuc}
use realtimebattle.Double.{Double, min_rtb}
use realtimebattle.Vector2D.{Vector2D}
use realtimebattle.Options.{Options, get_d}
use realtimebattle.Options as opt

-- The lists of `object_lists` that the lines of a log fill.
pub data Kind : Type 0 where
  shot cookie mine : Kind

-- A shot, a cookie or a mine. Only shots have a velocity.
pub record Piece {ℓ} (W : Type ℓ) : Type ℓ where
  pub id : ℤ
  pub center : Vector2D W
  pub velocity : Vector2D W

-- `stat_t`
pub record Score {ℓ} (W : Type ℓ) : Type ℓ where
  pub sequence_nr : ℤ
  pub game_nr : ℤ
  pub position : ℤ
  pub points : W
  pub time_survived : W
  pub total_points : W

-- The members of a robot that a replay changes.
pub record Player {ℓ} (W : Type ℓ) : Type ℓ where
  pub id : ℤ
  pub alive : Bool
  pub dead_but_stats_not_set : Bool
  pub center : Vector2D W
  pub robot_angle : W
  pub cannon_angle : W
  pub radar_angle : W
  pub energy : W
  pub position_this_game : ℤ
  pub time_survived_in_sequence : W
  pub statistics : List (Score W)

-- What an entry of `object_positions_in_log` is about.
pub data Logged : Type 0 where
  logged_robot : Logged
  logged : Kind → Logged

-- `object_pos_info_t`
pub record ObjectPosInfo {ℓ} (W : Type ℓ) : Type ℓ where
  pub object : Logged
  pub id : ℤ
  pub position : Vector2D W
  pub start_time : W
  pub end_time : W
  pub vel : Vector2D W

pub record Replay {ℓ} (W : Type ℓ) : Type ℓ where
  pub current_replay_time : W
  pub log_from_stdin : Bool
  pub sequence_nr : ℤ
  pub game_nr : ℤ
  pub robots_killed_this_round : ℤ
  pub robots : ℕ → Player W
  pub robots_on_arena : List ℕ
  pub all_robots_in_tournament : List ℕ
  pub shots : List (Piece W)
  pub cookies : List (Piece W)
  pub mines : List (Piece W)
  pub object_positions_in_log : List (ObjectPosInfo W)

-- `==` of two `int`.
unfoldable pub eq_id : ℤ → ℤ → Bool
eq_id (pos a) (pos b) = a == b
eq_id (negsuc a) (negsuc b) = a == b
eq_id _ _ = false

abbrev pub is_kind : Kind → Kind → Bool
is_kind shot shot = true
is_kind cookie cookie = true
is_kind mine mine = true
is_kind _ _ = false

abbrev pub is_logged : Logged → Logged → Bool
is_logged logged_robot logged_robot = true
is_logged (logged k) (logged l) = is_kind k l
is_logged _ _ = false

module _ {ℓ} {W : Type ℓ} where
  abbrev pub pieces : Kind → Replay W → List (Piece W)
  pieces shot r = r.shots
  pieces cookie r = r.cookies
  pieces mine r = r.mines

  abbrev pub with_pieces : Kind → List (Piece W) → Replay W → Replay W
  with_pieces shot ps r = record r { shots = ps }
  with_pieces cookie ps r = record r { cookies = ps }
  with_pieces mine ps r = record r { mines = ps }

  -- `find_object_by_id` on the three lists.
  unfoldable pub find_piece : ℤ → List (Piece W) → Option (Piece W)
  unfolding eq_id
  find_piece obj_id [] = none
  find_piece obj_id (p ∷ ps) = if eq_id p.id obj_id then some p else find_piece obj_id ps

  -- `find_object_by_id`, and `erase` of what it finds.
  unfoldable pub erase_piece : ℤ → List (Piece W) → List (Piece W)
  unfolding eq_id
  erase_piece obj_id [] = []
  erase_piece obj_id (p ∷ ps) = if eq_id p.id obj_id then ps else p ∷ erase_piece obj_id ps

  -- `find_object_by_id` on the lists of robots.
  unfoldable pub find_robot : (ℕ → Player W) → ℤ → List ℕ → Option ℕ
  unfolding eq_id
  find_robot robots obj_id [] = none
  find_robot robots obj_id (p ∷ ps) =
      if eq_id (robots p).id obj_id then some p else find_robot robots obj_id ps

  unfoldable pub find_object_in_log : Logged → ℤ → List (ObjectPosInfo W) → Option (ObjectPosInfo W)
  unfolding eq_id
  find_object_in_log object id [] = none
  find_object_in_log object id (i ∷ is) =
      if is_logged object i.object && eq_id id i.id then some i else find_object_in_log object id is

  -- A pointer's robot, changed.
  abbrev pub at_robot : (Player W → Player W) → ℕ → (ℕ → Player W) → ℕ → Player W
  at_robot f p robots q = if q == p then f (robots q) else robots q

  abbrev pub change_player : (Player W → Player W) → ℕ → Replay W → Replay W
  change_player f p r = record r { robots = at_robot f p r.robots }

  unfoldable pub live : Player W → Player W
  live p = record p { alive = true; dead_but_stats_not_set = false }

  unfoldable pub die : Player W → Player W
  die p = if p.alive then record p { alive = false; dead_but_stats_not_set = true } else p

  abbrev last_total : W → List (Score W) → W
  last_total t [] = t
  last_total t (s ∷ ss) = last_total s.total_points ss

module _ {ℓ} {W : Type ℓ} ⦃d : Double W⦄ where
  open d use {lit, neg, add, le}

  -- `set_stats` of a replay, with the numbers of the sequence and the game.
  unfoldable pub set_stats : ℤ → ℤ → W → ℤ → W → Bool → Player W → Player W
  set_stats sequence_nr game_nr pnts position time_survived make_stats p =
      let stat : Score W = record {
        sequence_nr = sequence_nr;
        game_nr = game_nr;
        position = position;
        points = pnts;
        time_survived = time_survived;
        total_points = add (last_total (lit 0 0) p.statistics) pnts;
      } in
      record p {
        position_this_game = position;
        time_survived_in_sequence = add p.time_survived_in_sequence time_survived;
        statistics = if make_stats then p.statistics ++ (stat ∷ []) else p.statistics;
      }

  -- `change_energy( -get_energy() )`
  unfoldable pub drop_energy : Options W → Player W → Player W
  unfolding die
  drop_energy o p =
      let e = min_rtb (add p.energy (neg p.energy)) (get_d o opt.robot_max_energy) in
      let p' = record p { energy = e } in if le e (lit 0 0) then die p' else p'
