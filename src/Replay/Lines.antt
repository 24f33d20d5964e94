-- ===== src/Replay/Lines.antt =====
-- The lines R, S, M, C and D of a log, once they are read: parse_log_line_forward and
-- parse_log_line_rewind of src/ArenaReplay.cc.
use realtimebattle.Base.{ℕ, false, not, [], ◌∷◌, ◌++◌, none, some, if◌then◌else◌}
use realtimebattle.Base.Int.{ℤ, pos, ◌+ℤ◌, ◌-ℤ◌}
use realtimebattle.Double.{Double}
use realtimebattle.Vector2D.{Vector2D, ◌+ᵥ◌, ◌*ᵥ◌}
use realtimebattle.Options.{Options}
use realtimebattle.Replay.{
  Kind, shot, Piece, Player, logged, ObjectPosInfo, Replay, pieces, with_pieces, erase_piece,
  find_robot, find_object_in_log, change_player, live, die, set_stats, drop_energy,
}

-- Where a robot is, as a line R has it.
pub record Posture {ℓ} (W : Type ℓ) : Type ℓ where
  pub center : Vector2D W
  pub robot_angle : W
  pub cannon_angle : W
  pub radar_angle : W
  pub energy : W

-- Of a cookie or a mine the velocity is the null vector.
pub data LogLine {ℓ} (W : Type ℓ) : Type ℓ where
  robot_line : ℤ → Posture W → LogLine W
  new_line : Kind → ℤ → Vector2D W → Vector2D W → LogLine W
  robot_dies : ℤ → W → ℤ → LogLine W
  piece_dies : Kind → ℤ → LogLine W
  unknown_dies : ℤ → LogLine W

-- A fatal error, or a null pointer that is followed.
pub data Outcome {ℓ} (W : Type ℓ) : Type ℓ where
  parsed : Replay W → Outcome W
  robot_not_in_list dying_robot_not_in_list null_pointer : Outcome W

module _ {ℓ} {W : Type ℓ} where
  abbrev pub change_position : Posture W → Player W → Player W
  change_position at p = record p {
    center = at.center;
    robot_angle = at.robot_angle;
    cannon_angle = at.cannon_angle;
    radar_angle = at.radar_angle;
    energy = at.energy;
  }

  -- A new cookie, mine or shot at the end of its list.
  unfoldable pub put_piece : Kind → Piece W → Replay W → Replay W
  put_piece k p r = with_pieces k (pieces k r ++ (p ∷ [])) r

  -- What dies is taken off its list, if it is there.
  unfoldable pub drop_piece : Kind → ℤ → Replay W → Replay W
  unfolding erase_piece
  drop_piece k id r = with_pieces k (erase_piece id (pieces k r)) r

  -- The robot on the arena, or one of the tournament that comes onto it.
  unfoldable pub place_robot : ℤ → Posture W → Replay W → Outcome W
  unfolding find_robot live
  place_robot id at r =
      let placed =
        λ (p : ℕ) (s : Replay W). parsed (change_player (λ x. live (change_position at x)) p s) in
      elim (find_robot r.robots id r.robots_on_arena) [
        | some p ↦ placed p r
        | none ↦
            if not r.log_from_stdin
            then robot_not_in_list
            else elim (find_robot r.robots id r.all_robots_in_tournament) [
              | some p ↦ placed p (record r { robots_on_arena = r.robots_on_arena ++ (p ∷ []) })
              | none ↦ robot_not_in_list
            ]
      ]

module _ {ℓ} {W : Type ℓ} ⦃d : Double W⦄ (o : Options W) where
  open d use {lit, sub, lt}

  -- The robot that dies, if it is alive.
  unfoldable pub kill : W → ℤ → Replay W → Player W → Player W
  unfolding die set_stats drop_energy
  kill points_received pos_this_game r p = drop_energy o (
      set_stats r.sequence_nr r.game_nr points_received pos_this_game r.current_replay_time
        r.log_from_stdin (die p))

  unfoldable pub kill_robot : ℤ → W → ℤ → Replay W → Outcome W
  unfolding find_robot kill ◌+ℤ◌
  kill_robot id points_received pos_this_game r = elim (find_robot r.robots id r.robots_on_arena) [
    | none ↦ dying_robot_not_in_list
    | some p ↦ parsed (
        if (r.robots p).alive
        then record (change_player (kill points_received pos_this_game r) p r) {
          robots_killed_this_round = r.robots_killed_this_round +ℤ pos 1;
        }
        else r)
  ]

  unfoldable pub parse_log_line_forward : LogLine W → Replay W → Outcome W
  unfolding place_robot put_piece kill_robot drop_piece
  parse_log_line_forward (robot_line id at) r = place_robot id at r
  parse_log_line_forward (new_line k id center velocity) r =
      parsed (put_piece k (record { id = id; center = center; velocity = velocity }) r)
  parse_log_line_forward (robot_dies id points position) r = kill_robot id points position r
  parse_log_line_forward (piece_dies k id) r = parsed (drop_piece k id r)
  parse_log_line_forward (unknown_dies id) r = parsed r

  -- The robot that the line R shows lives, also if it was dead.
  unfoldable pub revive : Posture W → Replay W → Player W → Player W
  unfolding live set_stats
  revive at r p =
      let there = change_position at p in
      if p.alive
      then there
      else set_stats r.sequence_nr r.game_nr (lit 0 0) (pos 0) (lit 0 0) false (live there)

  unfoldable pub show_robot : ℤ → Posture W → Replay W → Outcome W
  unfolding find_robot revive ◌-ℤ◌
  show_robot id at r = elim (find_robot r.robots id r.robots_on_arena) [
    | none ↦ robot_not_in_list
    | some p ↦
        let shown = change_player (revive at r) p r in
        parsed (
          if (r.robots p).alive
          then shown
          else record shown { robots_killed_this_round = r.robots_killed_this_round -ℤ pos 1 })
  ]

  -- Where the piece of an entry is: shots have moved since they came.
  unfoldable pub place_of : Kind → ObjectPosInfo W → Replay W → Piece W
  unfolding ◌+ᵥ◌ ◌*ᵥ◌
  place_of shot info r = record {
    id = info.id;
    center = info.position +ᵥ info.vel *ᵥ sub r.current_replay_time info.start_time;
    velocity = info.vel;
  }
  place_of k info r = record { id = info.id; center = info.position; velocity = info.vel }

  -- What has died comes back, if it has lived for some time.
  unfoldable pub restore_piece : Kind → ℤ → Replay W → Outcome W
  unfolding find_object_in_log put_piece place_of
  restore_piece k id r = elim (find_object_in_log (logged k) id r.object_positions_in_log) [
    | none ↦ null_pointer
    | some info ↦
        parsed (if lt info.start_time info.end_time then put_piece k (place_of k info r) r else r)
  ]

  unfoldable pub parse_log_line_rewind : LogLine W → Replay W → Outcome W
  unfolding show_robot drop_piece restore_piece
  parse_log_line_rewind (robot_line id at) r = show_robot id at r
  parse_log_line_rewind (new_line k id center velocity) r = parsed (drop_piece k id r)
  parse_log_line_rewind (robot_dies id points position) r = parsed r
  parse_log_line_rewind (piece_dies k id) r = restore_piece k id r
  parse_log_line_rewind (unknown_dies id) r = parsed r
