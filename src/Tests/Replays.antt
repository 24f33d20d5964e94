-- ===== src/Tests/Replays.antt =====
-- The theorems on replays at concrete inputs, with whole numbers for the doubles.
use mathlib.Core.Option.{some-injective}
use mathlib.Core.Path.{subst}
use realtimebattle.Base.{ℕ, zero, suc, ◌+◌, ◌≡◌, refl, true, false, some, List, [], ◌∷◌, arith}
use realtimebattle.Base.Int.{pos, ◌+ℤ◌, ◌-ℤ◌, ◌*ℤ◌}
use realtimebattle.Double.{◌⊀◌}
use realtimebattle.Double.Whole.{Whole, whole_double}
use realtimebattle.Vector2D.{vec, ◌+ᵥ◌, ◌*ᵥ◌}
use realtimebattle.Replay.{
  shot, Piece, Player, logged, ObjectPosInfo, Replay, eq_id, find_piece, erase_piece, find_robot,
  find_object_in_log,
}
use realtimebattle.Replay.Lines.{
  robot_line, robot_dies, piece_dies, Posture, parsed, place_of, parse_log_line_forward,
  parse_log_line_rewind,
}
use realtimebattle.Replay.Undo.{Alike, IsUndoable, dies, rewind-forward}
use realtimebattle.Replay.Revived.{Revived, rewind-kill}
use realtimebattle.Replay.Positions.{
  max_time_infos, TimePosInfo, LogEvent, time_event, robot_event, next_game, steps_to,
  find_streampos_for_time, step_target, change_game, get_time_positions_in_game,
}
use realtimebattle.Replay.Positions.Search.{
  IsWithin, array, NotBelow, IsFirst, change_game-IsGame, find_streampos_for_time-IsFirst,
  step_target-first,
}
use realtimebattle.Replay.Positions.Times.{IsTaken, get_time_positions_in_game-IsTaken}
use realtimebattle.Tests.Arenas.{whole, options}

abbrev player : Player Whole
player = record {
  id = pos 4;
  alive = true;
  dead_but_stats_not_set = false;
  center = vec (whole 1) (whole 1);
  robot_angle = whole 0;
  cannon_angle = whole 0;
  radar_angle = whole 0;
  energy = whole 100;
  position_this_game = pos 0;
  time_survived_in_sequence = whole 0;
  statistics = [];
}

-- A shot that came at 1 and has moved since then.
abbrev flying : Piece Whole
flying = record { id = pos 5; center = vec (whole 6) (whole 0); velocity = vec (whole 3) (whole 0) }

abbrev note : ObjectPosInfo Whole
note = record {
  object = logged shot;
  id = pos 5;
  position = vec (whole 0) (whole 0);
  start_time = whole 1;
  end_time = whole 3;
  vel = vec (whole 3) (whole 0);
}

-- A robot and a shot at the time 3.
abbrev replay : Replay Whole
replay = record {
  current_replay_time = whole 3;
  log_from_stdin = false;
  sequence_nr = pos 1;
  game_nr = pos 1;
  robots_killed_this_round = pos 0;
  robots = λ p. player;
  robots_on_arena = 0 ∷ [];
  all_robots_in_tournament = 0 ∷ [];
  shots = flying ∷ [];
  cookies = [];
  mines = [];
  object_positions_in_log = note ∷ [];
}

flying-IsUndoable : IsUndoable options (piece_dies shot (pos 5)) replay
unfolding place_of find_piece erase_piece find_object_in_log eq_id ◌+ᵥ◌ ◌*ᵥ◌ ◌+ℤ◌ ◌-ℤ◌ ◌*ℤ◌
flying-IsUndoable = dies {info = note} refl refl refl refl

rewind-forward_example :
    (s t : Replay Whole) × (parse_log_line_forward options (piece_dies shot (pos 5)) replay
      ≡ parsed s)
    × (parse_log_line_rewind options (piece_dies shot (pos 5)) s ≡ parsed t)
    × Alike replay t
rewind-forward_example = rewind-forward options (piece_dies shot (pos 5)) replay flying-IsUndoable

abbrev posture : Posture Whole
posture = record {
  center = vec (whole 1) (whole 1);
  robot_angle = whole 0;
  cannon_angle = whole 0;
  radar_angle = whole 0;
  energy = whole 100;
}

player-found : find_robot replay.robots (pos 4) replay.robots_on_arena ≡ some 0
unfolding find_robot eq_id
player-found = refl

rewind-kill_example :
    (s t : Replay Whole) × (parse_log_line_forward options
        (robot_dies (pos 4) (whole 2) (pos 2))
        replay
      ≡ parsed s)
    × (parse_log_line_rewind options (robot_line (pos 4) posture) s ≡ parsed t)
    × (t.robots_killed_this_round ≡ pos 0)
    × Revived options posture (whole_double.add (whole 0) (whole 3)) (t.robots 0)
rewind-kill_example =
    rewind-kill options (pos 4) (whole 2) (pos 2) posture 0 replay player-found refl

-- From the last of five games one forward, in the first of two sequences.
next_page : change_game (pos 1) (pos 0) (pos 5) (pos 2) (pos 1) (pos 5) ≡ some (pos 2, pos 1)
unfolding change_game eq_id ◌+ℤ◌ ◌-ℤ◌
next_page = refl

change_game-IsGame_example : IsWithin (pos 2) (pos 2) × IsWithin (pos 5) (pos 1)
unfolding ◌+ℤ◌
change_game-IsGame_example =
    change_game-IsGame (pos 1) (pos 0) (pos 5) (pos 2) (pos 1) (pos 5) (omega arith) (omega arith)
      (omega arith) next_page

abbrev at_time : ℕ → TimePosInfo Whole
at_time n = record { position = pos (n + 9); time = whole n }

abbrev later : List (TimePosInfo Whole)
later = at_time 1 ∷ at_time 2 ∷ at_time 3 ∷ []

find_streampos_for_time-IsFirst_example :
    IsFirst
      (whole 1)
      later
      0
      (find_streampos_for_time (whole 1) (array (at_time 0 ∷ later) 9 (whole 0)))
find_streampos_for_time-IsFirst_example =
    find_streampos_for_time-IsFirst (whole 1) (at_time 0) later 9 (whole 0)
      (refl, (refl, (refl, tt)))

over : NotBelow (whole 3) (at_time 3 ∷ []) 1
over zero t h e = subst (λ (v : TimePosInfo Whole). whole 3 ⊀ v.time) (some-injective _ _ e) refl
over (suc j) t h e = cc

step_target-first_example :
    step_target (λ x. x) (pos 1) (whole 3) (array (at_time 0 ∷ at_time 3 ∷ []) 9 (whole 0))
    ≡ steps_to (at_time 0)
step_target-first_example =
    step_target-first (λ x. x) (whole 3) (at_time 0) (at_time 3 ∷ []) 9 (whole 0) refl (refl, tt)
      over

-- Two times and a robot.
abbrev game : List (LogEvent Whole)
game =
    time_event (pos 20) (whole 0)
    ∷ robot_event (pos 4) (vec (whole 1) (whole 1))
    ∷ time_event (pos 60) (whole 1)
    ∷ next_game
    ∷ []

get_time_positions_in_game-IsTaken_example :
    IsTaken
      (λ p. player)
      (0 ∷ [])
      []
      max_time_infos
      (whole_double.lit 0 0)
      game
      (get_time_positions_in_game options (λ x. x) (λ p. player) (0 ∷ []) (whole 0) [] game)
get_time_positions_in_game-IsTaken_example =
    get_time_positions_in_game-IsTaken options (λ x. x) (λ p. player) (0 ∷ []) (whole 0) [] game
