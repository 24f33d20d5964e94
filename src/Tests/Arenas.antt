-- ===== src/Tests/Arenas.antt =====
-- The theorems on the arena at concrete inputs.
use realtimebattle.Base.{
  ℕ, ◌≡◌, refl, ◌↔◌, get_elem?, replicate, ◌++◌, length, ◌==◌, if◌then◌else◌, true, false, [], ◌∷◌,
  some, none, arith,
}
use realtimebattle.Base.Int.{pos}
use realtimebattle.Double.Whole.{Whole, whole_double, Whole-IsOrdered, Whole-IsSigned}
use realtimebattle.Input.Tokens.{Tokens, token_input, token_doubles, text, Token}
use realtimebattle.Vector2D.{vec}
use realtimebattle.Options.{Options, OptionInfo, option_info, get_d, entry_double, environment}
use realtimebattle.Rotation.{set_rot, normal_rot}
use realtimebattle.Robot.{Robot}
use realtimebattle.Robot.{change_energy, bounce_on_wall, bounce_on_robot}
use realtimebattle.Robot.Vital.{IsVital, IsOutlived, collisions-IsVital}
use realtimebattle.Messages.{
  shoot, message_from_robot, name2msg_from_robot_type, Outside, Reader, get_messages,
}
use realtimebattle.Messages as messages
use realtimebattle.Messages.Names.{name2msg-roundtrip}
use realtimebattle.Messages.Limits.{IsDriven, controls, get_messages-IsDriven}
use realtimebattle.Arena.Scores.{scores, owed, scores-bury_all}
use realtimebattle.Arena.Pause.{pause_game_toggle-roundtrip}
use realtimebattle.Arena.{
  pause_game_toggle, game_in_progress, Arena, new_arena, set_game_mode, normal_mode, debug_mode,
  shutting_down_robots, returns, Result,
}
use realtimebattle.Arena.Games.{Tournament, bury_all, start_tournament}
use realtimebattle.Arena.Placing.{Host}
use realtimebattle.Arena.Ticks.{Calls, remove_dead, timeout_function}
use realtimebattle.Arena.Control.{control, IsConsistent}
use realtimebattle.Arena.Runs.{IsTournament}
use realtimebattle.Arena.Reach.{Reach, made, after, tournament, Reach-IsConsistent}
use realtimebattle.Arena.Order.{IfReturns}
use realtimebattle.Arena.Course.{Moves}
use realtimebattle.Arena.Refines.{ticked, cannot_begin, timeout_function-refines}

abbrev pub whole : ℕ → Whole
whole n = some (pos n)

abbrev pub options : Options Whole
options = record { all_double_options = []; all_long_options = []; all_string_options = [] }

-- No file can be opened, rand() is 0, and the timer stands still.
abbrev host : Host Whole Tokens
host = record {
  open_file = λ f. none;
  max_lines = 9;
  max_curve = 9;
  rand = λ n. 0;
  rand_max = 9;
  clock = λ n. whole 0;
  heard = λ r a. some (a.robots r);
  has_colour = λ r a. true;
}

abbrev pub robot : Robot Whole
robot =
    let still = set_rot (whole 0) (whole 0) (whole 0) (whole 0) normal_rot in
    record {
      id = 0;
      alive = false;
      dead_but_stats_not_set = false;
      has_competed = false;
      network_robot = false;
      process_running = true;
      name_given = true;
      send_usr_signal = false;
      signal_to_send = pos 0;
      send_rotation_reached = 0;
      use_non_blocking = true;
      colour_given = true;
      center = vec (whole 0) (whole 0);
      start_pos = vec (whole 0) (whole 0);
      start_angle = whole 0;
      velocity = vec (whole 0) (whole 0);
      radius = whole 1;
      energy = whole 9;
      shot_energy = whole 0;
      brake_percent = whole 0;
      acceleration = whole 0;
      angles = record { robot_angle = still; cannon_angle = still; radar_angle = still };
      position_this_game = pos 0;
      time_survived_in_sequence = whole 0;
      statistics = [];
    }

-- In the last sequence of a tournament of 2 sequences of 3 games, with two robots on one arena.
abbrev closing_arena : Arena Whole
closing_arena = record {
  state = shutting_down_robots;
  game_mode = normal_mode;
  game_nr = 3;
  games_per_sequence = 3;
  sequence_nr = 1;
  sequences_in_tournament = 2;
  number_of_robots = 2;
  robots_per_game = 2;
  robots_left = pos 0;
  halt_next = false;
  pause_after_next_game = false;
  debug_level = pos 0;
  current_arena_nr = 1;
  number_of_arenas = 1;
  arena_filenames = "/arenas/one.arena" ∷ [];
  robots_in_sequence = (1 ∷ 2 ∷ []) ∷ (1 ∷ 2 ∷ []) ∷ [];
  auto_start_and_end = false;
  timestep = whole 0;
  total_time = whole 7;
  current_timer = whole 0;
  next_check_time = whole 5;
  clock_reads = 0;
  rand_calls = 0;
  robots = λ p. robot;
  all_robots_in_tournament = 0 ∷ 1 ∷ [];
  all_robots_in_sequence = 0 ∷ 1 ∷ [];
  robots_on_arena = [];
  shots = [];
  cookies = [];
  mines = [];
  shot_count = 0;
  cookie_count = 0;
  mine_count = 0;
  plan = record {
    boundary0 = vec (whole 0) (whole 0);
    boundary1 = vec (whole 9) (whole 9);
    exclusion_points = [];
    walls = [];
    scale = whole 1;
    succession = 1;
    angle_factor = whole 1;
  };
}

abbrev two_sequences : Tournament
two_sequences = record {
  robotfilenames = "one" ∷ "two" ∷ [];
  arenafilenames = "/arenas/one.arena" ∷ [];
  robots_p_game = 2;
  games_p_sequence = 3;
  n_o_sequences = 2;
  table = (1 ∷ 2 ∷ []) ∷ (1 ∷ 2 ∷ []) ∷ [];
}

two_sequences-IsTournament : IsTournament two_sequences
two_sequences-IsTournament = record {
  some_game = omega arith;
  some_arena = omega arith;
  some_sequence = omega arith;
  some_robot = omega arith;
  a_row_each = refl;
  rows_of_robots = ground arith;
}

abbrev calls : Calls Whole
calls = record {
  motion = λ a. some (record {
    robots = a.robots;
    shots = a.shots;
    cookies = a.cookies;
    mines = a.mines;
    shot_count = a.shot_count;
    rand_calls = a.rand_calls;
  });
  said = λ a. some a.robots;
  checked = λ a. a.robots;
  tournament_file = some two_sequences;
}

abbrev or_else : Result (Arena Whole) → Arena Whole
or_else (returns b a) = a
or_else r = closing_arena

abbrev fresh : Arena Whole
fresh = set_game_mode (pos 2) debug_mode (new_arena closing_arena)

-- The arena is made in DEBUG_MODE, and a tournament is started.
abbrev begun_arena : Arena Whole
begun_arena = or_else (start_tournament host options two_sequences fresh)

begun_arena-Reach : Reach host options begun_arena
unfolding start_tournament
begun_arena-Reach =
    after (made (pos 2) debug_mode closing_arena)
      (tournament two_sequences two_sequences-IsTournament refl)

Reach-IsConsistent_example : IsConsistent (control begun_arena)
Reach-IsConsistent_example = Reach-IsConsistent host options begun_arena begun_arena-Reach

timeout_function-refines_example :
    IfReturns
      (λ b.
        Moves
          (cannot_begin host options calls
            (ticked host options closing_arena).state
            (ticked host options closing_arena))
          (control closing_arena)
          (control b))
      (timeout_function host options calls closing_arena)
timeout_function-refines_example =
    timeout_function-refines host options calls closing_arena
      (
        (
          (
            record {
              has_games = omega arith;
              has_arenas = omega arith;
              arenas_listed = refl;
              sequences_listed = refl;
              has_robots = omega arith;
              robots_listed = ground arith;
            },
            omega arith,
          ),
          refl,
        ),
        (omega arith, omega arith),
      )
      (λ e. ground (arith, e))

pause_game_toggle-roundtrip_example :
    pause_game_toggle (pause_game_toggle closing_arena) ≡ record closing_arena { halt_next = false }
pause_game_toggle-roundtrip_example = pause_game_toggle-roundtrip closing_arena

name2msg-roundtrip_example :
    (name2msg_from_robot_type "Shoot" ≡ some shoot)
    ↔ (get_elem? message_from_robot (messages.number shoot) ≡ some "Shoot")
name2msg-roundtrip_example = name2msg-roundtrip "Shoot" shoot

-- A robot that dies of a collision with a wall.
collisions-IsVital_example :
    (IsVital options (change_energy options (whole 3) robot)
      × IsOutlived robot (change_energy options (whole 3) robot))
    × (IsVital options (bounce_on_wall options (whole 1) (whole 1) (vec (whole 1) (whole 0)) robot)
        × IsOutlived robot
            (bounce_on_wall options (whole 1) (whole 1) (vec (whole 1) (whole 0)) robot))
    × (IsVital options (bounce_on_robot options robot robot (vec (whole 1) (whole 0))).0
        × IsOutlived robot (bounce_on_robot options robot robot (vec (whole 1) (whole 0))).0)
    × (IsVital options (bounce_on_robot options robot robot (vec (whole 1) (whole 0))).1
        × IsOutlived robot (bounce_on_robot options robot robot (vec (whole 1) (whole 0))).1)
collisions-IsVital_example =
    collisions-IsVital Whole-IsOrdered options (whole 3) (whole 1) (whole 1)
      (vec (whole 1) (whole 0)) robot robot

abbrev outside : Outside
outside = record { robots_left = pos 2; sigusr1 = pos 10; nsig = pos 65 }

abbrev five : OptionInfo Whole
five = option_info entry_double environment (whole 5) (whole 0) (whole 9) 5 false false "five"

-- Accelerations from 1 to 4, and speeds of rotation up to 5.
abbrev limits : Options Whole
limits = record options {
  all_double_options =
      replicate 4 five
      ++ (record five { value = whole 4 } ∷ record five { value = whole 1 } ∷ replicate 40 five);
}

-- "Accelerate 7", "Brake 3" and a text.
abbrev reader : Reader Whole Tokens
reader = record {
  robot = record robot { acceleration = whole 2 };
  buffer =
      text "Accelerate"
      ∷ Token.number (pos 7)
      ∷ text "Brake"
      ∷ Token.number (pos 3)
      ∷ text "Print"
      ∷ text "hello"
      ∷ [];
  instream = [];
}

get_messages-IsDriven_example :
    IsDriven Whole-IsOrdered Whole-IsSigned limits
      (controls (get_messages limits outside game_in_progress 3 reader).robot)
unfolding get_d messages.max_rotate
get_messages-IsDriven_example =
    get_messages-IsDriven Whole-IsOrdered Whole-IsSigned limits outside game_in_progress
      ((refl, refl), (refl, refl), (refl, refl)) refl 3 reader
      ((refl, refl), (refl, refl), omega arith, ((refl, refl), (refl, refl), (refl, refl)))

-- The first robot has just died, the second lives.
abbrev fought_arena : Arena Whole
fought_arena = record closing_arena {
  state = game_in_progress;
  robots_left = pos 2;
  robots_on_arena = 0 ∷ 1 ∷ [];
  robots = λ p.
      if p == 0
      then record robot { dead_but_stats_not_set = true }
      else record robot { alive = true };
}

scores-bury_all_example :
    (scores ((remove_dead fought_arena).robots 0) ≡ scores (fought_arena.robots 0))
    × (length ((bury_all fought_arena).robots 0).statistics ≡ scores (fought_arena.robots 0))
    × (owed ((bury_all fought_arena).robots 0) ≡ false)
scores-bury_all_example = scores-bury_all fought_arena 0 refl refl
