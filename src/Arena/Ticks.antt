-- ===== src/Arena/Ticks.antt =====
-- A tick of the arena: `timeout_function` of src/ArenaRealTime.cc with what it calls besides
-- `end_game` and its like, and what the control window of src/ControlWindow.cc asks for.
use realtimebattle.Base.{
  ℕ, ◌+◌, ◌-◌, Bool, true, false, not, ◌&&◌, ◌||◌, List, [], ◌∷◌, ◌++◌, Option, none, some, length,
  ltb, if◌then◌else◌,
}
use realtimebattle.Base.Int.{ℤ, pos, ltb_ℤ, ◌-ℤ◌}
use realtimebattle.Double.{Double}
use realtimebattle.Vector2D.{Vector2D}
use realtimebattle.Shapes.{circle}
use realtimebattle.Input.{Input, DoubleInput}
use realtimebattle.ObjectLists.{Item}
use realtimebattle.Options.{Options, DoubleOption, get_d}
use realtimebattle.Options as opt
use realtimebattle.Robot.{Robot, set_stats, die}
use realtimebattle.Arena.{
  State, no_state, not_started, starting_robots, game_in_progress, pausing_between_games, paused,
  before_game_start, shutting_down_robots, finished, exiting, is_state, competition_mode,
  is_game_mode, Arena, Extra, Result, returns, fatal, quits, wrong_state, bad_tournament_file,
  on_part, set_state, update_timer, game_of, for_each, at_pointer, pause_game_toggle,
  step_paused_game, interrupt_tournament, set_debug_level,
}
use realtimebattle.Arena.Games.{
  Tournament, then_do, regardless, start_game, end_game, start_sequence_follow_up,
  end_sequence_follow_up, start_tournament,
}
use realtimebattle.Arena.Placing.{Host, rand, rand_max, find_space}

-- What `read_robot_messages`, `move_shots` and the first loop of `update_robots` can change: the robots,
-- the shots and what they hit.
pub record Moved {ℓ} (W : Type ℓ) : Type ℓ where
  pub robots : ℕ → Robot W
  pub shots : List (Item W)
  pub cookies : List (Extra W)
  pub mines : List (Extra W)
  pub shot_count : ℕ
  pub rand_calls : ℕ

-- The parts of the server that a tick calls: the motion of the robots and shots and what robots say while they start or
-- shut down, `none` where they end in a fatal error; the check of the processes; and what the tournament file gives.
pub record Calls {ℓ} (W : Type ℓ) : Type ℓ where
  pub motion : Arena W → Option (Moved W)
  pub said : Arena W → Option (ℕ → Robot W)
  pub checked : Arena W → ℕ → Robot W
  pub tournament_file : Option Tournament

-- The buttons of the control window, for an arena that is there. `end_tournament` is asked twice.
pub data Button : Type 0 where
  pause step end_game_button end_tournament_button : Button
  kill_robot : ℕ → Button
  debug_level : ℤ → Button

module _ {ℓ} {W : Type ℓ} ⦃d : Double W⦄ where
  unfoldable pub still_alive : (ℕ → Robot W) → List ℕ → List ℕ
  still_alive robots [] = []
  still_alive robots (p ∷ ps) =
      let rest = still_alive robots ps in if (robots p).alive then p ∷ rest else rest

  -- `if( is_dead_but_stats_not_set() ) set_stats( robots_killed_this_round )`
  unfoldable pub bury : Arena W → ℕ → Robot W → Robot W
  unfolding set_stats
  bury a robots_killed_this_round r =
      if r.dead_but_stats_not_set
      then set_stats (game_of a) (pos robots_killed_this_round) false r
      else r

  -- `update_robots` from "Check if robots have died" on.
  unfoldable pub remove_dead : Arena W → Arena W
  unfolding still_alive bury ◌-ℤ◌
  remove_dead a =
      let alive = still_alive a.robots a.robots_on_arena in
      let killed = length a.robots_on_arena - length alive in
      let a1 = record a { robots_on_arena = alive; robots_left = a.robots_left -ℤ pos killed } in
      if ltb 0 killed
      then record a1 { robots = for_each (bury a1 killed) a1.all_robots_in_sequence a1.robots }
      else a1

  unfoldable pub halt_if_asked : Arena W → Arena W
  unfolding set_state
  halt_if_asked a = if a.halt_next then record (set_state paused a) { halt_next = false } else a

  unfoldable pub after_motion : Moved W → Arena W → Arena W
  after_motion m a = record a {
    robots = m.robots;
    shots = m.shots;
    cookies = m.cookies;
    mines = m.mines;
    shot_count = m.shot_count;
    rand_calls = m.rand_calls;
  }

  unfoldable pub update : Moved W → Arena W → Arena W
  unfolding remove_dead after_motion
  update m a = remove_dead (after_motion m a)

  abbrev extra : ℕ → Vector2D W → W → W → Extra W
  extra n p radius energy = record {
    item = record { address = n; id = n; shape = circle (record { center = p; radius = radius }) };
    energy = energy;
  }

  -- The ends of `add_cookie` and `add_mine`: a new one, if there is space for it.
  unfoldable pub put_cookie : W → W → Option (Vector2D W) × Arena W → Arena W
  put_cookie r en (none, a) = a
  put_cookie r en (some p, a) = record a {
    cookies = a.cookies ++ (extra a.cookie_count p r en ∷ []);
    cookie_count = a.cookie_count + 1;
  }

  unfoldable pub put_mine : W → W → Option (Vector2D W) × Arena W → Arena W
  put_mine r en (none, a) = a
  put_mine r en (some p, a) = record a {
    mines = a.mines ++ (extra a.mine_count p r en ∷ []);
    mine_count = a.mine_count + 1;
  }

module _ {ℓ κ} {W : Type ℓ} {S : Type κ} ⦃d : Double W⦄ ⦃inp : Input S⦄ ⦃dbl : DoubleInput W S⦄
    (h : Host W S) (o : Options W) where
  open d use {lit, add, sub, mul, div, lt, le}

  -- An energy between the two options, and a place for the radius.
  abbrev drawn_energy : DoubleOption → DoubleOption → Arena W → W
  drawn_energy least greatest a =
      add (get_d o least)
        (div (mul (sub (get_d o greatest) (get_d o least)) (rand h o a)) (rand_max h o))

  unfoldable pub add_cookie : Arena W → Arena W
  unfolding find_space put_cookie
  add_cookie a =
      let en = drawn_energy opt.cookie_min_energy opt.cookie_max_energy a in
      let r = get_d o opt.cookie_radius in
      put_cookie r en
        (find_space h o 100 (mul r (lit 2 0)) (record a { rand_calls = a.rand_calls + 1 }))

  unfoldable pub add_mine : Arena W → Arena W
  unfolding find_space put_mine
  add_mine a =
      let en = drawn_energy opt.mine_min_energy opt.mine_max_energy a in
      let r = get_d o opt.mine_radius in
      put_mine r en
        (find_space h o 100 (mul r (lit 2 0)) (record a { rand_calls = a.rand_calls + 1 }))

  -- `(double)rand() / (double)RAND_MAX <= timestep * frequency`, and what it decides.
  unfoldable pub sometimes : DoubleOption → (Arena W → Arena W) → Arena W → Arena W
  sometimes frequency f a =
      let a1 = record a { rand_calls = a.rand_calls + 1 } in
      if le (div (rand h o a) (rand_max h o)) (mul a.timestep (get_d o frequency)) then f a1 else a1

  unfoldable pub check_robots : Calls W → Arena W → Arena W
  check_robots c a = record a {
    robots = c.checked a;
    next_check_time = add a.total_time (get_d o opt.check_interval);
  }

  unfoldable pub check_in_time : Calls W → Arena W → Arena W
  unfolding check_robots
  check_in_time c a =
      if is_game_mode a.game_mode competition_mode && lt a.next_check_time a.total_time
      then check_robots c a
      else a

  unfoldable pub carry_on : Calls W → Arena W → Arena W
  unfolding check_in_time add_cookie add_mine sometimes halt_if_asked
  carry_on c a = halt_if_asked (
      sometimes opt.mine_frequency add_mine
        (sometimes opt.cookie_frequency add_cookie (check_in_time c a)))

  abbrev pub is_over : Arena W → Bool
  is_over a = not (ltb_ℤ (pos 1) a.robots_left) || lt (get_d o opt.timeout) a.total_time

  -- case GAME_IN_PROGRESS, after `update()`
  unfoldable pub go_on : Calls W → Arena W → Result (Arena W)
  unfolding end_game carry_on
  go_on c a = if is_over a then regardless (end_game h o a) else returns true (carry_on c a)

  -- "Error starting game sequence, ending tournament!"
  unfoldable pub give_up : Bool → Arena W → Result (Arena W)
  unfolding end_game
  give_up true a = returns true a
  give_up false a = regardless (
      end_game h o
        (record a { game_nr = a.games_per_sequence; sequence_nr = a.sequences_in_tournament }))

  unfoldable pub on_tournament_file : Arena W → Option Tournament → Result (Arena W)
  unfolding start_tournament
  on_tournament_file a none = fatal bad_tournament_file
  on_tournament_file a (some t) = regardless (start_tournament h o t a)

  -- The switch over the state.
  unfoldable pub act : Calls W → State → Arena W → Result (Arena W)
  unfolding on_tournament_file start_sequence_follow_up end_sequence_follow_up start_game update
      go_on give_up
  act c not_started a =
      if a.auto_start_and_end then on_tournament_file a c.tournament_file else returns true a
  act c finished a = if a.auto_start_and_end then quits a else returns true a
  act c starting_robots a = on_part (c.said a) (λ robots.
      let a1 = record a { robots = robots } in
      if lt a1.next_check_time a1.total_time
      then then_do (start_sequence_follow_up h o a1) give_up
      else returns true a1)
  act c shutting_down_robots a = on_part (c.said a) (λ robots.
      let a1 = record a { robots = robots } in
      if lt a1.next_check_time a1.total_time
      then regardless (end_sequence_follow_up h o a1)
      else returns true a1)
  act c game_in_progress a = on_part (c.motion a) (λ m. go_on c (update m a))
  act c paused a = returns true a
  act c pausing_between_games a =
      if not a.pause_after_next_game then regardless (start_game h o a) else returns true a
  act c exiting a = returns false a
  act c before_game_start a = fatal wrong_state
  act c no_state a = fatal wrong_state

  unfoldable pub timeout_function : Calls W → Arena W → Result (Arena W)
  unfolding act update_timer
  timeout_function c a =
      let a1 = if is_state a.state paused then a else update_timer o h.clock a in act c a1.state a1

  unfoldable pub press : Button → Arena W → Result (Arena W)
  unfolding pause_game_toggle step_paused_game interrupt_tournament set_debug_level end_game die
  press pause a = returns true (pause_game_toggle a)
  press step a = returns true (step_paused_game a)
  press end_game_button a =
      if not (is_state a.state not_started) && not (is_state a.state finished)
      then end_game h o a
      else returns true a
  press end_tournament_button a = returns true (interrupt_tournament a)
  press (kill_robot p) a =
      if is_state a.state game_in_progress || is_state a.state paused
      then returns true (record a { robots = at_pointer die p a.robots })
      else returns true a
  press (debug_level n) a = returns true (set_debug_level n a)
