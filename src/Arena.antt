-- ===== src/Arena.antt =====
-- The arena: the members of `ArenaBase` and `ArenaRealTime` that control a tournament, and the
-- operations of src/ArenaBase.cc on them. A pointer to a robot is a number, and `robots` is what the
-- pointers point to; the lists of robots are lists of pointers.
pub mod Placing
pub mod Games
pub mod Ticks
pub mod Control
pub mod Consistent
pub mod Kept
pub mod Runs
pub mod Reach
pub mod Pause
pub mod Scores
pub mod Order
pub mod Course
pub mod Refines
use Prim.Native.String.{String}
use realtimebattle.Base.{
  ℕ, ◌+◌, Bool, true, false, not, ◌&&◌, ◌||◌, List, [], ◌∷◌, Option, none, some, map, ◌==◌,
  if◌then◌else◌,
}
use realtimebattle.Base.Int.{ℤ, pos, negsuc, pos_part, neg_part, ltb_ℤ}
use realtimebattle.Double.{Double, min_rtb, max_rtb}
use realtimebattle.Shapes.{Shape, circle}
use realtimebattle.ObjectLists.{Item, ObjectLists}
use realtimebattle.ArenaFile.{Plan, Wall}
use realtimebattle.Options.{Options, get_d}
use realtimebattle.Options as opt
use realtimebattle.Robot.{Robot, Game, kill_process_forcefully}

-- `state_t` and `game_mode_t`
pub data State : Type 0 where
  no_state not_started starting_robots game_in_progress pausing_between_games : State
  paused before_game_start shutting_down_robots finished exiting : State

pub data GameMode : Type 0 where
  debug_mode normal_mode competition_mode : GameMode

abbrev pub is_state : State → State → Bool
is_state no_state no_state = true
is_state not_started not_started = true
is_state starting_robots starting_robots = true
is_state game_in_progress game_in_progress = true
is_state pausing_between_games pausing_between_games = true
is_state paused paused = true
is_state before_game_start before_game_start = true
is_state shutting_down_robots shutting_down_robots = true
is_state finished finished = true
is_state exiting exiting = true
is_state _ _ = false

abbrev pub is_game_mode : GameMode → GameMode → Bool
is_game_mode debug_mode debug_mode = true
is_game_mode normal_mode normal_mode = true
is_game_mode competition_mode competition_mode = true
is_game_mode _ _ = false

-- A cookie or a mine, with its energy.
pub record Extra {ℓ} (W : Type ℓ) : Type ℓ where
  pub item : Item W
  pub energy : W

-- `clock_reads` and `rand_calls` count the calls of `timer.get()` and `rand()`; `auto_start_and_end` is
-- the controller's.
pub record Arena {ℓ} (W : Type ℓ) : Type ℓ where
  pub state : State
  pub game_mode : GameMode
  pub game_nr : ℕ
  pub games_per_sequence : ℕ
  pub sequence_nr : ℕ
  pub sequences_in_tournament : ℕ
  pub number_of_robots : ℕ
  pub robots_per_game : ℕ
  pub robots_left : ℤ
  pub halt_next : Bool
  pub pause_after_next_game : Bool
  pub debug_level : ℤ
  pub current_arena_nr : ℕ
  pub number_of_arenas : ℕ
  pub arena_filenames : List String
  pub robots_in_sequence : List (List ℕ)
  pub auto_start_and_end : Bool
  pub timestep : W
  pub total_time : W
  pub current_timer : W
  pub next_check_time : W
  pub clock_reads : ℕ
  pub rand_calls : ℕ
  pub robots : ℕ → Robot W
  pub all_robots_in_tournament : List ℕ
  pub all_robots_in_sequence : List ℕ
  pub robots_on_arena : List ℕ
  pub shots : List (Item W)
  pub cookies : List (Extra W)
  pub mines : List (Extra W)
  pub shot_count : ℕ
  pub cookie_count : ℕ
  pub mine_count : ℕ
  pub plan : Plan W

-- What a call of the program's own code may end in: it returns, the process exits (by `Error(true, ...)`
-- or a fault of the machine, or in good order), or it reads a file for ever.
pub data Fault : Type 0 where
  no_such_element wrong_state division_by_zero out_of_bounds : Fault
  bad_tournament_file : Fault
  -- that of a part which is a parameter: reading messages, finding a colour, or the motion
  of_part : Fault

pub data Result {ℓ} (A : Type ℓ) : Type ℓ where
  returns : Bool → A → Result A
  fatal : Fault → Result A
  quits : A → Result A
  endless : Result A

-- What follows a part, which may have ended the program.
abbrev pub on_part {ℓ κ} : {A : Type ℓ} {B : Type κ} → Option A → (A → Result B) → Result B
on_part none f = fatal of_part
on_part (some a) f = f a

-- The game as the robots see it.
abbrev pub game_of {ℓ} : {W : Type ℓ} → Arena W → Game W
game_of a = record {
  sequence_nr = a.sequence_nr;
  game_nr = a.game_nr;
  robots_per_game = a.robots_per_game;
  robots_left = a.robots_left;
  total_time = a.total_time;
}

abbrev robot_item {ℓ} : {W : Type ℓ} → (ℕ → Robot W) → ℕ → Item W
robot_item robots p = record {
  address = p;
  id = (robots p).id;
  shape = circle (record { center = (robots p).center; radius = (robots p).radius });
}

abbrev wall_item {ℓ} : {W : Type ℓ} → Wall W → Item W
wall_item w = record { address = 0; id = 0; shape = w.shape }

-- `object_lists`, as the searches read it.
abbrev pub object_lists {ℓ} : {W : Type ℓ} → Arena W → ObjectLists W
object_lists a = record {
  robots = map (robot_item a.robots) a.robots_on_arena;
  shots = a.shots;
  walls = map wall_item a.plan.walls;
  cookies = map (λ c. c.item) a.cookies;
  mines = map (λ m. m.item) a.mines;
}

-- `for` over a list of robots, where the body changes only its own robot.
abbrev pub at_pointer {ℓ} : {W : Type ℓ} → (Robot W → Robot W) → ℕ → (ℕ → Robot W) → ℕ → Robot W
at_pointer f p robots q = if q == p then f (robots q) else robots q

abbrev pub for_each {ℓ} : {W : Type ℓ} → (Robot W → Robot W) → List ℕ → (ℕ → Robot W) → ℕ → Robot W
for_each f [] robots = robots
for_each f (p ∷ ps) robots = for_each f ps (at_pointer f p robots)

abbrev pub max_debug_level : ℤ
max_debug_level = pos 5

abbrev pub eq_ℤ : ℤ → ℤ → Bool
eq_ℤ a b = pos_part a == pos_part b && neg_part a == neg_part b

module _ {ℓ} {W : Type ℓ} where
  -- `ArenaBase()` in place of what the memory held, without the timer.
  unfoldable pub new_arena : Arena W → Arena W
  new_arena a = record a {
    state = not_started;
    game_mode = normal_mode;
    sequence_nr = 0;
    sequences_in_tournament = 0;
    game_nr = 0;
    games_per_sequence = 0;
    halt_next = false;
    pause_after_next_game = false;
    debug_level = pos 0;
  }

  unfoldable pub set_state : State → Arena W → Arena W
  set_state st a = record a { state = st }

  -- With `del_robot_obj_list = true`, its default.
  unfoldable pub delete_lists : Bool → Bool → Bool → Bool → Arena W → Arena W
  unfolding kill_process_forcefully
  delete_lists kill_robots del_seq_list del_tourn_list del_arena_filename_list a = record a {
    robots_on_arena = [];
    shots = [];
    cookies = [];
    mines = [];
    plan = record a.plan { walls = []; exclusion_points = [] };
    robots =
        if del_seq_list && kill_robots
        then for_each kill_process_forcefully a.all_robots_in_sequence a.robots
        else a.robots;
    all_robots_in_sequence = if del_seq_list then [] else a.all_robots_in_sequence;
    all_robots_in_tournament = if del_tourn_list then [] else a.all_robots_in_tournament;
    arena_filenames = if del_arena_filename_list then [] else a.arena_filenames;
  }

  unfoldable pub interrupt_tournament : Arena W → Arena W
  unfolding delete_lists set_state
  interrupt_tournament a =
      if is_state a.state game_in_progress
        || (is_state a.state paused || is_state a.state pausing_between_games)
      then set_state finished
          (delete_lists true true false true (record a { auto_start_and_end = false }))
      else a

  unfoldable pub set_debug_level : ℤ → Arena W → Arena W
  set_debug_level new_level a =
      if ltb_ℤ max_debug_level new_level
        || (ltb_ℤ new_level (pos 0) || eq_ℤ new_level a.debug_level)
      then a
      else record a { debug_level = new_level }

  -- The level is the controller's.
  unfoldable pub set_game_mode : ℤ → GameMode → Arena W → Arena W
  unfolding set_debug_level
  set_game_mode controller_level gm a0 =
      let a = record a0 { game_mode = gm } in
      if is_game_mode gm debug_mode
      then if eq_ℤ a.debug_level (pos 0) then set_debug_level controller_level a else a
      else record a { debug_level = pos 0 }

  unfoldable pub pause_game_toggle : Arena W → Arena W
  unfolding set_state
  pause_game_toggle a =
      if not (is_game_mode a.game_mode competition_mode)
      then (let a' =
            if is_state a.state game_in_progress
            then set_state paused a
            else if is_state a.state paused
            then set_state game_in_progress a
            else a in
          record a' { halt_next = false })
      else set_state a.state (record a { pause_after_next_game = not a.pause_after_next_game })

  unfoldable pub step_paused_game : Arena W → Arena W
  unfolding set_state
  step_paused_game a =
      if is_game_mode a.game_mode debug_mode && is_state a.state paused
      then set_state game_in_progress (record a { halt_next = true })
      else a

module _ {ℓ} {W : Type ℓ} ⦃d : Double W⦄ (o : Options W) where
  open d use {lit, of_int, add, sub, mul, div}

  unfoldable pub get_shooting_penalty : Arena W → W
  get_shooting_penalty a =
      min_rtb (get_d o opt.shooting_penalty) (div (lit 5 1) (of_int a.robots_left))

  -- The values that `timer.get()` returns, in order; the factor is 1.
  module _ (clock : ℕ → W) where
    unfoldable pub update_timer : Arena W → Arena W
    update_timer a =
        let now = clock a.clock_reads in
        let timescale =
          if is_state a.state game_in_progress then get_d o opt.timescale else lit 1 0 in
        let step = min_rtb (mul (sub now a.current_timer) timescale) (get_d o opt.max_timestep) in
        record a {
          clock_reads = a.clock_reads + 1;
          current_timer = now;
          timestep = step;
          total_time = max_rtb (add a.total_time (mul step (lit 1 0))) (lit 0 0);
        }

    unfoldable pub reset_timer : Arena W → Arena W
    unfolding update_timer
    reset_timer a = update_timer (record a { total_time = lit 0 0; current_timer = lit 0 0 })
