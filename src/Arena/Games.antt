-- ===== src/Arena/Games.antt =====
-- Games, sequences and the tournament, from start to end: `start_game` to `end_tournament` of
-- src/ArenaRealTime.cc. What is sent to robots and to the log is left out.
use Prim.Native.String.{String}
use text.Mathlib.Text.{find?}
use realtimebattle.Base.{
  ℕ, ◌+◌, ◌-◌, ◌%◌, Bool, true, false, not, ◌&&◌, ◌||◌, List, [], ◌∷◌, ◌++◌, Option, none, some,
  get_elem?, length, ◌==◌, if◌then◌else◌,
}
use realtimebattle.Base.Int.{pos, ◌-ℤ◌}
use realtimebattle.Double.{Double}
use realtimebattle.Vector2D.{vec}
use realtimebattle.Input.{Input, DoubleInput}
use realtimebattle.ArenaFile.{Parsed}
use realtimebattle.ArenaFile.Lines.{parse_arena_file}
use realtimebattle.Options.{Options, get_d, get_l}
use realtimebattle.Options as opt
use realtimebattle.Robot.{
  Robot, die, set_stats, set_values_at_process_start_up, kill_process_forcefully,
}
use realtimebattle.Arena.{
  Arena, Result, returns, fatal, endless, of_part, starting_robots, game_in_progress,
  pausing_between_games, before_game_start, shutting_down_robots, finished, not_started, set_state,
  delete_lists, reset_timer, game_of, for_each, at_pointer, no_such_element, division_by_zero,
  out_of_bounds,
}
use realtimebattle.Arena.Placing.{Host, place_robots}

-- What `start_tournament` is given, with the table that it makes for `robots_in_sequence`.
pub record Tournament : Type 0 where
  pub robotfilenames : List String
  pub arenafilenames : List String
  pub robots_p_game : ℕ
  pub games_p_sequence : ℕ
  pub n_o_sequences : ℕ
  pub table : List (List ℕ)

abbrev pub then_do {ℓ} : {A : Type ℓ} → Result A → (Bool → A → Result A) → Result A
then_do (returns b a) f = f b a
then_do (fatal e) f = fatal e
then_do (Result.quits a) f = Result.quits a
then_do endless f = endless

-- The value that is returned is not looked at.
abbrev pub regardless {ℓ} : {A : Type ℓ} → Result A → Result A
regardless r = then_do r (λ ok a. returns true a)

-- The loop through `all_robots_in_tournament` for a number that counts from 1.
unfoldable pub nth_robot : List ℕ → ℕ → Option ℕ
nth_robot robots nr = get_elem? robots (nr - 1)

abbrev cons_some : ℕ → Option (List ℕ) → Option (List ℕ)
cons_some p none = none
cons_some p (some ps) = some (p ∷ ps)

abbrev cons_both : Option ℕ → Option (List ℕ) → Option (List ℕ)
cons_both none rest = none
cons_both (some p) rest = cons_some p rest

unfoldable pub pick_robots : List ℕ → List ℕ → Option (List ℕ)
unfolding nth_robot
pick_robots robots [] = some []
pick_robots robots (nr ∷ nrs) = cons_both (nth_robot robots nr) (pick_robots robots nrs)

abbrev pub has_slash : String → Bool
has_slash filename = elim (find? filename "/") [ none ↦ false | some i ↦ true ]

unfoldable pub addresses : ℕ → List String → List ℕ
addresses n [] = []
addresses n (f ∷ fs) = n ∷ addresses (n + 1) fs

module _ {ℓ} {W : Type ℓ} ⦃d : Double W⦄ where
  -- The robot of `end_game`'s loop: who lives dies now, and who has no statistics yet gets them.
  unfoldable pub end_for : Arena W → Arena W → Robot W → Robot W
  unfolding die set_stats
  end_for before after r =
      if r.alive || r.dead_but_stats_not_set
      then set_stats (game_of after) before.robots_left true (die r)
      else r

  -- `end_game` until it decides what comes next.
  unfoldable pub bury_all : Arena W → Arena W
  unfolding end_for delete_lists
  bury_all a =
      let a1 = record a { robots_left = pos 0 } in
      delete_lists false false false false
        (record a1 { robots = for_each (end_for a a1) a1.all_robots_in_sequence a1.robots })

  unfoldable pub end_tournament : Arena W → Arena W
  unfolding set_state
  end_tournament a = set_state finished a

  -- `new Robot(filename)` for the n-th file, as far as it is modelled, at the address n.
  unfoldable pub enter_robots : ℕ → List String → (ℕ → Robot W) → ℕ → Robot W
  enter_robots n [] robots = robots
  enter_robots n (f ∷ fs) robots = enter_robots (n + 1) fs (
      at_pointer
        (λ r. record r {
          id = n;
          alive = false;
          dead_but_stats_not_set = false;
          has_competed = false;
          network_robot = false;
          process_running = false;
          velocity = vec (d.lit 0 0) (d.lit 0 0);
          acceleration = d.lit 0 0;
          statistics = [];
        })
        n robots)

  -- `start_tournament` until the first sequence, after `clear()`.
  unfoldable pub set_up : Tournament → Arena W → Arena W
  unfolding delete_lists enter_robots addresses set_state
  set_up t a =
      let a1 = set_state not_started (record (delete_lists true true true true a) {
        sequence_nr = 0;
        sequences_in_tournament = 0;
      }) in
      record a1 {
        number_of_robots = length t.robotfilenames;
        robots = enter_robots 0 t.robotfilenames a1.robots;
        all_robots_in_tournament = a1.all_robots_in_tournament ++ addresses 0 t.robotfilenames;
        arena_filenames = a1.arena_filenames ++ t.arenafilenames;
        number_of_arenas = length t.arenafilenames;
        robots_per_game = t.robots_p_game;
        games_per_sequence = t.games_p_sequence;
        sequences_in_tournament = t.n_o_sequences;
        robots_in_sequence = t.table;
        sequence_nr = 0;
      }

  -- Which robots of the sequence have a process, or come over the network.
  unfoldable pub started : (ℕ → Robot W) → List ℕ → List ℕ
  started robots [] = []
  started robots (p ∷ ps) =
      let rest = started robots ps in
      if not (robots p).network_robot && not (robots p).process_running then rest else p ∷ rest

  -- Who has started. Which colour a robot gets is not modelled.
  unfoldable pub roll_call : Arena W → Arena W
  unfolding started ◌-ℤ◌
  roll_call a =
      let seq = started a.robots a.all_robots_in_sequence in
      record a {
        all_robots_in_sequence = seq;
        robots_left = a.robots_left -ℤ pos (length a.all_robots_in_sequence - length seq);
        robots = for_each (λ r. record r { has_competed = true; colour_given = true }) seq a.robots;
      }

  -- "check if the process have stopped, otherwise kill"
  unfoldable pub stop_processes : Arena W → Arena W
  unfolding kill_process_forcefully
  stop_processes a = record a {
    robots =
        for_each (λ r. if r.process_running then kill_process_forcefully r else r)
          a.all_robots_in_sequence a.robots;
    all_robots_in_sequence = [];
  }

module _ {ℓ κ} {W : Type ℓ} {S : Type κ} ⦃d : Double W⦄ ⦃inp : Input S⦄ ⦃dbl : DoubleInput W S⦄
    (h : Host W S) (o : Options W) where
  open d use {lit, pi, of_int, add, sub, mul, div}

  -- The robots stand on the arena. Their move by 0.0 only logs where they are.
  unfoldable pub begin_game : Bool × Arena W → Result (Arena W)
  unfolding reset_timer set_state
  begin_game (false, a) = returns false a
  begin_game (true, a) =
      let a1 = set_state game_in_progress a in
      let a2 = reset_timer o h.clock (record a1 { game_nr = a1.game_nr + 1 }) in
      returns true (record a2 { next_check_time = add a2.total_time (get_d o opt.check_interval) })

  -- After the robots have been placed.
  abbrev pub then_begin : Result (Arena W) → Result (Arena W)
  then_begin r = then_do r (λ ok a. begin_game (ok, a))

  unfoldable pub on_parsed : String → Arena W → Option (Parsed W S) → Result (Arena W)
  unfolding begin_game place_robots set_state
  on_parsed filename a none = endless
  on_parsed filename a (some r) =
      let a1 = record a { plan = r.plan } in
      if not r.ok || not (has_slash filename)
      then returns false a1
      else then_begin (
          place_robots h o a1.all_robots_in_sequence (
            set_state before_game_start (record a1 {
              shot_count = 0;
              cookie_count = 0;
              mine_count = 0;
              robots_left = pos 0;
            })))

  unfoldable pub on_file : String → Arena W → Option S → Result (Arena W)
  unfolding on_parsed
  on_file filename a none = returns false a
  on_file filename a (some s) =
      on_parsed filename a
        (parse_arena_file h.max_lines h.max_curve (get_d o opt.arena_scale) a.plan s)

  unfoldable pub on_filename : Arena W → Option String → Result (Arena W)
  unfolding on_file
  on_filename a none = fatal no_such_element
  on_filename a (some filename) = on_file filename a (h.open_file filename)

  unfoldable pub start_game : Arena W → Result (Arena W)
  unfolding on_filename set_state
  start_game a =
      if a.pause_after_next_game
      then returns true (set_state pausing_between_games a)
      else if a.number_of_arenas == 0
      then fatal division_by_zero
      else (let nr = a.current_arena_nr % a.number_of_arenas + 1 in
          on_filename (record a { current_arena_nr = nr }) (get_elem? a.arena_filenames (nr - 1)))

  unfoldable pub end_sequence : Arena W → Arena W
  unfolding set_state
  end_sequence a = record (set_state shutting_down_robots a) {
    next_check_time = add a.total_time (lit 1 0);
  }

  unfoldable pub end_game : Arena W → Result (Arena W)
  unfolding bury_all end_sequence start_game
  end_game a =
      let a2 = bury_all a in
      if a2.game_nr == a2.games_per_sequence then returns true (end_sequence a2) else start_game a2

  -- The robots of the row are started, all of them at once.
  unfoldable pub launch : Arena W → Option (List ℕ) → Result (Arena W)
  unfolding set_values_at_process_start_up reset_timer set_state
  launch a none = fatal no_such_element
  launch a (some picked) =
      let seq = a.all_robots_in_sequence ++ picked in
      let a1 = set_state starting_robots (record a {
        all_robots_in_sequence = seq;
        robots = for_each set_values_at_process_start_up seq a.robots;
      }) in
      let a2 = reset_timer o h.clock (record a1 { sequence_nr = a1.sequence_nr + 1 }) in
      returns true
        (record a2 { next_check_time = add a2.total_time (get_d o opt.robot_startup_time) })

  unfoldable pub on_row : Arena W → Option (List ℕ) → Result (Arena W)
  unfolding launch pick_robots
  on_row a none = fatal out_of_bounds
  on_row a (some row) = launch a (pick_robots a.all_robots_in_tournament row)

  unfoldable pub start_sequence : Arena W → Result (Arena W)
  unfolding on_row
  start_sequence a =
      on_row (record a { game_nr = 0; current_arena_nr = 0 })
        (get_elem? a.robots_in_sequence a.sequence_nr)

  -- A robot with no colour gets one, if find_free_colour does not end in its fatal error.
  abbrev pub all_get_colours : Arena W → List ℕ → Bool
  all_get_colours a [] = true
  all_get_colours a (p ∷ ps) =
      let rest = all_get_colours a ps in
      if (a.robots p).colour_given || h.has_colour p a then rest else false

  unfoldable pub start_sequence_follow_up : Arena W → Result (Arena W)
  unfolding roll_call started start_game
  start_sequence_follow_up a =
      if all_get_colours a (started a.robots a.all_robots_in_sequence)
      then start_game (roll_call a)
      else fatal of_part

  unfoldable pub end_sequence_follow_up : Arena W → Result (Arena W)
  unfolding stop_processes end_tournament start_sequence
  end_sequence_follow_up a =
      let a1 = stop_processes a in
      if a1.sequence_nr == a1.sequences_in_tournament
      then returns true (end_tournament a1)
      else start_sequence a1

  unfoldable pub start_tournament : Tournament → Arena W → Result (Arena W)
  unfolding set_up start_sequence
  start_tournament t a = start_sequence (set_up t a)
