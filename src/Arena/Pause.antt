-- ===== src/Arena/Pause.antt =====
-- The pause button on the arena of src/ArenaBase.cc.
use realtimebattle.Base.{◌≡◌, refl, ap, Bool, true, false, not}
use realtimebattle.Arena.{
  State, no_state, not_started, starting_robots, game_in_progress, pausing_between_games, paused,
  before_game_start, shutting_down_robots, finished, exiting, GameMode, debug_mode, normal_mode,
  competition_mode, Arena, set_state, pause_game_toggle,
}

not-not : (b : Bool) → not (not b) ≡ b
not-not true = refl
not-not false = refl

module _ {ℓ} {W : Type ℓ} where
  -- What a second press undoes: all but a halt that was asked for, outside competitions.
  abbrev released : GameMode → Arena W → Arena W
  released competition_mode a = a
  released debug_mode a = record a { halt_next = false }
  released normal_mode a = record a { halt_next = false }

  twice :
      (m : GameMode) (st : State) (a : Arena W)
      → pause_game_toggle (pause_game_toggle (record a { game_mode = m; state = st }))
        ≡ released m (record a { game_mode = m; state = st })
  unfolding pause_game_toggle set_state
  twice competition_mode st a =
      let with_pause : Bool → Arena W =
        λ b. record a { game_mode = competition_mode; state = st; pause_after_next_game = b } in
      ap with_pause (not-not a.pause_after_next_game)
  twice debug_mode no_state a = refl
  twice debug_mode not_started a = refl
  twice debug_mode starting_robots a = refl
  twice debug_mode game_in_progress a = refl
  twice debug_mode pausing_between_games a = refl
  twice debug_mode paused a = refl
  twice debug_mode before_game_start a = refl
  twice debug_mode shutting_down_robots a = refl
  twice debug_mode finished a = refl
  twice debug_mode exiting a = refl
  twice normal_mode no_state a = refl
  twice normal_mode not_started a = refl
  twice normal_mode starting_robots a = refl
  twice normal_mode game_in_progress a = refl
  twice normal_mode pausing_between_games a = refl
  twice normal_mode paused a = refl
  twice normal_mode before_game_start a = refl
  twice normal_mode shutting_down_robots a = refl
  twice normal_mode finished a = refl
  twice normal_mode exiting a = refl

  -- The pause button pressed twice leaves the arena as it was, whatever its state, but that a halt which
  -- was asked for is forgotten outside COMPETITION_MODE.
  pub pause_game_toggle-roundtrip :
      (a : Arena W) → pause_game_toggle (pause_game_toggle a) ≡ released a.game_mode a
  pause_game_toggle-roundtrip a = twice a.game_mode a.state a
