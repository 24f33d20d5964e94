-- ===== src/Arena/Reach.antt =====
-- The runs of the arena of src/ArenaRealTime.cc: ticks, the buttons of src/ControlWindow.cc and new
-- tournaments, in any order.
use realtimebattle.Base.{
  ◌≡◌, ◌≢◌, refl, sym, ◌∙◌, Bool, true, false, not, ◌&&◌, ◌||◌, arith, if-holds, if-cases,
  if◌then◌else◌,
}
use realtimebattle.Base.Int.{ℤ, pos, ltb_ℤ}
use realtimebattle.Double.{Double}
use realtimebattle.Input.{Input, DoubleInput}
use realtimebattle.Options.{Options}
use realtimebattle.Arena.{
  State, no_state, not_started, starting_robots, game_in_progress, pausing_between_games, paused,
  before_game_start, shutting_down_robots, finished, exiting, is_state, GameMode, competition_mode,
  is_game_mode, debug_mode, Arena, Fault, Result, returns, fatal, new_arena, eq_ℤ, max_debug_level,
  set_state, delete_lists, at_pointer, pause_game_toggle, step_paused_game, interrupt_tournament,
  set_debug_level, set_game_mode,
}
use realtimebattle.Robot.{die}
use realtimebattle.Arena.Games.{Tournament, start_tournament, end_game}
use realtimebattle.Arena.Placing.{Host}
use realtimebattle.Arena.Ticks.{
  Calls, Button, pause, step, end_game_button, end_tournament_button, kill_robot, debug_level,
  timeout_function, press,
}
use realtimebattle.Arena.Control.{Control, control, IsAt, IsLevel, IsConsistent}
use realtimebattle.Arena.Consistent.{MayEnd, end_game-IsSane}
use realtimebattle.Arena.Runs.{
  IsTournament, IfTournament, IsGood, IsSane-Good, start_tournament-IsSane, timeout_function-IsGood,
  timeout_function_stuck,
}

is_state→≡ : (s t : State) → is_state s t ≡ true → s ≡ t
is_state→≡ s t h = ground arith

IsAt-state : (s t : State) (c : Control) → is_state s t ≡ true → IsAt s c → IsAt t c
IsAt-state s t c h at = rw (sym (is_state→≡ s t h)) at

IsAt-level : (st : State) (c : Control) (n : ℤ) → IsAt st c → IsAt st (record c { debug_level = n })
IsAt-level no_state c n at = at
IsAt-level not_started c n at = at
IsAt-level starting_robots c n at = at
IsAt-level game_in_progress c n at = at
IsAt-level pausing_between_games c n at = at
IsAt-level paused c n at = at
IsAt-level before_game_start c n at = at
IsAt-level shutting_down_robots c n at = at
IsAt-level finished c n at = at
IsAt-level exiting c n at = at

module _ {ℓ} {W : Type ℓ} where
  abbrev IsFine : Arena W → Type 0
  IsFine a = IsConsistent (control a)

  pause_game_toggle-IsConsistent :
      (a : Arena W) → IsConsistent (control a) → IsConsistent (control (pause_game_toggle a))
  unfolding pause_game_toggle set_state
  pause_game_toggle-IsConsistent a (at, level) =
      let as_before : IsFine a = (at, level) in
      let flipped =
        set_state a.state (record a { pause_after_next_game = not a.pause_after_next_game }) in
      let resumed =
        if-cases IsFine (is_state a.state paused) {t = set_state game_in_progress a} {u = a}
          (λ e. (IsAt-state a.state paused (control a) e at, level)) (λ e. as_before) in
      let toggled =
        if-cases IsFine (is_state a.state game_in_progress) {t = set_state paused a}
          {u = if is_state a.state paused then set_state game_in_progress a else a}
          (λ e. (IsAt-state a.state game_in_progress (control a) e at, level)) (λ e. resumed) in
      if-holds IsFine (not (is_game_mode a.game_mode competition_mode)) {u = flipped} toggled
        as_before

  step_paused_game-IsConsistent :
      (a : Arena W) → IsConsistent (control a) → IsConsistent (control (step_paused_game a))
  unfolding step_paused_game set_state
  step_paused_game-IsConsistent a (at, level) =
      let as_before : IsFine a = (at, level) in
      let stepped = set_state game_in_progress (record a { halt_next = true }) in
      let is_debug = is_game_mode a.game_mode debug_mode in
      if-cases IsFine (is_debug && is_state a.state paused) {t = stepped} {u = a}
        (λ e.
          let paused_now : is_state a.state paused ≡ true = ground arith in
          (IsAt-state a.state paused (control a) paused_now at, level))
        (λ e. as_before)

  interrupt_tournament-IsConsistent :
      (a : Arena W) → IsConsistent (control a) → IsConsistent (control (interrupt_tournament a))
  unfolding interrupt_tournament delete_lists set_state
  interrupt_tournament-IsConsistent a (at, level) =
      let as_before : IsFine a = (at, level) in
      let stopped =
        set_state finished
          (delete_lists true true false true (record a { auto_start_and_end = false })) in
      let playing =
        is_state a.state game_in_progress
        || (is_state a.state paused || is_state a.state pausing_between_games) in
      if-holds IsFine playing {t = stopped} {u = a} (tt, level) as_before

  set_debug_level-IsConsistent :
      (n : ℤ) (a : Arena W)
      → IsConsistent (control a)
      → IsConsistent (control (set_debug_level n a))
  unfolding set_debug_level
  set_debug_level-IsConsistent n a (at, level) =
      let as_before : IsFine a = (at, level) in
      if-cases IsFine (ltb_ℤ max_debug_level n || (ltb_ℤ n (pos 0) || eq_ℤ n a.debug_level)) {t = a}
        {u = record a { debug_level = n }} (λ e. as_before)
        (λ e. (IsAt-level a.state (control a) n at, ground arith))

  -- From the constructors on, the level of the options being whatever it is.
  set_game_mode-IsConsistent :
      (level : ℤ) (gm : GameMode) (a : Arena W)
      → IsConsistent (control (set_game_mode level gm (new_arena a)))
  unfolding set_game_mode new_arena set_debug_level
  set_game_mode-IsConsistent level debug_mode a =
      set_debug_level-IsConsistent level (record (new_arena a) { game_mode = debug_mode })
        (tt, ground arith)
  set_game_mode-IsConsistent level GameMode.normal_mode a = (tt, ground arith)
  set_game_mode-IsConsistent level competition_mode a = (tt, ground arith)

MayEnd-Consistent :
    (st : State) (c : Control)
    → c.state ≡ st
    → IsAt st c
    → IsLevel c.debug_level
    → st ≢ not_started
    → st ≢ finished
    → MayEnd c
MayEnd-Consistent no_state c e at level n f = absurd at
MayEnd-Consistent not_started c e at level n f = absurd (n refl)
MayEnd-Consistent starting_robots c e (running, early) level n f =
    (running, level, λ x. ((running, early), (rw e (running, early), level)))
MayEnd-Consistent game_in_progress c e (running, low, high) level n f =
    (running, level, λ x. ((running, ground arith), (rw e (running, low, high), level)))
MayEnd-Consistent pausing_between_games c e (running, early) level n f =
    (running, level, λ x. ((running, early), (rw e (running, early), level)))
MayEnd-Consistent paused c e (running, low, high) level n f =
    (running, level, λ x. ((running, ground arith), (rw e (running, low, high), level)))
MayEnd-Consistent before_game_start c e (running, early) level n f =
    (running, level, λ x. ((running, early), (rw e (running, early), level)))
MayEnd-Consistent shutting_down_robots c e (running, last) level n f =
    (running, level, λ x. absurd (ground arith))
MayEnd-Consistent finished c e at level n f = absurd (f refl)
MayEnd-Consistent exiting c e at level n f = absurd at

never_returns {ℓ} : {A : Type ℓ} {f : Fault} {on : Bool} {a : A} → ¬ (fatal f ≡ returns on a)
never_returns e = cc

module _ {ℓ κ} {W : Type ℓ} {S : Type κ} ⦃d : Double W⦄ ⦃inp : Input S⦄ ⦃dbl : DoubleInput W S⦄
    (h : Host W S) (o : Options W) where
  pub press-IsGood :
      (b : Button) (a : Arena W) → IsConsistent (control a) → IsGood h o (press h o b a)
  unfolding press
  press-IsGood pause a good = pause_game_toggle-IsConsistent a good
  press-IsGood step a good = step_paused_game-IsConsistent a good
  press-IsGood end_game_button a (at, level) =
      let as_before : IsFine a = (at, level) in
      if-cases (IsGood h o) (not (is_state a.state not_started) && not (is_state a.state finished))
        {u = returns true a}
        (λ e.
          let begun : a.state ≢ not_started = λ q. ground arith in
          let goes_on : a.state ≢ finished = λ q. ground arith in
          IsSane-Good h o (end_game h o a) (
            end_game-IsSane h o a
              (MayEnd-Consistent a.state (control a) refl at level begun goes_on)))
        (λ e. as_before)
  press-IsGood end_tournament_button a good = interrupt_tournament-IsConsistent a good
  press-IsGood (kill_robot p) a (at, level) =
      let as_before : IsFine a = (at, level) in
      let in_play = is_state a.state game_in_progress || is_state a.state paused in
      if-holds (IsGood h o) in_play
        {t = returns true (record a { robots = at_pointer die p a.robots })} {u = returns true a}
        as_before as_before
  press-IsGood (debug_level n) a good = set_debug_level-IsConsistent n a good

  -- What happens to the arena: it is made, ticks, a button is pressed, or a tournament is started, with
  -- any host behind it, in any order.
  infix 40 ◌⟶◌
  pub data ◌⟶◌ : Arena W → Arena W → Type (ℓ ⊔ κ) where
    tick :
        {a b : Arena W} {on : Bool} (c : Calls W)
        → IfTournament c.tournament_file
        → timeout_function h o c a ≡ returns on b
        → a ⟶ b
    button : {a b : Arena W} {ok : Bool} (p : Button) → press h o p a ≡ returns ok b → a ⟶ b
    tournament :
        {a b : Arena W} {ok : Bool} (t : Tournament)
        → IsTournament t
        → start_tournament h o t a ≡ returns ok b
        → a ⟶ b

  pub data Reach : Arena W → Type (ℓ ⊔ κ) where
    made : (level : ℤ) (gm : GameMode) (a : Arena W) → Reach (set_game_mode level gm (new_arena a))
    after : {a b : Arena W} → Reach a → a ⟶ b → Reach b

  IsGood-returns :
      (r : Result (Arena W)) {on : Bool} {b : Arena W} → IsGood h o r → r ≡ returns on b → IsFine b
  IsGood-returns r g e = rw e at g

  -- A tick that returns was not made in BEFORE_GAME_START.
  tick_returns-IsGood :
      (c : Calls W) (a : Arena W) {on : Bool} {b : Arena W}
      → IfTournament c.tournament_file
      → IsConsistent (control a)
      → timeout_function h o c a ≡ returns on b
      → IsGood h o (timeout_function h o c a)
  tick_returns-IsGood c a ok good e =
      timeout_function-IsGood h o c a ok
        (λ st. never_returns (sym (timeout_function_stuck h o c a st) ∙ e)) good

  pub ⟶-IsConsistent : {a b : Arena W} → a ⟶ b → IsConsistent (control a) → IsConsistent (control b)
  ⟶-IsConsistent (tick c ok e) good = IsGood-returns _ (tick_returns-IsGood c _ ok good e) e
  ⟶-IsConsistent (button p e) good = IsGood-returns _ (press-IsGood p _ good) e
  ⟶-IsConsistent (tournament t ok e) (at, level) =
      IsGood-returns _ (IsSane-Good h o _ (start_tournament-IsSane h o t _ ok level)) e

  -- However the arena is made, whatever the host gives, and whatever ticks, buttons and new tournaments there have been,
  -- if every tournament, also that of the tournament file, has at least one game, arena, sequence and robot and a
  -- table with a row of robots that are there for each sequence: the number of the game is within the sequence and the
  -- number of the sequence within the tournament, as the state asks; in a tournament that runs there is an arena, every
  -- arena number and every entry of the table has its arena and its robot; and the debug level is between 0 and 5.
  pub Reach-IsConsistent : (a : Arena W) → Reach a → IsConsistent (control a)
  Reach-IsConsistent a (made level gm raw) = set_game_mode-IsConsistent level gm raw
  Reach-IsConsistent a (after r st) = ⟶-IsConsistent st (Reach-IsConsistent _ r)
