-- ===== src/Arena/Refines.antt =====
-- The ticks of src/ArenaRealTime.cc follow the course of a tournament, move by move.
use realtimebattle.Robot.{Robot}
use realtimebattle.Base.{
  ℕ, Option, none, some, ◌≤◌, ◌<◌, ◌≡◌, ◌≢◌, refl, sym, ap, ◌∙◌, inl, inr, Bool, true, false, not,
  ◌&&◌, if-holds, if◌then◌else◌,
}
use realtimebattle.Double.{Double}
use realtimebattle.Input.{Input, DoubleInput}
use realtimebattle.Options.{Options}
use realtimebattle.Arena.{
  State, no_state, not_started, starting_robots, game_in_progress, pausing_between_games, paused,
  before_game_start, shutting_down_robots, finished, exiting, is_state, Arena, Result, returns,
  fatal, quits, endless, on_part, update_timer,
}
use realtimebattle.Arena.Games.{
  then_do, regardless, start_game, end_game, start_sequence_follow_up, end_sequence_follow_up,
}
use realtimebattle.Arena.Placing.{Host}
use realtimebattle.Arena.Ticks.{
  Calls, update, is_over, carry_on, go_on, give_up, act, timeout_function,
}
use realtimebattle.Arena.Control.{Control, control, IsAt, IsConsistent}
use realtimebattle.Arena.Kept.{update-control, carry_on-control, ticked-control}
use realtimebattle.Arena.Order.{
  IfReturns, IfReturns-map, Begun, Ended, Followed, start_game-IsBegun,
  start_sequence_follow_up-IsBegun, end_game-Ended, end_sequence_follow_up-Followed,
}
use realtimebattle.Arena.Course.{
  Phase, view_of, Moves, Moves-unmoved, Begun-between, halted-playing, Ended-playing, Ended-abandon,
  Followed-closing,
}

regardless-IfReturns {ℓ} :
    {A : Type ℓ} (P : A → Type 0) (r : Result A) → IfReturns P r → IfReturns P (regardless r)
regardless-IfReturns P (returns b a) p = p
regardless-IfReturns P (fatal e) p = p
regardless-IfReturns P (quits a) p = p
regardless-IfReturns P endless p = p

-- What holds of one control part holds of an equal one.
from : (P : Control → Type 0) {x y : Control} → x ≡ y → P y → P x
from P e p = rw e p

abbrev IsPlaying : Control → Type 0
IsPlaying c =
    (c.game_nr ≤ c.games_per_sequence) × (view_of c ≡ Phase.playing c.sequence_nr c.game_nr)

module _ {ℓ κ} {W : Type ℓ} {S : Type κ} ⦃d : Double W⦄ ⦃inp : Input S⦄ ⦃dbl : DoubleInput W S⦄
    (h : Host W S) (o : Options W) where
  -- The arena of the tick, with its clock moved on.
  abbrev pub ticked : Arena W → Arena W
  ticked a = if is_state a.state paused then a else update_timer o h.clock a

  abbrev pub fails : Result (Arena W) → Bool
  fails (returns true a) = false
  fails (returns false a) = true
  fails (fatal e) = false
  fails (quits a) = false
  fails endless = false

  abbrev pub cannot_begin_with : Option (ℕ → Robot W) → Arena W → Bool
  cannot_begin_with none a = false
  cannot_begin_with (some robots) a =
      let a1 = record a { robots = robots } in
      d.lt a1.next_check_time a1.total_time && fails (start_sequence_follow_up h o a1)

  -- The robots have had their time, and the first game cannot be begun.
  abbrev pub cannot_begin : Calls W → State → Arena W → Bool
  cannot_begin c starting_robots a = cannot_begin_with (c.said a) a
  cannot_begin c _ a = false

  abbrev pub IsMove : Bool → Control → Result (Arena W) → Type 0
  IsMove unable c r = IfReturns (λ b. Moves unable c (control b)) r

  -- From a proof about the operation to one about the tick.
  by_order :
      {u : Bool} (c : Control) (P : Control → Type 0) (r : Result (Arena W))
      → ((x : Control) → P x → Moves u c x)
      → IfReturns (λ b. P (control b)) r
      → IsMove u c (regardless r)
  by_order {u} c P r f p =
      regardless-IfReturns (λ b. Moves u c (control b)) r
        (IfReturns-map (λ b. P (control b)) (λ b. Moves u c (control b)) r (λ b q. f (control b) q)
          p)

  go_on-IsMove :
      (c : Calls W) (a : Arena W)
      → a.game_nr ≤ a.games_per_sequence
      → view_of (control a) ≡ Phase.playing a.sequence_nr a.game_nr
      → IsMove false (control a) (go_on h o c a)
  unfolding go_on
  go_on-IsMove c a le v =
      let ends =
        by_order (control a) (Ended (control a)) (end_game h o a)
          (λ x. Ended-playing (control a) x le v) (end_game-Ended h o a) in
      let goes_on : Moves false (control a) (control (carry_on h o c a)) =
        elim (carry_on-control h o c a) [
          | inl e ↦ Moves-unmoved (control a) _ e
          | inr e ↦ halted-playing (control a) _ v e
        ] in
      if-holds (IsMove false (control a)) (is_over h o a) {u = returns true (carry_on h o c a)} ends
        goes_on

  abandons :
      (c : Control) (a : Arena W)
      → view_of c ≡ Phase.between c.sequence_nr c.game_nr
      → Begun c (control a)
      → IsMove true c (give_up h o false a)
  unfolding give_up
  abandons c a v b =
      let last : Arena W = record a {
        game_nr = a.games_per_sequence;
        sequence_nr = a.sequences_in_tournament;
      } in
      by_order c (Ended (control last)) (end_game h o last) (λ x. Ended-abandon c (control a) x v b)
        (end_game-Ended h o last)

  -- The first game of a sequence is begun, or the tournament is given up.
  first_game :
      (c : Control) (a : Arena W) (late : Bool) (r : Result (Arena W))
      → c.game_nr < c.games_per_sequence
      → view_of c ≡ Phase.between c.sequence_nr c.game_nr
      → control a ≡ c
      → IfReturns (λ b. Begun c (control b)) r
      → IsMove (late && fails r) c (if late then then_do r (give_up h o) else returns true a)
  unfolding give_up
  first_game c a false r lt v e p = Moves-unmoved c (control a) e
  first_game c a true (returns true b) lt v e p = Begun-between c (control b) lt v p
  first_game c a true (returns false b) lt v e p = abandons c b v p
  first_game c a true (fatal f) lt v e p = tt
  first_game c a true (quits b) lt v e p = Begun-between c (control b) lt v p
  first_game c a true endless lt v e p = tt

  starting-IsMove :
      (said : Option (ℕ → Robot W)) (a : Arena W)
      → a.game_nr < a.games_per_sequence
      → view_of (control a) ≡ Phase.between a.sequence_nr a.game_nr
      → IsMove (cannot_begin_with said a) (control a) (
          on_part said (λ robots.
            let a1 = record a { robots = robots } in
            if d.lt a1.next_check_time a1.total_time
            then then_do (start_sequence_follow_up h o a1) (give_up h o)
            else returns true a1))
  starting-IsMove none a early v = tt
  starting-IsMove (some robots) a early v =
      let a1 = record a { robots = robots } in
      first_game (control a) a1 (d.lt a1.next_check_time a1.total_time)
        (start_sequence_follow_up h o a1) early v refl (start_sequence_follow_up-IsBegun h o a1)

  -- A part that is a parameter ends in an error, or the tick goes on.
  part-IsMove {ι} :
      {A : Type ι} (c : Control) (x : Option A) (f : A → Result (Arena W))
      → ((y : A) → IsMove false c (f y))
      → IsMove false c (on_part x f)
  part-IsMove c none f k = tt
  part-IsMove c (some y) f k = k y

  act-IsMove :
      (c : Calls W) (st : State) (a : Arena W)
      → a.state ≡ st
      → IsAt st (control a)
      → st ≢ not_started
      → IsMove (cannot_begin c st a) (control a) (act h o c st a)
  unfolding act
  act-IsMove c no_state a e at begun = absurd at
  act-IsMove c not_started a e at begun = absurd (begun refl)
  act-IsMove c starting_robots a e (running, early) begun =
      let v : view_of (control a) ≡ Phase.between a.sequence_nr a.game_nr = rw e refl in
      starting-IsMove (c.said a) a early v
  act-IsMove c game_in_progress a e (running, low, high) begun =
      let v : view_of (control a) ≡ Phase.playing a.sequence_nr a.game_nr = rw e refl in
      part-IsMove (control a) (c.motion a) _ (λ m.
        let same = update-control h o m a in
        let (high', v') = from IsPlaying same (high, v) in
        from (λ x. IsMove false x (go_on h o c (update m a))) (sym same)
          (go_on-IsMove c (update m a) high' v'))
  act-IsMove c pausing_between_games a e (running, early) begun =
      let v : view_of (control a) ≡ Phase.between a.sequence_nr a.game_nr = rw e refl in
      if-holds (IsMove false (control a)) (not a.pause_after_next_game) {u = returns true a}
        (by_order (control a) (Begun (control a)) (start_game h o a)
          (λ x. Begun-between (control a) x early v) (start_game-IsBegun h o a))
        (Moves-unmoved (control a) (control a) refl)
  act-IsMove c paused a e at begun = Moves-unmoved (control a) (control a) refl
  act-IsMove c before_game_start a e at begun = tt
  act-IsMove c shutting_down_robots a e ((ready, within), last) begun =
      let v : view_of (control a) ≡ Phase.closing a.sequence_nr = rw e refl in
      part-IsMove (control a) (c.said a) _ (λ robots.
        let a1 = record a { robots = robots } in
        if-holds (IsMove false (control a)) (d.lt a1.next_check_time a1.total_time)
          {u = returns true a1}
          (by_order (control a) (Followed (control a)) (end_sequence_follow_up h o a1)
            (λ x. Followed-closing (control a) x within v) (end_sequence_follow_up-Followed h o a1))
          (Moves-unmoved (control a) (control a) refl))
  act-IsMove c finished a e at begun =
      let unmoved = Moves-unmoved (control a) (control a) refl in
      if-holds (IsMove false (control a)) a.auto_start_and_end {t = quits a} {u = returns true a}
        unmoved unmoved
  act-IsMove c exiting a e at begun = absurd at

  -- A tick of a consistent arena, before which a tournament has been started, makes one move of the
  -- course, if it returns: a game is begun only if it is the next of its sequence, a sequence is closed
  -- only after its last game or where its first game is to be begun and start_sequence_follow_up returns false, and in
  -- that case it is closed, as the last one; the next sequence is started only after it and only if there is one, and
  -- the tournament is over after the last. The number of games and of sequences stays.
  pub timeout_function-refines :
      (c : Calls W) (a : Arena W)
      → IsConsistent (control a)
      → a.state ≢ not_started
      → IfReturns
          (λ b. Moves (cannot_begin c (ticked a).state (ticked a)) (control a) (control b))
          (timeout_function h o c a)
  unfolding timeout_function
  timeout_function-refines c a (at, level) begun =
      let a1 = ticked a in
      let same : control a1 ≡ control a = ticked-control h o a in
      let (at', level') = from IsConsistent same (at, level) in
      from (λ x. IsMove (cannot_begin c a1.state a1) x (act h o c a1.state a1)) (sym same)
        (act-IsMove c a1.state a1 refl at' (λ e. begun (sym (ap (λ x. x.state) same) ∙ e)))
