-- ===== src/Arena/Runs.antt =====
-- A tick of `ArenaRealTime::timeout_function` of src/ArenaRealTime.cc keeps the arena consistent.
use Prim.Native.String.{String}
use realtimebattle.Base.{
  ℕ, ◌+◌, ◌≤◌, ◌<◌, ◌≡◌, ◌≢◌, refl, sym, ap, ◌∙◌, Bool, true, false, not, List, [], ◌∷◌, Option,
  none, some, if◌then◌else◌, arith, All, length, if-holds,
}
use realtimebattle.Double.{Double}
use realtimebattle.Input.{Input, DoubleInput}
use realtimebattle.Options.{Options}
use realtimebattle.Arena.{
  State, no_state, not_started, starting_robots, game_in_progress, pausing_between_games, paused,
  before_game_start, shutting_down_robots, finished, exiting, is_state, Arena, Result, returns,
  fatal, quits, endless, wrong_state, delete_lists, set_state, update_timer,
}
use realtimebattle.Arena.Games.{
  Tournament, then_do, regardless, addresses, set_up, end_game, start_game,
  start_sequence_follow_up, end_sequence_follow_up, start_tournament,
}
use realtimebattle.Arena.Placing.{Host}
use realtimebattle.Arena.Ticks.{
  Calls, halt_if_asked, update, carry_on, is_over, go_on, give_up, on_tournament_file, act,
  timeout_function,
}
use realtimebattle.Arena.Control.{
  Control, control, IsInGame, IsAt, IsLevel, IsConsistent, Sane, on_part-Sane,
}
use realtimebattle.Arena.Consistent.{
  IsLive, IsSane, MayEnd, start_game-IsSane, end_game-IsSane, start_sequence-IsSane,
  start_sequence_follow_up-IsSane, end_sequence_follow_up-IsSane,
}
use realtimebattle.Arena.Kept.{update-control, extras-control, ticked-control}

-- What `start_tournament` asks of its arguments: at least one game, arena, sequence and robot, and a
-- table with a row of numbers of robots for every sequence.
pub record IsTournament (t : Tournament) : Type 0 where
  pub some_game : 0 < t.games_p_sequence
  pub some_arena : 0 < length t.arenafilenames
  pub some_sequence : 0 < t.n_o_sequences
  pub some_robot : 0 < length t.robotfilenames
  pub a_row_each : length t.table ≡ t.n_o_sequences
  pub rows_of_robots : All (All (λ nr. nr ≤ length t.robotfilenames)) t.table

abbrev pub IfTournament : Option Tournament → Type 0
IfTournament none = ⊥
IfTournament (some t) = IsTournament t

length-addresses : (n : ℕ) (fs : List String) → length (addresses n fs) ≡ length fs
unfolding addresses
length-addresses n [] = refl
length-addresses n (f ∷ fs) = omega (arith, length-addresses (n + 1) fs)

on_same : (P : Control → Type 0) {x y : Control} → x ≡ y → P y → P x
on_same P e p = rw e p

module _ {ℓ} {A : Type ℓ} (P : A → Type 0) where
  then_do-Sane :
      (r : Result A) (f : Bool → A → Result A)
      → Sane P r
      → ((b : Bool) (a : A) → P a → Sane P (f b a))
      → Sane P (then_do r f)
  then_do-Sane (returns b a) f s k = k b a s
  then_do-Sane (fatal e) f s k = s
  then_do-Sane (quits a) f s k = s
  then_do-Sane endless f s k = tt

  regardless-Sane : (r : Result A) → Sane P r → Sane P (regardless r)
  regardless-Sane (returns b a) s = s
  regardless-Sane (fatal e) s = s
  regardless-Sane (quits a) s = s
  regardless-Sane endless s = tt

module _ {ℓ κ} {W : Type ℓ} {S : Type κ} ⦃d : Double W⦄ ⦃inp : Input S⦄ ⦃dbl : DoubleInput W S⦄
    (h : Host W S) (o : Options W) where
  pub start_tournament-IsSane :
      (t : Tournament) (a : Arena W)
      → IsTournament t
      → IsLevel a.debug_level
      → IsSane h o (start_tournament h o t a)
  unfolding start_tournament set_up delete_lists set_state
  start_tournament-IsSane t a ok level =
      let robots = length-addresses 0 t.robotfilenames in
      let games = ok.some_game in
      start_sequence-IsSane h o (set_up t a) (
        (
          record {
            has_games = ok.some_game;
            has_arenas = ok.some_arena;
            arenas_listed = refl;
            sequences_listed = ok.a_row_each;
            has_robots = rw robots ok.some_robot;
            robots_listed = rw robots ok.rows_of_robots;
          },
          omega arith,
        ),
        ok.some_sequence,
        level,
      )

  halt_if_asked-IsLive :
      (a : Arena W) → IsLive (control a) → IsInGame (control a) → IsLive (control (halt_if_asked a))
  unfolding halt_if_asked set_state
  halt_if_asked-IsLive a ((at, level), running) in_game =
      let halted : IsLive (record (control a) { state = paused }) = ((in_game, level), running) in
      let as_before : IsLive (control a) = ((at, level), running) in
      if-holds (λ (x : Arena W). IsLive (control x)) a.halt_next halted as_before

  MayEnd-InGame : (c : Control) → IsLive c → IsInGame c → MayEnd c
  MayEnd-InGame c ((at, level), running) (running', low, high) =
      (running, level, λ e. ((running, ground arith), (at, level)))

  carry_on-IsLive :
      (c : Calls W) (a : Arena W)
      → IsLive (control a)
      → IsInGame (control a)
      → IsLive (control (carry_on h o c a))
  unfolding carry_on
  carry_on-IsLive c a live in_game =
      let same = extras-control h o c a in
      halt_if_asked-IsLive _ (on_same IsLive same live) (on_same IsInGame same in_game)

  go_on-IsSane :
      (c : Calls W) (a : Arena W)
      → IsLive (control a)
      → IsInGame (control a)
      → IsSane h o (go_on h o c a)
  unfolding go_on
  go_on-IsSane c a live in_game =
      let ends = end_game-IsSane h o a (MayEnd-InGame (control a) live in_game) in
      if-holds (IsSane h o) (is_over h o a) {u = returns true (carry_on h o c a)}
        (regardless-Sane _ (end_game h o a) ends) (carry_on-IsLive c a live in_game)

  give_up-IsSane : (ok : Bool) (a : Arena W) → IsLive (control a) → IsSane h o (give_up h o ok a)
  unfolding give_up
  give_up-IsSane true a live = live
  give_up-IsSane false a ((at, level), (ready, within)) =
      let last : Arena W = record a {
        game_nr = a.games_per_sequence;
        sequence_nr = a.sequences_in_tournament;
      } in
      regardless-Sane _ (end_game h o last)
        (end_game-IsSane h o last ((ready, omega arith), level, λ e. absurd (ground arith)))

  abbrev pub IsGood : Result (Arena W) → Type 0
  IsGood r = Sane (λ a. IsConsistent (control a)) r

  pub IsSane-Good : (r : Result (Arena W)) → IsSane h o r → IsGood r
  IsSane-Good (returns b a) (good, running) = good
  IsSane-Good (fatal e) s = s
  IsSane-Good (quits a) (good, running) = good
  IsSane-Good endless s = tt

  on_tournament_file-IsGood :
      (a : Arena W) (t : Option Tournament)
      → IfTournament t
      → IsLevel a.debug_level
      → IsSane h o (on_tournament_file h o a t)
  unfolding on_tournament_file
  on_tournament_file-IsGood a none ok level = ok
  on_tournament_file-IsGood a (some t) ok level =
      regardless-Sane _ (start_tournament h o t a) (start_tournament-IsSane t a ok level)

  -- A tick, in a state that the arena can be left in.
  act-IsGood :
      (c : Calls W) (st : State) (a : Arena W)
      → IfTournament c.tournament_file
      → st ≢ before_game_start
      → a.state ≡ st
      → IsAt st (control a)
      → IsLevel a.debug_level
      → IsGood (act h o c st a)
  unfolding act
  act-IsGood c no_state a ok usable e at level = at
  act-IsGood c not_started a ok usable e at level =
      let as_before : IsConsistent (control a) = rw e (tt, level) in
      if-holds IsGood a.auto_start_and_end {u = returns true a}
        (IsSane-Good _ (on_tournament_file-IsGood a c.tournament_file ok level)) as_before
  act-IsGood c starting_robots a ok usable e (running, early) level =
      on_part-Sane (λ b. IsConsistent (control b)) (c.said a) _
        (λ robots.
          let a1 = record a { robots = robots } in
          let as_before : IsConsistent (control a1) = rw e ((running, early), level) in
          if-holds IsGood (d.lt a1.next_check_time a1.total_time) {u = returns true a1}
            (IsSane-Good _ (
              then_do-Sane _ (start_sequence_follow_up h o a1) _
                (start_sequence_follow_up-IsSane h o a1 ((running, early), as_before))
                give_up-IsSane))
            as_before)
  act-IsGood c game_in_progress a ok usable e (running, low, high) level =
      let as_before : IsConsistent (control a) = rw e ((running, low, high), level) in
      on_part-Sane (λ b. IsConsistent (control b)) (c.motion a) _
        (λ m.
          let same = update-control h o m a in
          IsSane-Good _ (
            go_on-IsSane c (update m a) (on_same IsLive same (as_before, running))
              (on_same IsInGame same (running, low, high))))
  act-IsGood c pausing_between_games a ok usable e (running, early) level =
      let as_before : IsConsistent (control a) = rw e ((running, early), level) in
      if-holds IsGood (not a.pause_after_next_game) {u = returns true a}
        (IsSane-Good _ (
          regardless-Sane _ (start_game h o a)
            (start_game-IsSane h o a ((running, early), as_before))))
        as_before
  act-IsGood c paused a ok usable e at level = rw e (at, level)
  act-IsGood c before_game_start a ok usable e at level = absurd (usable refl)
  act-IsGood c shutting_down_robots a ok usable e (running, last) level =
      on_part-Sane (λ b. IsConsistent (control b)) (c.said a) _
        (λ robots.
          let a1 = record a { robots = robots } in
          let as_before : IsConsistent (control a1) = rw e ((running, last), level) in
          if-holds IsGood (d.lt a1.next_check_time a1.total_time) {u = returns true a1}
            (IsSane-Good _ (
              regardless-Sane _ (end_sequence_follow_up h o a1)
                (end_sequence_follow_up-IsSane h o a1 running level)))
            as_before)
  act-IsGood c finished a ok usable e at level =
      let as_before : IsConsistent (control a) = rw e (tt, level) in
      if-holds IsGood a.auto_start_and_end {t = quits a} {u = returns true a} as_before as_before
  act-IsGood c exiting a ok usable e at level = absurd at

  -- A tick of a consistent arena, in any state but BEFORE_GAME_START, does not end in an error but that
  -- of a part which is a parameter, and leaves the arena consistent, if the tournament file is right.
  pub timeout_function-IsGood :
      (c : Calls W) (a : Arena W)
      → IfTournament c.tournament_file
      → a.state ≢ before_game_start
      → IsConsistent (control a)
      → IsGood (timeout_function h o c a)
  unfolding timeout_function
  timeout_function-IsGood c a ok usable (at, level) =
      let a1 : Arena W = if is_state a.state paused then a else update_timer o h.clock a in
      let same : control a1 ≡ control a = ticked-control h o a in
      let (at', level') = on_same IsConsistent same (at, level) in
      act-IsGood c a1.state a1 ok (λ e. usable (sym (ap (λ x. x.state) same) ∙ e)) refl at' level'

  pub timeout_function_stuck :
      (c : Calls W) (a : Arena W)
      → a.state ≡ before_game_start
      → timeout_function h o c a ≡ fatal wrong_state
  unfolding timeout_function act
  timeout_function_stuck c a e =
      let a1 : Arena W = if is_state a.state paused then a else update_timer o h.clock a in
      let at : a1.state ≡ before_game_start = ap (λ x. x.state) (ticked-control h o a) ∙ e in
      ap (λ st. act h o c st a1) at
