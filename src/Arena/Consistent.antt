-- ===== src/Arena/Consistent.antt =====
-- The operations of src/ArenaRealTime.cc on games and sequences keep the arena consistent, and do not
-- end in an error.
use Prim.Native.String.{String}
use mathlib.Core.Path.{subst}
use realtimebattle.Base.{
  sym, ℕ, zero, suc, ◌+◌, ◌-◌, ◌%◌, ◌≤◌, ◌<◌, ◌≡◌, refl, Bool, true, false, not, ◌||◌, List, [],
  ◌∷◌, Option, none, some, arith, All, length, get_elem?, ◌==◌, if-holds, if-cases,
}
use native.Mathlib.Nat.{mod-lt}
use realtimebattle.Double.{Double}
use realtimebattle.Input.{Input, DoubleInput}
use realtimebattle.Options.{Options}
use realtimebattle.ArenaFile.{Parsed}
use realtimebattle.Base.Int.{pos}
use realtimebattle.Arena.{
  Arena, pausing_between_games, before_game_start, set_state, Result, of_part, reset_timer,
  delete_lists,
}
use realtimebattle.Arena.Games.{
  started, all_get_colours, then_begin, roll_call, bury_all, pick_robots, launch, on_row,
  start_sequence, end_sequence, end_game, start_sequence_follow_up, end_sequence_follow_up,
  end_tournament, stop_processes, begin_game, has_slash, on_parsed, on_file, on_filename,
  start_game,
}
use realtimebattle.Arena.Placing.{Host, place_robots}
use realtimebattle.Arena.Control.{
  Control, control, IsRunning, IsBetween, IsLevel, IsConsistent, Sane, place_robots-control,
}

pub lookup {ℓ κ} :
    {A : Type ℓ} (P : A → Type κ) (xs : List A) (i : ℕ)
    → All P xs
    → i < length xs
    → (x : A) × (get_elem? xs i ≡ some x) × P x
lookup P [] i all h = absurd (ground (arith, h))
lookup P (x ∷ xs) zero (p, all) h = (x, refl, p)
lookup P (x ∷ xs) (suc i) (p, all) h = lookup P xs i all (omega arith)

All-Unit {ℓ} : {A : Type ℓ} (xs : List A) → All {ℓ, 0} (λ x. Unit) xs
All-Unit [] = tt
All-Unit (x ∷ xs) = (tt, All-Unit xs)

-- Every number of a row is a robot's.
pick_robots_total :
    (robots nrs : List ℕ)
    → 0 < length robots
    → All (λ nr. nr ≤ length robots) nrs
    → (ps : List ℕ) × (pick_robots robots nrs ≡ some ps)
unfolding pick_robots
pick_robots_total robots [] some_robot all = ([], refl)
pick_robots_total robots (nr ∷ nrs) some_robot (le, all) =
    let (ps, e) = pick_robots_total robots nrs some_robot all in
    let (p, at, u) = lookup (λ x. Unit) robots (nr - 1) (All-Unit robots) (omega arith) in
    (p ∷ ps, rw at (rw e refl))

-- Consistent, and in a tournament that runs or has just ended.
abbrev pub IsLive : Control → Type 0
IsLive c = IsConsistent c × IsRunning c

-- What `start_game` needs: another game may begin.
abbrev pub MayBegin : Control → Type 0
MayBegin c = IsBetween c × IsConsistent c

-- What `end_game` needs.
abbrev pub MayEnd : Control → Type 0
MayEnd c =
    IsRunning c × IsLevel c.debug_level × ((c.game_nr == c.games_per_sequence) ≡ false → MayBegin c)

-- What `start_sequence` needs: a row of the table.
abbrev pub MayLaunch : Control → Type 0
MayLaunch c = IsRunning c × (c.sequence_nr < c.sequences_in_tournament) × IsLevel c.debug_level

module _ {ℓ κ} {W : Type ℓ} {S : Type κ} ⦃d : Double W⦄ ⦃inp : Input S⦄ ⦃dbl : DoubleInput W S⦄
    (h : Host W S) (o : Options W) where
  abbrev pub IsSane : Result (Arena W) → Type 0
  IsSane r = Sane (λ a. IsLive (control a)) r

  begin_game-IsSane : (p : Bool × Arena W) → MayBegin (control p.1) → IsSane (begin_game h o p)
  unfolding begin_game reset_timer set_state
  begin_game-IsSane (false, a) ((running, early), good) = (good, running)
  begin_game-IsSane (true, a) ((running, early), (at, level)) =
      (((running, omega arith, omega arith), level), running)

  placed-IsSane :
      (c : Control) (r : Result (Arena W))
      → MayBegin c
      → Sane (λ b. control b ≡ c) r
      → IsSane (then_begin h o r)
  placed-IsSane c (Result.returns ok a) m e = begin_game-IsSane (ok, a) (subst MayBegin (sym e) m)
  placed-IsSane c (Result.fatal f) m e = e
  placed-IsSane c (Result.quits a) m e =
      let (between, good) = subst MayBegin (sym e) m in (good, between.0)
  placed-IsSane c Result.endless m e = tt

  on_parsed-IsSane :
      (filename : String) (a : Arena W) (r : Option (Parsed W S))
      → MayBegin (control a)
      → IsSane (on_parsed h o filename a r)
  unfolding on_parsed set_state
  on_parsed-IsSane filename a none m = tt
  on_parsed-IsSane filename a (some r) (between, (at, level)) =
      let as_before : IsLive (control a) = ((at, level), between.0) in
      let a2 = set_state before_game_start (record a {
        plan = r.plan;
        shot_count = 0;
        cookie_count = 0;
        mine_count = 0;
        robots_left = pos 0;
      }) in
      let a1 = record a { plan = r.plan } in
      let seq = a.all_robots_in_sequence in
      let ready : MayBegin (control a2) = (between, (between, level)) in
      if-holds IsSane (not r.ok || not (has_slash filename)) {t = Result.returns false a1} as_before
        (placed-IsSane (control a2) (place_robots h o seq a2) ready
          (place_robots-control h o seq a2 _ refl))

  on_file-IsSane :
      (filename : String) (a : Arena W) (s : Option S)
      → MayBegin (control a)
      → IsSane (on_file h o filename a s)
  unfolding on_file
  on_file-IsSane filename a none ((running, early), good) = (good, running)
  on_file-IsSane filename a (some s) m = on_parsed-IsSane filename a _ m

  on_filename-IsSane :
      (a : Arena W) (f : Option String) {g : String}
      → MayBegin (control a)
      → f ≡ some g
      → IsSane (on_filename h o a f)
  unfolding on_filename
  on_filename-IsSane a none m e = cc
  on_filename-IsSane a (some f) m e = on_file-IsSane f a _ m

  pub start_game-IsSane : (a : Arena W) → MayBegin (control a) → IsSane (start_game h o a)
  unfolding start_game set_state
  start_game-IsSane a ((running, early), (at, level)) =
      let between : IsBetween (control a) = (running, early) in
      let pausing : IsLive (control (set_state pausing_between_games a)) =
        ((between, level), running) in
      let some_arena = running.0.has_arenas in
      let listed = running.0.arenas_listed in
      let nr = a.current_arena_nr % a.number_of_arenas + 1 in
      let inside = mod-lt a.current_arena_nr some_arena in
      if-holds IsSane a.pause_after_next_game pausing (
        if-cases IsSane (a.number_of_arenas == 0) (λ e. absurd (ground arith))
          (λ e.
            on_filename-IsSane (record a { current_arena_nr = nr }) _ (between, (at, level))
              (lookup (λ x. Unit) a.arena_filenames (nr - 1) (All-Unit a.arena_filenames)
                (omega arith)).1))

  pub end_game-IsSane : (a : Arena W) → MayEnd (control a) → IsSane (end_game h o a)
  unfolding end_game bury_all delete_lists end_sequence set_state
  end_game-IsSane a (running, level, begins) =
      if-cases IsSane (a.game_nr == a.games_per_sequence)
        (λ e. (((running, ground arith), level), running))
        (λ e. start_game-IsSane (bury_all a) (begins e))

  launch-IsSane :
      (a : Arena W) (picked : Option (List ℕ)) {ps : List ℕ}
      → IsBetween (record (control a) { sequence_nr = a.sequence_nr + 1 })
      → IsLevel a.debug_level
      → picked ≡ some ps
      → IsSane (launch h o a picked)
  unfolding launch reset_timer set_state
  launch-IsSane a none between level e = cc
  launch-IsSane a (some picked) (running, early) level e = (((running, early), level), running)

  pub start_sequence-IsSane : (a : Arena W) → MayLaunch (control a) → IsSane (start_sequence h o a)
  unfolding start_sequence on_row
  start_sequence-IsSane a ((ready, within), lt, level) =
      let listed = ready.sequences_listed in
      let games = ready.has_games in
      let (row, at, all) =
        lookup _ a.robots_in_sequence a.sequence_nr ready.robots_listed (omega arith) in
      let (ps, e) = pick_robots_total a.all_robots_in_tournament row ready.has_robots all in
      let next : IsBetween (record (control a) { game_nr = 0; sequence_nr = a.sequence_nr + 1 }) =
        ((ready, omega arith), games) in
      rw at (launch-IsSane (record a { game_nr = 0; current_arena_nr = 0 }) _ next level e)

  pub start_sequence_follow_up-IsSane :
      (a : Arena W) → MayBegin (control a) → IsSane (start_sequence_follow_up h o a)
  unfolding start_sequence_follow_up roll_call
  start_sequence_follow_up-IsSane a m =
      if-holds IsSane (all_get_colours h o a (started a.robots a.all_robots_in_sequence))
        {t = start_game h o (roll_call a)} {u = Result.fatal of_part}
        (start_game-IsSane (roll_call a) m) tt

  pub end_sequence_follow_up-IsSane :
      (a : Arena W)
      → IsRunning (control a)
      → IsLevel a.debug_level
      → IsSane (end_sequence_follow_up h o a)
  unfolding end_sequence_follow_up stop_processes end_tournament set_state
  end_sequence_follow_up-IsSane a (ready, within) level =
      if-cases IsSane (a.sequence_nr == a.sequences_in_tournament)
        (λ e. ((tt, level), (ready, within)))
        (λ e.
          let lt : a.sequence_nr < a.sequences_in_tournament = ground arith in
          start_sequence-IsSane (stop_processes a) ((ready, within), lt, level))
