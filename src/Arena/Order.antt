-- ===== src/Arena/Order.antt =====
-- What the operations on games and sequences of src/ArenaRealTime.cc do to the control part of the
-- arena, if they return.
use Prim.Native.String.{String}
use realtimebattle.Base.{
  ℕ, ◌+◌, ◌%◌, ◌-◌, ◌≡◌, refl, ap, ◌⊎◌, inl, inr, Bool, true, false, not, ◌||◌, List, Option, none,
  some, arith, get_elem?, ◌==◌, if-holds, if-cases,
}
use realtimebattle.Base.Int.{pos}
use realtimebattle.Double.{Double}
use realtimebattle.Input.{Input, DoubleInput}
use realtimebattle.Options.{Options}
use realtimebattle.ArenaFile.{Parsed}
use realtimebattle.Arena.{
  Arena, starting_robots, pausing_between_games, before_game_start, game_in_progress,
  shutting_down_robots, finished, set_state, Result, returns, fatal, quits, endless, reset_timer,
  delete_lists,
}
use realtimebattle.Arena.Games.{
  then_do, has_slash, started, all_get_colours, then_begin, begin_game, on_parsed, on_file,
  on_filename, start_game, roll_call, bury_all, end_sequence, end_game, launch, on_row,
  start_sequence, start_sequence_follow_up, end_tournament, stop_processes, end_sequence_follow_up,
}
use realtimebattle.Arena.{of_part}
use realtimebattle.Arena.Placing.{Host, place_robots}
use realtimebattle.Arena.Control.{Control, control, Sane, place_robots-control}

abbrev pub IfReturns {ℓ} : {A : Type ℓ} (P : A → Type 0) → Result A → Type 0
IfReturns P (returns b a) = P a
IfReturns P (fatal e) = Unit
IfReturns P (quits a) = P a
IfReturns P endless = Unit

-- `start_game` pauses, gives up at the file, gives up at the robots, or begins a game.
abbrev pub Begun : Control → Control → Type 0
Begun c c' =
    (c' ≡ record c { state = pausing_between_games })
    ⊎ (c' ≡ c)
    ⊎ (c' ≡ record c { state = before_game_start })
    ⊎ (c' ≡ record c { state = game_in_progress; game_nr = c.game_nr + 1 })

-- `end_game` closes the sequence or starts a game.
abbrev pub Ended : Control → Control → Type 0
Ended c c' =
    (c.game_nr ≡ c.games_per_sequence) × (c' ≡ record c { state = shutting_down_robots })
    ⊎ ((c.game_nr == c.games_per_sequence) ≡ false) × Begun c c'

-- `end_sequence_follow_up` ends the tournament or starts the next sequence.
abbrev pub Followed : Control → Control → Type 0
Followed c c' =
    (c.sequence_nr ≡ c.sequences_in_tournament) × (c' ≡ record c { state = finished })
    ⊎ ((c.sequence_nr == c.sequences_in_tournament) ≡ false)
      × (c' ≡ record c { state = starting_robots; game_nr = 0; sequence_nr = c.sequence_nr + 1 })

pub IfReturns-map {ℓ} :
    {A : Type ℓ} (P Q : A → Type 0) (r : Result A)
    → ((a : A) → P a → Q a)
    → IfReturns P r
    → IfReturns Q r
IfReturns-map P Q (returns b a) f p = f a p
IfReturns-map P Q (fatal e) f p = tt
IfReturns-map P Q (quits a) f p = f a p
IfReturns-map P Q endless f p = tt

pub then_do-IfReturns {ℓ} :
    {A : Type ℓ} (P Q : A → Type 0) (r : Result A) (f : Bool → A → Result A)
    → IfReturns P r
    → ((b : Bool) (a : A) → P a → IfReturns Q (f b a))
    → ((a : A) → P a → Q a)
    → IfReturns Q (then_do r f)
then_do-IfReturns P Q (returns b a) f p k q = k b a p
then_do-IfReturns P Q (fatal e) f p k q = tt
then_do-IfReturns P Q (quits a) f p k q = q a p
then_do-IfReturns P Q endless f p k q = tt

module _ {ℓ κ} {W : Type ℓ} {S : Type κ} ⦃d : Double W⦄ ⦃inp : Input S⦄ ⦃dbl : DoubleInput W S⦄
    (h : Host W S) (o : Options W) where
  abbrev IsBegun : Control → Result (Arena W) → Type 0
  IsBegun c r = IfReturns (λ a. Begun c (control a)) r

  begin_game-IsBegun :
      (c : Control) (p : Bool × Arena W)
      → control p.1 ≡ record c { state = before_game_start }
      → IsBegun c (begin_game h o p)
  unfolding begin_game reset_timer set_state
  begin_game-IsBegun c (false, a) e = inr (inr (inl e))
  begin_game-IsBegun c (true, a) e =
      let begin : Control → Control =
        λ x. record x { state = game_in_progress; game_nr = x.game_nr + 1 } in
      inr (inr (inr (ap begin e)))

  placed-IsBegun :
      (c : Control) (r : Result (Arena W))
      → Sane (λ b. control b ≡ record c { state = before_game_start }) r
      → IsBegun c (then_begin h o r)
  placed-IsBegun c (returns ok a) e = begin_game-IsBegun c (ok, a) e
  placed-IsBegun c (fatal f) e = tt
  placed-IsBegun c (quits a) e = inr (inr (inl e))
  placed-IsBegun c endless e = tt

  on_parsed-IsBegun :
      (filename : String) (a : Arena W) (r : Option (Parsed W S))
      → IsBegun (control a) (on_parsed h o filename a r)
  unfolding on_parsed set_state
  on_parsed-IsBegun filename a none = tt
  on_parsed-IsBegun filename a (some r) =
      let a1 = record a { plan = r.plan } in
      let a2 =
        set_state before_game_start
          (record a1 { shot_count = 0; cookie_count = 0; mine_count = 0; robots_left = pos 0 }) in
      let seq = a.all_robots_in_sequence in
      if-holds (IsBegun (control a)) (not r.ok || not (has_slash filename))
        {t = Result.returns false a1} (inr (inl refl))
        (placed-IsBegun (control a) (place_robots h o seq a2)
          (place_robots-control h o seq a2 _ refl))

  on_file-IsBegun :
      (filename : String) (a : Arena W) (s : Option S)
      → IsBegun (control a) (on_file h o filename a s)
  unfolding on_file
  on_file-IsBegun filename a none = inr (inl refl)
  on_file-IsBegun filename a (some s) = on_parsed-IsBegun filename a _

  on_filename-IsBegun :
      (a : Arena W) (f : Option String) → IsBegun (control a) (on_filename h o a f)
  unfolding on_filename
  on_filename-IsBegun a none = tt
  on_filename-IsBegun a (some f) = on_file-IsBegun f a _

  pub start_game-IsBegun : (a : Arena W) → IsBegun (control a) (start_game h o a)
  unfolding start_game set_state
  start_game-IsBegun a =
      let nr = a.current_arena_nr % a.number_of_arenas + 1 in
      if-holds (IsBegun (control a)) a.pause_after_next_game (inl refl) (
        if-holds (IsBegun (control a)) (a.number_of_arenas == 0) tt (
          on_filename-IsBegun (record a { current_arena_nr = nr })
            (get_elem? a.arena_filenames (nr - 1))))

  pub start_sequence_follow_up-IsBegun :
      (a : Arena W) → IsBegun (control a) (start_sequence_follow_up h o a)
  unfolding start_sequence_follow_up roll_call
  start_sequence_follow_up-IsBegun a =
      if-holds (IsBegun (control a))
        (all_get_colours h o a (started a.robots a.all_robots_in_sequence))
        {t = start_game h o (roll_call a)} {u = fatal of_part} (start_game-IsBegun (roll_call a)) tt

  pub end_game-Ended :
      (a : Arena W) → IfReturns (λ b. Ended (control a) (control b)) (end_game h o a)
  unfolding end_game bury_all delete_lists end_sequence set_state
  end_game-Ended a =
      if-cases (λ (r : Result (Arena W)). IfReturns (λ b. Ended (control a) (control b)) r)
        (a.game_nr == a.games_per_sequence) (λ e. inl (ground arith, refl))
        (λ e.
          IfReturns-map (λ b. Begun (control a) (control b)) (λ b. Ended (control a) (control b)) _
            (λ b p. inr (e, p)) (start_game-IsBegun (bury_all a)))

  launch-IsLaunched :
      (a : Arena W) (picked : Option (List ℕ))
      → IfReturns
          (λ b.
            control b
            ≡ record (control a) { state = starting_robots; sequence_nr = a.sequence_nr + 1 })
          (launch h o a picked)
  unfolding launch reset_timer set_state
  launch-IsLaunched a none = tt
  launch-IsLaunched a (some picked) = refl

  on_row-IsLaunched :
      (a : Arena W) (row : Option (List ℕ))
      → IfReturns
          (λ b.
            control b
            ≡ record (control a) { state = starting_robots; sequence_nr = a.sequence_nr + 1 })
          (on_row h o a row)
  unfolding on_row
  on_row-IsLaunched a none = tt
  on_row-IsLaunched a (some row) = launch-IsLaunched a _

  pub end_sequence_follow_up-Followed :
      (a : Arena W)
      → IfReturns (λ b. Followed (control a) (control b)) (end_sequence_follow_up h o a)
  unfolding end_sequence_follow_up stop_processes start_sequence end_tournament set_state
  end_sequence_follow_up-Followed a =
      if-cases (λ (r : Result (Arena W)). IfReturns (λ b. Followed (control a) (control b)) r)
        (a.sequence_nr == a.sequences_in_tournament) (λ e. inl (ground arith, refl))
        (λ e.
          IfReturns-map
            (λ b. control b ≡ record (control a) {
              state = starting_robots;
              game_nr = 0;
              sequence_nr = a.sequence_nr + 1;
            })
            (λ b. Followed (control a) (control b)) _ (λ b p. inr (e, p))
            (on_row-IsLaunched (record (stop_processes a) { game_nr = 0; current_arena_nr = 0 }) _))
