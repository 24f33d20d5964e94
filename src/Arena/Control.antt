-- ===== src/Arena/Control.antt =====
-- The part of the arena of src/ArenaRealTime.cc that says how far a tournament is, and what is
-- consistent in it.
use Prim.Native.String.{String}
use realtimebattle.Base.{
  ℕ, zero, suc, ◌≤◌, ◌<◌, ◌≡◌, refl, ◌∙◌, List, [], ◌∷◌, Option, none, some, All, length, if-holds,
}
use realtimebattle.Base.Int.{ℤ, pos, ◌≤ℤ◌}
use realtimebattle.Double.{Double}
use realtimebattle.Input.{Input, DoubleInput}
use realtimebattle.Options.{Options}
use realtimebattle.Vector2D.{Vector2D}
use realtimebattle.Options as opt
use realtimebattle.Arena.{
  State, no_state, not_started, starting_robots, game_in_progress, pausing_between_games, paused,
  before_game_start, shutting_down_robots, finished, exiting, Arena, Result, returns, fatal, quits,
  endless, Fault, of_part, on_part, at_pointer,
}
use realtimebattle.Arena.Placing.{Host, find_space, place_at, place_next, place_robots}

pub record Control : Type 0 where
  pub state : State
  pub game_nr : ℕ
  pub games_per_sequence : ℕ
  pub sequence_nr : ℕ
  pub sequences_in_tournament : ℕ
  pub number_of_arenas : ℕ
  pub arena_filenames : List String
  pub robots_in_sequence : List (List ℕ)
  pub all_robots_in_tournament : List ℕ
  pub debug_level : ℤ

abbrev pub control {ℓ} : {W : Type ℓ} → Arena W → Control
control a = record {
  state = a.state;
  game_nr = a.game_nr;
  games_per_sequence = a.games_per_sequence;
  sequence_nr = a.sequence_nr;
  sequences_in_tournament = a.sequences_in_tournament;
  number_of_arenas = a.number_of_arenas;
  arena_filenames = a.arena_filenames;
  robots_in_sequence = a.robots_in_sequence;
  all_robots_in_tournament = a.all_robots_in_tournament;
  debug_level = a.debug_level;
}

-- What a tournament that runs keeps: its games, its arenas, and its table with a robot for every entry.
pub record IsReady (games arenas sequences : ℕ) (names : List String) (table : List (List ℕ))
    (robots : List ℕ) : Type 0 where
  pub has_games : 0 < games
  pub has_arenas : 0 < arenas
  pub arenas_listed : length names ≡ arenas
  pub sequences_listed : length table ≡ sequences
  pub has_robots : 0 < length robots
  pub robots_listed : All (All (λ nr. nr ≤ length robots)) table

-- With the sequence that it is in.
abbrev pub IsRunning : Control → Type 0
IsRunning c =
    IsReady c.games_per_sequence c.number_of_arenas c.sequences_in_tournament c.arena_filenames
      c.robots_in_sequence c.all_robots_in_tournament
    × (c.sequence_nr ≤ c.sequences_in_tournament)

abbrev pub IsBetween : Control → Type 0
IsBetween c = IsRunning c × (c.game_nr < c.games_per_sequence)

abbrev pub IsInGame : Control → Type 0
IsInGame c = IsRunning c × (0 < c.game_nr) × (c.game_nr ≤ c.games_per_sequence)

-- The number of the game, by the state. In `no_state` and `exiting` the arena never is.
abbrev pub IsAt : State → Control → Type 0
IsAt no_state c = ⊥
IsAt not_started c = Unit
IsAt starting_robots c = IsBetween c
IsAt game_in_progress c = IsInGame c
IsAt paused c = IsInGame c
IsAt pausing_between_games c = IsBetween c
IsAt before_game_start c = IsBetween c
IsAt shutting_down_robots c = IsRunning c × (c.game_nr ≡ c.games_per_sequence)
IsAt finished c = Unit
IsAt exiting c = ⊥

abbrev pub IsLevel : ℤ → Type 0
IsLevel n = (pos 0 ≤ℤ n) × (n ≤ℤ pos 5)

abbrev pub IsConsistent : Control → Type 0
IsConsistent c = IsAt c.state c × IsLevel c.debug_level

abbrev pub IsOfPart : Fault → Type 0
IsOfPart of_part = Unit
IsOfPart _ = ⊥

-- The code returns with this, or quits; it does not end in an error, but for that of a part which is a parameter.
-- It may read a file for ever.
abbrev pub Sane {ℓ} : {A : Type ℓ} (P : A → Type 0) → Result A → Type 0
Sane P (returns b a) = P a
Sane P (fatal e) = IsOfPart e
Sane P (quits a) = P a
Sane P endless = Unit

pub on_part-Sane {ℓ κ} :
    {A : Type ℓ} {B : Type κ} (P : B → Type 0) (x : Option A) (f : A → Result B)
    → ((a : A) → Sane P (f a))
    → Sane P (on_part x f)
on_part-Sane P none f k = tt
on_part-Sane P (some a) f k = k a

module _ {ℓ κ} {W : Type ℓ} {S : Type κ} ⦃d : Double W⦄ ⦃inp : Input S⦄ ⦃dbl : DoubleInput W S⦄
    (h : Host W S) (o : Options W) where
  pub find_space-control :
      (n : ℕ) (margin : W) (a : Arena W) → control (find_space h o n margin a).1 ≡ control a
  unfolding find_space
  find_space-control zero margin a = refl
  find_space-control (suc n) margin a =
      if-holds (λ (p : Option (Vector2D W) × Arena W). control p.1 ≡ control a) _ refl
        (find_space-control n margin _)

  place_next-control :
      (r : ℕ) (rest : Arena W → Result (Arena W)) (f : Option (Vector2D W) × Arena W) (c : Control)
      → ((a : Arena W) → control a ≡ c → Sane (λ b. control b ≡ c) (rest a))
      → control f.1 ≡ c
      → Sane (λ b. control b ≡ c) (place_next h o r rest f)
  unfolding place_next place_at
  place_next-control r rest (none, a) c keeps e = e
  place_next-control r rest (some p, a) c keeps e = keeps (place_at h o r p a) e

  -- The robots are placed, there is no space for one, or a part ends in an error; the control part stays.

  pub place_robots-control :
      (rs : List ℕ) (a : Arena W) (c : Control)
      → control a ≡ c
      → Sane (λ b. control b ≡ c) (place_robots h o rs a)
  unfolding place_robots
  place_robots-control [] a c e = e
  place_robots-control (r ∷ rs) a c e =
      on_part-Sane (λ b. control b ≡ c) (h.heard r a) _
        (λ x.
          let margin = d.mul (opt.get_d o opt.robot_radius) (d.lit 12 1) in
          let a1 = record a { robots = at_pointer (λ _. x) r a.robots } in
          place_next-control r (place_robots h o rs) (find_space h o 100 margin a1) c
            (λ b. place_robots-control rs b c) (find_space-control 100 margin a1 ∙ e))
