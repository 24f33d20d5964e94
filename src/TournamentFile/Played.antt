-- ===== src/TournamentFile/Played.antt =====
-- From the tournament file of src/Various.cc to `start_tournament` of src/ArenaRealTime.cc.
use Prim.Native.String.{String}
use realtimebattle.Base.{
  ℕ, ◌<◌, ◌≤◌, ◌≡◌, Bool, List, Option, none, some, map, arith, length, length-map, All,
}
use realtimebattle.Base.Int.{ℤ, pos, negsuc, pos_part, ◌≤ℤ◌}
use realtimebattle.Chars.{Chars}
use realtimebattle.Double.{Double}
use realtimebattle.Options.{Options}
use realtimebattle.Directories.{FileSystem}
use realtimebattle.Schedule.{binomial}
use realtimebattle.Schedule.Rounds.{choose}
use realtimebattle.Schedule.Table.{
  Tabled, made, no_sequence, no_value, out_of_array, robots_in_sequence,
}
use realtimebattle.Schedule.Table.Kept.{IsRow, All-map}
use realtimebattle.Schedule.Table.Made.{IsTable, robots_in_sequence-IsTable}
use realtimebattle.TournamentFile.{
  Started, starts, returns_false, fatal_error, overflows, endless, parse_tournament_file,
}
use realtimebattle.TournamentFile.Sound.{IsStart, parse_tournament_file-IsStart}
use realtimebattle.Arena.Games.{Tournament}
use realtimebattle.Arena.Runs.{IfTournament}

-- `start_tournament_from_tournament_file`, with the rows that `start_tournament` makes; `name` gives the
-- text of a file name.
module _ (name : Chars → String) where
  abbrev with_table : List Chars → List Chars → ℤ → ℤ → ℤ → Tabled → Option Tournament
  with_table robots arenas robots_p_s games_p_s n_o_sequences (made rows rands) = some (record {
    robotfilenames = map name robots;
    arenafilenames = map name arenas;
    robots_p_game = pos_part robots_p_s;
    games_p_sequence = pos_part games_p_s;
    n_o_sequences = pos_part n_o_sequences;
    table = rows;
  })
  with_table robots arenas robots_p_s games_p_s n_o_sequences no_sequence = none
  with_table robots arenas robots_p_s games_p_s n_o_sequences no_value = none
  with_table robots arenas robots_p_s games_p_s n_o_sequences out_of_array = none

  module _ {ℓ} {W : Type ℓ} (d : Double W) (rand_max : ℕ) (rands : List ℕ) where
    unfoldable pub start_tournament_from_tournament_file : Started → Option Tournament
    start_tournament_from_tournament_file
          (starts robots arenas robots_p_s games_p_s n_o_sequences) =
        with_table robots arenas robots_p_s games_p_s n_o_sequences (
          robots_in_sequence d rand_max (length robots) (pos_part robots_p_s)
            (pos_part n_o_sequences) rands)
    start_tournament_from_tournament_file returns_false = none
    start_tournament_from_tournament_file fatal_error = none
    start_tournament_from_tournament_file overflows = none
    start_tournament_from_tournament_file endless = none

part_at_most : (z : ℤ) (n : ℕ) → pos 2 ≤ℤ z → z ≤ℤ pos n → pos_part z ≤ n
part_at_most (pos k) n h l = omega arith
part_at_most (negsuc k) n h l = omega arith

IsRow-All :
    (n r k : ℕ) (rows : List (List ℕ))
    → k ≡ n
    → All (IsRow n r) rows
    → All (All (λ nr. nr ≤ k)) rows
IsRow-All n r k rows e h =
    All-map (IsRow n r) (All (λ nr. nr ≤ k)) rows
      (λ row g.
        All-map (λ nr. (0 < nr) × (nr ≤ n)) (λ nr. nr ≤ k) row (λ nr b. omega (arith, b.1)) g.1)
      h

module _ {ℓ} {W : Type ℓ} (d : Double W) (rand_max : ℕ) (name : Chars → String) where
  started-IsTournament :
      (fs : FileSystem) (text : Option Chars) (fatal : Bool) (robots arenas : List Chars)
      (robots_p_s games_p_s n_o_sequences : ℤ) (rows : List (List ℕ)) (rest : List ℕ)
      → IsStart fs text fatal (starts robots arenas robots_p_s games_p_s n_o_sequences)
      → 0 < length arenas
      → IsTable d rand_max
          (length robots)
          (pos_part robots_p_s)
          (pos_part n_o_sequences)
          (made rows rest)
      → IfTournament
          (with_table name robots arenas robots_p_s games_p_s n_o_sequences (made rows rest))
  started-IsTournament fs text fatal robots arenas robots_p_s games_p_s n_o_sequences rows rest
        start some_arena table =
      let (all_robots, all_arenas, two, at_most, games, sequences) = start in
      record {
        some_game = ground arith;
        some_arena = omega (arith, length-map arenas name);
        some_sequence = ground arith;
        some_robot = omega (arith, length-map robots name, two, at_most);
        a_row_each = table.0;
        rows_of_robots =
            IsRow-All (length robots) (pos_part robots_p_s) (length (map name robots)) rows
              (length-map robots name) table.1;
      }

  -- What a tournament file starts is what `start_tournament` asks for, if there is an arena, binomial gives
  -- the number of groups of robots, and the values of rand() are enough for the table: at least one game,
  -- one sequence and one robot, and a row of robots that are there for each sequence.
  pub parse_tournament_file-IsTournament :
      (o : Options W) (fs : FileSystem) (to_int : ℤ → Chars → ℤ) (robotdir arenadir : Option Chars)
      (open_file : Chars → Option Chars) (fname : Chars) (fatal : Bool) (robots arenas : List Chars)
      (robots_p_s games_p_s n_o_sequences : ℤ) (rands : List ℕ) (rows : List (List ℕ))
      (rest : List ℕ)
      → parse_tournament_file d o fs to_int robotdir arenadir open_file fname fatal
        ≡ starts robots arenas robots_p_s games_p_s n_o_sequences
      → 0 < length arenas
      → binomial d (length robots) (pos_part robots_p_s)
        ≡ pos (choose (length robots) (pos_part robots_p_s))
      → robots_in_sequence d rand_max
          (length robots)
          (pos_part robots_p_s)
          (pos_part n_o_sequences)
          rands
        ≡ made rows rest
      → IfTournament (
          start_tournament_from_tournament_file name d rand_max rands
            (parse_tournament_file d o fs to_int robotdir arenadir open_file fname fatal))
  unfolding start_tournament_from_tournament_file
  parse_tournament_file-IsTournament o fs to_int robotdir arenadir open_file fname fatal robots
        arenas robots_p_s games_p_s n_o_sequences rands rows rest parsed some_arena groups table =
      let start : IsStart fs (open_file fname) fatal
          (starts robots arenas robots_p_s games_p_s n_o_sequences) =
        rw parsed at
          (parse_tournament_file-IsStart d o fs to_int robotdir arenadir open_file fname fatal) in
      let n = length robots in
      let r = pos_part robots_p_s in
      let right =
        robots_in_sequence-IsTable d rand_max n r (pos_part n_o_sequences) (omega (arith, start.2))
          (part_at_most robots_p_s n start.2 start.3) groups in
      let rows_right : IsTable d rand_max n r (pos_part n_o_sequences) (made rows rest) =
        rw table at (right.0 rands) in
      rw (parsed, start_tournament_from_tournament_file, table)
        (started-IsTournament fs (open_file fname) fatal robots arenas robots_p_s games_p_s
          n_o_sequences rows rest start some_arena rows_right)
