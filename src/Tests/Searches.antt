-- ===== src/Tests/Searches.antt =====
-- The theorems on directories, tournament files and log files at concrete inputs.
use realtimebattle.Base.{
  ◌≡◌, refl, true, false, [], ◌∷◌, Option, some, none, arith, replicate, if◌then◌else◌,
}
use realtimebattle.Base.Int.{ℤ, pos, ◌*ℤ◌}
use realtimebattle.Double.Whole.{Whole, whole_double}
use realtimebattle.Options.{Options, get_s, option_info, entry_char, misc}
use realtimebattle.Chars.{Chars, codes, same_text, is_empty, fields}
use realtimebattle.Directories.{
  FileSystem, listed, with_slash, split_colonseparated_dirs, search_directories, check_file,
  check_for_robots_and_arenas,
}
use realtimebattle.Directories.Split.{slashed, add_all, split_colonseparated_dirs-fields}
use realtimebattle.Directories.Found.{Extends, check_for_robots_and_arenas-Extends}
use realtimebattle.Directories.Short.{
  is_none, any, ends_search, entries_of, search_directories-is_short,
}
use realtimebattle.Schedule.{
  binomial, complete_round, round_from, next_sequence, raise, last_free, fill_up, scaled_rand,
}
use realtimebattle.Schedule.Rest.{rest_rows}
use realtimebattle.Schedule.Rounds.{choose}
use realtimebattle.Schedule.Shuffle.{reorder_pointer_array}
use realtimebattle.Schedule.Table.{made, robots_in_sequence}
use realtimebattle.Arena.Runs.{IfTournament}
use realtimebattle.TournamentFile.{starts, start_tested, parse_tournament_file}
use realtimebattle.TournamentFile.Played.{
  start_tournament_from_tournament_file, parse_tournament_file-IsTournament,
}
use realtimebattle.TournamentFile.Sound.{IsStart, parse_tournament_file-IsStart}
use realtimebattle.LogFile.{check_logfile}
use realtimebattle.LogFile.Lines.{answer, are_lines, check_logfile-are_lines}

-- All files are regular and may be run and read; the log has three lines, every other file is an arena.
-- A directory has a robot and a program with a short name.
abbrev log : Chars
log = codes "HRealTimeBattle\nG 1\nR 1"

abbrev files : FileSystem
files = record {
  stat = λ f. some (record { is_regular = true; is_executable = true; is_readable = true });
  contents = λ f. some (if same_text f (codes "x.log") then log else codes "scale 2\n");
  entries = λ d. some (codes "a.robot" ∷ codes "ls" ∷ []);
}

split_colonseparated_dirs-fields_example : split_colonseparated_dirs (codes "a:b/") [] ≡ (
    if is_empty (codes "a:b/")
    then listed []
    else add_all [] (slashed (fields b':' (codes "a:b/"))))
split_colonseparated_dirs-fields_example = split_colonseparated_dirs-fields (codes "a:b/") []

two_dirs : split_colonseparated_dirs (codes "a:b/") [] ≡ listed (codes "a/" ∷ codes "b/" ∷ [])
unfolding split_colonseparated_dirs with_slash
two_dirs = refl

check_for_robots_and_arenas-Extends_example :
    Extends files false []
      (check_for_robots_and_arenas files (codes "o.arena") [] (codes "a/" ∷ []) false)
check_for_robots_and_arenas-Extends_example =
    check_for_robots_and_arenas-Extends files false (codes "o.arena") [] (codes "a/" ∷ [])

search_directories-is_short_example :
    is_none (search_directories files (codes "./") [] true)
    ≡ any (ends_search files true (codes "./")) (entries_of (files.entries (codes "./")))
search_directories-is_short_example = search_directories-is_short files true (codes "./") []

-- "./ls" has four characters.
short_program : is_none (search_directories files (codes "./") [] true) ≡ true
unfolding search_directories check_file
short_program = refl

abbrev options : Options Whole
options = record {
  all_double_options = [];
  all_long_options = [];
  all_string_options =
      option_info entry_char misc "d" "" "" 1000 false false "Robot search path"
      ∷ option_info entry_char misc "d" "" "" 1000 false false "Arena search path"
      ∷ [];
}

abbrev tournament : Chars → Option Chars
tournament f = some (codes "R: a.robot b.robot A: c.arena G/S: * \n")

abbrev unchanged : ℤ → Chars → ℤ
unchanged old s = old

parse_tournament_file-IsStart_example : IsStart files (tournament (codes "t")) true (
    parse_tournament_file whole_double options files unchanged none none tournament
      (codes "t")
      true)
parse_tournament_file-IsStart_example =
    parse_tournament_file-IsStart whole_double options files unchanged none none tournament
      (codes "t") true

check_logfile-are_lines_example :
    check_logfile files (codes "x.log") ≡ answer (are_lines 1 (fields b'\n' log))
check_logfile-are_lines_example =
    check_logfile-are_lines files (codes "x.log")
      (record { is_regular = true; is_executable = true; is_readable = true }) log refl refl refl

the_start :
    parse_tournament_file whole_double options files unchanged none none tournament (codes "t") true
    ≡ starts
        (codes "d/a.robot" ∷ codes "d/b.robot" ∷ [])
        (codes "d/c.arena" ∷ [])
        (pos 2)
        (pos 1)
        (pos 1)
unfolding parse_tournament_file split_colonseparated_dirs with_slash get_s
    check_for_robots_and_arenas check_file start_tested
the_start = refl

one_pair : binomial whole_double 2 2 ≡ pos (choose 2 2)
unfolding binomial ◌*ℤ◌
one_pair = refl

one_row : robots_in_sequence whole_double 9 2 2 1 (replicate 10 0) ≡ made ((1 ∷ 2 ∷ []) ∷ []) []
unfolding robots_in_sequence complete_round round_from next_sequence raise last_free fill_up
    rest_rows reorder_pointer_array scaled_rand ◌*ℤ◌
one_row = refl

parse_tournament_file-IsTournament_example : IfTournament (
    start_tournament_from_tournament_file
      (λ f. "x")
      whole_double
      9
      (replicate 10 0)
      (parse_tournament_file whole_double options files unchanged none none tournament
        (codes "t")
        true))
parse_tournament_file-IsTournament_example =
    parse_tournament_file-IsTournament whole_double 9 (λ f. "x") options files unchanged none none
      tournament (codes "t") true (codes "d/a.robot" ∷ codes "d/b.robot" ∷ [])
      (codes "d/c.arena" ∷ []) (pos 2) (pos 1) (pos 1) (replicate 10 0) ((1 ∷ 2 ∷ []) ∷ []) []
      the_start (omega arith) one_pair one_row
