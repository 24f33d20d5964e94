-- ===== src/Directories.antt =====
-- The search for the files of robots and arenas: split_colonseparated_dirs, read_dirs_from_system,
-- check_if_filename_is_robot, check_if_filename_is_arena, search_directories and
-- check_for_robots_and_arenas of src/Various.cc. The messages on files that are not found are left
-- out; the file system is a parameter.
pub mod Split
pub mod Found
pub mod Short
use realtimebattle.Base.{
  ℕ, zero, suc, ◌+◌, ◌-◌, Bool, true, false, not, ◌&&◌, ◌||◌, List, [], ◌∷◌, ◌++◌, Option, none,
  some, ltb, ◌==◌, if◌then◌else◌, length, take,
}
use realtimebattle.Chars.{
  Chars, codes, is_empty, same_text, before, find, find_from, substr, last_chars, last_char,
}
use realtimebattle.Options.{Options, get_s, StringOption}

-- What `stat` tells of a file, and what is in it.
pub record FileStat : Type 0 where
  pub is_regular : Bool
  pub is_executable : Bool
  pub is_readable : Bool

pub record FileSystem : Type 0 where
  pub stat : Chars → Option FileStat
  -- what is in it, if it can be opened
  pub contents : Chars → Option Chars
  -- `opendir` and the entries that `readdir` gives
  pub entries : Chars → Option (List Chars)

-- A stream that is not open gives no text.
abbrev pub text_of : Option Chars → Chars
text_of none = []
text_of (some text) = text

-- How a function ends that gives a list: with it, or with the fatal error on an exception.
pub data Listed : Type 0 where
  listed : List Chars → Listed
  exception : Listed
  no_end : Listed

-- `if(current_dir.at(current_dir.size() - 1) != '/') current_dir += '/';`
unfoldable pub with_slash : Chars → Option Chars
with_slash dir = elim (last_char dir) [
  | none ↦ none
  | some c ↦ some (if c == b'/' then dir else dir ++ b'/' ∷ [])
]

abbrev pub push_dir : List Chars → Option Chars → Listed
push_dir str_list none = exception
push_dir str_list (some dir) = listed (str_list ++ dir ∷ [])

-- After the loop.
unfoldable pub last_dir : Chars → ℕ → Chars → List Chars → Listed
last_dir dirs lastpos current_dir str_list =
    if is_empty current_dir
    then listed str_list
    else push_dir str_list (with_slash (substr dirs lastpos (length dirs - lastpos)))

-- The loop, with fuel for its rounds.
unfoldable pub split_loop : ℕ → Chars → ℕ → Chars → List Chars → Listed
unfolding last_dir
split_loop zero dirs lastpos current_dir str_list = no_end
split_loop (suc fuel) dirs lastpos current_dir str_list = elim (find_from b':' dirs lastpos) [
  | none ↦ last_dir dirs lastpos current_dir str_list
  | some pos ↦ elim (with_slash (substr dirs lastpos (pos - lastpos))) [
    | none ↦ exception
    | some dir ↦ split_loop fuel dirs (pos + 1) dir (str_list ++ dir ∷ [])
  ]
]

unfoldable pub split_colonseparated_dirs : Chars → List Chars → Listed
unfolding split_loop
split_colonseparated_dirs dirs str_list = split_loop (length dirs + 1) dirs 0 dirs str_list

-- The two answers to a name are an exception, which is the fatal error, or whether it is such a file.
module _ (fs : FileSystem) where
  unfoldable pub check_if_filename_is_robot : Chars → Option Bool
  check_if_filename_is_robot fname = elim (fs.stat fname) [
    | none ↦ some false
    | some filestat ↦
        if filestat.is_regular && filestat.is_executable
        then elim (last_chars fname 6) [
          | none ↦ none
          | some end ↦ some (same_text (codes ".robot") end)
        ]
        else some false
  ]

  -- `fin.get(text, 7)` takes at most 6 characters, up to the end of the line.
  unfoldable pub check_if_filename_is_arena : Chars → Option Bool
  check_if_filename_is_arena fname = elim (fs.stat fname) [
    | none ↦ some false
    | some filestat ↦
        if ltb 6 (length fname) && (filestat.is_regular && filestat.is_readable)
        then elim (last_chars fname 6) [
          | none ↦ none
          | some end ↦ some (
              same_text (codes ".arena") end
              && same_text (take 6 (before b'\n' (text_of (fs.contents fname)))) (codes "scale "))
        ]
        else some false
  ]

  unfoldable pub check_file : Bool → Chars → Option Bool
  unfolding check_if_filename_is_robot check_if_filename_is_arena
  check_file check_robots fname =
      if check_robots then check_if_filename_is_robot fname else check_if_filename_is_arena fname

  -- A file that is found is put at the end of the list. No list is the fatal error.
  unfoldable pub search_entries : Bool → Chars → List Chars → List Chars → Option (List Chars)
  search_entries check_robots directory [] tour_list = some tour_list
  search_entries check_robots directory (e ∷ es) tour_list =
      elim (check_file check_robots (directory ++ e)) [
        | none ↦ none
        | some res ↦
            search_entries check_robots directory es
              (if res then tour_list ++ (directory ++ e) ∷ [] else tour_list)
      ]

  unfoldable pub search_directories : Chars → List Chars → Bool → Option (List Chars)
  unfolding search_entries
  search_directories directory tour_list check_robots = elim (fs.entries directory) [
    | none ↦ some tour_list
    | some es ↦ search_entries check_robots directory es tour_list
  ]

  -- The word "*": all directories of the list.
  unfoldable pub search_all : List Chars → List Chars → Bool → Option (List Chars)
  unfolding search_directories
  search_all [] tour_list check_robots = some tour_list
  search_all (dir ∷ dirs) tour_list check_robots =
      elim (search_directories dir tour_list check_robots) [
        | none ↦ none
        | some found ↦ search_all dirs found check_robots
      ]

  -- The first of the directories that has the file.
  unfoldable pub search_file : Chars → List Chars → List Chars → Bool → Option (List Chars)
  search_file word [] tour_list check_robots = some tour_list
  search_file word (dir ∷ dirs) tour_list check_robots =
      elim (check_file check_robots (dir ++ word)) [
        | none ↦ none
        | some true ↦ some (tour_list ++ (dir ++ word) ∷ [])
        | some false ↦ search_file word dirs tour_list check_robots
      ]

  -- A word with a slash is tried as it is before the directories are.
  unfoldable pub search_word : Chars → List Chars → List Chars → Bool → Option (List Chars)
  unfolding search_file
  search_word word tour_list dir_list check_robots = elim (find b'/' word) [
    | none ↦ search_file word dir_list tour_list check_robots
    | some i ↦ elim (check_file check_robots word) [
      | none ↦ none
      | some true ↦ some (tour_list ++ word ∷ [])
      | some false ↦ search_file word dir_list tour_list check_robots
    ]
  ]

  unfoldable pub check_for_robots_and_arenas :
      Chars → List Chars → List Chars → Bool → Option (List Chars)
  unfolding search_directories search_all search_word
  check_for_robots_and_arenas word tour_list dir_list check_robots =
      if ltb 1 (length word) && same_text (substr word (length word - 2) 2) (codes "/*")
      then search_directories (substr word 0 (length word - 1)) tour_list check_robots
      else if same_text word (codes "*")
      then search_all dir_list tour_list check_robots
      else search_word word tour_list dir_list check_robots

-- ROBOTDIR and ARENADIR are set when the program is built.
abbrev pub and_system : Option Chars → Listed → Listed
and_system none l = l
and_system (some dir) (listed ds) = listed (ds ++ (dir ++ b'/' ∷ []) ∷ [])
and_system (some dir) exception = exception
and_system (some dir) no_end = no_end

unfoldable pub read_robotdirs {ℓ} : {W : Type ℓ} → Options W → Option Chars → Listed
read_robotdirs o robotdir =
    and_system robotdir
      (split_colonseparated_dirs (codes (get_s o StringOption.robot_search_path)) [])

unfoldable pub read_arenadirs {ℓ} : {W : Type ℓ} → Options W → Option Chars → Listed
read_arenadirs o arenadir =
    and_system arenadir
      (split_colonseparated_dirs (codes (get_s o StringOption.arena_search_path)) [])
