-- ===== src/TournamentFile.antt =====
-- The reader of tournament files: parse_tournament_file of src/Various.cc. The texts of its errors are
-- left out. The stream is the characters that are left and whether eof() holds. A word of 200 characters or
-- more is written behind the end of the buffer.
mod Words
pub mod Sound
pub mod Played
use realtimebattle.Base.{
  ℕ, zero, suc, ◌+◌, Bool, true, false, ◌&&◌, ◌||◌, List, [], ◌∷◌, Option, none, some, map, leb,
  ltb, ◌==◌, if◌then◌else◌, length,
}
use realtimebattle.Base.Int.{ℤ, pos, negsuc, pos_part, ltb_ℤ}
use realtimebattle.Chars.{Chars, codes, is_empty, same_text, tolower}
use realtimebattle.Double.{Double}
use realtimebattle.Schedule.{binomial}
use realtimebattle.Options.{Options}
use realtimebattle.Directories.{
  FileSystem, Listed, listed, exception, no_end, check_for_robots_and_arenas, read_robotdirs,
  read_arenadirs,
}

pub record Stream : Type 0 where
  pub unread : Chars
  pub at_eof : Bool

abbrev pub is_space : ℕ → Bool
is_space c = c == b' ' || leb 9 c && leb c 13

abbrev pub skip_ws : Chars → Chars
skip_ws [] = []
skip_ws (c ∷ cs) = if is_space c then skip_ws cs else c ∷ cs

abbrev pub word_of : Chars → Chars
word_of [] = []
word_of (c ∷ cs) = if is_space c then [] else c ∷ word_of cs

abbrev pub after_word : Chars → Chars
after_word [] = []
after_word (c ∷ cs) = if is_space c then c ∷ cs else after_word cs

abbrev pub take_word : Chars → Chars → Chars × Stream
take_word buffer [] = (buffer, record { unread = []; at_eof = true })
take_word buffer (c ∷ cs) =
    (c ∷ word_of cs, record { unread = after_word cs; at_eof = is_empty (after_word cs) })

-- `file >> buffer`: the buffer stays where there is no word.
unfoldable pub read_word : Chars → Stream → Chars × Stream
read_word buffer s = if s.at_eof then (buffer, s) else take_word buffer (skip_ws s.unread)

-- `char buffer[200]` has no place for the word and its end.
abbrev pub too_long : Chars → Bool
too_long word = ltb 199 (length word)

pub data LookingFor : Type 0 where
  keyword robot arena : LookingFor

-- The variables of the function.
pub record Reading : Type 0 where
  pub looking_for : LookingFor
  pub games_p_s : ℤ
  pub robots_p_s : ℤ
  pub n_o_sequences : ℤ
  pub robot_list : List Chars
  pub arena_list : List Chars

-- The call of the function that starts the tournament, `return false`, a fatal error, a write behind the end of
-- the buffer, or no end within the fuel.
pub data Started : Type 0 where
  starts : List Chars → List Chars → ℤ → ℤ → ℤ → Started
  returns_false fatal_error overflows endless : Started

abbrev is_minus_one : ℤ → Bool
is_minus_one (pos n) = false
is_minus_one (negsuc n) = n == 0

-- `min_rtb` on `int`.
abbrev pub min_ℤ : ℤ → ℤ → ℤ
min_ℤ a b = if ltb_ℤ a b then a else b

abbrev fail : Bool → Started
fail fatal_error_on_file_failure =
    if fatal_error_on_file_failure then fatal_error else returns_false

-- The tests before the tournament starts.
unfoldable pub start_tested : Bool → List Chars → List Chars → ℤ → ℤ → ℤ → Started
start_tested fatal robot_list arena_list robots games sequences =
    let robots_p_s = min_ℤ (pos (length robot_list)) robots in
    if ltb_ℤ robots_p_s (pos 2)
    then fail fatal
    else if ltb_ℤ games (pos 1)
    then fail fatal
    else if ltb_ℤ sequences (pos 1)
    then fail fatal
    else starts robot_list arena_list robots_p_s games sequences

-- At the end of the file. For a k that is not positive binomial makes no round, as for 0.
unfoldable pub finish {ℓ} : {W : Type ℓ} → Double W → Bool → Reading → Started
finish d fatal r =
    let robots_counted = length r.robot_list in
    let games = if is_minus_one r.games_p_s then pos (length r.arena_list) else r.games_p_s in
    let robots = if is_minus_one r.robots_p_s then pos robots_counted else r.robots_p_s in
    let sequences =
      if is_minus_one r.n_o_sequences
      then binomial d robots_counted (pos_part games)
      else r.n_o_sequences in
    start_tested fatal r.robot_list r.arena_list robots games sequences

abbrev starts_with_star : Chars → Bool
starts_with_star [] = false
starts_with_star (c ∷ cs) = c == b'*'

abbrev pub is_one_of : Chars → Chars → Chars → Bool
is_one_of w a b = same_text w a || same_text w b

-- The words that a number follows.
abbrev pub takes_number : Chars → Bool
takes_number word =
    let word_lower = map tolower word in
    is_one_of word_lower (codes "games/sequence:") (codes "g/s:")
    || (is_one_of word_lower (codes "robots/sequence:") (codes "r/s:")
        || is_one_of word_lower (codes "sequences:") (codes "seq:"))

abbrev pub with_robots : Reading → Option (List Chars) → Option Reading
with_robots r none = none
with_robots r (some found) = some (record r { robot_list = found })

abbrev pub with_arenas : Reading → Option (List Chars) → Option Reading
with_arenas r none = none
with_arenas r (some found) = some (record r { arena_list = found })

abbrev pub on_stream : Stream → Option Reading → Option (Reading × Stream)
on_stream s none = none
on_stream s (some r) = some (r, s)

-- What `string2number >> v` makes of v and a text is a parameter.
module _ (fs : FileSystem) (to_int : ℤ → Chars → ℤ) (robotdirs arenadirs : List Chars) where
  -- The number after a keyword.
  unfoldable pub number_or_star : ℤ → Chars → ℤ
  number_or_star old buffer = if starts_with_star buffer then negsuc 0 else to_int old buffer

  -- A word that is no keyword. No state is the fatal error.
  unfoldable pub on_other : LookingFor → Chars → Reading → Option Reading
  on_other keyword word r = some r
  on_other robot word r =
      with_robots r (check_for_robots_and_arenas fs word r.robot_list robotdirs true)
  on_other arena word r =
      with_arenas r (check_for_robots_and_arenas fs word r.arena_list arenadirs false)

  -- The body of the loop after the word has been read, which the buffer has.
  unfoldable pub on_word : Chars → Stream → Reading → Option (Reading × Stream)
  unfolding number_or_star on_other read_word
  on_word buffer s r =
      let word_lower = map tolower buffer in
      let (next, s') = read_word buffer s in
      if is_one_of word_lower (codes "games/sequence:") (codes "g/s:")
      then some
          (record r { looking_for = keyword; games_p_s = number_or_star r.games_p_s next }, s')
      else if is_one_of word_lower (codes "robots/sequence:") (codes "r/s:")
      then some
          (record r { looking_for = keyword; robots_p_s = number_or_star r.robots_p_s next }, s')
      else if is_one_of word_lower (codes "sequences:") (codes "seq:")
      then some (
        record r { looking_for = keyword; n_o_sequences = number_or_star r.n_o_sequences next },
        s',
      )
      else if is_one_of word_lower (codes "robots:") (codes "r:")
      then some (record r { looking_for = robot }, s)
      else if is_one_of word_lower (codes "arenas:") (codes "a:")
      then some (record r { looking_for = arena }, s)
      else on_stream s (on_other r.looking_for buffer r)

  -- The loop, with fuel for its rounds.
  unfoldable pub parse_loop {ℓ} : {W : Type ℓ} → Double W → Bool → ℕ → Stream → Reading → Started
  unfolding read_word on_word finish
  parse_loop d fatal zero s r = endless
  parse_loop d fatal (suc fuel) s r =
      let (word, s1) = read_word [] s in
      elim (too_long word) [
        | true ↦ overflows
        | false ↦ elim s1.at_eof [
          | true ↦ finish d fatal r
          | false ↦ elim (takes_number word && too_long (read_word word s1).0) [
            | true ↦ overflows
            | false ↦ elim (on_word word s1 r) [
              | none ↦ fatal_error
              | some (r', s') ↦ parse_loop d fatal fuel s' r'
            ]
          ]
        ]
      ]

abbrev pub first_reading : Reading
first_reading = record {
  looking_for = keyword;
  games_p_s = pos 1;
  robots_p_s = pos 2;
  n_o_sequences = pos 1;
  robot_list = [];
  arena_list = [];
}

module _ {ℓ} {W : Type ℓ} (d : Double W) (o : Options W) (fs : FileSystem) (to_int : ℤ → Chars → ℤ)
    (robotdir arenadir : Option Chars) where
  -- The text is that of the file, if it can be opened.
  unfoldable pub parse_text : Bool → Listed → Listed → Option Chars → Started
  unfolding parse_loop
  parse_text fatal exception arenas text = fatal_error
  parse_text fatal no_end arenas text = endless
  parse_text fatal (listed robotdirs) exception text = fatal_error
  parse_text fatal (listed robotdirs) no_end text = endless
  parse_text fatal (listed robotdirs) (listed arenadirs) none = fail fatal
  parse_text fatal (listed robotdirs) (listed arenadirs) (some text) =
      parse_loop fs to_int robotdirs arenadirs d fatal (length text + 1)
        (record { unread = text; at_eof = false }) first_reading

  unfoldable pub parse_tournament_file : (Chars → Option Chars) → Chars → Bool → Started
  unfolding parse_text read_robotdirs read_arenadirs
  parse_tournament_file open_file fname fatal_error_on_file_failure =
      parse_text fatal_error_on_file_failure (read_robotdirs o robotdir) (read_arenadirs o arenadir)
        (open_file fname)
