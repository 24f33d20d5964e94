-- ===== src/LogFile.antt =====
-- The test of a log file before it is replayed: check_logfile of src/Various.cc. Its messages are left
-- out.
pub mod Lines
use realtimebattle.Base.{
  ℕ, zero, suc, ◌+◌, Bool, true, false, ◌&&◌, ◌||◌, List, [], ◌∷◌, Option, none, some, ◌==◌,
  if◌then◌else◌, length,
}
use realtimebattle.Chars.{Chars}
use realtimebattle.Directories.{FileStat, FileSystem}

-- What `fin.getline` finds: a line and what follows it, the end of the file, or more characters than
-- the buffer takes.
pub data Got : Type 0 where
  line : Chars → Chars → Got
  end : Got
  too_long : Chars → Got

abbrev pub put_before : ℕ → Got → Got
put_before c (line l rest) = line (c ∷ l) rest
put_before c end = end
put_before c (too_long l) = too_long (c ∷ l)

-- `getline` for so many characters at most.
unfoldable pub getline : ℕ → Chars → Got
getline n [] = end
getline zero (c ∷ cs) = if c == b'\n' then line [] cs else too_long []
getline (suc n) (c ∷ cs) = if c == b'\n' then line [] cs else put_before c (getline n cs)

-- `buffer[0]`
abbrev pub first_of : Chars → ℕ
first_of [] = 0
first_of (c ∷ cs) = c

abbrev pub is_letter : ℕ → Bool
is_letter c =
    c == b'A'
    || c == b'G'
    || c == b'O'
    || c == b'L'
    || c == b'R'
    || c == b'T'
    || c == b'P'
    || c == b'C'
    || c == b'M'
    || c == b'S'
    || c == b'D'

-- The switch on the first letter: H stands in the first line only.
unfoldable pub is_known : ℕ → ℕ → Bool
is_known line_nr c = if c == b'H' then line_nr == 1 else is_letter c

-- What is returned. For a file that is not there, not regular or not readable, no statement returns.
pub data Checked : Type 0 where
  accepted refused unspecified endless : Checked

-- The loop, with fuel for its rounds. A stream that has failed gives lines with no character, and is
-- not at its end.
unfoldable pub check_lines : ℕ → ℕ → Bool → Chars → Checked
unfolding getline
check_lines zero line_nr failed cs = endless
check_lines (suc fuel) line_nr failed cs = elim failed [
  | true ↦ if is_known (line_nr + 1) 0 then check_lines fuel (line_nr + 1) true cs else refused
  | false ↦ elim (getline 199 cs) [
    | end ↦ accepted
    | line l rest ↦ elim (is_known (line_nr + 1) (first_of l)) [
      | true ↦ check_lines fuel (line_nr + 1) false rest
      | false ↦ refused
    ]
    | too_long l ↦ elim (is_known (line_nr + 1) (first_of l)) [
      | true ↦ check_lines fuel (line_nr + 1) true []
      | false ↦ refused
    ]
  ]
]

-- A file that cannot be opened is a stream that has failed.
unfoldable pub check_stream : Option Chars → Checked
unfolding check_lines
check_stream none = check_lines 1 0 true []
check_stream (some text) = check_lines (length text + 1) 0 false text

unfoldable pub check_logfile : FileSystem → Chars → Checked
unfolding check_stream
check_logfile fs fname = elim (fs.stat fname) [
  | none ↦ unspecified
  | some filestat ↦
      if filestat.is_regular && filestat.is_readable
      then check_stream (fs.contents fname)
      else unspecified
]
