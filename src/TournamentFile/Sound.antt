-- ===== src/TournamentFile/Sound.antt =====
-- What parse_tournament_file of src/Various.cc starts a tournament with.
use realtimebattle.Base.{
  ℕ, zero, suc, ◌+◌, ◌≤◌, ◌<◌, ◌≡◌, refl, Bool, true, false, List, [], Option, none, some, map,
  arith, length, All, All-append, if-holds, if-cases, ◌&&◌,
}
use realtimebattle.Base.Int.{ℤ, pos, ltb_ℤ, ◌≤ℤ◌}
use realtimebattle.Chars.{Chars, codes, tolower, is_empty, fields}
use realtimebattle.Double.{Double}
use realtimebattle.Options.{Options}
use realtimebattle.Directories.{
  FileSystem, Listed, listed, exception, no_end, check_for_robots_and_arenas, read_robotdirs,
  read_arenadirs, and_system, split_colonseparated_dirs,
}
use realtimebattle.Directories.Split.{slashed, add_all, split_colonseparated_dirs-fields}
use realtimebattle.Directories.Found.{
  IsRobotFile, IsArenaFile, Extends, check_for_robots_and_arenas-Extends,
}
use realtimebattle.TournamentFile.Words.{
  length-read_word, HasLong, HasLong-read_word, read_word-HasLong, HasLongText,
}
use realtimebattle.TournamentFile.{
  Stream, read_word, LookingFor, keyword, robot, arena, Reading, Started, starts, returns_false,
  fatal_error, overflows, endless, min_ℤ, fail, start_tested, finish, too_long, takes_number,
  with_robots, with_arenas, on_other, on_stream, on_word, is_one_of, parse_loop, first_reading,
  parse_text, parse_tournament_file,
}

module _ (fs : FileSystem) (text : Option Chars) where
  -- A tournament is started with files of both kinds, from 2 robots to all in a sequence, a game and a
  -- sequence at least.
  abbrev pub IsStart : Bool → Started → Type 0
  IsStart fatal (starts robots arenas robots_p_s games_p_s n_o_sequences) =
      All (IsRobotFile fs) robots
      × All (IsArenaFile fs) arenas
      × (pos 2 ≤ℤ robots_p_s)
      × (robots_p_s ≤ℤ pos (length robots))
      × (pos 1 ≤ℤ games_p_s)
      × (pos 1 ≤ℤ n_o_sequences)
  IsStart fatal returns_false = fatal ≡ false
  IsStart fatal fatal_error = Unit
  IsStart fatal overflows = HasLongText text
  IsStart fatal endless = ⊥

  abbrev IsFound : Reading → Type 0
  IsFound r = All (IsRobotFile fs) r.robot_list × All (IsArenaFile fs) r.arena_list

  fail-IsStart : (fatal : Bool) → IsStart fatal (fail fatal)
  fail-IsStart true = tt
  fail-IsStart false = refl

  not_below : (a b : ℤ) → ltb_ℤ a b ≡ false → b ≤ℤ a
  not_below a b h = ground arith

  min_ℤ-left : (a b : ℤ) → min_ℤ a b ≤ℤ a
  min_ℤ-left a b = ground arith

  -- The three tests at the end of the file.
  checked :
      (fatal : Bool) (rs arenas : List Chars) (robots games sequences : ℤ)
      → All (IsRobotFile fs) rs
      → All (IsArenaFile fs) arenas
      → IsStart fatal (start_tested fatal rs arenas robots games sequences)
  unfolding start_tested
  checked fatal rs arenas robots games sequences p q =
      let robots_p_s = min_ℤ (pos (length rs)) robots in
      if-cases (IsStart fatal) (ltb_ℤ robots_p_s (pos 2)) (λ _. fail-IsStart fatal)
        (λ enough.
          if-cases (IsStart fatal) (ltb_ℤ games (pos 1)) (λ _. fail-IsStart fatal)
            (λ some_game.
              if-cases (IsStart fatal) (ltb_ℤ sequences (pos 1)) (λ _. fail-IsStart fatal)
                (λ some_sequence.
                  let start : IsStart fatal (starts rs arenas robots_p_s games sequences) = (
                    p,
                    q,
                    not_below robots_p_s (pos 2) enough,
                    min_ℤ-left (pos (length rs)) robots,
                    not_below games (pos 1) some_game,
                    not_below sequences (pos 1) some_sequence,
                  ) in
                  start)))

  finish-IsStart {ℓ} :
      {W : Type ℓ} (d : Double W) (fatal : Bool) (r : Reading)
      → IsFound r
      → IsStart fatal (finish d fatal r)
  unfolding finish
  finish-IsStart d fatal r (robots, arenas) =
      checked fatal r.robot_list r.arena_list _ _ _ robots arenas

  -- The state that a round leaves, with no more of the file than before.
  abbrev IsNext : Stream → Option (Reading × Stream) → Type 0
  IsNext s none = Unit
  IsNext s (some (r, s')) =
      IsFound r × (length s'.unread ≤ length s.unread) × (HasLong s'.unread → HasLong s.unread)

  module _ (to_int : ℤ → Chars → ℤ) (robotdirs arenadirs : List Chars) where
    on_other-IsNext :
        (l : LookingFor) (word : Chars) (s : Stream) (r : Reading)
        → IsFound r
        → IsNext s (on_stream s (on_other fs to_int robotdirs arenadirs l word r))
    unfolding on_other
    on_other-IsNext keyword word s r f = (f, omega arith, λ h. h)
    on_other-IsNext robot word s r (p, q) =
        go (check_for_robots_and_arenas fs word r.robot_list robotdirs true)
          (check_for_robots_and_arenas-Extends fs true word r.robot_list robotdirs)
      where
        go :
            (o : Option (List Chars))
            → Extends fs true r.robot_list o
            → IsNext s (on_stream s (with_robots r o))
        go none e = tt
        go (some found) (new, e, h) =
            ((rw e (All-append (IsRobotFile fs) r.robot_list new p h), q), omega arith, λ h. h)
    on_other-IsNext arena word s r (p, q) =
        go (check_for_robots_and_arenas fs word r.arena_list arenadirs false)
          (check_for_robots_and_arenas-Extends fs false word r.arena_list arenadirs)
      where
        go :
            (o : Option (List Chars))
            → Extends fs false r.arena_list o
            → IsNext s (on_stream s (with_arenas r o))
        go none e = tt
        go (some found) (new, e, h) =
            ((p, rw e (All-append (IsArenaFile fs) r.arena_list new q h)), omega arith, λ h. h)

    on_word-IsNext :
        (buffer : Chars) (s : Stream) (r : Reading)
        → IsFound r
        → IsNext s (on_word fs to_int robotdirs arenadirs buffer s r)
    unfolding on_word
    on_word-IsNext buffer s r f =
        let shorter = (length-read_word buffer s).0 in
        let kept = HasLong-read_word buffer s in
        let word_lower = map tolower buffer in
        if-holds (IsNext s) (is_one_of word_lower (codes "games/sequence:") (codes "g/s:"))
          (f, shorter, kept)
          (if-holds (IsNext s) (is_one_of word_lower (codes "robots/sequence:") (codes "r/s:"))
            (f, shorter, kept)
            (if-holds (IsNext s) (is_one_of word_lower (codes "sequences:") (codes "seq:"))
              (f, shorter, kept)
              (if-holds (IsNext s) (is_one_of word_lower (codes "robots:") (codes "r:"))
                (f, omega arith, λ h. h)
                (if-holds (IsNext s) (is_one_of word_lower (codes "arenas:") (codes "a:"))
                  (f, omega arith, λ h. h) (on_other-IsNext r.looking_for buffer s r f)))))

    parse_loop-IsStart {ℓ} :
        {W : Type ℓ} (d : Double W) (fatal : Bool) (fuel : ℕ) (s : Stream) (r : Reading)
        → length s.unread < fuel
        → IsFound r
        → (HasLong s.unread → HasLongText text)
        → IsStart fatal (parse_loop fs to_int robotdirs arenadirs d fatal fuel s r)
    unfolding parse_loop
    parse_loop-IsStart d fatal zero s r h f there = elim h [ ]
    parse_loop-IsStart d fatal (suc fuel) s r h f there =
        let (word, s1) = read_word [] s in
        decided (too_long word) _ _ (λ long. there (read_word-HasLong [] s refl long))
          (λ short.
            decided s1.at_eof _ _ (λ ends. finish-IsStart d fatal r f)
              (λ more.
                decided (takes_number word && too_long (read_word word s1).0) _ _
                  (λ long. there (
                    HasLong-read_word [] s
                      (read_word-HasLong word s1 short (second (takes_number word) _ long))))
                  (λ fits.
                    next s1 (on_word fs to_int robotdirs arenadirs word s1 r)
                      (omega (arith, (length-read_word [] s).1 more)) (on_word-IsNext word s1 r f)
                      (λ k. there (HasLong-read_word [] s k)) (parse_loop-IsStart d fatal fuel))))
      where
        second : (a b : Bool) → (a && b) ≡ true → b ≡ true
        second a b h = ground arith

        decided :
            (b : Bool) (t u : Started)
            → (b ≡ true → IsStart fatal t)
            → (b ≡ false → IsStart fatal u)
            → IsStart fatal (elim b [ true ↦ t | false ↦ u ])
        decided true t u p q = p refl
        decided false t u p q = q refl

        next :
            (s1 : Stream) (o : Option (Reading × Stream))
            → length s1.unread < fuel
            → IsNext s1 o
            → (HasLong s1.unread → HasLongText text)
            → ((s' : Stream) (r' : Reading)
                → length s'.unread < fuel
                → IsFound r'
                → (HasLong s'.unread → HasLongText text)
                → IsStart fatal (parse_loop fs to_int robotdirs arenadirs d fatal fuel s' r'))
            → IsStart fatal (elim o [
              | none ↦ fatal_error
              | some (r', s') ↦ parse_loop fs to_int robotdirs arenadirs d fatal fuel s' r'
            ])
        next s1 none lt k in_text more = tt
        next s1 (some (r', s')) lt (g, le, kept) in_text more =
            more s' r' (omega arith) g (λ h. in_text (kept h))

abbrev Ends : Listed → Type 0
Ends (listed ds) = Unit
Ends exception = Unit
Ends no_end = ⊥

add_all-Ends : (l : List Chars) (o : Option (List Chars)) → Ends (add_all l o)
add_all-Ends l none = tt
add_all-Ends l (some ds) = tt

split-Ends : (dirs : Chars) (l : List Chars) → Ends (split_colonseparated_dirs dirs l)
split-Ends dirs l =
    rw (split_colonseparated_dirs-fields dirs l)
      (if-holds Ends (is_empty dirs) tt (add_all-Ends l (slashed (fields b':' dirs))))

and_system-Ends : (dir : Option Chars) (l : Listed) → Ends l → Ends (and_system dir l)
and_system-Ends none l e = e
and_system-Ends (some dir) (listed ds) e = tt
and_system-Ends (some dir) exception e = tt
and_system-Ends (some dir) no_end e = e

module _ {ℓ} {W : Type ℓ} (d : Double W) (o : Options W) (fs : FileSystem) (to_int : ℤ → Chars → ℤ)
    (robotdir arenadir : Option Chars) where
  parse_text-IsStart :
      (fatal : Bool) (robots arenas : Listed) (text : Option Chars)
      → Ends robots
      → Ends arenas
      → IsStart fs text fatal (parse_text d o fs to_int robotdir arenadir fatal robots arenas text)
  unfolding parse_text
  parse_text-IsStart fatal exception arenas text e f = tt
  parse_text-IsStart fatal no_end arenas text e f = e
  parse_text-IsStart fatal (listed robotdirs) exception text e f = tt
  parse_text-IsStart fatal (listed robotdirs) no_end text e f = f
  parse_text-IsStart fatal (listed robotdirs) (listed arenadirs) none e f =
      fail-IsStart fs none fatal
  parse_text-IsStart fatal (listed robotdirs) (listed arenadirs) (some text) e f =
      parse_loop-IsStart fs (some text) to_int robotdirs arenadirs d fatal (length text + 1)
        (record { unread = text; at_eof = false }) first_reading (omega arith) (tt, tt) (λ h. h)

  -- Whatever is in a tournament file, reading it ends: a tournament is started, with robots and
  -- arenas that are files of their kind, from 2 to all of the robots in a sequence, at least one game and
  -- at least one sequence; or false is returned, only if no failure is to be fatal; or a fatal error ends
  -- the program; or the buffer is written to behind its end, only if the file has 200 characters in a row that are no
  -- white space.
  pub parse_tournament_file-IsStart :
      (open_file : Chars → Option Chars) (fname : Chars) (fatal_error_on_file_failure : Bool)
      → IsStart fs (open_file fname) fatal_error_on_file_failure (
          parse_tournament_file d o fs to_int robotdir arenadir open_file fname
            fatal_error_on_file_failure)
  unfolding parse_tournament_file read_robotdirs read_arenadirs
  parse_tournament_file-IsStart open_file fname fatal =
      parse_text-IsStart fatal _ _ (open_file fname) (and_system-Ends robotdir _ (split-Ends _ []))
        (and_system-Ends arenadir _ (split-Ends _ []))
