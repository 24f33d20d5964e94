-- ===== src/Replay/Positions.antt =====
-- The times of a game in the log: get_time_positions_in_game, find_streampos_for_time, the step of
-- step_forward and change_game of src/ArenaReplay.cc. A position in the log is a number, -1 where there is
-- none. What search_forward finds, and what the reads give, is a parameter.
pub mod Search
pub mod Times
use realtimebattle.Base.{
  ℕ, zero, suc, ◌+◌, Bool, true, false, not, ◌&&◌, ◌||◌, List, [], ◌∷◌, ◌++◌, Option, none, some,
  length, get_elem?, set, drop, replicate, ltb, if◌then◌else◌,
}
use realtimebattle.Base.Int.{ℤ, pos, negsuc, pos_part, sub_ℕ, ltb_ℤ, ◌+ℤ◌, ◌-ℤ◌}
use realtimebattle.Double.{Double}
use realtimebattle.Vector2D.{Vector2D, vec}
use realtimebattle.Options.{Options, get_d}
use realtimebattle.Options as opt
use realtimebattle.Replay.{
  Kind, Player, Logged, logged_robot, logged, ObjectPosInfo, eq_id, is_logged, find_robot,
  find_object_in_log,
}

abbrev pub max_time_infos : ℕ
max_time_infos = 16384

-- `time_pos_info_t`
pub record TimePosInfo {ℓ} (W : Type ℓ) : Type ℓ where
  pub position : ℤ
  pub time : W

-- A line of the game: a time and where it stands, something that comes, a robot, a death with its letter,
-- or the G or H that ends the game. Of a cookie or a mine the velocity is the null vector.
pub data LogEvent {ℓ} (W : Type ℓ) : Type ℓ where
  time_event : ℤ → W → LogEvent W
  piece_event : Kind → ℤ → Vector2D W → Vector2D W → LogEvent W
  robot_event : ℤ → Vector2D W → LogEvent W
  death_event : Option Logged → ℤ → LogEvent W
  next_game : LogEvent W

pub record Scan {ℓ} (W : Type ℓ) : Type ℓ where
  pub times : List (TimePosInfo W)
  pub time_pos_index : ℕ
  pub cur_time : W
  pub objects : List (ObjectPosInfo W)
  pub robots_on_arena : List ℕ

-- The end, with `last_time_info`; a write outside the array; an iterator at the end of the robots.
pub data Scanned {ℓ} (W : Type ℓ) : Type ℓ where
  scanned : Scan W → ℤ → Scanned W
  outside_array no_robot : Scanned W

-- What a step in the log comes to: nothing, another time, or a read outside the array.
pub data Step {ℓ} (W : Type ℓ) : Type ℓ where
  stands_still : Step W
  steps_to : TimePosInfo W → Step W
  reads_outside : Step W

module _ {ℓ} {W : Type ℓ} where
  -- The first entry that is meant has another end.
  unfoldable pub set_end : Logged → ℤ → W → List (ObjectPosInfo W) → List (ObjectPosInfo W)
  unfolding eq_id
  set_end object id t [] = []
  set_end object id t (i ∷ is) =
      if is_logged object i.object && eq_id id i.id
      then record i { end_time = t } ∷ is
      else i ∷ set_end object id t is

module _ {ℓ} {W : Type ℓ} ⦃d : Double W⦄ (o : Options W) (to_float : W → W) (robots : ℕ → Player W)
    (all_robots_in_tournament : List ℕ) where
  open d use {lit}

  abbrev info : Logged → ℤ → Vector2D W → Vector2D W → W → ObjectPosInfo W
  info object id p v start = record {
    object = object;
    id = id;
    position = p;
    start_time = start;
    end_time = to_float (get_d o opt.timeout);
    vel = v;
  }

  abbrev pub add_robot : ℤ → Vector2D W → ℕ → Scan W → Scan W
  add_robot id p q s = record s {
    objects = s.objects ++ (info logged_robot id p (vec (lit 0 0) (lit 0 0)) (lit 0 0) ∷ []);
    robots_on_arena = s.robots_on_arena ++ (q ∷ []);
  }

  -- A robot that is seen for the first time is on the arena.
  unfoldable pub see_robot : ℤ → Vector2D W → Scan W → Option (Scan W)
  unfolding find_robot find_object_in_log
  see_robot id p s = elim (find_object_in_log logged_robot id s.objects) [
    | some i ↦ some s
    | none ↦ elim (find_robot robots id all_robots_in_tournament) [
      | none ↦ none
      | some q ↦ some (add_robot id p q s)
    ]
  ]

  abbrev note_time : ℤ → W → Scan W → Scan W
  note_time p t s = record s {
    times = set s.times s.time_pos_index (record { position = p; time = t });
    time_pos_index = s.time_pos_index + 1;
    cur_time = t;
  }

  abbrev note_piece : Kind → ℤ → Vector2D W → Vector2D W → Scan W → Scan W
  note_piece k id p v s = record s {
    objects = s.objects ++ (info (logged k) id p v s.cur_time ∷ []);
  }

  abbrev note_death : Option Logged → ℤ → Scan W → Scan W
  note_death none id s = s
  note_death (some object) id s = record s { objects = set_end object id s.cur_time s.objects }

  unfoldable pub scan_game : List (LogEvent W) → Scan W → Scanned W
  unfolding see_robot set_end
  scan_game [] s = scanned s (sub_ℕ s.time_pos_index 1)
  scan_game (time_event p t ∷ es) s =
      let rest = scan_game es (note_time p t s) in
      if ltb s.time_pos_index (length s.times) then rest else outside_array
  scan_game (piece_event k id p v ∷ es) s = scan_game es (note_piece k id p v s)
  scan_game (robot_event id p ∷ es) s = elim (see_robot id p s) [
    | none ↦ no_robot
    | some s' ↦ scan_game es s'
  ]
  scan_game (death_event object id ∷ es) s = scan_game es (note_death object id s)
  scan_game (next_game ∷ es) s = scanned s (sub_ℕ s.time_pos_index 1)

  -- The array as it is allocated; `cur_time` has no value yet.
  unfoldable pub get_time_positions_in_game : W → List ℕ → List (LogEvent W) → Scanned W
  unfolding scan_game
  get_time_positions_in_game cur_time on_arena es = scan_game es (record {
    times = replicate max_time_infos (record { position = negsuc 0; time = lit 0 0 });
    time_pos_index = 0;
    cur_time = cur_time;
    objects = [];
    robots_on_arena = on_arena;
  })

module _ {ℓ} {W : Type ℓ} ⦃d : Double W⦄ where
  open d use {lt}

  -- The loop from the entry behind i on.
  unfoldable pub find_from : W → ℕ → List (TimePosInfo W) → ℤ
  find_from cur_time i [] = negsuc 0
  find_from cur_time i (t ∷ ts) =
      if ltb_ℤ (negsuc 0) t.position
      then (if lt cur_time t.time then pos i else find_from cur_time (i + 1) ts)
      else negsuc 0

  unfoldable pub find_streampos_for_time : W → List (TimePosInfo W) → ℤ
  unfolding find_from
  find_streampos_for_time cur_time times = find_from cur_time 0 (drop 1 times)

  -- The entry that `step_forward` goes to; the search is for a `float`.
  unfoldable pub step_target : (W → W) → ℤ → W → List (TimePosInfo W) → Step W
  unfolding find_streampos_for_time ◌+ℤ◌
  step_target to_float n_o_steps current_replay_time times =
      let index = find_streampos_for_time (to_float current_replay_time) times +ℤ n_o_steps in
      if ltb_ℤ index (pos 0) || ltb_ℤ (pos (length times)) index
      then stands_still
      else elim (get_elem? times (pos_part index)) [
        | none ↦ reads_outside
        | some t ↦ if ltb_ℤ (pos 0) t.position then steps_to t else stands_still
      ]

-- The sequence and the game that are asked for, before they are looked at.
unfoldable pub turned_page : ℤ → ℤ → ℤ → ℤ → ℤ → ℤ × ℤ
unfolding ◌+ℤ◌ ◌-ℤ◌ eq_id
turned_page inc_game inc_seq games_per_sequence sequence_nr game_nr =
    let game = game_nr +ℤ inc_game in
    let sequence = sequence_nr +ℤ inc_seq in
    if eq_id inc_seq (pos 0)
    then if not (ltb_ℤ game (games_per_sequence +ℤ pos 1))
      then (sequence +ℤ pos 1, game -ℤ games_per_sequence)
      else if not (ltb_ℤ (pos 0) game)
      then (sequence -ℤ pos 1, game +ℤ games_per_sequence)
      else (sequence, game)
    else if ltb_ℤ inc_seq (pos 0)
    then (sequence, games_per_sequence)
    else (sequence, pos 1)

-- The sequence and the game that are sought in the log, if there is such a sequence.
unfoldable pub change_game : ℤ → ℤ → ℤ → ℤ → ℤ → ℤ → Option (ℤ × ℤ)
unfolding turned_page
change_game inc_game inc_seq games_per_sequence sequences_in_tournament sequence_nr game_nr =
    let page = turned_page inc_game inc_seq games_per_sequence sequence_nr game_nr in
    if ltb_ℤ page.0 (pos 1) || ltb_ℤ sequences_in_tournament page.0 then none else some page
