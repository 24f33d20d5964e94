-- ===== src/Replay/Positions/Times.antt =====
-- What get_time_positions_in_game of src/ArenaReplay.cc takes from the times of a game.
use realtimebattle.Base.{
  ℕ, zero, suc, ◌+◌, ◌<◌, ◌≤◌, ◌≡◌, refl, sym, ap, ◌∙◌, Option-cases, ◌⊎◌, inl, inr, true, false,
  List, [], ◌∷◌, ◌++◌, Option, none, some, length, length-append, length-replicate, set, ltb,
  if◌then◌else◌, arith,
}
use realtimebattle.Base.Int.{ℤ, sub_ℕ}
use realtimebattle.Double.{Double}
use mathlib.Core.Path.{subst}
use realtimebattle.Vector2D.{Vector2D}
use realtimebattle.Options.{Options}
use realtimebattle.Replay.{logged_robot, find_object_in_log, Player, find_robot}
use realtimebattle.Replay.Positions.{
  max_time_infos, TimePosInfo, LogEvent, time_event, piece_event, robot_event, death_event,
  next_game, Scan, Scanned, scanned, outside_array, no_robot, add_robot, see_robot, note_time,
  scan_game, get_time_positions_in_game,
}
use realtimebattle.Replay.Positions.Search.{array}

module _ {ℓ} {W : Type ℓ} where
  -- The times of the game.
  unfoldable pub times_of : List (LogEvent W) → List (TimePosInfo W)
  times_of [] = []
  times_of (time_event p t ∷ es) = record { position = p; time = t } ∷ times_of es
  times_of (piece_event k id p v ∷ es) = times_of es
  times_of (robot_event id p ∷ es) = times_of es
  times_of (death_event object id ∷ es) = times_of es
  times_of (next_game ∷ es) = []

  append-one :
      (xs ys : List (TimePosInfo W)) (y : TimePosInfo W) → (xs ++ (y ∷ [])) ++ ys ≡ xs ++ (y ∷ ys)
  append-one [] ys y = refl
  append-one (z ∷ xs) ys y = ap (λ zs. z ∷ zs) (append-one xs ys y)

  set-middle :
      (xs ys : List (TimePosInfo W)) (x y : TimePosInfo W)
      → set (xs ++ (x ∷ ys)) (length xs) y ≡ (xs ++ (y ∷ [])) ++ ys
  set-middle [] ys x y = refl
  set-middle (z ∷ xs) ys x y = ap (λ zs. z ∷ zs) (set-middle xs ys x y)

  length-room :
      (before : List (TimePosInfo W)) (m : ℕ) (z : W) (times : List (TimePosInfo W))
      → times ≡ before ++ array [] m z
      → length times ≡ length before + m
  length-room before m z times e =
      ap length e
      ∙ length-append before (array [] m z)
      ∙ ap (λ n. length before + n) (length-replicate m _)

no_room : (i n : ℕ) → n ≤ i → ltb i n ≡ false
no_room i n h = ground arith

some_room : (i n : ℕ) → i < n → ltb i n ≡ true
some_room i n h = ground arith

module _ {ℓ} {W : Type ℓ} (robots : ℕ → Player W) (all_robots_in_tournament : List ℕ) where
  -- A line of the game is about a robot that is not one of the tournament.
  unfoldable pub HasStranger : List (LogEvent W) → Type 0
  HasStranger [] = ⊥
  HasStranger (time_event p t ∷ es) = HasStranger es
  HasStranger (piece_event k id p v ∷ es) = HasStranger es
  HasStranger (robot_event id p ∷ es) =
      (find_robot robots id all_robots_in_tournament ≡ none) ⊎ HasStranger es
  HasStranger (death_event object id ∷ es) = HasStranger es
  HasStranger (next_game ∷ es) = ⊥

  -- With room for m times behind those that are there: the times of the game are behind them, and the place of the
  -- last is noted; or there are more; or there is a stranger.
  pub data IsTaken (before : List (TimePosInfo W)) (m : ℕ) (z : W) (es : List (LogEvent W))
      : Scanned W → Type ℓ where
    taken :
        {s : Scan W} {last_time_info : ℤ} (k : ℕ)
        → m ≡ length (times_of es) + k
        → s.times ≡ before ++ array (times_of es) k z
        → last_time_info ≡ sub_ℕ (length before + length (times_of es)) 1
        → IsTaken before m z es (scanned s last_time_info)
    too_many : m < length (times_of es) → IsTaken before m z es outside_array
    stranger : HasStranger es → IsTaken before m z es no_robot

  -- A line that brings no time.
  IsTaken-same :
      (before : List (TimePosInfo W)) (m : ℕ) (z : W) (e : LogEvent W) (es : List (LogEvent W))
      {r : Scanned W}
      → times_of (e ∷ es) ≡ times_of es
      → (HasStranger es → HasStranger (e ∷ es))
      → IsTaken before m z es r
      → IsTaken before m z (e ∷ es) r
  IsTaken-same before m z e es same more (taken k room times last) =
      taken k (rw same room) (rw same times) (rw same last)
  IsTaken-same before m z e es same more (too_many h) = too_many (rw same h)
  IsTaken-same before m z e es same more (stranger h) = stranger (more h)

  IsTaken-time :
      (before : List (TimePosInfo W)) (m : ℕ) (z : W) (p : ℤ) (t : W) (es : List (LogEvent W))
      {r : Scanned W}
      → IsTaken (before ++ (record { position = p; time = t } ∷ [])) m z es r
      → IsTaken before (suc m) z (time_event p t ∷ es) r
  unfolding times_of HasStranger
  IsTaken-time before m z p t es (taken k room times last) =
      let u : TimePosInfo W = record { position = p; time = t } in
      taken k (omega (arith, room)) (times ∙ append-one before _ u)
        (last ∙ ap (λ n. sub_ℕ n 1) (omega (arith, length-append before (u ∷ []))))
  IsTaken-time before m z p t es (too_many h) = too_many (omega (arith, h))
  IsTaken-time before m z p t es (stranger h) = stranger h

module _ {ℓ} {W : Type ℓ} ⦃d : Double W⦄ (o : Options W) (to_float : W → W) (robots : ℕ → Player W)
    (all_robots_in_tournament : List ℕ) where
  open d use {lit}

  -- A robot that is seen changes none of the times, if it is one of the tournament.
  see_robot-times :
      (id : ℤ) (p : Vector2D W) (s : Scan W)
      → ((see_robot o to_float robots all_robots_in_tournament id p s ≡ none)
          × (find_robot robots id all_robots_in_tournament ≡ none))
        ⊎ (s' : Scan W) × (see_robot o to_float robots all_robots_in_tournament id p s ≡ some s')
          × (s'.times ≡ s.times)
          × (s'.time_pos_index ≡ s.time_pos_index)
  unfolding see_robot
  see_robot-times id p s = elim (Option-cases (find_object_in_log logged_robot id s.objects)) [
    | inr (i, seen) ↦ inr (s, rw (seen, see_robot) refl, refl, refl)
    | inl unseen ↦ elim (Option-cases (find_robot robots id all_robots_in_tournament)) [
      | inr (q, found) ↦ inr (
        add_robot o to_float robots all_robots_in_tournament id p q s,
        rw (unseen, found, see_robot) refl,
        refl,
        refl,
      )
      | inl missing ↦ inl (rw (unseen, missing, see_robot) refl, missing)
    ]
  ]

  scan_game-IsTaken :
      (before : List (TimePosInfo W)) (m : ℕ) (z : W) (es : List (LogEvent W)) (s : Scan W)
      → s.times ≡ before ++ array [] m z
      → s.time_pos_index ≡ length before
      → IsTaken robots all_robots_in_tournament before m z es
          (scan_game o to_float robots all_robots_in_tournament es s)
  unfolding scan_game times_of HasStranger see_robot
  scan_game-IsTaken before m z [] s times index =
      taken m (omega arith) times (ap (λ n. sub_ℕ n 1) (omega (arith, index)))
  scan_game-IsTaken before m z (next_game ∷ es) s times index =
      taken m (omega arith) times (ap (λ n. sub_ℕ n 1) (omega (arith, index)))
  scan_game-IsTaken before zero z (time_event p t ∷ es) s times index =
      let rest =
        scan_game o to_float robots all_robots_in_tournament es
          (note_time o to_float robots all_robots_in_tournament p t s) in
      subst
        (λ b.
          IsTaken robots all_robots_in_tournament before zero z (time_event p t ∷ es)
            (if b then rest else outside_array))
        (sym (
          no_room s.time_pos_index (length s.times)
            (omega (arith, index, length-room before zero z s.times times))))
        (too_many (omega arith))
  scan_game-IsTaken before (suc n) z (time_event p t ∷ es) s times index =
      let u : TimePosInfo W = record { position = p; time = t } in
      let ys = array [] (suc n) z in
      let noted = note_time o to_float robots all_robots_in_tournament p t s in
      let rest = scan_game o to_float robots all_robots_in_tournament es noted in
      subst
        (λ b.
          IsTaken robots all_robots_in_tournament before (suc n) z (time_event p t ∷ es)
            (if b then rest else outside_array))
        (sym (
          some_room s.time_pos_index (length s.times)
            (omega (arith, index, length-room before (suc n) z s.times times))))
        (IsTaken-time robots all_robots_in_tournament before n z p t es (
          scan_game-IsTaken (before ++ (u ∷ [])) n z es noted
            (ap (λ xs. set xs s.time_pos_index u) times
              ∙ ap (λ i. set (before ++ ys) i u) index
              ∙ set-middle before (array [] n z) _ u)
            (omega (arith, index, length-append before (u ∷ [])))))
  scan_game-IsTaken before m z (piece_event k id p v ∷ es) s times index =
      IsTaken-same robots all_robots_in_tournament before m z (piece_event k id p v) es refl
        (λ h. h) (scan_game-IsTaken before m z es _ times index)
  scan_game-IsTaken before m z (death_event none id ∷ es) s times index =
      IsTaken-same robots all_robots_in_tournament before m z (death_event none id) es refl (λ h. h)
        (scan_game-IsTaken before m z es _ times index)
  scan_game-IsTaken before m z (death_event (some object) id ∷ es) s times index =
      IsTaken-same robots all_robots_in_tournament before m z (death_event (some object) id) es refl
        (λ h. h) (scan_game-IsTaken before m z es _ times index)
  scan_game-IsTaken before m z (robot_event id p ∷ es) s times index =
      let P = IsTaken robots all_robots_in_tournament before m z (robot_event id p ∷ es) in
      let go : Option (Scan W) → Scanned W = λ seen. elim seen [
        | none ↦ no_robot
        | some s' ↦ scan_game o to_float robots all_robots_in_tournament es s'
      ] in
      elim (see_robot-times id p s) [
        | inl (none_seen, missing) ↦ subst (λ x. P (go x)) (sym none_seen) (stranger (inl missing))
        | inr (s', seen, times', index') ↦
            subst (λ x. P (go x)) (sym seen)
              (IsTaken-same robots all_robots_in_tournament before m z (robot_event id p) es refl
                inr (scan_game-IsTaken before m z es s' (times' ∙ times) (index' ∙ index)))
      ]

  -- However many lines a game has in the log, read from its start: either at most max_time_infos of them are times,
  -- the array has the times of the game in their order and behind them entries that stand nowhere, and last_time_info is
  -- the place of the last time, -1 if there is none; or more than max_time_infos are times, and the array is written
  -- to behind its end; or a line shows a robot that is not one of the tournament.
  pub get_time_positions_in_game-IsTaken :
      (cur_time : W) (on_arena : List ℕ) (es : List (LogEvent W))
      → IsTaken robots all_robots_in_tournament [] max_time_infos (lit 0 0) es (
          get_time_positions_in_game o to_float robots all_robots_in_tournament cur_time on_arena
            es)
  unfolding get_time_positions_in_game
  get_time_positions_in_game-IsTaken cur_time on_arena es =
      scan_game-IsTaken [] max_time_infos (lit 0 0) es _ refl refl
