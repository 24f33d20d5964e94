-- ===== src/Schedule/Rest.antt =====
-- The sequences that are left over after the complete rounds: the last loops of
-- `ArenaRealTime::start_tournament` of src/ArenaRealTime.cc. `rands` are the values that rand() will
-- return, in order.
use realtimebattle.Base.{
  ℕ, zero, suc, ◌+◌, ◌-◌, Bool, true, false, not, ◌||◌, List, [], ◌∷◌, map, ◌==◌, if◌then◌else◌,
  get_elem?, set, Option, none, some,
}
use realtimebattle.Base.Int.{pos_part}
use realtimebattle.Double.{Double}
use realtimebattle.Schedule.{scaled_rand}

-- `robot_playing_this_match[i]` and `robot_matches_played[i]`.
pub record Entrant : Type 0 where
  pub playing : Bool
  pub played : ℕ

pub record Draw : Type 0 where
  pub entrants : List Entrant
  pub min_matches_played : ℕ
  pub number_of_robots_on_min_matches : ℕ

-- `done` with what is left of the random values; `starved` if there are too few of them; `fault` is an
-- access outside the arrays.
pub data Outcome {ℓ} (A : Type ℓ) : Type ℓ where
  done : A → List ℕ → Outcome A
  starved : Outcome A
  fault : Outcome A

-- The loop body of one place: the robot `nr` is taken.
unfoldable pub enrol : ℕ → Draw → ℕ → Entrant → Draw
enrol number_of_robots s nr e =
    let entrants = set s.entrants nr (record { playing = true; played = e.played + 1 }) in
    let left = s.number_of_robots_on_min_matches - 1 in
    if left == 0
    then record {
      entrants = entrants;
      min_matches_played = s.min_matches_played + 1;
      number_of_robots_on_min_matches = number_of_robots;
    }
    else record {
      entrants = entrants;
      min_matches_played = s.min_matches_played;
      number_of_robots_on_min_matches = left;
    }

-- The test of the do-while loop is that the robot cannot be taken.
abbrev pub is_refused : Draw → Entrant → Bool
is_refused s e = e.playing || not (e.played == s.min_matches_played)

abbrev pub clear : Entrant → Entrant
clear e = record e { playing = false }

abbrev pub bind {ℓ κ} : {A : Type ℓ} {B : Type κ} → Outcome A → (A → List ℕ → Outcome B) → Outcome B
bind (done a rands) f = f a rands
bind starved f = starved
bind fault f = fault

-- The robot drawn is taken, or refused and the next one is drawn (`again`).
unfoldable pub taken :
    ℕ → Draw → ℕ → List ℕ → Outcome (ℕ × Draw) → Option Entrant → Outcome (ℕ × Draw)
taken number_of_robots s nr rands again none = fault
taken number_of_robots s nr rands again (some e) =
    if is_refused s e then again else done (nr, enrol number_of_robots s nr e) rands

module _ {ℓ} {W : Type ℓ} (d : Double W) (rand_max number_of_robots : ℕ) where
  unfoldable pub drawn : ℕ → ℕ
  drawn r = pos_part (scaled_rand d rand_max number_of_robots r)

  -- One place of a match: draw until a robot can be taken.
  unfoldable pub place : Draw → List ℕ → Outcome (ℕ × Draw)
  place s [] = starved
  place s (r ∷ rands) =
      let again = place s rands in
      let nr = drawn r in taken number_of_robots s nr rands again (get_elem? s.entrants nr)

  -- The places of a match: the row of `robots_in_sequence`, whose robots count from 1.
  unfoldable pub match_row : ℕ → Draw → List ℕ → Outcome (List ℕ × Draw)
  match_row zero s rands = done ([], s) rands
  match_row (suc places) s rands = bind (place s rands) (λ (nr, s') rands'.
      bind (match_row places s' rands') (λ (row, s'') rands''. done ((nr + 1) ∷ row, s'') rands''))

  unfoldable pub rest_rows : ℕ → ℕ → Draw → List ℕ → Outcome (List (List ℕ) × Draw)
  rest_rows zero robots_per_game s rands = done ([], s) rands
  rest_rows (suc rem_games) robots_per_game s rands =
      let s0 = record s { entrants = map clear s.entrants } in
      bind (match_row robots_per_game s0 rands) (λ (row, s') rands'.
        bind (rest_rows rem_games robots_per_game s' rands')
          (λ (rows, s'') rands''. done (row ∷ rows, s'') rands''))
