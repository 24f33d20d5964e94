-- ===== src/Schedule/Table.antt =====
-- All rows of `robots_in_sequence`: the complete rounds, each with its shuffle, and the matches that are
-- left over, as `ArenaRealTime::start_tournament` of src/ArenaRealTime.cc makes them.
pub mod Kept
pub mod Made
use realtimebattle.Base.{ℕ, zero, suc, ◌/◌, ◌%◌, Bool, false, List, [], ◌++◌, none, some, replicate}
use realtimebattle.Base.Int.{pos_part}
use realtimebattle.Double.{Double}
use realtimebattle.Schedule.{binomial, complete_round}
use realtimebattle.Schedule.Rest.{Draw, done, starved, fault, rest_rows}
use realtimebattle.Schedule.Shuffle.{reorder_pointer_array}

-- The rows and what is left of the random values; the fatal error where there is no next sequence; too
-- few random values; or an access outside the arrays.
pub data Tabled : Type 0 where
  made : List (List ℕ) → List ℕ → Tabled
  no_sequence no_value out_of_array : Tabled

-- The state of the draw at its start.
abbrev pub first_draw : ℕ → Draw
first_draw number_of_robots = record {
  entrants = replicate number_of_robots (record { playing = false; played = 0 });
  min_matches_played = 0;
  number_of_robots_on_min_matches = number_of_robots;
}

module _ {ℓ} {W : Type ℓ} (d : Double W) (rand_max number_of_robots robots_per_game : ℕ) where
  -- `for(int round_nr=0; round_nr < complete_rounds; round_nr++)`
  unfoldable pub all_rounds : ℕ → ℕ → List (List ℕ) → List ℕ → Tabled
  all_rounds games_per_round zero rows rands = made rows rands
  all_rounds games_per_round (suc rounds) rows rands =
      elim (complete_round games_per_round number_of_robots robots_per_game) [
        | none ↦ no_sequence
        | some new ↦ elim (reorder_pointer_array d rand_max games_per_round (rows ++ new) rands) [
          | done rows' rands' ↦ all_rounds games_per_round rounds rows' rands'
          | starved ↦ no_value
          | fault ↦ out_of_array
        ]
      ]

  unfoldable pub with_rest : ℕ → Tabled → Tabled
  with_rest rem_games (made rows rands) =
      elim (rest_rows d rand_max number_of_robots rem_games robots_per_game
        (first_draw number_of_robots) rands) [
          | done (more, s) rands' ↦ made (rows ++ more) rands'
          | starved ↦ no_value
          | fault ↦ out_of_array
        ]
  with_rest rem_games no_sequence = no_sequence
  with_rest rem_games no_value = no_value
  with_rest rem_games out_of_array = out_of_array

  unfoldable pub robots_in_sequence : ℕ → List ℕ → Tabled
  unfolding all_rounds with_rest binomial
  robots_in_sequence n_o_sequences rands =
      let games_per_round = pos_part (binomial d number_of_robots robots_per_game) in
      with_rest (n_o_sequences % games_per_round)
        (all_rounds games_per_round (n_o_sequences / games_per_round) [] rands)
