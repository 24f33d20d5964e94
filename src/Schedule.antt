-- ===== src/Schedule.antt =====
-- Who plays in which sequence: the lists that `ArenaRealTime::start_tournament` of
-- src/ArenaRealTime.cc makes, with `binomial` and `reorder_pointer_array` of src/Various.cc.
-- Robots are numbered from 1. The values that rand() will return are a list.
pub mod Rounds
pub mod Count
pub mod Complete
pub mod Rest
pub mod Fair
pub mod Inside
pub mod Draws
pub mod Shuffle
pub mod Table
use realtimebattle.Base.{
  ℕ, zero, suc, ◌+◌, ◌-◌, ◌*◌, ◌/◌, ◌%◌, ◌≡◌, Bool, true, false, not, ◌&&◌, ◌||◌, List, [], ◌∷◌,
  ◌++◌, Option, some, none, map, ltb, leb, ◌==◌, if◌then◌else◌, length, get_or, get_elem?, set,
  replicate, take, drop,
}
use realtimebattle.Base.Int.{ℤ, pos, negsuc, pos_part}
use realtimebattle.Double.{Double}

abbrev pub int_max : ℕ
int_max = 2_147_483_647

module _ {ℓ} {W : Type ℓ} ⦃d : Double W⦄ where
  open d use {lit, of_int, to_int, floor, mul, div, lt}

  -- `for(int i=n; i>n-k2; i--) bin *= i;` with `rounds` = k2.
  unfoldable pub multiply_down : ℕ → ℕ → W → W
  multiply_down zero i bin = bin
  multiply_down (suc rounds) i bin = multiply_down rounds (i - 1) (mul bin (of_int (pos i)))

  -- `for(int i=1; i<=k2; i++) bin /= i;`
  unfoldable pub divide_up : ℕ → ℕ → W → W
  divide_up zero i bin = bin
  divide_up (suc rounds) i bin = divide_up rounds (i + 1) (div bin (of_int (pos i)))

-- `(int)floor(size*((double)rand() / (double)RAND_MAX))`
unfoldable pub scaled_rand {ℓ} : {W : Type ℓ} (d : Double W) → ℕ → ℕ → ℕ → ℤ
scaled_rand d rand_max size r =
    d.to_int
      (d.floor (d.mul (d.of_int (pos size)) (d.div (d.of_int (pos r)) (d.of_int (pos rand_max)))))

-- `min_rtb(k, n-k)`, which is negative for n < k, where the loops make no round.
abbrev pub smaller_side : ℕ → ℕ → ℕ
smaller_side n k = if ltb n k then 0 else if ltb k (n - k) then k else n - k

unfoldable pub binomial {ℓ} : {W : Type ℓ} (d : Double W) → ℕ → ℕ → ℤ
unfolding multiply_down divide_up
binomial d n k =
    let k2 = smaller_side n k in
    let bin = divide_up ⦃d = d⦄ k2 1 (multiply_down ⦃d = d⦄ k2 n (d.lit 1 0)) in
    if d.lt bin (d.of_int (pos int_max)) then d.to_int bin else pos int_max

-- `while( current_sequence[k] == number_of_robots + 1 - robots_per_game + k ) k--;` for the k below
-- the given number. `none` is k < 0, the fatal error.
unfoldable pub last_free : ℕ → List ℕ → ℕ → Option ℕ
last_free limit cs zero = none
last_free limit cs (suc k) =
    let rest = last_free limit cs k in if get_or cs k 0 == limit + k then rest else some k

-- `for(j=k+1; j<robots_per_game; j++) current_sequence[j] = current_sequence[j-1]+1;`
unfoldable pub fill_up : ℕ → ℕ → List ℕ → List ℕ
fill_up zero j cs = cs
fill_up (suc left) j cs = fill_up left (j + 1) (set cs j (get_or cs (j - 1) 0 + 1))

-- `current_sequence[k]++` and the loop after it; no k is the fatal error.
unfoldable pub raise : ℕ → List ℕ → Option ℕ → Option (List ℕ)
raise r cs none = none
raise r cs (some k) = some (fill_up (r - (k + 1)) (k + 1) (set cs k (get_or cs k 0 + 1)))

-- The body of the loop over the games of a round, without the copy into `robots_in_sequence`.
unfoldable pub next_sequence : ℕ → ℕ → List ℕ → Option (List ℕ)
next_sequence number_of_robots robots_per_game cs =
    raise robots_per_game cs (last_free (number_of_robots + 1 - robots_per_game) cs robots_per_game)

-- `for(i=0; i<robots_per_game; i++) current_sequence[i] = i+1;`
unfoldable pub count_up : ℕ → ℕ → List ℕ
count_up zero i = []
count_up (suc left) i = (i + 1) ∷ count_up left (i + 1)

-- The sequences of a complete round: `games` times the loop body. `none` is the fatal error.
unfoldable pub round_from : ℕ → ℕ → ℕ → List ℕ → Option (List (List ℕ))
round_from zero n r cs = some []
round_from (suc games) n r cs = elim (next_sequence n r cs) [
  | none ↦ none
  | some cs' ↦ elim (round_from games n r cs') [ none ↦ none | some rows ↦ some (cs' ∷ rows) ]
]

-- The last robot of the first sequence is put one back, "to be increased first time".
unfoldable pub first_sequence : ℕ → List ℕ
unfolding count_up
first_sequence r = let cs = count_up r 0 in set cs (r - 1) (get_or cs (r - 1) 0 - 1)

unfoldable pub complete_round : ℕ → ℕ → ℕ → Option (List (List ℕ))
unfolding first_sequence
complete_round games_per_round n r = round_from games_per_round n r (first_sequence r)
