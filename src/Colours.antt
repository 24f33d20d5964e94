-- ===== src/Colours.antt =====
-- find_free_colour, is_colour_allowed and colour_dist of src/ArenaRealTime.cc.
pub mod Apart
use Prim.Native.String.{String}
use text.Mathlib.Text.{◌==◌ as str_eq}
use realtimebattle.Base.{
  ℕ, zero, suc, ◌+◌, ◌-◌, ◌/◌, ◌%◌, Bool, true, false, not, ◌&&◌, Option, none, some, List, [], ◌∷◌,
  ◌==◌, if◌then◌else◌,
}
use realtimebattle.Base.Int.{ℤ, pos, negsuc}
use realtimebattle.Double.{Double}
use realtimebattle.Options.{Options, get_l, LongOption, background_colour}

-- What is read of a robot here.
pub record Painted : Type 0 where
  pub in_team : Bool
  pub team_name : String
  pub colour_given : Bool
  pub rgb_colour : ℤ

-- The byte of a long at 1, 2 ^ 8 and 2 ^ 16: `(col & mask) >> shift`.
unfoldable pub byte : ℕ → ℤ → ℕ
byte place (pos n) = n / place % 256
byte place (negsuc n) = 255 - n / place % 256

-- How the search ends: with a colour, with the fatal error, or without an end.
pub data Found : Type 0 where
  colour : ℤ → Found
  impossible no_end : Found

abbrev colour_or : Found → Option ℤ → Found
colour_or f none = f
colour_or f (some c) = colour c

module _ {ℓ} {W : Type ℓ} ⦃d : Double W⦄ where
  open d use {lit, of_int, add, sub, mul, div, fabs, sqrt, log, lt}

  unfoldable pub byte_dist : ℕ → ℕ → W
  byte_dist a b =
      let x = of_int (pos a) in
      let y = of_int (pos b) in mul (fabs (sub x y)) (log (add (lit 1 0) (sqrt (add x y))))

  unfoldable pub colour_dist : ℤ → ℤ → W
  unfolding byte byte_dist
  colour_dist col1 col2 =
      div
        (add
          (add (byte_dist (byte 1 col1) (byte 1 col2)) (byte_dist (byte 256 col1) (byte 256 col2)))
          (byte_dist (byte 65536 col1) (byte 65536 col2)))
        (lit 24178 1)

  -- The loop of `is_colour_allowed`.
  unfoldable pub apart_from : ℤ → W → ℕ → (ℕ → Painted) → List ℕ → Bool
  unfolding colour_dist
  apart_from c min_dist robotp robots [] = true
  apart_from c min_dist robotp robots (p ∷ ps) =
      let rest = apart_from c min_dist robotp robots ps in
      let d1 = colour_dist c (robots p).rgb_colour in
      if p == robotp then rest else if lt d1 min_dist then false else rest

-- robotp is a number at which `robots` has the robot, `all` is all_robots_in_sequence, and rand is the
-- n-th value of rand().
module _ {ℓ} {W : Type ℓ} ⦃d : Double W⦄ (o : Options W) (rand : ℕ → ℕ) (robots : ℕ → Painted)
    (all : List ℕ) (robotp : ℕ) where
  open d use {lit, mul, lt}

  unfoldable pub is_colour_allowed : ℤ → W → Bool
  unfolding apart_from colour_dist get_l
  is_colour_allowed c min_dist =
      if apart_from c min_dist robotp robots all
      then not (lt (colour_dist c (get_l o background_colour)) min_dist)
      else false

  -- The colour of a mate, where the robot is in a team.
  unfoldable pub mate_colour : List ℕ → Option ℤ
  mate_colour [] = none
  mate_colour (p ∷ ps) =
      let rest = mate_colour ps in
      let r = robots p in
      if not (p == robotp)
        && (r.colour_given && (r.in_team && str_eq r.team_name (robots robotp).team_name))
      then some r.rgb_colour
      else rest

  -- So many tries from the n-th rand() on.
  unfoldable pub try_colours : ℕ → W → ℕ → Option ℤ
  unfolding is_colour_allowed
  try_colours zero min_dist n = none
  try_colours (suc tries) min_dist n =
      let rest = try_colours tries min_dist (n + 1) in
      let tmp_colour = pos (rand n % 16777216) in
      if is_colour_allowed tmp_colour (mul min_dist (lit 2 0)) then some tmp_colour else rest

  -- The loop on min_dist, with fuel for its rounds.
  unfoldable pub search_colour : ℕ → ℤ → ℤ → Bool → W → ℕ → Found
  unfolding is_colour_allowed try_colours
  search_colour zero home away random_colours min_dist n = no_end
  search_colour (suc fuel) home away random_colours min_dist n =
      let rest = search_colour fuel home away random_colours (mul min_dist (lit 8 1)) (n + 25) in
      if lt (lit 1 2) min_dist
      then if not random_colours && is_colour_allowed home min_dist
        then colour home
        else if not random_colours && is_colour_allowed away min_dist
        then colour away
        else colour_or rest (try_colours 25 min_dist n)
      else impossible

  unfoldable pub find_free_colour : ℕ → ℤ → ℤ → Bool → ℕ → Found
  unfolding mate_colour search_colour
  find_free_colour fuel home_colour away_colour random_colours n =
      let searched = search_colour fuel home_colour away_colour random_colours (lit 1 1) n in
      if (robots robotp).in_team then colour_or searched (mate_colour all) else searched
