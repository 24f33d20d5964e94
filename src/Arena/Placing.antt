-- ===== src/Arena/Placing.antt =====
-- Where the robots of a game are put: the places of `start_game` of src/ArenaRealTime.cc, and what the
-- server runs on.
use Prim.Native.String.{String}
use realtimebattle.Base.{
  ℕ, zero, suc, ◌+◌, Bool, true, false, List, [], ◌∷◌, ◌++◌, Option, none, some, if◌then◌else◌,
}
use realtimebattle.Base.Int.{pos, ◌+ℤ◌}
use realtimebattle.Double.{Double}
use realtimebattle.Vector2D.{Vector2D, vec}
use realtimebattle.Input.{Input, DoubleInput}
use realtimebattle.ObjectLists.{space_available}
use realtimebattle.Options.{Options, get_d, get_l}
use realtimebattle.Options as opt
use realtimebattle.Robot.{Robot, live, set_values_before_game}
use realtimebattle.Arena.{Arena, Result, returns, on_part, object_lists, at_pointer}

-- What the server runs on: the files (`none` cannot be opened) with a bound on their lines and curves,
-- the values of rand() in order, and the timer. And what the messages of a robot make of it before it is placed
-- (`none` is a fatal error), and whether find_free_colour finds a colour for a robot, without its fatal error.
pub record Host {ℓ κ} (W : Type ℓ) (S : Type κ) : Type (ℓ ⊔ κ) where
  pub open_file : String → Option S
  pub max_lines : ℕ
  pub max_curve : ℕ
  pub rand : ℕ → ℕ
  pub rand_max : ℕ
  pub clock : ℕ → W
  pub heard : ℕ → Arena W → Option (Robot W)
  pub has_colour : ℕ → Arena W → Bool

module _ {ℓ κ} {W : Type ℓ} {S : Type κ} ⦃d : Double W⦄ ⦃inp : Input S⦄ ⦃dbl : DoubleInput W S⦄
    (h : Host W S) (o : Options W) where
  open d use {lit, pi, of_int, add, sub, mul, div}

  abbrev pub rand : Arena W → W
  rand a = of_int (pos (h.rand a.rand_calls))

  abbrev pub rand_max : W
  rand_max = of_int (pos h.rand_max)

  -- The first rand() is the one for x.
  unfoldable pub get_random_position : Arena W → Vector2D W × Arena W
  get_random_position a =
      let b0 = a.plan.boundary0 in
      let b1 = a.plan.boundary1 in
      let a1 = record a { rand_calls = a.rand_calls + 1 } in
      (
        vec (add b0.x (div (mul (sub b1.x b0.x) (rand a)) rand_max))
            (add b0.y (div (mul (sub b1.y b0.y) (rand a1)) rand_max)),
        record a1 { rand_calls = a1.rand_calls + 1 },
      )

  -- `for( int i=0; i<100 && !found_space; i++ )`: the place, if one is found.
  unfoldable pub find_space : ℕ → W → Arena W → Option (Vector2D W) × Arena W
  unfolding get_random_position
  find_space zero margin a = (none, a)
  find_space (suc tries) margin a =
      let (p, a') = get_random_position a in
      let again = find_space tries margin a' in
      if space_available (object_lists a') a'.plan.exclusion_points p margin
      then (some p, a')
      else again

  -- A robot is put where there is space for it, at a random angle.
  unfoldable pub place_at : ℕ → Vector2D W → Arena W → Arena W
  unfolding live set_values_before_game ◌+ℤ◌
  place_at r p a =
      let angle = div (mul (mul (rand a) (lit 2 0)) pi) rand_max in
      record a {
        rand_calls = a.rand_calls + 1;
        robots = at_pointer (λ x. live (set_values_before_game o p angle x)) r a.robots;
        robots_on_arena = a.robots_on_arena ++ (r ∷ []);
        robots_left = a.robots_left +ℤ pos 1;
      }

  -- What follows the search for space: the loop ends without it, or goes on with `rest`.
  unfoldable pub place_next :
      ℕ → (Arena W → Result (Arena W)) → Option (Vector2D W) × Arena W → Result (Arena W)
  unfolding place_at
  place_next r rest (none, a) = returns false a
  place_next r rest (some p, a) = rest (place_at r p a)

  -- The loop of `start_game` over the robots; false where there is no space for one of them.
  unfoldable pub place_robots : List ℕ → Arena W → Result (Arena W)
  unfolding find_space place_next
  place_robots [] a = returns true a
  place_robots (r ∷ rs) a = on_part (h.heard r a) (λ x. place_next r (place_robots rs) (
      find_space 100 (mul (get_d o opt.robot_radius) (lit 12 1))
        (record a { robots = at_pointer (λ _. x) r a.robots })))
