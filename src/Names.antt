-- ===== src/Names.antt =====
-- `Robot::check_name_uniqueness` of src/Robot.cc: robots of the same plain name get different numbers.
-- How a number is printed is a parameter.
pub mod Unique
use Prim.Native.String.{String, ◌++◌}
use text.Mathlib.Text.{◌==◌ as str_eq}
use realtimebattle.Base.{
  ℕ, ◌+◌, Bool, not, ◌&&◌, ◌||◌, List, [], ◌∷◌, map, ltb, ◌==◌, if◌then◌else◌,
}

-- The robot as the function sees it; the address stands for the pointer.
pub record Named : Type 0 where
  pub address : ℕ
  pub plain_robot_name : String
  pub robot_name_uniqueness_number : ℕ
  pub robot_name : String

-- `robotp != this && plain_robot_name == robotp->plain_robot_name`
abbrev pub is_namesake : Named → Named → Bool
is_namesake this r =
    not (r.address == this.address) && str_eq this.plain_robot_name r.plain_robot_name

-- A namesake without a number gets the number 1.
abbrev pub numbered : Named → Named
numbered r =
    if r.robot_name_uniqueness_number == 0
    then record r { robot_name_uniqueness_number = 1; robot_name = r.robot_name ++ "(1)" }
    else r

-- `max_rtb` on `int`.
abbrev pub larger : ℕ → ℕ → ℕ
larger a b = if ltb b a then a else b

-- The robots after the loop, and the number of `this`.
pub record Visited : Type 0 where
  pub robots : List Named
  pub number : ℕ

-- The loop, with `first_avail` and the number of `this` so far.
unfoldable pub visit : Named → List Named → ℕ → ℕ → Visited
visit this [] first_avail number = record { robots = []; number = number }
visit this (r ∷ rs) first_avail number =
    let r' = numbered r in
    let first' = larger (r'.robot_name_uniqueness_number + 1) first_avail in
    let number' =
      if number == r'.robot_name_uniqueness_number || number == 0 then first' else number in
    let same = visit this rs first' number' in
    let other = visit this rs first_avail number in
    if is_namesake this r
    then record { robots = r' ∷ same.robots; number = same.number }
    else record { robots = r ∷ other.robots; number = other.number }

module _ (number2string : ℕ → String) where
  -- `this` after the function.
  unfoldable pub named : Named → ℕ → Named
  named this number = record this {
    robot_name_uniqueness_number = number;
    robot_name =
        if ltb 0 number
        then this.plain_robot_name ++ "(" ++ number2string number ++ ")"
        else this.plain_robot_name;
  }

  -- All robots of the tournament afterwards.
  unfoldable pub check_name_uniqueness : Named → List Named → List Named
  unfolding visit named
  check_name_uniqueness this robots =
      let v = visit this robots 0 this.robot_name_uniqueness_number in
      let this' = named this v.number in
      map (λ r. if r.address == this.address then this' else r) v.robots
