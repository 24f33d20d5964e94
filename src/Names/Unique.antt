-- ===== src/Names/Unique.antt =====
-- The numbers that `Robot::check_name_uniqueness` of src/Robot.cc gives.
use Prim.Native.String.{String}
use realtimebattle.Base.{
  ℕ, ◌+◌, ◌<◌, ◌≡◌, ◌||◌, refl, ◌≢◌, true, List, [], ◌∷◌, map, ◌==◌, if◌then◌else◌, arith, if-cases,
  All,
}
use realtimebattle.Names.{
  Named, is_namesake, numbered, larger, Visited, visit, named, check_name_uniqueness,
}

-- A number that is taken already is not given to `this` later.
visit-avoids :
    (this : Named) (rs : List Named) (first_avail number k : ℕ)
    → 0 < k
    → k < first_avail
    → number ≢ k
    → (visit this rs first_avail number).number ≢ k
unfolding visit
visit-avoids this [] first_avail number k h l e = e
visit-avoids this (r ∷ rs) first_avail number k h l e =
    let m = (numbered r).robot_name_uniqueness_number in
    let first' = larger (m + 1) first_avail in
    let number' = if number == m || number == 0 then first' else number in
    if-cases (λ (v : Visited). v.number ≢ k) (is_namesake this r)
      (λ _. visit-avoids this rs first' number' k h (ground arith) (ground arith))
      (λ _. visit-avoids this rs first_avail number k h l e)

-- No namesake among the robots has the number k.
abbrev pub Apart : Named → ℕ → List Named → Type 0
Apart this k = All (λ r. is_namesake this r ≡ true → k ≢ r.robot_name_uniqueness_number)

visit-Apart :
    (this : Named) (rs : List Named) (first_avail number : ℕ)
    → Apart this (visit this rs first_avail number).number (visit this rs first_avail number).robots
unfolding visit
visit-Apart this [] first_avail number = tt
visit-Apart this (r ∷ rs) first_avail number =
    let m = (numbered r).robot_name_uniqueness_number in
    let first' = larger (m + 1) first_avail in
    let number' = if number == m || number == 0 then first' else number in
    let same = visit this rs first' number' in
    let other = visit this rs first_avail number in
    if-cases (λ (v : Visited). Apart this v.number v.robots) (is_namesake this r)
      {t = record { robots = numbered r ∷ same.robots; number = same.number }}
      {u = record { robots = r ∷ other.robots; number = other.number }}
      (λ _. (
        (λ _. visit-avoids this rs first' number' m (ground arith) (ground arith) (ground arith)),
        visit-Apart this rs first' number',
      ))
      (λ not_same.
        ((λ h. absurd (ground (arith, h, not_same))), visit-Apart this rs first_avail number))

-- Renaming `this` keeps what the others are, and gives its entries the number.
renamed-Apart :
    (this this' : Named) (k : ℕ) (rs : List Named)
    → this'.address ≡ this.address
    → Apart this k rs
    → Apart this k (map (λ r. if r.address == this.address then this' else r) rs)
renamed-Apart this this' k [] e h = tt
renamed-Apart this this' k (r ∷ rs) e (h, hs) = (
  if-cases (λ (q : Named). is_namesake this q ≡ true → k ≢ q.robot_name_uniqueness_number)
      (r.address == this.address) (λ _ same. absurd (ground (arith, same, e))) (λ _. h),
  renamed-Apart this this' k rs e hs,
)

abbrev pub IsNumbered : Named → ℕ → List Named → Type 0
IsNumbered this k = All (λ r. r.address ≡ this.address → r.robot_name_uniqueness_number ≡ k)

renamed-IsNumbered :
    (this this' : Named) (rs : List Named)
    → IsNumbered this this'.robot_name_uniqueness_number
        (map (λ r. if r.address == this.address then this' else r) rs)
renamed-IsNumbered this this' [] = tt
renamed-IsNumbered this this' (r ∷ rs) = (
  if-cases
      (λ (q : Named).
        q.address ≡ this.address
        → q.robot_name_uniqueness_number ≡ this'.robot_name_uniqueness_number)
      (r.address == this.address) (λ _ _. refl) (λ differs h. absurd (ground (arith, differs, h))),
  renamed-IsNumbered this this' rs,
)

-- After the function there is a number that every entry of the robot itself has, and that no other
-- robot of the same plain name has.
pub check_name_uniqueness-Apart :
    (number2string : ℕ → String) (this : Named) (robots : List Named)
    → (k : ℕ) × IsNumbered this k (check_name_uniqueness number2string this robots)
      × Apart this k (check_name_uniqueness number2string this robots)
unfolding check_name_uniqueness named
check_name_uniqueness-Apart number2string this robots =
    let v = visit this robots 0 this.robot_name_uniqueness_number in
    let this' = named number2string this v.number in
    (
      v.number,
      renamed-IsNumbered this this' v.robots,
      renamed-Apart this this' v.number v.robots refl
          (visit-Apart this robots 0 this.robot_name_uniqueness_number),
    )
