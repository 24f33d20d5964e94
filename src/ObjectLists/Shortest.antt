-- ===== src/ObjectLists/Shortest.antt =====
-- `get_shortest_distance` of src/ArenaBase.cc finds the nearest object.
use realtimebattle.Base.{
  ℕ, ◌≡◌, ◌⊎◌, inl, inr, refl, true, Option, some, none, List, [], ◌∷◌, arith, ◌∙◌,
}
use realtimebattle.Double.{Double, IsOrdered, ◌≺◌, ◌⊀◌, lt_irrefl, infinity_rtb}
use realtimebattle.Vector2D.{Vector2D}
use realtimebattle.Shapes.{get_distance}
use realtimebattle.ObjectLists.{
  ObjectType, robot, shot, wall, cookie, mine, Item, ObjectLists, object_list, Nearest, is_other,
  closer, scan, get_shortest_distance,
}

module _ {ℓ} {W : Type ℓ} ⦃d : Double W⦄ (laws : IsOrdered W) (pos dir : Vector2D W) (size : W)
    (the_robot : Option ℕ) where
  abbrev away : Item W → W
  away i = get_distance i.shape pos dir size

  -- No object of the list that counts is nearer than `dist`.
  abbrev pub NoneNearer : W → ObjectType → List (Item W) → Type 0
  NoneNearer dist t [] = Unit {0}
  NoneNearer dist t (i ∷ is) =
      (is_other t the_robot i.address ≡ true → away i ⊀ dist) × NoneNearer dist t is

  abbrev pub Shrinks : W → W → Type ℓ
  Shrinks new old = (new ≡ old) ⊎ (new ≺ old)

  closer-Shrinks :
      (t : ObjectType) (i : Item W) (n : Nearest W)
      → Shrinks (closer pos dir size the_robot t i n).dist n.dist
  unfolding closer
  closer-Shrinks t i n = ground arith

  Shrinks-trans : (a b c : W) → Shrinks a b → Shrinks b c → Shrinks a c
  Shrinks-trans a b c h k = ground (arith, laws.lt_trans a b c)

  scan-Shrinks :
      (t : ObjectType) (is : List (Item W)) (n : Nearest W)
      → Shrinks (scan pos dir size the_robot t is n).dist n.dist
  unfolding scan
  scan-Shrinks t [] n = inl refl
  scan-Shrinks t (i ∷ is) n =
      Shrinks-trans _ _ _ (scan-Shrinks t is (closer pos dir size the_robot t i n))
        (closer-Shrinks t i n)

  not_nearer_of-Shrinks : (a old new : W) → a ⊀ old → Shrinks new old → a ⊀ new
  not_nearer_of-Shrinks a old new h s = ground (arith, laws.lt_trans a new old)

  closer-not_nearer :
      (t : ObjectType) (i : Item W) (n : Nearest W)
      → is_other t the_robot i.address ≡ true
      → away i ⊀ (closer pos dir size the_robot t i n).dist
  unfolding closer
  closer-not_nearer t i n h = ground (arith, lt_irrefl laws (away i))

  scan-NoneNearer :
      (t : ObjectType) (is : List (Item W)) (n : Nearest W)
      → NoneNearer (scan pos dir size the_robot t is n).dist t is
  unfolding scan
  scan-NoneNearer t [] n = tt
  scan-NoneNearer t (i ∷ is) n =
      let n' = closer pos dir size the_robot t i n in
      (
        λ h. not_nearer_of-Shrinks _ _ _ (closer-not_nearer t i n h) (scan-Shrinks t is n'),
        scan-NoneNearer t is n',
      )

  NoneNearer-of-Shrinks :
      (t : ObjectType) (is : List (Item W)) (old new : W)
      → Shrinks new old
      → NoneNearer old t is
      → NoneNearer new t is
  NoneNearer-of-Shrinks t [] old new s h = tt
  NoneNearer-of-Shrinks t (i ∷ is) old new s (h, hs) =
      (λ o. not_nearer_of-Shrinks _ _ _ (h o) s, NoneNearer-of-Shrinks t is old new s hs)

  -- The search has ended at an object of the list that counts, with its distance.
  pub data FoundIn (t : ObjectType) (n : Nearest W) : List (Item W) → Type ℓ where
    found_here :
        {i : Item W} {is : List (Item W)}
        → is_other t the_robot i.address ≡ true
        → n ≡ record { dist = away i; closest_shape = some t; colliding_object = some i }
        → FoundIn t n (i ∷ is)
    found_later : {i : Item W} {is : List (Item W)} → FoundIn t n is → FoundIn t n (i ∷ is)

  closer-cases :
      (t : ObjectType) (i : Item W) (n : Nearest W)
      → (closer pos dir size the_robot t i n ≡ n)
        ⊎ (is_other t the_robot i.address ≡ true)
          × (closer pos dir size the_robot t i n
              ≡ record { dist = away i; closest_shape = some t; colliding_object = some i })
  unfolding closer
  closer-cases t i n = ground arith

  scan-cases :
      (t : ObjectType) (is : List (Item W)) (n : Nearest W)
      → (scan pos dir size the_robot t is n ≡ n) ⊎ FoundIn t (scan pos dir size the_robot t is n) is
  unfolding scan
  scan-cases t [] n = inl refl
  scan-cases t (i ∷ is) n = elim (scan-cases t is (closer pos dir size the_robot t i n)) [
    | inr later ↦ inr (found_later later)
    | inl same ↦ elim (closer-cases t i n) [
      | inl kept ↦ inl (same ∙ kept)
      | inr (counts, here) ↦ inr (found_here counts (same ∙ here))
    ]
  ]

  abbrev nothing_found : Nearest W
  nothing_found = record { dist = infinity_rtb; closest_shape = none; colliding_object = none }

  abbrev pub IsResult : ObjectLists W → Nearest W → Type ℓ
  IsResult o n = (n ≡ nothing_found) ⊎ ((t : ObjectType) × FoundIn t n (object_list o t))

  scan-IsResult :
      (t : ObjectType) (o : ObjectLists W) (n : Nearest W)
      → IsResult o n
      → IsResult o (scan pos dir size the_robot t (object_list o t) n)
  scan-IsResult t o n before = elim (scan-cases t (object_list o t) n) [
    | inl same ↦ rw same before
    | inr found ↦ inr (t, found)
  ]

  -- `get_shortest_distance` returns the minimum: no object of the five lists, `the_robot` itself
  -- excepted, is at a smaller distance than the result. Either nothing was found, and the result is
  -- `infinity_rtb`, or the object that it names stands in the list of the type that it names, is not
  -- `the_robot`, and is at just that distance.
  pub get_shortest_distance_minimal :
      (o : ObjectLists W)
      → ((t : ObjectType)
          → NoneNearer (get_shortest_distance pos dir size the_robot o).dist t (object_list o t))
        × IsResult o (get_shortest_distance pos dir size the_robot o)
  unfolding get_shortest_distance
  get_shortest_distance_minimal o =
      let n0 : Nearest W = nothing_found in
      let n1 = scan pos dir size the_robot robot o.robots n0 in
      let n2 = scan pos dir size the_robot shot o.shots n1 in
      let n3 = scan pos dir size the_robot wall o.walls n2 in
      let n4 = scan pos dir size the_robot cookie o.cookies n3 in
      let n5 = scan pos dir size the_robot mine o.mines n4 in
      let s5 = scan-Shrinks mine o.mines n4 in
      let s4 = Shrinks-trans n5.dist n4.dist n3.dist s5 (scan-Shrinks cookie o.cookies n3) in
      let s3 = Shrinks-trans n5.dist n3.dist n2.dist s4 (scan-Shrinks wall o.walls n2) in
      let s2 = Shrinks-trans n5.dist n2.dist n1.dist s3 (scan-Shrinks shot o.shots n1) in
      let all : (t : ObjectType) → NoneNearer n5.dist t (object_list o t) = elim [
        | robot ↦ NoneNearer-of-Shrinks robot o.robots _ _ s2 (scan-NoneNearer robot o.robots n0)
        | shot ↦ NoneNearer-of-Shrinks shot o.shots _ _ s3 (scan-NoneNearer shot o.shots n1)
        | wall ↦ NoneNearer-of-Shrinks wall o.walls _ _ s4 (scan-NoneNearer wall o.walls n2)
        | cookie ↦
            NoneNearer-of-Shrinks cookie o.cookies _ _ s5 (scan-NoneNearer cookie o.cookies n3)
        | mine ↦ scan-NoneNearer mine o.mines n4
      ] in
      (
        all,
        scan-IsResult mine o n4 (
            scan-IsResult cookie o n3 (
              scan-IsResult wall o n2
                (scan-IsResult shot o n1 (scan-IsResult robot o n0 (inl refl))))),
      )
