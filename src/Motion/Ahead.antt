-- ===== src/Motion/Ahead.antt =====
-- What get_shortest_distance of src/ArenaBase.cc finds on the field of the motion.
use realtimebattle.Base.{
  ℕ, ◌≡◌, refl, ap, ◌∙◌, ◌⊎◌, inl, inr, List, [], ◌∷◌, ◌==◌, Option, none, some, map, Bool-cases,
  arith,
}
use realtimebattle.Double.{Double, IsOrdered, ◌⊀◌, infinity_rtb}
use realtimebattle.Vector2D.{Vector2D}
use realtimebattle.Shapes.Distance.{get_distance_not_negative}
use realtimebattle.ObjectLists.{
  ObjectType, robot, shot, wall, cookie, mine, Item, Nearest, object_list, get_shortest_distance,
}
use realtimebattle.ObjectLists.Shortest.{
  FoundIn, found_here, found_later, get_shortest_distance_minimal,
}
use realtimebattle.Motion.{Shot, Field, lists_of, shot_item, shot_at}

module _ {ℓ} {W : Type ℓ} where
  -- What is met stands on the list if it is a shot.
  abbrev pub Meets : ObjectType → Item W → Field W → Type ℓ
  Meets shot i f = (s : Shot W) × (shot_at i.address f.shots ≡ some s)
  Meets _ i f = Unit {ℓ}

module _ {ℓ} {W : Type ℓ} ⦃d : Double W⦄ (laws : IsOrdered W) (pos dir : Vector2D W) (size : W)
    (me : Option ℕ) where
  open d use {lit, lt}

  -- The object of a list at which the search has ended, at a time that is not below 0.
  abbrev IsOf : ObjectType → Nearest W → Item W → Type ℓ
  IsOf t n i = (n.closest_shape ≡ some t) × (n.colliding_object ≡ some i) × (n.dist ⊀ lit 0 0)

  IsOf-here :
      (t : ObjectType) (n : Nearest W) (i : Item W) (is : List (Item W))
      → FoundIn laws pos dir size me t n (i ∷ is)
      → IsOf t n i ⊎ FoundIn laws pos dir size me t n is
  IsOf-here t n i is (found_later h) = inr h
  IsOf-here t n i is (found_here counts h) = inl (
    ap (λ (x : Nearest W). x.closest_shape) h,
    ap (λ (x : Nearest W). x.colliding_object) h,
    ap (λ (x : Nearest W). lt x.dist (lit 0 0)) h
        ∙ get_distance_not_negative laws i.shape pos dir size,
  )

  IsOf-some :
      (t : ObjectType) (n : Nearest W) (is : List (Item W))
      → FoundIn laws pos dir size me t n is
      → (i : Item W) × IsOf t n i
  IsOf-some t n [] h = elim h [ ]
  IsOf-some t n (i ∷ is) h = elim (IsOf-here t n i is h) [
    | inl here ↦ (i, here)
    | inr later ↦ IsOf-some t n is later
  ]

  -- A search that ends at a shot ends at one of the list.
  IsOf-shot :
      (n : Nearest W) (ss : List (Shot W))
      → FoundIn laws pos dir size me shot n (map shot_item ss)
      → (i : Item W) × IsOf shot n i × (s : Shot W) × (shot_at i.address ss ≡ some s)
  IsOf-shot n [] h = elim h [ ]
  IsOf-shot n (s ∷ ss) h = elim (IsOf-here shot n (shot_item s) (map shot_item ss) h) [
    | inl here ↦ (shot_item s, here, s, ground arith)
    | inr later ↦
        let (i, is, r, at) = IsOf-shot n ss later in
        elim (Bool-cases (s.address == i.address)) [
          | inl same ↦ (i, is, s, rw same refl)
          | inr differs ↦ (i, is, r, rw differs at)
        ]
  ]

  abbrev pub on_field : Field W → Nearest W
  on_field f = get_shortest_distance pos dir size me (lists_of f)

  what_is_met :
      (f : Field W) (t : ObjectType)
      → FoundIn laws pos dir size me t (on_field f) (object_list (lists_of f) t)
      → (i : Item W) × IsOf t (on_field f) i × Meets t i f
  what_is_met f shot found =
      let (i, is, s, at) = IsOf-shot (on_field f) f.shots found in (i, is, (s, at))
  what_is_met f robot found = let (i, is) = IsOf-some robot (on_field f) _ found in (i, is, tt)
  what_is_met f wall found = let (i, is) = IsOf-some wall (on_field f) _ found in (i, is, tt)
  what_is_met f cookie found = let (i, is) = IsOf-some cookie (on_field f) _ found in (i, is, tt)
  what_is_met f mine found = let (i, is) = IsOf-some mine (on_field f) _ found in (i, is, tt)

  -- Nothing is ahead, or an object at a time that is not below 0; a shot stands on its list.
  abbrev pub IsAhead : Nearest W → Field W → Type ℓ
  IsAhead n f =
      (n.dist ≡ infinity_rtb) × (n.closest_shape ≡ none)
      ⊎ ((t : ObjectType) × (i : Item W) × (n.closest_shape ≡ some t)
          × (n.colliding_object ≡ some i)
          × (n.dist ⊀ lit 0 0)
          × Meets t i f)

  pub on_field-IsAhead : (f : Field W) → IsAhead (on_field f) f
  on_field-IsAhead f = elim (get_shortest_distance_minimal laws pos dir size me (lists_of f)).1 [
    | inl nothing ↦
        inl
          (ap (λ (x : Nearest W). x.dist) nothing, ap (λ (x : Nearest W). x.closest_shape) nothing)
    | inr (t, found) ↦
        let (i, (shape, object, time), met) = what_is_met f t found in
        inr (t, i, shape, object, time, met)
  ]
