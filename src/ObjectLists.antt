-- ===== src/ObjectLists.antt =====
-- `object_lists` of src/ArenaBase.cc and the searches over it: `get_shortest_distance`,
-- `space_available`, `find_object_by_id`. An object is seen as its address (what a pointer
-- comparison reads), its id and its shape.
pub mod Shortest
use realtimebattle.Base.{
  ℕ, ◌≡◌, Bool, true, false, not, ◌&&◌, ◌||◌, ◌⊎◌, Option, some, none, List, [], ◌∷◌, ◌==◌,
  if◌then◌else◌,
}
use realtimebattle.Double.{Double, infinity_rtb}
use realtimebattle.Vector2D.{Vector2D, ◌-ᵥ◌, length, unit}
use realtimebattle.Shapes.{Shape, get_distance, within_distance}

-- `object_type` without NOOBJECT, which is `none` below.
pub data ObjectType : Type 0 where
  robot shot wall cookie mine : ObjectType

pub record Item {ℓ} (W : Type ℓ) : Type ℓ where
  pub address : ℕ
  pub id : ℕ
  pub shape : Shape W

pub record ObjectLists {ℓ} (W : Type ℓ) : Type ℓ where
  pub robots : List (Item W)
  pub shots : List (Item W)
  pub walls : List (Item W)
  pub cookies : List (Item W)
  pub mines : List (Item W)

abbrev pub object_list {ℓ} : {W : Type ℓ} → ObjectLists W → ObjectType → List (Item W)
object_list o robot = o.robots
object_list o shot = o.shots
object_list o wall = o.walls
object_list o cookie = o.cookies
object_list o mine = o.mines

-- `dist`, `closest_shape` and `colliding_object`, which the code leaves unset while it finds nothing.
pub record Nearest {ℓ} (W : Type ℓ) : Type ℓ where
  pub dist : W
  pub closest_shape : Option ObjectType
  pub colliding_object : Option (Item W)

-- `obj_type != ROBOT || (Robot*)(*li) != the_robot`, where NULL is `none`.
abbrev pub is_other : ObjectType → Option ℕ → ℕ → Bool
is_other robot (some me) a = not (a == me)
is_other _ _ a = true

module _ {ℓ} {W : Type ℓ} ⦃d : Double W⦄ where
  open d use {lit, lt, le}

  module _ (pos dir : Vector2D W) (size : W) (the_robot : Option ℕ) where
    -- One round of the inner loop.
    unfoldable pub closer : ObjectType → Item W → Nearest W → Nearest W
    closer t i n =
        let dist = get_distance i.shape pos dir size in
        if is_other t the_robot i.address && lt dist n.dist
        then record { dist = dist; closest_shape = some t; colliding_object = some i }
        else n

    unfoldable pub scan : ObjectType → List (Item W) → Nearest W → Nearest W
    scan t [] n = n
    scan t (i ∷ is) n = scan t is (closer t i n)

    unfoldable pub get_shortest_distance : ObjectLists W → Nearest W
    get_shortest_distance o =
        let start : Nearest W = record {
          dist = infinity_rtb;
          closest_shape = none;
          colliding_object = none;
        } in
        scan mine o.mines (
          scan cookie o.cookies (scan wall o.walls (scan shot o.shots (scan robot o.robots start))))

  unfoldable pub any_within : List (Item W) → Vector2D W → W → Bool
  any_within [] pos margin = false
  any_within (i ∷ is) pos margin = within_distance i.shape pos margin || any_within is pos margin

  -- The test that an exclusion point makes the place unusable: it is near, or seen from there.
  unfoldable pub sees : ObjectLists W → Vector2D W → W → Vector2D W → Bool
  sees o pos margin v =
      let dist = length (v -ᵥ pos) in
      le dist margin || le dist (get_shortest_distance pos (unit (v -ᵥ pos)) (lit 0 0) none o).dist

  unfoldable pub any_seen : ObjectLists W → Vector2D W → W → List (Vector2D W) → Bool
  any_seen o pos margin [] = false
  any_seen o pos margin (v ∷ vs) = sees o pos margin v || any_seen o pos margin vs

  unfoldable pub space_available : ObjectLists W → List (Vector2D W) → Vector2D W → W → Bool
  space_available o exclusion_points pos margin =
      not (
        any_within o.robots pos margin
        || (any_within o.shots pos margin
            || (any_within o.walls pos margin
                || (any_within o.cookies pos margin || any_within o.mines pos margin))))
      && not (any_seen o pos margin exclusion_points)

-- The iterator that `find_object_by_id` sets, if it returns true.
unfoldable pub find_object_by_id {ℓ} : {W : Type ℓ} → List (Item W) → ℕ → Option (Item W)
find_object_by_id [] obj_id = none
find_object_by_id (i ∷ is) obj_id = if i.id == obj_id then some i else find_object_by_id is obj_id
