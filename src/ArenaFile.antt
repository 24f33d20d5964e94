-- ===== src/ArenaFile.antt =====
-- Arena files: `parse_arena_line` of src/ArenaBase.cc and the loop of `parse_arena_file` of
-- src/ArenaRealTime.cc. `Error(false, ...)` reports and goes on: the line is refused.
pub mod Curve
pub mod Lines
pub mod Growth
pub mod Sound
use text.Mathlib.Text.{◌==◌ as str_eq}
use realtimebattle.Base.{
  ℕ, zero, suc, ◌-◌, Bool, true, false, not, ◌&&◌, ◌||◌, List, [], ◌∷◌, ◌++◌, Option, some, none,
  ltb, ◌==◌, if◌then◌else◌,
}
use realtimebattle.Base.Int.{ℤ, pos_part}
use realtimebattle.Double.{Double, sgn_rtb}
use realtimebattle.Vector2D.{
  Vector2D, vec, ◌+ᵥ◌, ◌-ᵥ◌, ◌*ᵥ◌, rotate, rotate90, length, lengthsqr, vec2angle, angle2vec, unit,
}
use realtimebattle.Shapes.{Shape, Line, Circle, line, circle, inner_circle, arc, make_arc}
use realtimebattle.Input.{Input, DoubleInput}

-- The classes of include/Wall.h: a shape with its two coefficients.
pub record Wall {ℓ} (W : Type ℓ) : Type ℓ where
  pub shape : Shape W
  pub bounce_coeff : W
  pub hardness_coeff : W

-- What a line can change: the three members of the arena and the three arguments.
pub record Plan {ℓ} (W : Type ℓ) : Type ℓ where
  pub boundary0 : Vector2D W
  pub boundary1 : Vector2D W
  pub exclusion_points : List (Vector2D W)
  pub walls : List (Wall W)
  pub scale : W
  pub succession : ℕ
  pub angle_factor : W

-- The value returned, what it leaves in the arena, and the rest of the file.
pub record Parsed {ℓ κ} (W : Type ℓ) (S : Type κ) : Type (ℓ ⊔ κ) where
  pub ok : Bool
  pub plan : Plan W
  pub file : S

abbrev pub accept {ℓ κ} : {W : Type ℓ} {S : Type κ} → Plan W → S → Parsed W S
accept p s = record { ok = true; plan = p; file = s }

abbrev pub refuse {ℓ κ} : {W : Type ℓ} {S : Type κ} → Plan W → S → Parsed W S
refuse p s = record { ok = false; plan = p; file = s }

abbrev pub push_back {ℓ} : {W : Type ℓ} → Plan W → Wall W → Plan W
push_back p w = record p { walls = p.walls ++ (w ∷ []) }

abbrev pub push_front {ℓ} : {W : Type ℓ} → Plan W → Wall W → Plan W
push_front p w = record p { walls = w ∷ p.walls }

-- The guard of a wall: refused before the boundary, else `succession = 4` and go on.
abbrev pub at_walls {ℓ κ} :
    {W : Type ℓ} {S : Type κ} → (Plan W → S → Parsed W S) → Plan W → S → Parsed W S
at_walls f p s = if ltb p.succession 3 then refuse p s else f (record p { succession = 4 }) s

-- `bounce_c`, `hardn` and `thickness`, which the pieces of one line share.
pub record Brush {ℓ} (W : Type ℓ) : Type ℓ where
  pub bounce_c : W
  pub hardn : W
  pub thickness : W

module _ {ℓ} {W : Type ℓ} ⦃d : Double W⦄ where
  open d use {lit, mul, eq}

  unfoldable pub is_zero_length : Vector2D W → Bool
  unfolding length
  is_zero_length v = eq (length v) (lit 0 0)

  unfoldable pub round_wall : (Circle W → Shape W) → W → Vector2D W → W → W → W → Wall W
  unfolding ◌*ᵥ◌
  round_wall make scale center radius bounce_c hardn = record {
    shape = make (record { center = center *ᵥ scale; radius = mul scale radius });
    bounce_coeff = bounce_c;
    hardness_coeff = hardn;
  }

  -- `new WallCircle(scale*center, scale*thickness, bounce_c, hardn)`
  abbrev pub corner : Brush W → W → Vector2D W → Wall W
  corner b scale center = round_wall circle scale center b.thickness b.bounce_c b.hardn

  -- `new WallLine(scale*start, direction, scale*len, scale*thickness, bounce_c, hardn)`
  unfoldable pub straight : Brush W → W → Vector2D W → Vector2D W → W → Wall W
  unfolding ◌*ᵥ◌
  straight b scale start direction len = record {
    shape = line (record {
      start_point = start *ᵥ scale;
      direction = direction;
      length = mul scale len;
      thickness = mul scale b.thickness;
    });
    bounce_coeff = b.bounce_c;
    hardness_coeff = b.hardn;
  }

  -- The line from one point to another.
  unfoldable pub side : Brush W → W → Vector2D W → Vector2D W → Wall W
  unfolding ◌-ᵥ◌ unit length
  side b scale start end = straight b scale start (unit (end -ᵥ start)) (length (end -ᵥ start))

module _ {ℓ κ} {W : Type ℓ} {S : Type κ} ⦃d : Double W⦄ ⦃inp : Input S⦄
    ⦃dbl : DoubleInput W S⦄ where
  open d use {lit, pi, neg, add, sub, mul, div, le, eq, lt}
  open inp use {skip_ws, get_text, read_int, read_char}
  open dbl use {read_double}

  -- `file >> vec`
  abbrev pub read_vector : S → Vector2D W × S
  read_vector s = let (a, s1) = read_double s in let (b, s2) = read_double s1 in (vec a b, s2)

  unfoldable pub parse_scale : Plan W → S → Parsed W S
  parse_scale p s =
      if not (p.succession == 1)
      then refuse p s
      else let (scl, s1) = read_double s in
        accept (record p { succession = 2; scale = mul p.scale scl }) s1

  unfoldable pub parse_angle_unit : Plan W → S → Parsed W S
  parse_angle_unit p s =
      let (text, s1) = get_text 20 10 (skip_ws s) in
      if str_eq text "radians"
      then accept (record p { angle_factor = lit 1 0 }) s1
      else if str_eq text "degrees"
      then accept (record p { angle_factor = div pi (lit 180 0) }) s1
      else refuse p s1

  unfoldable pub parse_boundary : Plan W → S → Parsed W S
  parse_boundary p s =
      if ltb 2 p.succession
      then refuse p s
      else let (b0, s1) = read_vector s in
        let (b1, s2) = read_vector s1 in
        let c0 = vec (mul p.scale b0.x) (mul p.scale b0.y) in
        let c1 = vec (mul p.scale b1.x) (mul p.scale b1.y) in
        let p' = record p { succession = 3; boundary0 = c0; boundary1 = c1 } in
        if le (sub c1.x c0.x) (lit 0 0) || le (sub c1.y c0.y) (lit 0 0)
        then refuse p' s2
        else accept p' s2

  unfoldable pub parse_exclusion_point : Plan W → S → Parsed W S
  unfolding ◌*ᵥ◌
  parse_exclusion_point p s =
      if ltb p.succession 3
      then refuse p s
      else let (vec1, s1) = read_vector s in
        accept (record p { exclusion_points = p.exclusion_points ++ ((vec1 *ᵥ p.scale) ∷ []) }) s1

  abbrev pub read_round : (Circle W → Shape W) → Plan W → S → Wall W × S
  read_round make p s =
      let (bounce_c, s1) = read_double s in
      let (hardn, s2) = read_double s1 in
      let (vec1, s3) = read_vector s2 in
      let (radius, s4) = read_double s3 in (round_wall make p.scale vec1 radius bounce_c hardn, s4)

  unfoldable pub parse_inner_circle : Plan W → S → Parsed W S
  parse_inner_circle =
      at_walls (λ p s. let (w, s1) = read_round inner_circle p s in accept (push_front p w) s1)

  unfoldable pub circle_wall : Plan W → S → Parsed W S
  circle_wall p s = let (w, s1) = read_round circle p s in accept (push_back p w) s1

  unfoldable pub parse_circle : Plan W → S → Parsed W S
  unfolding circle_wall
  parse_circle = at_walls circle_wall

  unfoldable pub arc_wall : Plan W → S → Parsed W S
  unfolding make_arc ◌*ᵥ◌
  arc_wall p s =
      let (bounce_c, s1) = read_double s in
      let (hardn, s2) = read_double s1 in
      let (center, s3) = read_vector s2 in
      let (radius, s4) = read_double s3 in
      let (radius2, s5) = read_double s4 in
      let (angle1, s6) = read_double s5 in
      let (angle2, s7) = read_double s6 in
      accept
        (push_back p (record {
          shape = arc (
              make_arc (center *ᵥ p.scale) (mul p.scale radius) (mul p.scale radius2)
                (mul angle1 p.angle_factor) (mul angle2 p.angle_factor));
          bounce_coeff = bounce_c;
          hardness_coeff = hardn;
        }))
        s7

  unfoldable pub parse_arc : Plan W → S → Parsed W S
  unfolding arc_wall
  parse_arc = at_walls arc_wall

  abbrev pub read_brush : S → Brush W × S
  read_brush s =
      let (bounce_c, s1) = read_double s in
      let (hardn, s2) = read_double s1 in
      let (thickness, s3) = read_double s2 in
      (record { bounce_c = bounce_c; hardn = hardn; thickness = mul thickness (lit 5 1) }, s3)

  unfoldable pub line_wall : Plan W → S → Parsed W S
  unfolding ◌-ᵥ◌
  line_wall p s =
      let (b, s1) = read_brush s in
      let (vec1, s2) = read_vector s1 in
      let (vec2, s3) = read_vector s2 in
      if is_zero_length (vec2 -ᵥ vec1)
      then refuse p s3
      else accept (push_back p (side b p.scale vec1 vec2)) s3

  unfoldable pub parse_line : Plan W → S → Parsed W S
  unfolding line_wall
  parse_line = at_walls line_wall

  -- `for(int i=1; i<vertices; i++)` of both polygons, from the point `vec1`; with the point it ends at.
  unfoldable pub polygon_sides : ℕ → Brush W → Vector2D W → Plan W → S → Vector2D W × Parsed W S
  unfolding ◌-ᵥ◌
  polygon_sides zero b vec1 p s = (vec1, accept p s)
  polygon_sides (suc left) b vec2 p s =
      let (vec1, s1) = read_vector s in
      let p' = push_back (push_back p (side b p.scale vec2 vec1)) (corner b p.scale vec1) in
      let rest = polygon_sides left b vec1 p' s1 in
      if is_zero_length (vec2 -ᵥ vec1) then (vec1, refuse p s1) else rest

  unfoldable pub polygon_walls : Plan W → S → Parsed W S
  unfolding polygon_sides
  polygon_walls p s =
      let (b, s1) = read_brush s in
      let (vertices, s2) = read_int s1 in
      let (vec1, s3) = read_vector s2 in
      (polygon_sides (pos_part vertices - 1) b vec1 (push_back p (corner b p.scale vec1)) s3).1

  unfoldable pub parse_polygon : Plan W → S → Parsed W S
  unfolding polygon_walls
  parse_polygon = at_walls polygon_walls

  -- The line from the last point back to the first.
  unfoldable pub close_polygon : Brush W → Vector2D W → Vector2D W × Parsed W S → Parsed W S
  unfolding ◌-ᵥ◌
  close_polygon b vec0 (vec1, r) =
      if not r.ok
      then r
      else if is_zero_length (vec0 -ᵥ vec1)
      then refuse r.plan r.file
      else accept (push_back r.plan (side b r.plan.scale vec1 vec0)) r.file

  unfoldable pub closed_polygon_walls : Plan W → S → Parsed W S
  unfolding polygon_sides close_polygon
  closed_polygon_walls p s =
      let (b, s1) = read_brush s in
      let (vertices, s2) = read_int s1 in
      let (vec0, s3) = read_vector s2 in
      close_polygon b vec0
        (polygon_sides (pos_part vertices - 1) b vec0 (push_back p (corner b p.scale vec0)) s3)

  unfoldable pub parse_closed_polygon : Plan W → S → Parsed W S
  unfolding closed_polygon_walls
  parse_closed_polygon = at_walls closed_polygon_walls
