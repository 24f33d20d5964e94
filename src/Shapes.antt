-- ===== src/Shapes.antt =====
-- src/GeometricalObjects.cc: the four shapes that a ray is shot at, `get_distance`,
-- `within_distance` and `get_normal`. What is drawn is left out.
pub mod Distance
use realtimebattle.Base.{
  ◌≡◌, refl, arith, Bool, true, false, not, ◌&&◌, ◌||◌, if◌then◌else◌, ℕ, zero, suc,
}
use realtimebattle.Double.{Double, min_rtb, max_rtb, infinity_rtb}
use realtimebattle.Vector2D.{
  Vector2D, vec, ◌+ᵥ◌, ◌-ᵥ◌, ◌*ᵥ◌, ◌/ᵥ◌, negate, rotate90, dot, vedge, lengthsqr, vec2angle, unit,
}

pub record Line {ℓ} (W : Type ℓ) : Type ℓ where
  pub start_point : Vector2D W
  pub direction : Vector2D W
  pub length : W
  pub thickness : W

pub record Circle {ℓ} (W : Type ℓ) : Type ℓ where
  pub center : Vector2D W
  pub radius : W

pub record Arc {ℓ} (W : Type ℓ) : Type ℓ where
  pub center : Vector2D W
  pub inner_radius : W
  pub outer_radius : W
  pub mid_radiussqr : W
  pub start_angle : W
  pub end_angle : W

-- The classes that override the virtual functions of `Shape`.
pub data Shape {ℓ} (W : Type ℓ) : Type ℓ where
  line : Line W → Shape W
  circle : Circle W → Shape W
  inner_circle : Circle W → Shape W
  arc : Arc W → Shape W

module _ {ℓ} {W : Type ℓ} ⦃d : Double W⦄ where
  open d use {lit, neg, add, sub, mul, div, fabs, sqrt, lt, le, eq}

  -- The constructor of `Arc`.
  unfoldable pub make_arc : Vector2D W → W → W → W → W → Arc W
  make_arc c r1 r2 a1 a2 = record {
    center = c;
    inner_radius = r1;
    outer_radius = r2;
    mid_radiussqr = mul (mul (lit 25 2) (add r1 r2)) (add r1 r2);
    start_angle = a1;
    end_angle = a2;
  }

  -- The two branches on the sign of `det` differ in the sign of `d` alone: `side` is `t` and
  -- `along` is `s`.
  unfoldable pub line_distance : Line W → Vector2D W → Vector2D W → W → W
  line_distance l pos vel size =
      let y = l.start_point -ᵥ pos in
      let det = div (lit 1 0) (vedge l.direction vel) in
      let t_middle = mul (vedge l.direction y) det in
      let reach = add size l.thickness in
      let ahead = lt (lit 0 0) det in
      let t =
        if ahead
        then mul (sub (vedge l.direction y) reach) det
        else mul (add (vedge l.direction y) reach) det in
      let s =
        if ahead
        then mul (sub (vedge vel y) (mul reach (dot vel l.direction))) det
        else mul (add (vedge vel y) (mul reach (dot vel l.direction))) det in
      let foot = neg (dot y l.direction) in
      if lt t_middle (lit 0 0)
      then infinity_rtb
      else if lt s (lit 0 0) || lt l.length s
      then infinity_rtb
      else if lt t (lit 0 0) && (lt foot (lit 0 0) || lt l.length foot)
      then infinity_rtb
      else max_rtb t (lit 0 0)

  unfoldable pub circle_distance : Circle W → Vector2D W → Vector2D W → W → W
  circle_distance k pos vel size =
      let y = k.center -ᵥ pos in
      let speedsqr = lengthsqr vel in
      let dt = dot vel y in
      let r = add size k.radius in
      let c = add (mul dt dt) (mul speedsqr (sub (mul r r) (lengthsqr y))) in
      if lt c (lit 0 0) || le dt (lit 0 0)
      then infinity_rtb
      else max_rtb (div (sub dt (sqrt c)) speedsqr) (lit 0 0)

  unfoldable pub inner_circle_distance : Circle W → Vector2D W → Vector2D W → W → W
  inner_circle_distance k pos vel size =
      let y = k.center -ᵥ pos in
      let speedsqr = lengthsqr vel in
      let dt = dot vel y in
      let r = sub size k.radius in
      let c = add (mul dt dt) (mul speedsqr (sub (mul r r) (lengthsqr y))) in
      if eq speedsqr (lit 0 0)
      then infinity_rtb
      else max_rtb (div (add dt (sqrt c)) speedsqr) (lit 0 0)

  unfoldable pub within_angle : Arc W → W → Bool
  within_angle k a =
      if le k.start_angle k.end_angle
      then le k.start_angle a && le a k.end_angle
      else le k.start_angle a || le a k.end_angle

  -- The part of `Arc::get_distance` under "Test inner circle".
  unfoldable pub inner_arc_distance : Arc W → Vector2D W → Vector2D W → W → W
  inner_arc_distance k pos vel size =
      let y = k.center -ᵥ pos in
      let speedsqr = lengthsqr vel in
      let dt = dot vel y in
      let r = sub size k.inner_radius in
      let c = add (mul dt dt) (mul speedsqr (sub (mul r r) (lengthsqr y))) in
      let t = max_rtb (div (add dt (sqrt c)) speedsqr) (lit 0 0) in
      if lt c (lit 0 0)
      then infinity_rtb
      else if not (within_angle k (vec2angle (vel *ᵥ t -ᵥ y)))
      then infinity_rtb
      else t

  unfoldable pub arc_distance : Arc W → Vector2D W → Vector2D W → W → W
  unfolding inner_arc_distance
  arc_distance k pos vel size =
      let y = k.center -ᵥ pos in
      let speedsqr = lengthsqr vel in
      let dt = dot vel y in
      let r = add size k.outer_radius in
      let c = add (mul dt dt) (mul speedsqr (sub (mul r r) (lengthsqr y))) in
      let t = max_rtb (div (sub dt (sqrt c)) speedsqr) (lit 0 0) in
      if eq speedsqr (lit 0 0)
      then infinity_rtb
      else if lt k.mid_radiussqr (lengthsqr y)
      then (if lt c (lit 0 0) || le dt (lit 0 0)
          then infinity_rtb
          else if within_angle k (vec2angle (vel *ᵥ t -ᵥ y))
          then t
          else inner_arc_distance k pos vel size)
      else inner_arc_distance k pos vel size

  -- The virtual function `get_distance`: how long a disc of the given size that starts at `pos`
  -- and moves at `vel` takes to touch the shape.
  unfoldable pub get_distance : Shape W → Vector2D W → Vector2D W → W → W
  unfolding line_distance circle_distance inner_circle_distance arc_distance
  get_distance (line l) = line_distance l
  get_distance (circle k) = circle_distance k
  get_distance (inner_circle k) = inner_circle_distance k
  get_distance (arc k) = arc_distance k

  unfoldable pub within_distance : Shape W → Vector2D W → W → Bool
  within_distance (line l) pos size =
      let y = l.start_point -ᵥ pos in
      let foot = neg (dot y l.direction) in
      le (fabs (vedge y l.direction)) (add size l.thickness)
      && (le (lit 0 0) foot && le foot l.length)
  within_distance (circle k) pos size =
      le (lengthsqr (k.center -ᵥ pos)) (mul (add size k.radius) (add size k.radius))
  within_distance (inner_circle k) pos size =
      le (mul (sub size k.radius) (sub size k.radius)) (lengthsqr (k.center -ᵥ pos))
  within_distance (arc k) pos size =
      let y = pos -ᵥ k.center in
      let l = lengthsqr y in
      le l (mul (add size k.outer_radius) (add size k.outer_radius))
      && ((le (mul (sub size k.inner_radius) (sub size k.inner_radius)) l || le k.inner_radius size)
          && within_angle k (vec2angle y))

  unfoldable pub get_normal : Shape W → Vector2D W → Vector2D W
  get_normal (line l) pos =
      if lt (lit 0 0) (vedge l.direction (pos -ᵥ l.start_point))
      then rotate90 l.direction
      else negate (rotate90 l.direction)
  get_normal (circle k) pos = unit (pos -ᵥ k.center)
  get_normal (inner_circle k) pos = unit (k.center -ᵥ pos)
  get_normal (arc k) pos =
      let y = k.center -ᵥ pos in
      if lt (lengthsqr y) k.mid_radiussqr then unit y else unit (negate y)
