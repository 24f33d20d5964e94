-- ===== src/Shapes/Distance.antt =====
-- Bounds on the distances of src/GeometricalObjects.cc.
use realtimebattle.Base.{arith}
use realtimebattle.Double.{
  Double, IsOrdered, ◌⊀◌, infinity_rtb, max_rtb-not_below, infinity_rtb_pos,
}
use realtimebattle.Vector2D.{Vector2D, ◌-ᵥ◌, dot, lengthsqr}
use realtimebattle.Shapes.{
  Shape, line, circle, inner_circle, arc, Line, Circle, Arc, line_distance, circle_distance,
  inner_circle_distance, inner_arc_distance, arc_distance, get_distance,
}

module _ {ℓ} {W : Type ℓ} ⦃d : Double W⦄ (laws : IsOrdered W) where
  open d use {lit, add, sub, mul, div, sqrt}

  infinity-not_negative : infinity_rtb ⊀ lit 0 0
  infinity-not_negative = laws.lt_asymm _ _ (infinity_rtb_pos laws)

  -- When the outer circle of an arc is met.
  abbrev outer_time : Arc W → Vector2D W → Vector2D W → W → W
  outer_time k pos vel size =
      let y = k.center -ᵥ pos in
      let r = add size k.outer_radius in
      let dt = dot vel y in
      let speedsqr = lengthsqr vel in
      div (sub dt (sqrt (add (mul dt dt) (mul speedsqr (sub (mul r r) (lengthsqr y)))))) speedsqr

  line-not_negative :
      (l : Line W) (pos vel : Vector2D W) (size : W) → line_distance l pos vel size ⊀ lit 0 0
  unfolding line_distance
  line-not_negative l pos vel size = grind (arith, infinity-not_negative, max_rtb-not_below laws)

  circle-not_negative :
      (k : Circle W) (pos vel : Vector2D W) (size : W) → circle_distance k pos vel size ⊀ lit 0 0
  unfolding circle_distance
  circle-not_negative k pos vel size = grind (arith, infinity-not_negative, max_rtb-not_below laws)

  inner_circle-not_negative :
      (k : Circle W) (pos vel : Vector2D W) (size : W)
      → inner_circle_distance k pos vel size ⊀ lit 0 0
  unfolding inner_circle_distance
  inner_circle-not_negative k pos vel size =
      grind (arith, infinity-not_negative, max_rtb-not_below laws)

  inner_arc-not_negative :
      (k : Arc W) (pos vel : Vector2D W) (size : W) → inner_arc_distance k pos vel size ⊀ lit 0 0
  unfolding inner_arc_distance
  inner_arc-not_negative k pos vel size =
      grind (arith, infinity-not_negative, max_rtb-not_below laws)

  arc-not_negative :
      (k : Arc W) (pos vel : Vector2D W) (size : W) → arc_distance k pos vel size ⊀ lit 0 0
  unfolding arc_distance
  arc-not_negative k pos vel size = ground (
    arith,
    infinity-not_negative,
    inner_arc-not_negative k pos vel size,
    max_rtb-not_below laws (outer_time k pos vel size) (lit 0 0),
  )

  -- No shape, whatever its sizes and wherever the disc is, is hit at a negative time: the result of
  -- `get_distance` is never below 0, also where the arithmetic gives NaN.
  pub get_distance_not_negative :
      (s : Shape W) (pos vel : Vector2D W) (size : W) → get_distance s pos vel size ⊀ lit 0 0
  unfolding get_distance
  get_distance_not_negative (line l) = line-not_negative l
  get_distance_not_negative (circle k) = circle-not_negative k
  get_distance_not_negative (inner_circle k) = inner_circle-not_negative k
  get_distance_not_negative (arc k) = arc-not_negative k
