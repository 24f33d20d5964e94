-- ===== src/ArenaFile/Curve.antt =====
-- The poly_curve of an arena file: src/ArenaBase.cc, `parse_arena_line`.
pub mod Adds
pub mod Ends
use realtimebattle.Base.{
  ℕ, zero, suc, Bool, true, false, not, Option, some, none, ltb, ◌==◌, if◌then◌else◌,
}
use realtimebattle.Double.{Double, sgn_rtb}
use realtimebattle.Vector2D.{
  Vector2D, ◌+ᵥ◌, ◌-ᵥ◌, ◌*ᵥ◌, rotate, rotate90, length, lengthsqr, vec2angle, angle2vec, unit,
}
use realtimebattle.Shapes.{arc, make_arc}
use realtimebattle.Input.{Input, DoubleInput}
use realtimebattle.ArenaFile.{
  Wall, Plan, Parsed, Brush, accept, refuse, push_back, at_walls, corner, straight, side,
  is_zero_length, read_vector, read_brush,
}

-- `current_pos`, `direction` and the last command `c`, which the code leaves unset before the first
-- command: 0 stands for it.
pub record Pen {ℓ} (W : Type ℓ) : Type ℓ where
  pub current_pos : Vector2D W
  pub direction : Vector2D W
  pub command : ℕ

-- One command of the curve: it goes on, or the line is at its end.
pub data Turn {ℓ κ} (W : Type ℓ) (S : Type κ) : Type (ℓ ⊔ κ) where
  goes_on : Pen W → Plan W → S → Turn W S
  ends : Parsed W S → Turn W S

module _ {ℓ κ} {W : Type ℓ} {S : Type κ} ⦃d : Double W⦄ ⦃inp : Input S⦄
    ⦃dbl : DoubleInput W S⦄ where
  open d use {lit, pi, neg, add, sub, mul, div, le, lt}
  open inp use {read_char}
  open dbl use {read_double}

  -- case 'L'
  unfoldable pub curve_line : Brush W → Pen W → Plan W → S → Turn W S
  unfolding ◌*ᵥ◌ ◌+ᵥ◌
  curve_line b pen p s =
      let (len, s1) = read_double s in
      let end = pen.current_pos +ᵥ pen.direction *ᵥ len in
      if le len (lit 0 0)
      then ends (refuse p s1)
      else goes_on (record pen { current_pos = end })
          (push_back (push_back p (straight b p.scale pen.current_pos pen.direction len))
            (corner b p.scale end))
          s1

  -- case 'A'
  unfoldable pub curve_arc : Brush W → Pen W → Plan W → S → Turn W S
  unfolding ◌*ᵥ◌ ◌+ᵥ◌ ◌-ᵥ◌ rotate rotate90 vec2angle angle2vec make_arc
  curve_arc b pen p s =
      let (angle0, s1) = read_double s in
      let (radius, s2) = read_double s1 in
      let angle = mul angle0 p.angle_factor in
      let center = pen.current_pos -ᵥ rotate90 pen.direction *ᵥ radius *ᵥ sgn_rtb angle in
      let start_angle = vec2angle (pen.current_pos -ᵥ center) in
      let end = center +ᵥ angle2vec (sub start_angle angle) *ᵥ radius in
      let end_angle = vec2angle (end -ᵥ center) in
      let positive = lt (lit 0 0) angle in
      let w : Wall W = record {
        shape = arc (
            make_arc (center *ᵥ p.scale) (mul p.scale (sub radius b.thickness))
              (mul p.scale (add radius b.thickness)) (if positive then end_angle else start_angle)
              (if positive then start_angle else end_angle));
        bounce_coeff = b.bounce_c;
        hardness_coeff = b.hardn;
      } in
      goes_on (record pen { current_pos = end; direction = rotate pen.direction (neg angle) })
        (push_back (push_back p w) (corner b p.scale end)) s2

  -- case 'T'
  unfoldable pub curve_turn : Pen W → Plan W → S → Turn W S
  unfolding rotate
  curve_turn pen p s =
      let (angle, s1) = read_double s in
      goes_on
        (record pen { direction = rotate pen.direction (div (mul (neg angle) pi) (lit 180 0)) }) p
        s1

  -- case 'C'
  unfoldable pub curve_close : Brush W → Vector2D W → Pen W → Plan W → S → Turn W S
  unfolding ◌-ᵥ◌
  curve_close b vec0 pen p s =
      if is_zero_length (vec0 -ᵥ pen.current_pos)
      then ends (refuse p s)
      else ends (accept (push_back p (side b p.scale pen.current_pos vec0)) s)

  -- The body of the do-while loop: read a command and do it.
  unfoldable pub curve_command : Brush W → Vector2D W → Pen W → Plan W → S → Turn W S
  unfolding curve_line curve_arc curve_turn curve_close
  curve_command b vec0 pen0 p s =
      let (c, s1) = read_char pen0.command s in
      let pen = record pen0 { command = c } in
      if c == 76
      then curve_line b pen p s1
      else if c == 65
      then curve_arc b pen p s1
      else if c == 84
      then curve_turn pen p s1
      else if c == 67
      then curve_close b vec0 pen p s1
      else if c == 81
      then ends (accept p s1)
      else ends (refuse p s1)

  -- The loop. It does not end if the file does inside the curve: what cannot be read leaves `c` as it
  -- was. So it has fuel, and `goes_on` is what is reached without it.
  unfoldable pub curve_loop : ℕ → Brush W → Vector2D W → Turn W S → Turn W S
  unfolding curve_command
  curve_loop zero b vec0 t = t
  curve_loop (suc fuel) b vec0 (ends r) = ends r
  curve_loop (suc fuel) b vec0 (goes_on pen p s) =
      curve_loop fuel b vec0 (curve_command b vec0 pen p s)

  abbrev pub wall_guard : (Plan W → S → Turn W S) → Plan W → S → Turn W S
  wall_guard f p s =
      if ltb p.succession 3 then ends (refuse p s) else f (record p { succession = 4 }) s

  unfoldable pub curve_walls : ℕ → Plan W → S → Turn W S
  unfolding curve_loop unit lengthsqr
  curve_walls fuel p s =
      let (b, s1) = read_brush s in
      let (current_pos, s2) = read_vector s1 in
      let p' = push_back p (corner b p.scale current_pos) in
      let (v, s3) = read_vector s2 in
      let direction = unit v in
      let pen : Pen W = record { current_pos = current_pos; direction = direction; command = 0 } in
      if lt (lengthsqr direction) (lit 1 2)
      then ends (refuse p' s3)
      else curve_loop fuel b current_pos (goes_on pen p' s3)

  unfoldable pub parse_poly_curve : ℕ → Plan W → S → Turn W S
  unfolding curve_walls
  parse_poly_curve fuel = wall_guard (curve_walls fuel)
