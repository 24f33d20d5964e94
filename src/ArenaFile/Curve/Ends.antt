-- ===== src/ArenaFile/Curve/Ends.antt =====
-- When the loop of a poly_curve ends: src/ArenaBase.cc, `parse_arena_line`.
use realtimebattle.Base.{ℕ, zero, suc, ◌-◌, ◌≤◌, ◌≡◌, refl, arith, ◌==◌, if-holds}
use realtimebattle.Double.{Double}
use realtimebattle.Vector2D.{Vector2D, ◌-ᵥ◌, rotate}
use realtimebattle.Input.{Input, DoubleInput, IsConsuming}
use realtimebattle.ArenaFile.{Plan, Brush, is_zero_length}
use realtimebattle.ArenaFile.Curve.{
  Pen, Turn, ends, goes_on, curve_line, curve_arc, curve_turn, curve_close, curve_command,
  curve_loop,
}

module _ {ℓ κ} {W : Type ℓ} {S : Type κ} ⦃d : Double W⦄ ⦃inp : Input S⦄ ⦃dbl : DoubleInput W S⦄
    (c : IsConsuming W S) where
  -- No more than `n` is left of the file when the curve goes on.
  abbrev pub Left : ℕ → Turn W S → Type 0
  Left n (goes_on pen p s) = c.remaining s ≤ n
  Left n (ends r) = Unit {0}

  Left-le : (n m : ℕ) (t : Turn W S) → n ≤ m → Left n t → Left m t
  Left-le n m (goes_on pen p s) h k = omega (arith, h, k)
  Left-le n m (ends r) h k = tt

  curve_line-Left :
      (b : Brush W) (pen : Pen W) (p : Plan W) (s : S) → Left (c.remaining s) (curve_line b pen p s)
  unfolding curve_line
  curve_line-Left b pen p s =
      if-holds (Left (c.remaining s)) (d.le (dbl.read_double s).0 (d.lit 0 0)) tt
        (c.read_double_le s)

  curve_arc-Left :
      (b : Brush W) (pen : Pen W) (p : Plan W) (s : S) → Left (c.remaining s) (curve_arc b pen p s)
  unfolding curve_arc
  curve_arc-Left b pen p s =
      omega (arith, c.read_double_le s, c.read_double_le (dbl.read_double s).1)

  curve_close-Left :
      (b : Brush W) (vec0 : Vector2D W) (pen : Pen W) (p : Plan W) (s : S)
      → Left (c.remaining s) (curve_close b vec0 pen p s)
  unfolding curve_close
  curve_close-Left b vec0 pen p s =
      if-holds (Left (c.remaining s)) (is_zero_length (vec0 -ᵥ pen.current_pos)) tt tt

  curve_command-Left :
      (b : Brush W) (vec0 : Vector2D W) (pen : Pen W) (p : Plan W) (s : S)
      → Left (c.remaining (inp.read_char pen.command s).1) (curve_command b vec0 pen p s)
  unfolding curve_command curve_turn
  curve_command-Left b vec0 pen0 p s =
      let (ch, s1) = inp.read_char pen0.command s in
      let pen : Pen W = record pen0 { command = ch } in
      let P = Left (c.remaining s1) in
      if-holds P (ch == 76) (curve_line-Left b pen p s1) (
        if-holds P (ch == 65) (curve_arc-Left b pen p s1) (
          if-holds P (ch == 84) (c.read_double_le s1) (
            if-holds P (ch == 67) (curve_close-Left b vec0 pen p s1)
              (if-holds P (ch == 81) tt tt))))

  curve_loop-Left :
      (fuel n : ℕ) (b : Brush W) (vec0 : Vector2D W) (t : Turn W S)
      → Left n t
      → n ≤ fuel
      → Left 0 (curve_loop fuel b vec0 t)
  unfolding curve_loop
  curve_loop-Left zero n b vec0 t h k = Left-le n 0 t (omega (arith, k)) h
  curve_loop-Left (suc fuel) n b vec0 (ends r) h k = tt
  curve_loop-Left (suc fuel) n b vec0 (goes_on pen p s) h k =
      curve_loop-Left fuel (n - 1) b vec0 (curve_command b vec0 pen p s)
        (Left-le (c.remaining (inp.read_char pen.command s).1) (n - 1) _ less
          (curve_command-Left b vec0 pen p s))
        (omega (arith, k))
    where
      less : c.remaining (inp.read_char pen.command s).1 ≤ n - 1
      less = ground (arith, c.read_char_le pen.command s, c.read_char_lt pen.command s)

  -- With as much fuel as there is left of the file, the loop of a poly_curve has ended, or it goes on
  -- where nothing is left of the file.
  pub curve_loop_ends :
      (b : Brush W) (vec0 : Vector2D W) (pen : Pen W) (p : Plan W) (s : S)
      → Left 0 (curve_loop (c.remaining s) b vec0 (goes_on pen p s))
  curve_loop_ends b vec0 pen p s =
      curve_loop-Left (c.remaining s) (c.remaining s) b vec0 (goes_on pen p s) (omega arith)
        (omega arith)

module _ {ℓ κ} {W : Type ℓ} {S : Type κ} ⦃d : Double W⦄ ⦃inp : Input S⦄
    ⦃dbl : DoubleInput W S⦄ where
  turn_again :
      (b : Brush W) (vec0 : Vector2D W) (pen : Pen W) (p : Plan W) (s : S)
      → ((ch : ℕ) → inp.read_char ch s ≡ (ch, s))
      → (dbl.read_double s).1 ≡ s
      → pen.command ≡ 84
      → (pen' : Pen W) × (curve_command b vec0 pen p s ≡ goes_on pen' p s) × (pen'.command ≡ 84)
  unfolding curve_command curve_turn
  turn_again b vec0 pen p s no_char no_double t =
      let angle = (dbl.read_double s).0 in
      (
        record {
          current_pos = pen.current_pos;
          direction = rotate pen.direction (d.div (d.mul (d.neg angle) d.pi) (d.lit 180 0));
          command = 84;
        },
        rw (t, no_char 84, no_double) refl,
        refl,
      )

  -- A file that ends after the command `T` is read for ever: where no reading takes anything off the
  -- stream, and so the command stays, no fuel is enough.
  pub curve_loop_for_ever :
      (fuel : ℕ) (b : Brush W) (vec0 : Vector2D W) (pen : Pen W) (p : Plan W) (s : S)
      → ((ch : ℕ) → inp.read_char ch s ≡ (ch, s))
      → (dbl.read_double s).1 ≡ s
      → pen.command ≡ 84
      → (pen' : Pen W) × (curve_loop fuel b vec0 (goes_on pen p s) ≡ goes_on pen' p s)
  unfolding curve_loop
  curve_loop_for_ever zero b vec0 pen p s no_char no_double t = (pen, refl)
  curve_loop_for_ever (suc fuel) b vec0 pen p s no_char no_double t =
      let (pen1, same, t1) = turn_again b vec0 pen p s no_char no_double t in
      rw same (curve_loop_for_ever fuel b vec0 pen1 p s no_char no_double t1)
