-- ===== src/ArenaFile/Curve/Adds.antt =====
-- What the commands of a poly_curve change: src/ArenaBase.cc, `parse_arena_line`.
use realtimebattle.Base.{ℕ, zero, suc, ◌==◌, if-holds}
use realtimebattle.Double.{Double}
use realtimebattle.Vector2D.{Vector2D, ◌-ᵥ◌}
use realtimebattle.Input.{Input, DoubleInput}
use realtimebattle.ArenaFile.{Plan, Parsed, Brush, is_zero_length}
use realtimebattle.ArenaFile.Curve.{
  Pen, Turn, ends, goes_on, curve_line, curve_arc, curve_turn, curve_close, curve_command,
  curve_loop,
}
use realtimebattle.ArenaFile.Growth.{Adds, Adds-refl, Adds-trans, Adds-push_back}

abbrev pub OnTurn {ℓ κ μ} :
    {W : Type ℓ} {S : Type κ} → (Plan W → Type μ) → (Parsed W S → Type μ) → Turn W S → Type μ
OnTurn P Q (goes_on pen p s) = P p
OnTurn P Q (ends r) = Q r

module _ {ℓ κ} {W : Type ℓ} {S : Type κ} ⦃d : Double W⦄ ⦃inp : Input S⦄
    ⦃dbl : DoubleInput W S⦄ where
  abbrev pub OnlyAdds : Plan W → Turn W S → Type ℓ
  OnlyAdds p = OnTurn (Adds p) (λ r. Adds p r.plan)

  curve_line-Adds :
      (b : Brush W) (pen : Pen W) (p : Plan W) (s : S) → OnlyAdds p (curve_line b pen p s)
  unfolding curve_line
  curve_line-Adds b pen p s =
      if-holds (OnlyAdds p) (d.le (dbl.read_double s).0 (d.lit 0 0)) (Adds-refl p)
        (Adds-push_back p _ (Adds-push_back _ _ (Adds-refl _)))

  curve_arc-Adds :
      (b : Brush W) (pen : Pen W) (p : Plan W) (s : S) → OnlyAdds p (curve_arc b pen p s)
  unfolding curve_arc
  curve_arc-Adds b pen p s = Adds-push_back p _ (Adds-push_back _ _ (Adds-refl _))

  curve_close-Adds :
      (b : Brush W) (vec0 : Vector2D W) (pen : Pen W) (p : Plan W) (s : S)
      → OnlyAdds p (curve_close b vec0 pen p s)
  unfolding curve_close
  curve_close-Adds b vec0 pen p s =
      if-holds (OnlyAdds p) (is_zero_length (vec0 -ᵥ pen.current_pos)) (Adds-refl p)
        (Adds-push_back p _ (Adds-refl _))

  curve_command-Adds :
      (b : Brush W) (vec0 : Vector2D W) (pen : Pen W) (p : Plan W) (s : S)
      → OnlyAdds p (curve_command b vec0 pen p s)
  unfolding curve_command curve_turn
  curve_command-Adds b vec0 pen0 p s =
      let (c, s1) = inp.read_char pen0.command s in
      let pen : Pen W = record pen0 { command = c } in
      if-holds (OnlyAdds p) (c == 76) (curve_line-Adds b pen p s1) (
        if-holds (OnlyAdds p) (c == 65) (curve_arc-Adds b pen p s1) (
          if-holds (OnlyAdds p) (c == 84) (Adds-refl p) (
            if-holds (OnlyAdds p) (c == 67) (curve_close-Adds b vec0 pen p s1)
              (if-holds (OnlyAdds p) (c == 81) (Adds-refl p) (Adds-refl p)))))

  OnlyAdds-trans : (p q : Plan W) (t : Turn W S) → Adds p q → OnlyAdds q t → OnlyAdds p t
  OnlyAdds-trans p q (goes_on pen r s) h k = Adds-trans p q r h k
  OnlyAdds-trans p q (ends r) h k = Adds-trans p q r.plan h k

  pub curve_loop-Adds :
      (fuel : ℕ) (b : Brush W) (vec0 : Vector2D W) (p : Plan W) (t : Turn W S)
      → OnlyAdds p t
      → OnlyAdds p (curve_loop fuel b vec0 t)
  unfolding curve_loop
  curve_loop-Adds zero b vec0 p t h = h
  curve_loop-Adds (suc fuel) b vec0 p (ends r) h = h
  curve_loop-Adds (suc fuel) b vec0 p (goes_on pen q s) h =
      curve_loop-Adds fuel b vec0 p _ (OnlyAdds-trans p q _ h (curve_command-Adds b vec0 pen q s))
