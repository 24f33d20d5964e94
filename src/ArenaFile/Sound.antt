-- ===== src/ArenaFile/Sound.antt =====
-- What an arena file that is accepted gives: src/ArenaBase.cc, `parse_arena_line`.
use text.Mathlib.Text.{◌==◌ as str_eq}
use realtimebattle.Base.{
  ℕ, zero, suc, ◌-◌, ◌≤◌, ◌<◌, ◌≡◌, inl, inr, true, false, not, ◌||◌, [], ltb, ◌==◌, arith,
  Bool-cases, if-holds, Option, some, none,
}
use realtimebattle.Base.Int.{pos_part}
use realtimebattle.Double.{Double}
use realtimebattle.Vector2D.{◌-ᵥ◌, lengthsqr, unit}
use realtimebattle.Input.{Input, DoubleInput}
use realtimebattle.ArenaFile.{
  Plan, Parsed, accept, refuse, push_back, at_walls, corner, side, is_zero_length, read_vector,
  read_brush, polygon_sides, parse_scale, parse_angle_unit, parse_boundary, parse_exclusion_point,
  parse_inner_circle, parse_circle, parse_arc, parse_line, parse_polygon, parse_closed_polygon,
  circle_wall, arc_wall, line_wall, polygon_walls, closed_polygon_walls,
}
use realtimebattle.ArenaFile.Curve.{
  Pen, Turn, ends, goes_on, wall_guard, curve_walls, parse_poly_curve,
}
use realtimebattle.ArenaFile.Curve.Adds.{OnTurn, OnlyAdds, curve_loop-Adds}
use realtimebattle.ArenaFile.Lines.{
  Keyword, scale, angle_unit, boundary, exclusion_point, inner_circle, circle, arc, line, polygon,
  closed_polygon, poly_curve, blank, unknown, keyword, parse_rest, parse_arena_line, parse_lines,
  continue_lines, parse_arena_file,
}
use realtimebattle.ArenaFile.Growth.{
  Adds, Adds-refl, Adds-push_back, polygon_sides-Adds, close_polygon-Adds,
}

module _ {ℓ} {W : Type ℓ} ⦃d : Double W⦄ where
  -- Nothing stands before the boundary, and the boundary has an extent (or is not a number).
  pub record IsSound (p : Plan W) : Type ℓ where
    pub early : p.succession < 3 → (p.walls ≡ []) × (p.exclusion_points ≡ [])
    pub late :
        3 ≤ p.succession
        → (d.le (d.sub p.boundary1.x p.boundary0.x) (d.lit 0 0) ≡ false)
          × (d.le (d.sub p.boundary1.y p.boundary0.y) (d.lit 0 0) ≡ false)

  -- A wall line keeps soundness whatever it adds.
  IsSound-Adds :
      (p p' : Plan W)
      → 3 ≤ p.succession
      → IsSound p
      → Adds (record p { succession = 4 }) p'
      → IsSound p'
  IsSound-Adds p p' h i (ws, e) =
      rw e record { early = λ low. absurd (ground (arith, low)); late = λ _. i.late h }

module _ {ℓ κ} {W : Type ℓ} {S : Type κ} ⦃d : Double W⦄ ⦃inp : Input S⦄
    ⦃dbl : DoubleInput W S⦄ where
  -- What holds of the arena after a line, if it is accepted.
  abbrev pub IfAccepted {μ} : (Plan W → Type μ) → Parsed W S → Type μ
  IfAccepted P r = r.ok ≡ true → P r.plan

  at_walls-IsSound :
      (f : Plan W → S → Parsed W S) (p : Plan W) (s : S)
      → IsSound p
      → Adds (record p { succession = 4 }) (f (record p { succession = 4 }) s).plan
      → IfAccepted IsSound (at_walls f p s)
  at_walls-IsSound f p s i adds h = elim (Bool-cases (ltb p.succession 3)) [
    | inl early ↦ let refused : false ≡ true = rw early at h in cc
    | inr late ↦ rw late (IsSound-Adds p _ (ground (arith, late)) i adds)
  ]

  abbrev SoundTurn : Turn W S → Type ℓ
  SoundTurn = OnTurn (λ q. Unit {ℓ}) (IfAccepted IsSound)

  wall_guard-IsSound :
      (f : Plan W → S → Turn W S) (p : Plan W) (s : S)
      → IsSound p
      → OnlyAdds (record p { succession = 4 }) (f (record p { succession = 4 }) s)
      → SoundTurn (wall_guard f p s)
  wall_guard-IsSound f p s i adds = elim (Bool-cases (ltb p.succession 3)) [
    | inl early ↦ rw early (λ h. absurd (ground (arith, h)))
    | inr late ↦ rw late (from_adds _ adds late)
  ]
    where
      from_adds :
          (t : Turn W S)
          → OnlyAdds (record p { succession = 4 }) t
          → ltb p.succession 3 ≡ false
          → SoundTurn t
      from_adds (goes_on pen q s') h late = tt
      from_adds (ends r) h late = λ _. IsSound-Adds p _ (ground (arith, late)) i h

  curve_walls-Adds : (fuel : ℕ) (p : Plan W) (s : S) → OnlyAdds p (curve_walls fuel p s)
  unfolding curve_walls
  curve_walls-Adds fuel p s =
      let (b, s1) = read_brush ⦃d = d⦄ s in
      let (from, s2) = read_vector ⦃dbl = dbl⦄ s1 in
      let (v, s3) = read_vector ⦃dbl = dbl⦄ s2 in
      let first : Adds p (push_back p (corner b p.scale from)) = Adds-push_back p _ (Adds-refl _) in
      let pen : Pen W = record { current_pos = from; direction = unit v; command = 0 } in
      let start : Turn W S = goes_on pen (push_back p (corner b p.scale from)) s3 in
      if-holds (OnlyAdds {S = S} p) (d.lt (lengthsqr (unit v)) (d.lit 1 2)) first
        (curve_loop-Adds fuel b from p start first)

  polygon_walls-Adds : (p : Plan W) (s : S) → Adds p (polygon_walls p s).plan
  unfolding polygon_walls
  polygon_walls-Adds p s =
      let (b, s1) = read_brush ⦃d = d⦄ s in
      let (vertices, s2) = inp.read_int s1 in
      let (vec1, s3) = read_vector ⦃dbl = dbl⦄ s2 in
      Adds-push_back p _
        (polygon_sides-Adds (pos_part vertices - 1) b vec1 (push_back p (corner b p.scale vec1)) s3)

  closed_polygon_walls-Adds : (p : Plan W) (s : S) → Adds p (closed_polygon_walls p s).plan
  unfolding closed_polygon_walls
  closed_polygon_walls-Adds p s =
      let (b, s1) = read_brush ⦃d = d⦄ s in
      let (vertices, s2) = inp.read_int s1 in
      let (vec1, s3) = read_vector ⦃dbl = dbl⦄ s2 in
      let p1 = push_back p (corner b p.scale vec1) in
      let left = pos_part vertices - 1 in
      close_polygon-Adds b vec1 p (polygon_sides left b vec1 p1 s3)
        (Adds-push_back p _ (polygon_sides-Adds left b vec1 p1 s3))

  circle_wall-Adds : (p : Plan W) (s : S) → Adds p (circle_wall p s).plan
  unfolding circle_wall
  circle_wall-Adds p s = Adds-push_back p _ (Adds-refl _)

  arc_wall-Adds : (p : Plan W) (s : S) → Adds p (arc_wall p s).plan
  unfolding arc_wall
  arc_wall-Adds p s = Adds-push_back p _ (Adds-refl _)

  line_wall-Adds : (p : Plan W) (s : S) → Adds p (line_wall p s).plan
  unfolding line_wall
  line_wall-Adds p s =
      let (b, s1) = read_brush ⦃d = d⦄ s in
      let (vec1, s2) = read_vector ⦃dbl = dbl⦄ s1 in
      let (vec2, s3) = read_vector ⦃dbl = dbl⦄ s2 in
      if-holds (λ (r : Parsed W S). Adds p r.plan) (is_zero_length (vec2 -ᵥ vec1)) {t = refuse p s3}
        {u = accept (push_back p (side b p.scale vec1 vec2)) s3} (Adds-refl p)
        (Adds-push_back p _ (Adds-refl _))

  parse_inner_circle-IsSound :
      (p : Plan W) (s : S) → IsSound p → IfAccepted IsSound (parse_inner_circle p s)
  unfolding parse_inner_circle
  parse_inner_circle-IsSound p s i h = elim (Bool-cases (ltb p.succession 3)) [
    | inl early ↦ let refused : false ≡ true = rw early at h in cc
    | inr late ↦ rw late record {
      early = λ low. absurd (ground (arith, low));
      late = λ _. i.late (ground (arith, late));
    }
  ]

  parse_exclusion_point-IsSound :
      (p : Plan W) (s : S) → IsSound p → IfAccepted IsSound (parse_exclusion_point p s)
  unfolding parse_exclusion_point
  parse_exclusion_point-IsSound p s i h = elim (Bool-cases (ltb p.succession 3)) [
    | inl early ↦ let refused : false ≡ true = rw early at h in cc
    | inr late ↦ rw late record { early = λ low. absurd (ground (arith, low, late)); late = i.late }
  ]

  parse_scale-IsSound : (p : Plan W) (s : S) → IsSound p → IfAccepted IsSound (parse_scale p s)
  unfolding parse_scale
  parse_scale-IsSound p s i h = elim (Bool-cases (p.succession == 1)) [
    | inr other ↦ let refused : false ≡ true = rw other at h in cc
    | inl first ↦ rw first record {
      early = λ _. i.early (ground (arith, first));
      late = λ high. absurd (ground (arith, high));
    }
  ]

  parse_angle_unit-IsSound :
      (p : Plan W) (s : S) → IsSound p → IfAccepted IsSound (parse_angle_unit p s)
  unfolding parse_angle_unit
  parse_angle_unit-IsSound p s i h =
      let (text, s1) = inp.get_text 20 10 (inp.skip_ws s) in
      elim (Bool-cases (str_eq text "radians")) [
        | inl radians ↦ rw radians record { early = i.early; late = i.late }
        | inr no_radians ↦ elim (Bool-cases (str_eq text "degrees")) [
          | inl degrees ↦ rw (no_radians, degrees) record { early = i.early; late = i.late }
          | inr neither ↦ let refused : false ≡ true = rw (no_radians, neither) at h in cc
        ]
      ]

  parse_boundary-IsSound :
      (p : Plan W) (s : S) → IsSound p → IfAccepted IsSound (parse_boundary p s)
  unfolding parse_boundary
  parse_boundary-IsSound p s i h =
      let (b0, s1) = read_vector ⦃dbl = dbl⦄ s in
      let (b1, s2) = read_vector ⦃dbl = dbl⦄ s1 in
      let width = d.sub (d.mul p.scale b1.x) (d.mul p.scale b0.x) in
      let height = d.sub (d.mul p.scale b1.y) (d.mul p.scale b0.y) in
      elim (Bool-cases (ltb 2 p.succession)) [
        | inl late ↦ let refused : false ≡ true = rw late at h in cc
        | inr early ↦ elim (Bool-cases (d.le width (d.lit 0 0) || d.le height (d.lit 0 0))) [
          | inl negative ↦ let refused : false ≡ true = rw (early, negative) at h in cc
          | inr proper ↦
              rw (early, proper)
                record {
                  early = λ low. absurd (ground (arith, low));
                  late = λ _. (ground (arith, proper), ground (arith, proper));
                }
        ]
      ]

  parse_rest-IsSound :
      (fuel : ℕ) (k : Keyword) (p : Plan W) (s : S) → IsSound p → SoundTurn (parse_rest fuel k p s)
  unfolding parse_rest parse_circle parse_arc parse_line parse_polygon parse_closed_polygon
      parse_poly_curve
  parse_rest-IsSound fuel scale p s i = parse_scale-IsSound p s i
  parse_rest-IsSound fuel angle_unit p s i = parse_angle_unit-IsSound p s i
  parse_rest-IsSound fuel boundary p s i = parse_boundary-IsSound p s i
  parse_rest-IsSound fuel exclusion_point p s i = parse_exclusion_point-IsSound p s i
  parse_rest-IsSound fuel inner_circle p s i = parse_inner_circle-IsSound p s i
  parse_rest-IsSound fuel circle p s i = at_walls-IsSound circle_wall p s i (circle_wall-Adds _ s)
  parse_rest-IsSound fuel arc p s i = at_walls-IsSound arc_wall p s i (arc_wall-Adds _ s)
  parse_rest-IsSound fuel line p s i = at_walls-IsSound line_wall p s i (line_wall-Adds _ s)
  parse_rest-IsSound fuel polygon p s i =
      at_walls-IsSound polygon_walls p s i (polygon_walls-Adds _ s)
  parse_rest-IsSound fuel closed_polygon p s i =
      at_walls-IsSound closed_polygon_walls p s i (closed_polygon_walls-Adds _ s)
  parse_rest-IsSound fuel poly_curve p s i =
      wall_guard-IsSound (curve_walls fuel) p s i (curve_walls-Adds fuel _ s)
  parse_rest-IsSound fuel blank p s i = λ _. i
  parse_rest-IsSound fuel unknown p s i = λ _. i

  abbrev pub IfRead {μ} : (Parsed W S → Type μ) → Option (Parsed W S) → Type μ
  IfRead P none = Unit
  IfRead P (some r) = P r

  continue_lines-IsSound :
      (next : Plan W → S → Option (Parsed W S)) (t : Turn W S)
      → ((q : Plan W) (s : S) → IsSound q → IfRead (IfAccepted IsSound) (next q s))
      → SoundTurn t
      → IfRead (IfAccepted IsSound) (continue_lines next t)
  continue_lines-IsSound next (goes_on pen q s) more h = tt
  continue_lines-IsSound next (ends r) more h = elim (Bool-cases r.ok) [
    | inr failed ↦ rw failed (λ h'. absurd (ground (arith, h')))
    | inl fine ↦ rw fine (
        if-holds (IfRead (IfAccepted IsSound)) (inp.eof r.file) (λ _. h fine)
          (more r.plan r.file (h fine)))
  ]

  parse_lines-IsSound :
      (lines fuel : ℕ) (p : Plan W) (s : S)
      → IsSound p
      → IfRead (IfAccepted IsSound) (parse_lines lines fuel p s)
  unfolding parse_lines parse_arena_line
  parse_lines-IsSound zero fuel p s i = tt
  parse_lines-IsSound (suc lines) fuel p s i =
      let (text, s1) = inp.get_text 20 32 (inp.skip_ws s) in
      if-holds (IfRead (IfAccepted IsSound)) (not (inp.good s)) (λ h. absurd (ground (arith, h)))
        (continue_lines-IsSound (parse_lines lines fuel) (parse_rest fuel (keyword text) p s1)
          (parse_lines-IsSound lines fuel) (parse_rest-IsSound fuel (keyword text) p s1 i))

  IfRead_some :
      (P : Parsed W S → Type ℓ) (o : Option (Parsed W S)) (r : Parsed W S)
      → IfRead P o
      → o ≡ some r
      → P r
  IfRead_some P o r h e = let h' : IfRead P (some r) = rw e at h in h'

  -- A file that is accepted leaves an arena with nothing before its boundary, if the arena was empty:
  -- where there are walls or exclusion points, the boundary was given, and neither its width nor its
  -- height is at most 0.
  pub parse_arena_file-IsSound :
      (lines fuel : ℕ) (arena_scale : W) (p : Plan W) (s : S) (r : Parsed W S)
      → p.walls ≡ []
      → p.exclusion_points ≡ []
      → parse_arena_file lines fuel arena_scale p s ≡ some r
      → r.ok ≡ true
      → IsSound r.plan
  unfolding parse_arena_file
  parse_arena_file-IsSound lines fuel arena_scale p s r h k e =
      IfRead_some (IfAccepted IsSound) _ r
        (parse_lines-IsSound lines fuel _ s
          record { early = λ _. (h, k); late = λ high. absurd (ground (arith, high)) })
        e
