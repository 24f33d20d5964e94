-- ===== src/ArenaFile/Growth.antt =====
-- What the pieces of an arena file add to the walls: src/ArenaBase.cc, `parse_arena_line`.
use realtimebattle.Base.{
  ℕ, zero, suc, ◌+◌, ◌-◌, ◌≡◌, refl, sym, ap, ◌∙◌, inl, inr, true, false, List, [], ◌∷◌, ◌++◌, ltb,
  arith, length, Bool-cases,
}
use realtimebattle.Base.Int.{pos_part}
use realtimebattle.Double.{Double}
use realtimebattle.Vector2D.{Vector2D, ◌-ᵥ◌, ◌*ᵥ◌, unit, length as vector_length}
use realtimebattle.Shapes.{circle, line}
use realtimebattle.Input.{Input, DoubleInput}
use realtimebattle.ArenaFile.{
  Wall, Plan, Parsed, Brush, push_back, corner, side, round_wall, straight, is_zero_length,
  read_vector, read_brush, polygon_sides, close_polygon, parse_closed_polygon, closed_polygon_walls,
}

module _ {ℓ} {W : Type ℓ} where
  abbrev pub add : Plan W → List (Wall W) → Plan W
  add p ws = record p { walls = p.walls ++ ws }

  append_nil : (ws : List (Wall W)) → ws ++ [] ≡ ws
  append_nil [] = refl
  append_nil (w ∷ ws) = ap (λ vs. w ∷ vs) (append_nil ws)

  append_assoc : (us vs ws : List (Wall W)) → (us ++ vs) ++ ws ≡ us ++ (vs ++ ws)
  append_assoc [] vs ws = refl
  append_assoc (u ∷ us) vs ws = ap (λ xs. u ∷ xs) (append_assoc us vs ws)

  pub length-append : (us vs : List (Wall W)) → length (us ++ vs) ≡ length us + length vs
  length-append [] vs = omega arith
  length-append (u ∷ us) vs = omega (arith, length-append us vs)

  pub add_nil : (p : Plan W) → p ≡ add p []
  add_nil p = ap (λ ws. record p { walls = ws }) (sym (append_nil p.walls))

  pub add_assoc : (p : Plan W) (us vs : List (Wall W)) → add (add p us) vs ≡ add p (us ++ vs)
  add_assoc p us vs = ap (λ ws. record p { walls = ws }) (append_assoc p.walls us vs)

  -- `p'` is `p` with more walls behind, and nothing else.
  abbrev pub Adds : Plan W → Plan W → Type ℓ
  Adds p p' = (ws : List (Wall W)) × (p' ≡ add p ws)

  pub Adds-push_back : (p : Plan W) (w : Wall W) {p' : Plan W} → Adds (push_back p w) p' → Adds p p'
  Adds-push_back p w (ws, e) = (w ∷ ws, e ∙ add_assoc p (w ∷ []) ws)

  pub Adds-trans : (p q r : Plan W) → Adds p q → Adds q r → Adds p r
  Adds-trans p q r (us, e) (vs, e') = (us ++ vs, e' ∙ ap (λ z. add z vs) e ∙ add_assoc p us vs)

  pub Adds-refl : (p : Plan W) → Adds p p
  Adds-refl p = ([], add_nil p)

module _ {ℓ} {W : Type ℓ} ⦃d : Double W⦄ where
  open d use {mul}

  -- The circle at a point, with the thickness for its radius.
  abbrev pub disc_at : Brush W → W → Vector2D W → Wall W
  disc_at b scale v = record {
    shape = circle (record { center = v *ᵥ scale; radius = mul scale b.thickness });
    bounce_coeff = b.bounce_c;
    hardness_coeff = b.hardn;
  }

  -- The line from one point to another.
  abbrev pub line_between : Brush W → W → Vector2D W → Vector2D W → Wall W
  line_between b scale start end = record {
    shape = line (record {
      start_point = start *ᵥ scale;
      direction = unit (end -ᵥ start);
      length = mul scale (vector_length (end -ᵥ start));
      thickness = mul scale b.thickness;
    });
    bounce_coeff = b.bounce_c;
    hardness_coeff = b.hardn;
  }

  -- From a point to each of the others in turn.
  abbrev pub path : Brush W → W → Vector2D W → List (Vector2D W) → List (Wall W)
  path b scale from [] = []
  path b scale from (to ∷ vs) =
      line_between b scale from to ∷ disc_at b scale to ∷ path b scale to vs

  abbrev pub last_point : Vector2D W → List (Vector2D W) → Vector2D W
  last_point from [] = from
  last_point from (to ∷ vs) = last_point to vs

  corner-disc_at : (b : Brush W) (scale : W) (v : Vector2D W) → corner b scale v ≡ disc_at b scale v
  unfolding round_wall
  corner-disc_at b scale v = refl

  side-line_between :
      (b : Brush W) (scale : W) (v w : Vector2D W) → side b scale v w ≡ line_between b scale v w
  unfolding side straight
  side-line_between b scale v w = refl

module _ {ℓ κ} {W : Type ℓ} {S : Type κ} ⦃d : Double W⦄ ⦃inp : Input S⦄
    ⦃dbl : DoubleInput W S⦄ where
  pub polygon_sides-Adds :
      (left : ℕ) (b : Brush W) (from : Vector2D W) (p : Plan W) (s : S)
      → Adds p (polygon_sides left b from p s).1.plan
  unfolding polygon_sides
  polygon_sides-Adds zero b from p s = Adds-refl p
  polygon_sides-Adds (suc left) b from p s =
      let (to, s1) = read_vector ⦃dbl = dbl⦄ s in
      let l = side b p.scale from to in
      let c = corner b p.scale to in
      let rest = Adds-push_back p l (
        Adds-push_back (push_back p l) c
          (polygon_sides-Adds left b to (push_back (push_back p l) c) s1)) in
      elim (Bool-cases (is_zero_length (from -ᵥ to))) [
        | inl flat ↦ rw flat (Adds-refl p)
        | inr proper ↦ rw proper rest
      ]

  -- The points that are read one after the other.
  abbrev pub points : ℕ → S → List (Vector2D W)
  points zero s = []
  points (suc n) s = let (v, s1) = read_vector ⦃dbl = dbl⦄ s in v ∷ points n s1

  polygon_sides-walls :
      (left : ℕ) (b : Brush W) (from : Vector2D W) (p : Plan W) (s : S)
      → (polygon_sides left b from p s).1.ok ≡ true
      → ((polygon_sides left b from p s).1.plan ≡ add p (path b p.scale from (points left s)))
        × ((polygon_sides left b from p s).0 ≡ last_point from (points left s))
  unfolding polygon_sides
  polygon_sides-walls zero b from p s h = (add_nil p, refl)
  polygon_sides-walls (suc left) b from p s h =
      let (to, s1) = read_vector ⦃dbl = dbl⦄ s in
      let l = side b p.scale from to in
      let c = corner b p.scale to in
      let p2 = push_back (push_back p l) c in
      let ws = path b p.scale to (points left s1) in
      elim (Bool-cases (is_zero_length (from -ᵥ to))) [
        | inl flat ↦ let refused : false ≡ true = rw flat at h in cc
        | inr proper ↦
            let (plan, last) = polygon_sides-walls left b to p2 s1 (rw proper at h) in
            rw proper (
              plan
                  ∙ add_assoc (push_back p l) (c ∷ []) ws
                  ∙ add_assoc p (l ∷ []) (c ∷ ws)
                  ∙ ap (λ us. add p us)
                      (ap (λ w. w ∷ c ∷ ws) (side-line_between b p.scale from to)
                        ∙ ap (λ w. line_between b p.scale from to ∷ w ∷ ws)
                            (corner-disc_at b p.scale to)),
              last,
            )
      ]

  close_polygon-walls :
      (b : Brush W) (vec0 vec1 : Vector2D W) (r : Parsed W S)
      → (close_polygon b vec0 (vec1, r)).ok ≡ true
      → (r.ok ≡ true)
        × ((close_polygon b vec0 (vec1, r)).plan
            ≡ add r.plan (line_between b r.plan.scale vec1 vec0 ∷ []))
  unfolding close_polygon
  close_polygon-walls b vec0 vec1 r h = elim (Bool-cases r.ok) [
    | inl fine ↦ elim (Bool-cases (is_zero_length (vec0 -ᵥ vec1))) [
      | inl flat ↦ let refused : false ≡ true = rw (fine, flat) at h in cc
      | inr proper ↦ (
        fine,
        rw (fine, proper) (ap (push_back r.plan) (side-line_between b r.plan.scale vec1 vec0)),
      )
    ]
    | inr failed ↦ let refused : false ≡ true = rw failed at h in cc
  ]

  -- A closed polygon that is accepted puts behind the walls, and changes nothing else but that walls have come: a circle
  -- at its first point; for each further point in turn the line to it from the one before and a circle at it; and the line
  -- from the last point back to the first. The points are those that the file has, as many as it says, at least one; all
  -- is by the scale, half the thickness of the polygon is the thickness of the lines and the radius of the circles, and all
  -- have its bounce and hardness.
  pub parse_closed_polygon-walls :
      (p : Plan W) (s : S)
      → (parse_closed_polygon p s).ok ≡ true
      → (let (b, s1) = read_brush ⦃d = d⦄ s in
          let (vertices, s2) = inp.read_int s1 in
          let (first, s3) = read_vector ⦃dbl = dbl⦄ s2 in
          let others = points (pos_part vertices - 1) s3 in
          (parse_closed_polygon p s).plan ≡ record p {
            succession = 4;
            walls =
                p.walls
                ++ (disc_at b p.scale first ∷ path b p.scale first others
                    ++ (line_between b p.scale (last_point first others) first ∷ []));
          })
  unfolding parse_closed_polygon closed_polygon_walls
  parse_closed_polygon-walls p s h =
      let (b, s1) = read_brush ⦃d = d⦄ s in
      let (vertices, s2) = inp.read_int s1 in
      let (vec1, s3) = read_vector ⦃dbl = dbl⦄ s2 in
      let late_plan = record p { succession = 4 } in
      let c = corner b p.scale vec1 in
      let left = pos_part vertices - 1 in
      let open_one = polygon_sides left b vec1 (push_back late_plan c) s3 in
      let ws = path b p.scale vec1 (points left s3) in
      elim (Bool-cases (ltb p.succession 3)) [
        | inl early ↦ let refused : false ≡ true = rw early at h in cc
        | inr late ↦
            let (fine, closed) = close_polygon-walls b vec1 open_one.0 open_one.1 (rw late at h) in
            let (plan, last) = polygon_sides-walls left b vec1 (push_back late_plan c) s3 fine in
            let closing = λ (v : Vector2D W). line_between b p.scale v vec1 in
            rw late (
              closed
              ∙ ap (λ q. add q (line_between b q.scale open_one.0 vec1 ∷ [])) plan
              ∙ ap (λ v. add (add (push_back late_plan c) ws) (closing v ∷ [])) last
              ∙ add_assoc (push_back late_plan c) ws
                  (closing (last_point vec1 (points left s3)) ∷ [])
              ∙ add_assoc late_plan (c ∷ [])
                  (ws ++ (closing (last_point vec1 (points left s3)) ∷ []))
              ∙ ap
                  (λ w. add late_plan (w ∷ ws ++ (closing (last_point vec1 (points left s3)) ∷ [])))
                  (corner-disc_at b p.scale vec1))
      ]

  pub close_polygon-Adds :
      (b : Brush W) (vec0 : Vector2D W) (p : Plan W) (r : Vector2D W × Parsed W S)
      → Adds p r.1.plan
      → Adds p (close_polygon b vec0 r).plan
  unfolding close_polygon
  close_polygon-Adds b vec0 p (vec1, r) (ws, e) = elim (Bool-cases r.ok) [
    | inr failed ↦ rw failed (ws, e)
    | inl fine ↦ elim (Bool-cases (is_zero_length (vec0 -ᵥ vec1))) [
      | inl flat ↦ rw (fine, flat) (ws, e)
      | inr proper ↦
          let w = side b r.plan.scale vec1 vec0 in
          rw (fine, proper) (ws ++ (w ∷ []), ap (λ q. push_back q w) e ∙ add_assoc p ws (w ∷ []))
    ]
  ]
