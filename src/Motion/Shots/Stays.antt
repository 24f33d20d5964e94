-- ===== src/Motion/Shots/Stays.antt =====
-- What a collision of two shots of src/Shot.cc leaves on the field.
use realtimebattle.Base.{
  ℕ, ◌≡◌, refl, ap, ◌∙◌, true, false, inl, inr, ◌==◌, none, some, if-cases, arith,
}
use realtimebattle.Double.{Double, IsOrdered}
use realtimebattle.Vector2D.{Vector2D}
use realtimebattle.ObjectLists.{shot, Item}
use realtimebattle.Options.{Options}
use realtimebattle.Motion.{Shot, Field, remove_shot, shot_at}
use realtimebattle.Motion.Kept.{IsPart, IsPart-refl, IsPart-trans, Lives}
use realtimebattle.Motion.Shots.{
  Flight, flown, lost, shot_die, put_shot, with_shot, shot_collision, shots_meet, ahead_of_shot,
}
use realtimebattle.Motion.Shots.Listed.{
  LeftOrSame, remove_shot-LeftOrSame, put_shot-other, put_shot-none, shot_at-of-IsNone,
}

module _ {ℓ} {W : Type ℓ} ⦃d : Double W⦄ (laws : IsOrdered W) (o : Options W) where
  open d use {lit, neg, lt}

  -- Robots stay sound, and no shot, cookie or mine comes.
  abbrev pub Stays : Field W → Field W → Type ℓ
  Stays f g =
      ((q : ℕ) → Lives o (f.robots q) (g.robots q))
      × (g.robots_on_arena ≡ f.robots_on_arena)
      × (g.walls ≡ f.walls)
      × IsPart g.cookies f.cookies
      × IsPart g.mines f.mines
      × ((b : ℕ) → shot_at b f.shots ≡ none → shot_at b g.shots ≡ none)

  pub Stays-refl : (f : Field W) → Stays f f
  Stays-refl f =
      (λ q. (λ v. v, λ a. a), refl, refl, IsPart-refl f.cookies, IsPart-refl f.mines, λ b n. n)

  pub Stays-trans : (f g h : Field W) → Stays f g → Stays g h → Stays f h
  Stays-trans f g h (r1, a1, w1, c1, m1, s1) (r2, a2, w2, c2, m2, s2) = (
    λ q. (λ v. (r2 q).0 ((r1 q).0 v), λ v. (r2 q).1 ((r1 q).1 v)),
    cc,
    cc,
    IsPart-trans c2 c1,
    IsPart-trans m2 m1,
    λ b n. s2 b (s1 b n),
  )

  -- No shot but the one at the address has changed, unless it has left.
  abbrev pub Flies : ℕ → Field W → Field W → Type ℓ
  Flies a f g = Stays f g × ((b : ℕ) → (b == a) ≡ false → LeftOrSame b f.shots g.shots)

  -- With the shots as before but for one at the address.
  pub put-Flies :
      (f g : Field W) (a : ℕ) (s' : Shot W)
      → s'.address ≡ a
      → g.shots ≡ f.shots
      → Stays f g
      → Flies a f (with_shot a s' g)
  put-Flies f g a s' e same (r, on, w, c, m, s) = (
    (r, on, w, c, m, λ b n. put_shot-none a b s' g.shots e (s b n)),
    λ b h. inr (put_shot-other a b s' g.shots e h ∙ ap (shot_at b) same),
  )

  pub die-address : (s : Shot W) → (shot_die s).address ≡ s.address
  unfolding shot_die
  die-address s = ground arith

  pub collision-address :
      (s : Shot W) (v : Vector2D W) (e : W) (count : ℕ)
      → (shot_collision o s v e count).0.address ≡ s.address
  unfolding shot_collision
  collision-address s v e count =
      if-cases (λ (x : Shot W × ℕ). x.0.address ≡ s.address) _ (λ gone. die-address s)
        (λ left. refl)

  pub shots_meet-Flies : (s1 s2 : Shot W) (f : Field W) → Flies s1.address f (shots_meet o s1 s2 f)
  unfolding shots_meet
  shots_meet-Flies s1 s2 f =
      let (s, count) = shot_collision o s1 s2.velocity s2.energy f.shot_count in
      let ((r, on, w, c, m, n), others) =
        put-Flies f (record f { shot_count = count }) s1.address s
          (collision-address s1 s2.velocity s2.energy f.shot_count) refl (Stays-refl f) in
      let after = put_shot s1.address s f.shots in
      (
        (
          r,
          on,
          w,
          c,
          m,
          λ b h.
              shot_at-of-IsNone b after (remove_shot s2.address after)
                (remove_shot-LeftOrSame s2.address b after) (n b h),
        ),
        λ b h. elim (remove_shot-LeftOrSame s2.address b after) [
          | inl left ↦ inl left
          | inr same ↦ elim (others b h) [
            | inl gone ↦ inl (same ∙ gone)
            | inr as_before ↦ inr (same ∙ as_before)
          ]
        ],
      )

  -- The shot stands on the list, and what it meets first is itself.
  abbrev pub MeetsItself : Shot W → Field W → Type ℓ
  MeetsItself s f =
      (shot_at s.address f.shots ≡ some s)
      × ((ahead_of_shot o s f).closest_shape ≡ some shot)
      × (i : Item W) × ((ahead_of_shot o s f).colliding_object ≡ some i)
      × (i.address == s.address ≡ true)

  -- The flight ends with such a field, or a shot has met itself.
  pub data IsFlight (P : Field W → Type ℓ) : Flight W → Type ℓ where
    flight_flown : {f : Field W} → P f → IsFlight P (flown f)
    flight_lost : (s : Shot W) (f : Field W) → MeetsItself s f → IsFlight P lost
