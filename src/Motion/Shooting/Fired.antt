-- ===== src/Motion/Shooting/Fired.antt =====
-- What SHOOT of src/Robot.cc leaves on the field.
use realtimebattle.Base.{
  ℕ, ◌≡◌, refl, ap, ◌∙◌, true, false, List, ◌==◌, inl, inr, none, some, if◌then◌else◌, if-cases,
}
use realtimebattle.Base.Int.{ℤ}
use realtimebattle.Double.{Double, IsOrdered, ◌≺◌, ◌⊀◌, min_rtb, min_rtb-not_above}
use realtimebattle.Vector2D.{Vector2D}
use realtimebattle.ObjectLists.{ObjectType, Item}
use realtimebattle.Options.{Options, get_d}
use realtimebattle.Options as opt
use realtimebattle.Robot.{change_energy}
use realtimebattle.Motion.{Field, shot_at, change_robot}
use realtimebattle.Motion.Kept.{Lives, energy-Kept, change_robot-Kept}
use realtimebattle.Motion.Shots.{Flight, flown, unknown_object}
use realtimebattle.Motion.Shots.Stays.{Stays, Stays-trans}
use realtimebattle.Motion.Shooting.{
  ahead_of_barrel, shot_vel, fire, use_shot_energy, penalize, energy_of_firing, fire_shot,
}
use realtimebattle.Motion.Kept.{Kept}
use realtimebattle.Motion.Shooting.Hits.{
  FireCases, fire-cases, Charged, energy-Charged, Struck, Unspent, energy-Unspent, has_space,
  with_new_shot,
}
use realtimebattle.Motion.Shooting.{get_shooting_penalty}
use realtimebattle.Base.{Bool-cases, ==_iff}

module _ {ℓ} {W : Type ℓ} ⦃d : Double W⦄ (laws : IsOrdered W) (o : Options W) where
  open d use {lit, neg, sub, mul, div, of_int, lt}

  -- The robots after a shot of the given energy: they stay sound, and the one that shoots has that much
  -- less energy for shots.
  abbrev Shoots : ℕ → W → Field W → Field W → Type ℓ
  Shoots p en f g =
      ((q : ℕ) → Lives o (f.robots q) (g.robots q))
      × ((q : ℕ)
          → (g.robots q).shot_energy
            ≡ (if q == p then sub (f.robots p).shot_energy en else (f.robots q).shot_energy))

  -- What the robot that shoots pays besides: the energy of the shot times the penalty, which is at most 0.5 by the number
  -- of robots left.
  abbrev loss : ℤ → W → W
  loss left en = mul (neg en) (min_rtb (get_d o opt.shooting_penalty) (div (lit 5 1) (of_int left)))

  -- How a shot ends.
  pub data IsFired (left : ℤ) (ex : List (Vector2D W)) (p : ℕ) (en : W) (f : Field W)
      : Flight W → Type ℓ where
    too_weak : en ≺ get_d o opt.shot_min_energy → IsFired left ex p en f (flown f)
    left_barrel :
        {g : Field W}
        → en ⊀ get_d o opt.shot_min_energy
        → has_space laws o ex p (use_shot_energy o en p f) ≡ true
        → Shoots p en f g
        → Charged laws o (loss left en) p (with_new_shot laws o p en (use_shot_energy o en p f)) g
        → IsFired left ex p en f (flown g)
    hit_at_once :
        {g h : Field W} {t : ObjectType} {i : Item W}
        → en ⊀ get_d o opt.shot_min_energy
        → has_space laws o ex p (use_shot_energy o en p f) ≡ false
        → Shoots p en f h
        → Stays laws o f h
        → (ahead_of_barrel o p (use_shot_energy o en p f)).closest_shape ≡ some t
        → (ahead_of_barrel o p (use_shot_energy o en p f)).colliding_object ≡ some i
        → Struck laws o
            (shot_vel o ((use_shot_energy o en p f).robots p))
            en
            t
            i
            (use_shot_energy o en p f)
            g
        → Charged laws o (loss left en) p g h
        → IsFired left ex p en f (flown h)
    hit_nothing :
        en ⊀ get_d o opt.shot_min_energy
        → has_space laws o ex p (use_shot_energy o en p f) ≡ false
        → (ahead_of_barrel o p (use_shot_energy o en p f)).closest_shape ≡ none
        → IsFired left ex p en f unknown_object

  use_shot_energy-Kept : (en : W) (p : ℕ) (f : Field W) → Kept o f (use_shot_energy o en p f)
  use_shot_energy-Kept en p f =
      change_robot-Kept o (λ r. record r { shot_energy = sub r.shot_energy en }) p f
        (λ v. v, λ a. a)

  use_shot_energy-Shoots : (en : W) (p : ℕ) (f : Field W) → Shoots p en f (use_shot_energy o en p f)
  use_shot_energy-Shoots en p f = (
    (use_shot_energy-Kept en p f).0,
    λ q. elim (Bool-cases (q == p)) [
      | inl e ↦ rw e (ap (λ x. sub (f.robots x).shot_energy en) ((==_iff q p).0 e))
      | inr e ↦ rw e refl
    ],
  )

  Shoots-after :
      (p : ℕ) (en : W) (f g h : Field W) → Shoots p en f g → Unspent laws o g h → Shoots p en f h
  Shoots-after p en f g h (lives, spent) (lives', same) = (
    λ q. (λ v. (lives' q).0 ((lives q).0 v), λ a. (lives' q).1 ((lives q).1 a)),
    λ q. same q ∙ spent q,
  )

  Kept-Stays : (f g : Field W) → Kept o f g → g.shots ≡ f.shots → Stays laws o f g
  Kept-Stays f g (r, a, w, n, s, c, m) same = (r, a, w, c, m, λ b e. ap (shot_at b) same ∙ e)

  penalize-IsFired :
      (left : ℤ) (ex : List (Vector2D W)) (p : ℕ) (en : W) (f : Field W) (m : Flight W)
      → en ⊀ get_d o opt.shot_min_energy
      → FireCases laws o ex p en (use_shot_energy o en p f) m
      → IsFired left ex p en f (penalize o left en p m)
  unfolding get_shooting_penalty
  penalize-IsFired left ex p en f m strong (inl (free, e)) =
      let f1 = use_shot_energy o en p f in
      let g = with_new_shot laws o p en f1 in
      rw e (
        left_barrel strong free
          (Shoots-after p en f g (change_robot (change_energy o (loss left en)) p g)
            (use_shot_energy-Shoots en p f) (energy-Unspent laws o (loss left en) p g))
          (energy-Charged laws o (loss left en) p g))
  penalize-IsFired left ex p en f m strong (inr (full, inr (e, none_there))) =
      rw e (hit_nothing strong full none_there)
  penalize-IsFired left ex p en f m strong
        (inr (full, inl (t, i, shape, object, (g, e, stays, unspent, struck)))) =
      let f1 = use_shot_energy o en p f in
      let e1 = loss left en in
      let h = change_robot (change_energy o e1) p g in
      rw e (
        hit_at_once strong full
          (Shoots-after p en f g h
            (Shoots-after p en f f1 g (use_shot_energy-Shoots en p f) unspent)
            (energy-Unspent laws o e1 p g))
          (Stays-trans laws o f f1 h (Kept-Stays f f1 (use_shot_energy-Kept en p f) refl)
            (Stays-trans laws o f1 g h stays (Kept-Stays g h (energy-Kept o laws e1 p g) refl)))
          shape object struck (energy-Charged laws o e1 p g))

  -- A robot asks for a shot. The energy of the shot is not above the energy for shots that the robot has.
  -- If it is below the least energy of a shot, nothing changes. If not, the robot has that much less energy
  -- for shots, and no other robot has more or less of it; robots whose energy and life were sound have them sound, and
  -- dead robots stay dead. If there is space in front of the barrel, a new shot is at the end of the list and counted. If
  -- there is none, no shot comes, and what is nearest along the barrel is hit: a robot loses the energy of the
  -- shot, a shot collides with it, a cookie or a mine goes, a wall stays. After either, the robot that shoots loses the
  -- energy of the shot times the penalty, and does not live if no more than 0 is left; nothing else changes. Or, with no
  -- space, the program ends with the error of an unknown object, and then nothing is ahead of the barrel.
  pub fire_shot-IsFired :
      (left : ℤ) (ex : List (Vector2D W)) (p : ℕ) (wanted : W) (f : Field W)
      → ((f.robots p).shot_energy ⊀ energy_of_firing o (f.robots p) wanted)
        × IsFired left ex p
            (energy_of_firing o (f.robots p) wanted)
            f
            (fire_shot o left ex p wanted f)
  unfolding fire_shot
  fire_shot-IsFired left ex p wanted f =
      let en = energy_of_firing o (f.robots p) wanted in
      (
        min_rtb-not_above laws wanted (f.robots p).shot_energy,
        if-cases (IsFired left ex p en f) (lt en (get_d o opt.shot_min_energy))
            (λ weak. too_weak weak)
            (λ strong.
              penalize-IsFired left ex p en f (fire o ex p en (use_shot_energy o en p f)) strong
                (fire-cases laws o ex p en (use_shot_energy o en p f))),
      )
