-- ===== src/Motion/Shots/Flights.antt =====
-- What the move of one shot of src/Shot.cc leaves on the field.
use realtimebattle.Base.{◌≡◌, refl, inl, inr, ◌==◌, none, some, if-cases, arith}
use realtimebattle.Double.{Double, IsOrdered, ◌≺◌, infinity_rtb}
use realtimebattle.Vector2D.{◌+ᵥ◌, ◌*ᵥ◌}
use realtimebattle.ObjectLists.{ObjectType, robot, shot, wall, cookie, mine, Item}
use realtimebattle.Options.{Options}
use realtimebattle.Robot.{change_energy}
use realtimebattle.Motion.{Shot, Field, remove_extra, shot_at, change_robot}
use realtimebattle.Motion.Kept.{remove_extra-IsPart, energy-Kept}
use realtimebattle.Motion.Ahead.{Meets, on_field-IsAhead}
use realtimebattle.Motion.Shots.{flown, shot_die, with_shot, shot_hits, ahead_of_shot, move_shot}
use realtimebattle.Motion.Shots.Stays.{
  Stays, Stays-refl, Flies, put-Flies, die-address, shots_meet-Flies, IsFlight, flight_flown,
  flight_lost,
}

module _ {ℓ} {W : Type ℓ} ⦃d : Double W⦄ (laws : IsOrdered W) (o : Options W) where
  open d use {lit, neg, lt}

  IsFlight-of :
      (s s' : Shot W) (f g : Field W)
      → s'.address ≡ s.address
      → g.shots ≡ f.shots
      → Stays laws o f g
      → IsFlight laws o (Flies laws o s.address f) (flown (with_shot s.address s' g))
  IsFlight-of s s' f g e same stays = flight_flown (put-Flies laws o f g s.address s' e same stays)

  shot_hits-Flies :
      (s : Shot W) (t : ObjectType) (i : Item W) (f : Field W)
      → shot_at s.address f.shots ≡ some s
      → (ahead_of_shot o s f).closest_shape ≡ some t
      → (ahead_of_shot o s f).colliding_object ≡ some i
      → Meets t i f
      → IsFlight laws o (Flies laws o s.address f) (shot_hits o s t i f)
  unfolding shot_hits
  shot_hits-Flies s wall i f here shape object met =
      IsFlight-of s (shot_die s) f f (die-address laws o s) refl (Stays-refl laws o f)
  shot_hits-Flies s robot i f here shape object met =
      let e = neg s.energy in
      let (r, a, w, n, p, c, m) = energy-Kept o laws e i.address f in
      IsFlight-of s (shot_die s) f (change_robot (change_energy o e) i.address f)
        (die-address laws o s) refl (r, a, w, c, m, λ b n. n)
  shot_hits-Flies s cookie i f here shape object met =
      let (r, a, w, c, m, n) = Stays-refl laws o f in
      IsFlight-of s (shot_die s) f (record f { cookies = remove_extra i.address f.cookies })
        (die-address laws o s) refl (r, a, w, remove_extra-IsPart i.address f.cookies, m, n)
  shot_hits-Flies s mine i f here shape object met =
      let (r, a, w, c, m, n) = Stays-refl laws o f in
      IsFlight-of s (shot_die s) f (record f { mines = remove_extra i.address f.mines })
        (die-address laws o s) refl (r, a, w, c, remove_extra-IsPart i.address f.mines, n)
  shot_hits-Flies s shot i f here shape object (s2, at) =
      rw (shot_hits, at)
        (if-cases (IsFlight laws o (Flies laws o s.address f)) (i.address == s.address)
          (λ itself. flight_lost s f (here, shape, i, object, itself))
          (λ other. flight_flown (shots_meet-Flies laws o s s2 f)))

  pub move_shot-Flies :
      (timestep : W) (s : Shot W) (f : Field W)
      → timestep ≺ infinity_rtb
      → shot_at s.address f.shots ≡ some s
      → IsFlight laws o (Flies laws o s.address f) (move_shot o timestep s f)
  unfolding move_shot
  move_shot-Flies timestep s f t here =
      if-cases (IsFlight laws o (Flies laws o s.address f)) (lt timestep (ahead_of_shot o s f).dist)
        (λ free.
          IsFlight-of s (record s { center = s.center +ᵥ s.velocity *ᵥ timestep }) f f refl refl
            (Stays-refl laws o f))
        (λ near. elim (on_field-IsAhead laws s.center s.velocity s.radius none f) [
          | inl (far, none_there) ↦ ground (arith, far, near, t)
          | inr (k, i, shape, object, time, met) ↦
              rw shape (rw object (shot_hits-Flies s k i f here shape object met))
        ])
