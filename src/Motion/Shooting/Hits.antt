-- ===== src/Motion/Shooting/Hits.antt =====
-- What a shot of src/Robot.cc hits at once, where it does not leave the barrel.
use realtimebattle.Base.{
  ℕ, ◌+◌, ◌≡◌, refl, ◌∙◌, Bool, true, false, List, [], ◌∷◌, ◌++◌, ◌==◌, ◌⊎◌, inl, inr, none, some,
  if-cases, if-holds, Bool-cases, ==_iff, if◌then◌else◌,
}
use realtimebattle.Double.{Double, IsOrdered, min_rtb}
use realtimebattle.Vector2D.{Vector2D}
use realtimebattle.ObjectLists.{ObjectType, robot, shot, wall, cookie, mine, Item, space_available}
use realtimebattle.Options.{Options, get_d}
use realtimebattle.Options as opt
use realtimebattle.Robot.{Robot, change_energy, die}
use realtimebattle.Motion.{Shot, Field, lists_of, remove_extra, shot_at, change_robot}
use realtimebattle.Motion.Ahead.{Meets, on_field-IsAhead}
use realtimebattle.Motion.Kept.{remove_extra-IsPart, Lives, energy-Kept}
use realtimebattle.Motion.Shots.{Flight, flown, unknown_object, with_shot, shot_collision}
use realtimebattle.Motion.Shots.Stays.{Stays, Stays-refl, put-Flies, collision-address}
use realtimebattle.Motion.Shots.Listed.{shot_at-address}
use realtimebattle.Motion.Shooting.{
  new_shot, shot_center, shot_vel, shot_margin, ahead_of_barrel, barrel, hit_ahead, direct_hit,
  fire,
}

module _ {ℓ} {W : Type ℓ} ⦃d : Double W⦄ (laws : IsOrdered W) (o : Options W) where
  open d use {lit, neg, add, sub, mul, lt, le}

  -- Robots stay sound, and the energies for shots are those from before.
  abbrev pub Unspent : Field W → Field W → Type ℓ
  Unspent f g =
      ((q : ℕ) → Lives o (f.robots q) (g.robots q))
      × ((q : ℕ) → (g.robots q).shot_energy ≡ (f.robots q).shot_energy)

  change_energy-shot_energy :
      (e : W) (r : Robot W) → (change_energy o e r).shot_energy ≡ r.shot_energy
  unfolding change_energy die
  change_energy-shot_energy e r =
      let kept : Robot W → Type ℓ = λ x. x.shot_energy ≡ r.shot_energy in
      let sum = min_rtb (add r.energy e) (get_d o opt.robot_max_energy) in
      if-holds kept (le sum (lit 0 0)) (if-holds kept r.alive refl refl) refl

  pub energy-Unspent :
      (e : W) (p : ℕ) (f : Field W) → Unspent f (change_robot (change_energy o e) p f)
  energy-Unspent e p f = (
    (energy-Kept o laws e p f).0,
    λ q.
        if-holds (λ (r : Robot W). r.shot_energy ≡ (f.robots q).shot_energy) (q == p)
          (change_energy-shot_energy e (f.robots q)) refl,
  )

  -- A shot that is changed where it stands.
  changed-Stays :
      (f : Field W) (a count : ℕ) (s s' : Shot W)
      → s'.address ≡ a
      → Stays laws o f (with_shot a s' (record f { shot_count = count }))
  changed-Stays f a count s s' e =
      (put-Flies laws o f (record f { shot_count = count }) a s' e refl (Stays-refl laws o f)).0

  -- The energy changes by the given one, up to the greatest energy; with no more than 0 left the robot does not live.
  abbrev pub Pays : W → Robot W → Robot W → Type ℓ
  Pays e r r' =
      let sum = min_rtb (add r.energy e) (get_d o opt.robot_max_energy) in
      (r'.energy ≡ sum) × (r'.alive ≡ (if le sum (lit 0 0) then false else r.alive))

  change_energy-Pays : (e : W) (r : Robot W) → Pays e r (change_energy o e r)
  unfolding change_energy die
  change_energy-Pays e r =
      let sum = min_rtb (add r.energy e) (get_d o opt.robot_max_energy) in
      elim (Bool-cases (le sum (lit 0 0))) [
        | inl spent ↦ elim (Bool-cases r.alive) [
          | inl alive ↦ rw (spent, alive) (refl, refl)
          | inr dead ↦ rw (spent, dead) (refl, refl)
        ]
        | inr some_left ↦ rw some_left (refl, refl)
      ]

  -- One robot's energy changes, and nothing else but its life.
  abbrev pub Charged : W → ℕ → Field W → Field W → Type ℓ
  Charged e p f g =
      Pays e (f.robots p) (g.robots p)
      × ((q : ℕ) → (q == p) ≡ false → g.robots q ≡ f.robots q)
      × (g ≡ record f { robots = g.robots })

  pub energy-Charged :
      (e : W) (p : ℕ) (f : Field W) → Charged e p f (change_robot (change_energy o e) p f)
  energy-Charged e p f =
      (rw ((==_iff p p).1 refl) (change_energy-Pays e (f.robots p)), λ q other. rw other refl, refl)

  -- What becomes of what a shot hits: a wall stays, a robot loses the energy of the shot, a shot collides with it, and a
  -- cookie or a mine goes.
  abbrev pub Struck : Vector2D W → W → ObjectType → Item W → Field W → Field W → Type ℓ
  Struck vel en wall i f g = g ≡ f
  Struck vel en robot i f g = Charged (neg en) i.address f g
  Struck vel en shot i f g =
      (s : Shot W) × (shot_at i.address f.shots ≡ some s)
      × (let (s', count) = shot_collision o s vel en f.shot_count in
          g ≡ with_shot i.address s' (record f { shot_count = count }))
  Struck vel en cookie i f g = g ≡ record f { cookies = remove_extra i.address f.cookies }
  Struck vel en mine i f g = g ≡ record f { mines = remove_extra i.address f.mines }

  -- What is hit at once: no shot comes.
  abbrev pub HitAtOnce : Vector2D W → W → ObjectType → Item W → Field W → Flight W → Type ℓ
  HitAtOnce vel en t i f m =
      (g : Field W) × (m ≡ flown g) × Stays laws o f g × Unspent f g × Struck vel en t i f g

  direct_hit-HitAtOnce :
      (vel : Vector2D W) (en : W) (t : ObjectType) (i : Item W) (f : Field W)
      → Meets t i f
      → HitAtOnce vel en t i f (direct_hit o vel en t i f)
  unfolding direct_hit
  direct_hit-HitAtOnce vel en wall i f met =
      (f, refl, Stays-refl laws o f, (λ q. (λ v. v, λ a. a), λ q. refl), refl)
  direct_hit-HitAtOnce vel en robot i f met =
      let (r, a, w, n, s, c, m) = energy-Kept o laws (neg en) i.address f in
      (
        change_robot (change_energy o (neg en)) i.address f,
        refl,
        (r, a, w, c, m, λ b n. n),
        energy-Unspent (neg en) i.address f,
        energy-Charged (neg en) i.address f,
      )
  direct_hit-HitAtOnce vel en cookie i f met =
      let (r, a, w, c, m, n) = Stays-refl laws o f in
      (
        record f { cookies = remove_extra i.address f.cookies },
        refl,
        (r, a, w, remove_extra-IsPart i.address f.cookies, m, n),
        (r, λ q. refl),
        refl,
      )
  direct_hit-HitAtOnce vel en mine i f met =
      let (r, a, w, c, m, n) = Stays-refl laws o f in
      (
        record f { mines = remove_extra i.address f.mines },
        refl,
        (r, a, w, c, remove_extra-IsPart i.address f.mines, n),
        (r, λ q. refl),
        refl,
      )
  direct_hit-HitAtOnce vel en shot i f (s, at) =
      let (s', count) = shot_collision o s vel en f.shot_count in
      (
        with_shot i.address s' (record f { shot_count = count }),
        rw (direct_hit, at) refl,
        changed-Stays f i.address count s s' (
            collision-address laws o s vel en f.shot_count
            ∙ shot_at-address i.address f.shots s at),
        (λ q. (λ v. v, λ a. a), λ q. refl),
        (s, at, refl),
      )

  abbrev pub has_space : List (Vector2D W) → ℕ → Field W → Bool
  has_space exclusion_points p f =
      space_available (lists_of f) exclusion_points (shot_center o (f.robots p)) (shot_margin o)

  -- The field with a new shot in front of the robot.
  abbrev pub with_new_shot : ℕ → W → Field W → Field W
  with_new_shot p en f =
      let r = f.robots p in
      record f {
        shots = f.shots ++ (new_shot o (shot_center o r) (shot_vel o r) en f.shot_count ∷ []);
        shot_count = f.shot_count + 1;
      }

  -- What is nearest along the barrel is hit.
  abbrev pub HitAhead : ℕ → W → Field W → Flight W → Type ℓ
  HitAhead p en f m =
      (t : ObjectType) × (i : Item W) × ((ahead_of_barrel o p f).closest_shape ≡ some t)
      × ((ahead_of_barrel o p f).colliding_object ≡ some i)
      × HitAtOnce (shot_vel o (f.robots p)) en t i f m

  abbrev HitCases : ℕ → W → Field W → Flight W → Type ℓ
  HitCases p en f m =
      HitAhead p en f m ⊎ (m ≡ unknown_object) × ((ahead_of_barrel o p f).closest_shape ≡ none)

  hit_ahead-cases : (p : ℕ) (en : W) (f : Field W) → HitCases p en f (hit_ahead o p en f)
  unfolding hit_ahead
  hit_ahead-cases p en f =
      let r = f.robots p in
      elim (on_field-IsAhead laws r.center (barrel o r) (shot_margin o) (some p) f) [
        | inl (far, none_there) ↦ inr (rw (none_there, hit_ahead) refl, none_there)
        | inr (t, i, shape, object, time, met) ↦
            rw (hit_ahead, shape)
              (rw object (inl (t, i, refl, refl, direct_hit-HitAtOnce (shot_vel o r) en t i f met)))
      ]

  abbrev pub FireCases : List (Vector2D W) → ℕ → W → Field W → Flight W → Type ℓ
  FireCases ex p en f m =
      (has_space ex p f ≡ true) × (m ≡ flown (with_new_shot p en f))
      ⊎ (has_space ex p f ≡ false) × HitCases p en f m

  pub fire-cases :
      (ex : List (Vector2D W)) (p : ℕ) (en : W) (f : Field W)
      → FireCases ex p en f (fire o ex p en f)
  unfolding fire
  fire-cases ex p en f =
      if-cases (FireCases ex p en f) (has_space ex p f) (λ free. inl (free, refl))
        (λ full. inr (full, hit_ahead-cases p en f))
